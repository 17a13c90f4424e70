-- ===== src/Tests/Whole.antt =====
-- Witnesses about the SSH server and the CA process together.
use ssh_certificate_authorit.Text.Words.{split_whitespace, is_whitespace}
use ssh_certificate_authorit.Ssh.Names.{validate_username, validate_hostname, parse_exec_command}
use ssh_certificate_authorit.UserTemplates.{read_user_defaults, lookup}
use ssh_certificate_authorit.Interfaces.{read_toml_file}
use ssh_certificate_authorit.FilePath.{push, path_starts_with, file_stem}
use ssh_certificate_authorit.Inventory.{read_host_config, find_config_by_public_key}
use ssh_certificate_authorit.Common.{refl, ◌≡◌, inl, ok, some, [], ◌∷◌, arith, length, leb→le}
use ssh_certificate_authorit.Text.{codes, str_eq}
use ssh_certificate_authorit.Text.Utf8.{from_utf8_lossy, from_utf8, as_bytes}
use ssh_certificate_authorit.Authority
use ssh_certificate_authorit.Ipc.{
  sign_certificate, check_public_key, sign_host_certificate, signed_certificate, key_found,
}
use ssh_certificate_authorit.Ipc.Client.Exchange.{server_socket}
use ssh_certificate_authorit.Ipc.Server.{CaServer, handle_request}
use ssh_certificate_authorit.Ssh.Handler.{
  new_client, convert_key, ConnectionHandler, by_password, by_public_key, auth_publickey,
}
use ssh_certificate_authorit.Ssh.Signing.{handler_sign_user_key, exec_request}
use ssh_certificate_authorit.EndToEnd.{Carries}
use ssh_certificate_authorit.EndToEnd.Login.{Decided, auth_publickey-Decided}
use ssh_certificate_authorit.EndToEnd.Certificates.{
  Replies, handler_sign_user_key-Replies, exec_request-Replies,
}
use ssh_certificate_authorit.Ssh.Session.{
  password_offered, key_offered, session_opened, data_received, exec_requested, session_calls,
}
use ssh_certificate_authorit.Identity.{pam_authenticator}
use ssh_certificate_authorit.EndToEnd.Visits.{sends}
use ssh_certificate_authorit.EndToEnd.Visits.Served.{user_visit-served, host_visit-served}
use ssh_certificate_authorit.Tests.Plain.{keys, wire, wire_laws, wire_compares, draw, server}
use ssh_certificate_authorit.Tests.World.{files, formats, client, russh, ssh_server, connected}

lookup_carried :
    Carries keys wire formats 100 files draw server client
      (check_public_key b'W')
      (key_found (some (codes "web")))
unfolding as_bytes handle_request Authority.check_public_key find_config_by_public_key
    path_starts_with read_toml_file from_utf8 file_stem
lookup_carried = record {
  token = refl;
  fresh = omega arith;
  room = omega arith;
  request_json = 4 ∷ 0 ∷ b'W' ∷ 0 ∷ codes "token";
  request_text = refl;
  request_fits = leb→le (length (as_bytes (4 ∷ 0 ∷ b'W' ∷ 0 ∷ codes "token"))) 65536 refl;
  answered = refl;
  response_json = 2 ∷ codes "web";
  response_text = refl;
  response_fits = leb→le (length (as_bytes (2 ∷ codes "web"))) 65536 refl;
}

auth_publickey-Decided_example :
    Decided keys russh wire formats 100 connected
      (record ssh_server { ca_client = record client { counter = 4 } })
      b'W'
      b'W'
      files
      server
      (auth_publickey keys russh wire
        (server_socket keys wire formats 100 files draw server)
        connected
        ssh_server
        (codes "root")
        b'W')
unfolding convert_key
auth_publickey-Decided_example =
    auth_publickey-Decided keys russh wire formats 100 files draw server connected ssh_server
      (codes "root") b'W' b'W' (key_found (some (codes "web"))) wire_laws wire_compares refl
      lookup_carried

-- ann, after her password, and web, after its key.
abbrev ann : ConnectionHandler russh
ann = record connected { username = some (codes "ann"); auth_method = some by_password }

abbrev web : ConnectionHandler russh
web = record connected {
  username = some (codes "web");
  auth_method = some by_public_key;
  public_key = some b'W';
}

ann_carried :
    Carries keys wire formats 100 files draw server client
      (sign_certificate (codes "ann") b'A')
      (signed_certificate b'A')
unfolding as_bytes handle_request Authority.sign_certificate read_user_defaults read_toml_file
    str_eq from_utf8 lookup
ann_carried = record {
  token = refl;
  fresh = omega arith;
  room = omega arith;
  request_json = 4 ∷ 1 ∷ b'A' ∷ 3 ∷ codes "anntoken";
  request_text = refl;
  request_fits = leb→le (length (as_bytes (4 ∷ 1 ∷ b'A' ∷ 3 ∷ codes "anntoken"))) 65536 refl;
  answered = refl;
  response_json = 3 ∷ b'A' ∷ [];
  response_text = refl;
  response_fits = leb→le (length (as_bytes (3 ∷ b'A' ∷ []))) 65536 refl;
}

web_carried :
    Carries keys wire formats 100 files draw server client
      (sign_host_certificate (codes "web") b'W')
      (signed_certificate b'W')
unfolding as_bytes handle_request Authority.sign_host_certificate read_host_config path_starts_with
    push read_toml_file from_utf8
web_carried = record {
  token = refl;
  fresh = omega arith;
  room = omega arith;
  request_json = 4 ∷ 2 ∷ b'W' ∷ 3 ∷ codes "webtoken";
  request_text = refl;
  request_fits = leb→le (length (as_bytes (4 ∷ 2 ∷ b'W' ∷ 3 ∷ codes "webtoken"))) 65536 refl;
  answered = refl;
  response_json = 3 ∷ b'W' ∷ [];
  response_text = refl;
  response_fits = leb→le (length (as_bytes (3 ∷ b'W' ∷ []))) 65536 refl;
}

handler_sign_user_key-Replies_example :
    Replies keys russh 1
      (Authority.sign_certificate keys files formats server.ca draw (codes "ann") b'A')
      (handler_sign_user_key keys russh wire
        (server_socket keys wire formats 100 files draw server)
        ann
        ssh_server
        1
        (codes "A"))
unfolding from_utf8_lossy
handler_sign_user_key-Replies_example =
    handler_sign_user_key-Replies keys russh wire formats 100 files draw server wire_laws
      wire_compares ann ssh_server 1 (codes "A") (codes "ann") b'A' (signed_certificate b'A') refl
      refl refl ann_carried

exec_request-Replies_example :
    Replies keys russh 1
      (Authority.sign_host_certificate keys files formats server.ca draw (codes "web") b'W')
      (exec_request keys russh wire
        (server_socket keys wire formats 100 files draw server)
        web
        ssh_server
        1
        (codes "sign_host_key"))
unfolding parse_exec_command split_whitespace from_utf8_lossy is_whitespace validate_hostname
exec_request-Replies_example =
    exec_request-Replies keys russh wire formats 100 files draw server wire_laws wire_compares web
      ssh_server 1 (codes "sign_host_key") (codes "web") (codes "W") b'W' b'W'
      (signed_certificate b'W') refl refl refl refl refl refl web_carried

user_visit_example :
    (Authority.sign_certificate keys files formats server.ca draw (codes "ann") b'A' ≡ ok b'A')
    × (session_calls keys russh wire (new_client ssh_server).1 (new_client ssh_server).0 (
          password_offered (codes "ann") (codes "open")
          ∷ session_opened 1 tt
          ∷ data_received (server_socket keys wire formats 100 files draw server) 1 (codes "A")
          ∷ [])
        ≡ sends keys russh 1 (codes "A"))
unfolding from_utf8_lossy validate_username pam_authenticator
user_visit_example =
    user_visit-served keys russh wire formats 100 wire_laws wire_compares files draw server
      ssh_server (codes "ann") (codes "open") 1 tt (codes "A") b'A' b'A' (codes "A") refl (inl refl)
      refl refl ann_carried

-- The server after the first request.
abbrev later_server : CaServer keys
later_server = record server { last_counter = 4 }

web_later :
    Carries keys wire formats 100 files draw later_server
      (record client { counter = 4 })
      (sign_host_certificate (codes "web") b'W')
      (signed_certificate b'W')
unfolding as_bytes handle_request Authority.sign_host_certificate read_host_config path_starts_with
    push read_toml_file from_utf8
web_later = record {
  token = refl;
  fresh = omega arith;
  room = omega arith;
  request_json = 5 ∷ 2 ∷ b'W' ∷ 3 ∷ codes "webtoken";
  request_text = refl;
  request_fits = leb→le (length (as_bytes (5 ∷ 2 ∷ b'W' ∷ 3 ∷ codes "webtoken"))) 65536 refl;
  answered = refl;
  response_json = 3 ∷ b'W' ∷ [];
  response_text = refl;
  response_fits = leb→le (length (as_bytes (3 ∷ b'W' ∷ []))) 65536 refl;
}

host_visit_example :
    (Authority.sign_host_certificate keys files formats later_server.ca draw (codes "web") b'W'
      ≡ ok b'W')
    × (session_calls keys russh wire (new_client ssh_server).1 (new_client ssh_server).0 (
          key_offered (server_socket keys wire formats 100 files draw server) (codes "root") b'W'
          ∷ session_opened 7 tt
          ∷ exec_requested
              (server_socket keys wire formats 100 files draw later_server)
              7
              (codes "sign_host_key")
          ∷ [])
        ≡ sends keys russh 7 (codes "W"))
unfolding parse_exec_command split_whitespace is_whitespace from_utf8_lossy validate_hostname
host_visit_example =
    host_visit-served keys russh wire formats 100 wire_laws wire_compares files draw server
      ssh_server (codes "root") b'W' (codes "W") b'W' (codes "web") 7 tt (codes "sign_host_key")
      files draw later_server b'W' (codes "W") refl refl refl refl refl lookup_carried web_later
