-- ===== src/Tests/Delivered.antt =====
-- A witness about certificates that clients are sent: ann and the host web at one server.
use ssh_certificate_authorit.Interfaces.{read_toml_file}
use ssh_certificate_authorit.FilePath.{path_starts_with, file_stem}
use ssh_certificate_authorit.Inventory.{find_config_by_public_key}
use ssh_certificate_authorit.Authority.{check_public_key}
use ssh_certificate_authorit.Ipc.Server.{serve, handle_request}
use ssh_certificate_authorit.Ipc.Frame.{to_be_bytes, read_exact, from_be_bytes}
use ssh_certificate_authorit.Identity.{pam_authenticator}
use ssh_certificate_authorit.Ssh.Names.{validate_username}
use ssh_certificate_authorit.Common.{
  ◌≡◌, refl, inl, true, none, some, [], ◌∷◌, Str, Outcome, ok, err, foreign, ◌>>=◌, ltb, length,
  ◌^◌, ◌<◌, if◌then◌else◌, arith, All, ℕ,
}
use ssh_certificate_authorit.Text.{codes, str_eq}
use ssh_certificate_authorit.Text.Utf8.{as_bytes, from_utf8, from_utf8_lossy}
use ssh_certificate_authorit.Text.Words.{split_whitespace, is_whitespace, join}
use ssh_certificate_authorit.FilePath.{push, path_starts_with, file_stem}
use ssh_certificate_authorit.Interfaces.{read_toml_file}
use ssh_certificate_authorit.Inventory.{read_host_config, find_config_by_public_key}
use ssh_certificate_authorit.Authority.{check_public_key, sign_host_certificate}
use ssh_certificate_authorit.Identity.{pam_authenticator}
use ssh_certificate_authorit.Ipc.Frame.{read_exact, to_be_bytes, from_be_bytes}
use ssh_certificate_authorit.Ipc.Server.{serve, handle_request}
use ssh_certificate_authorit.Ssh.Names.{validate_username, validate_hostname, parse_exec_command}
use ssh_certificate_authorit.Ssh.Signing.{exec_request}
use ssh_certificate_authorit.Ipc.{Wire, JsonLaws}
use ssh_certificate_authorit.Ipc.Client.{send_request, Socket}
use ssh_certificate_authorit.Ipc.Client.Answered.{ShortTexts}
use ssh_certificate_authorit.Ipc.Client.Exchange.{server_socket}
use ssh_certificate_authorit.Ssh.Handler.{
  auth_publickey, auth_password, ConnectionHandler, new_server, new_client, by_password,
  by_public_key, send_data, exit_status, eof, close, auth_password, auth_publickey,
}
use ssh_certificate_authorit.Ssh.Session
use ssh_certificate_authorit.Ssh.Session.{Event, password_offered, key_offered, exec_requested}
use ssh_certificate_authorit.Ssh.Clients.{Site, opened, connect, handle, Reach, here, next, history}
use ssh_certificate_authorit.EndToEnd.Vouched.{IsVouchedIn}
use ssh_certificate_authorit.EndToEnd.Vouched.Sites.{Reach-IsVouched}
use ssh_certificate_authorit.Tests.Plain
use ssh_certificate_authorit.Tests.Plain.{keys, wire_laws, draw, server}
use ssh_certificate_authorit.Tests.World.{written, client, russh, ssh_server, files, formats}

-- The texts of 2 ^ 32 bytes and more are refused.
abbrev within : Str → Outcome Str
within s = if ltb (length (as_bytes s)) (2 ^ 32) then ok s else err (foreign (codes "too long"))

abbrev wire : Wire keys
wire = record Plain.wire {
  request_to_string = λ r. Plain.wire.request_to_string r >>= within;
  response_to_string = λ r. Plain.wire.response_to_string r >>= within;
}

within-eq-ok :
    (m : Outcome Str) {s : Str}
    → (m >>= within) ≡ ok s
    → (m ≡ ok s) × (length (as_bytes s) < 2 ^ 32)
within-eq-ok m h = ground arith

laws : JsonLaws wire
laws = record {
  request_text =
      λ r h. wire_laws.request_text r (within-eq-ok (Plain.wire.request_to_string r) h).0;
  request_back =
      λ r h. wire_laws.request_back r (within-eq-ok (Plain.wire.request_to_string r) h).0;
  response_text =
      λ r h. wire_laws.response_text r (within-eq-ok (Plain.wire.response_to_string r) h).0;
  response_back =
      λ r h. wire_laws.response_back r (within-eq-ok (Plain.wire.response_to_string r) h).0;
}

short : ShortTexts wire
short = record {
  request_short = λ r h. (within-eq-ok (Plain.wire.request_to_string r) h).1;
  response_short = λ r h. (within-eq-ok (Plain.wire.response_to_string r) h).1;
}

abbrev ca_socket : Socket
ca_socket = server_socket keys wire formats 100 files draw server

abbrev empty : Site russh
empty = opened written.ssh client ssh_server.user_authenticators

abbrev someone : ℕ → ConnectionHandler russh
someone id = record { id = id; username = none; auth_method = none; public_key = none }

abbrev password_of_ann : Event russh
password_of_ann = password_offered (codes "ann") (codes "open")

abbrev key_of_web : Event russh
key_of_web = key_offered ca_socket (codes "root") b'W'

abbrev ann : ConnectionHandler russh
ann = record (someone 1) { username = some (codes "ann"); auth_method = some by_password }

abbrev web : ConnectionHandler russh
web = record (someone 2) {
  username = some (codes "web");
  auth_method = some by_public_key;
  public_key = some b'W';
}

-- Both have logged in.
abbrev both : Site russh
both = record {
  server = record empty.server { client_ids = 2; ca_client = record client { counter = 4 } };
  slots = record { handler = web; is_live = true } ∷ record { handler = ann; is_live = true } ∷ [];
}

reached : Reach keys russh wire empty both
unfolding new_client new_server Session.step auth_password validate_username pam_authenticator
    auth_publickey send_request read_exact serve to_be_bytes from_be_bytes from_utf8 handle_request
    check_public_key find_config_by_public_key path_starts_with read_toml_file file_stem
reached =
    next
      (next
        (next (next here (connect (omega arith))) (handle (someone 1) password_of_ann [] [] refl))
        (connect (omega arith)))
      (handle (someone 2) key_of_web [] (record { handler = ann; is_live = true } ∷ []) refl)

abbrev command : Event russh
command = exec_requested ca_socket 7 (codes "sign_host_key")

certificate_sent :
    (Session.step keys russh wire web both.server command).calls
    ≡ send_data 7 (codes "W") ∷ exit_status 7 0 ∷ eof 7 ∷ close 7 ∷ []
unfolding Session.step exec_request str_eq parse_exec_command split_whitespace from_utf8_lossy
    is_whitespace validate_hostname join send_request as_bytes read_exact serve to_be_bytes
    from_be_bytes from_utf8 handle_request sign_host_certificate read_host_config push
    path_starts_with read_toml_file
certificate_sent = refl

Reach-IsVouched_example :
    All
      (IsVouchedIn keys russh formats server.ca
        (λ _. files)
        ssh_server.user_authenticators
        (history keys russh wire reached)
        2
        command)
      (Session.step keys russh wire web both.server command).calls
unfolding history reached
Reach-IsVouched_example =
    Reach-IsVouched keys russh wire formats 100 server.ca (λ _. files) written.ssh client
      ssh_server.user_authenticators reached web [] (record { handler = ann; is_live = true } ∷ [])
      command laws short refl (inl (draw, server, refl, refl), (tt, tt))
      (inl (draw, server, refl, refl))
