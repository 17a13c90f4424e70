-- ===== src/Tests/Connections.antt =====
-- Witnesses about connections of SSH clients.
use ssh_certificate_authorit.Common.{
  ◌≤◌, ◌<◌, ◌≡◌, ◌≢◌, ◌↔◌, inr, refl, true, none, List, [], ◌∷◌, ◌++◌, ok, arith, Str, All, length,
  Memᴰ,
}
use ssh_certificate_authorit.Text.{codes, str_eq}
use ssh_certificate_authorit.Text.Utf8.{as_bytes, from_utf8, from_utf8_lossy}
use ssh_certificate_authorit.Text.Words.{is_whitespace, split_whitespace, IsWord, join}
use ssh_certificate_authorit.FilePath.{components, push, path_starts_with, file_stem}
use ssh_certificate_authorit.Inventory.{toml_name, find_config_by_public_key}
use ssh_certificate_authorit.Ipc.Frame.{read_exact, to_be_bytes, from_be_bytes}
use ssh_certificate_authorit.Ipc.Server.{serve, handle_request}
use ssh_certificate_authorit.Authority
use ssh_certificate_authorit.Interfaces.{read_toml_file}
use ssh_certificate_authorit.Ipc.{sign_certificate, sign_host_certificate, check_public_key}
use ssh_certificate_authorit.Ipc.Client.{send_request}
use ssh_certificate_authorit.Ipc.Client.Exchange.{server_socket}
use ssh_certificate_authorit.Identity.{setup_user_authenticators, pam_authenticator}
use ssh_certificate_authorit.Ssh.Signing.{handler_sign_user_key, exec_request}
use ssh_certificate_authorit.Ssh.Names.{validate_hostname, validate_username, parse_exec_command}
use ssh_certificate_authorit.Ssh.Names.Usernames.{validate_username_iff, IsUserChar}
use ssh_certificate_authorit.Ssh.Names.Refused.{validate_hostname_iff}
use ssh_certificate_authorit.Ssh.Names.Hostnames.{components-push-toml_name}
use ssh_certificate_authorit.Ssh.Names.Commands.{parse_exec_command-join}
use ssh_certificate_authorit.Ssh.Handler.{
  returned, accept, auth_password, auth_publickey, new_client,
}
use ssh_certificate_authorit.Ssh.Handler.Login.{Accepted, auth_password_iff, auth_password-IsBarred}
use ssh_certificate_authorit.Ssh.Session.{
  Event, password_offered, key_offered, session_opened, data_received, exec_requested, requests,
}
use ssh_certificate_authorit.Ssh.Session.Legit.{IsLegit}
use ssh_certificate_authorit.Ssh.Session.Requests.{new_client-IsLegit}
use ssh_certificate_authorit.Tests.Toy.{keys, wire, low-IsText}
use ssh_certificate_authorit.Tests.World.{
  files, formats, draw, server, accounts, russh, ssh_server, connected, hosts, dead_socket,
}

-- ann logs in with her password and asks for a certificate, and web logs in with its key, which
-- the CA knows, and asks for one.
abbrev ann_session : List (Event russh)
ann_session =
    password_offered (codes "ann") (codes "wrong")
    ∷ password_offered (codes "ann") (codes "open")
    ∷ session_opened 1 tt
    ∷ data_received dead_socket 1 (codes "A")
    ∷ []

abbrev web_session : List (Event russh)
web_session =
    key_offered (server_socket keys wire formats 100 files draw server) (codes "root") b'W'
    ∷ session_opened 1 tt
    ∷ exec_requested dead_socket 1 (codes "sign_host_key")
    ∷ []

ann_requests :
    requests keys russh wire
      (new_client ssh_server).1
      (new_client ssh_server).0
      (password_offered (codes "ann") (codes "open") ∷ data_received dead_socket 1 (codes "A") ∷ [])
    ≡ sign_certificate (codes "ann") b'A' ∷ []
unfolding requests new_client auth_password validate_username pam_authenticator
    handler_sign_user_key from_utf8_lossy send_request
ann_requests = refl

web_requests :
    requests keys russh wire (new_client ssh_server).1 (new_client ssh_server).0 web_session
    ≡ check_public_key b'W' ∷ sign_host_certificate (codes "web") b'W' ∷ []
unfolding requests new_client auth_publickey send_request as_bytes read_exact serve to_be_bytes
    from_be_bytes from_utf8 str_eq handle_request Authority.check_public_key
    find_config_by_public_key path_starts_with read_toml_file file_stem exec_request
    parse_exec_command validate_hostname join split_whitespace is_whitespace from_utf8_lossy
web_requests = refl

new_client_example :
    All
      (IsLegit keys russh wire ssh_server.user_authenticators
        (λ e. Memᴰ e (ann_session ++ web_session)))
      (requests keys russh wire
        (new_client ssh_server).1
        (new_client ssh_server).0
        (ann_session ++ web_session))
new_client_example = new_client-IsLegit keys russh wire ssh_server (ann_session ++ web_session)

auth_password_iff_example :
    ((auth_password keys russh connected ssh_server (codes "ann") (codes "open")).result
      ≡ returned accept)
    ↔ ((validate_username (codes "ann") ≡ true)
        × Accepted ssh_server.user_authenticators (codes "ann") (codes "open"))
auth_password_iff_example =
    auth_password_iff keys russh connected ssh_server (codes "ann") (codes "open")

pam_set_up :
    setup_user_authenticators accounts (codes "pam" ∷ []) ≡ ok ssh_server.user_authenticators
unfolding setup_user_authenticators
pam_set_up = refl

auth_password_barred_example :
    ((auth_password keys russh connected ssh_server (codes "daemon") (codes "open")).result
      ≢ returned accept)
    × ((auth_password keys russh connected ssh_server (codes "daemon") (codes "open")).handler
        ≡ connected)
unfolding str_eq
auth_password_barred_example =
    auth_password-IsBarred keys russh accounts (codes "pam" ∷ []) connected ssh_server
      (codes "daemon") (codes "open") pam_set_up (inr (1, refl, omega arith))

validate_username_example : (validate_username (codes "ann@home") ≡ true) ↔ (
    (0 < length (codes "ann@home"))
    × (length (codes "ann@home") ≤ 64)
    × All IsUserChar (codes "ann@home"))
validate_username_example = validate_username_iff (codes "ann@home")

validate_hostname_example : (validate_hostname (codes "web.example") ≡ none) ↔ (
    (codes "web.example" ≢ [])
    × All (λ c. c ≢ b'/') (codes "web.example")
    × All (λ c. c ≢ b'\\') (codes "web.example")
    × All (λ c. c ≢ 0) (codes "web.example")
    × ((before after : Str) → codes "web.example" ≢ before ++ codes ".." ++ after))
validate_hostname_example = validate_hostname_iff (codes "web.example")

web_allowed : validate_hostname (codes "web") ≡ none
unfolding validate_hostname
web_allowed = refl

toml_name_example :
    components (push hosts (toml_name (codes "web"))) ≡ components hosts ++ codes "web.toml" ∷ []
toml_name_example = components-push-toml_name hosts (codes "web") web_allowed

words_IsWord : All IsWord (codes "sign_host_key" ∷ codes "now" ∷ [])
unfolding is_whitespace
words_IsWord = (
  record { not_empty = λ e. cc; solid = refl },
  (record { not_empty = λ e. cc; solid = refl }, tt),
)

parse_exec_command_example :
    parse_exec_command (as_bytes (join (codes "sign_host_key" ∷ codes "now" ∷ [])))
    ≡ (codes "sign_host_key", codes "now" ∷ [])
unfolding join
parse_exec_command_example =
    parse_exec_command-join (codes "sign_host_key") (codes "now" ∷ []) words_IsWord
      (low-IsText (join (codes "sign_host_key" ∷ codes "now" ∷ [])) refl)

-- The CA knows the key of web.
