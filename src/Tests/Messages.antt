-- ===== src/Tests/Messages.antt =====
-- Witnesses about the messages between the SSH server and the CA.
use ssh_certificate_authorit.Common.{
  false, ◌-◌, ◌^◌, ◌≡◌, refl, true, none, some, List, [], ◌∷◌, Str, Bytes, ok, arith, length,
  leb→le,
}
use ssh_certificate_authorit.Text.{codes}
use ssh_certificate_authorit.Text.Utf8.{as_bytes, from_utf8}
use ssh_certificate_authorit.FilePath.{path_starts_with, file_stem}
use ssh_certificate_authorit.Interfaces.{read_toml_file}
use ssh_certificate_authorit.Inventory.{find_config_by_public_key}
use ssh_certificate_authorit.Authority
use ssh_certificate_authorit.Ipc.{AuthenticatedRequest, check_public_key, key_found}
use ssh_certificate_authorit.Ipc.Server.{
  read_message, Connection, Event, accepted, accept_failed, serve, writes_of, handle_request,
  or_error,
}
use ssh_certificate_authorit.Ipc.Server.Binding.{Binding, start, InSafety, start-InSafety}
use ssh_certificate_authorit.Ipc.Server.Gate.{dispatched, serve_refused, writes_after}
use ssh_certificate_authorit.Ipc.Server.Replay.{IsGuarded, run-IsGuarded}
use ssh_certificate_authorit.Ipc.Client.{CaClient, Socket, send_request}
use ssh_certificate_authorit.Ipc.Client.Exchange.{
  message, connection, server_socket, send_request-serve,
}
use ssh_certificate_authorit.Tests.Toy.{keys, wire, wire_laws, wire_compares}
use ssh_certificate_authorit.Tests.World.{files, formats, authority, draw, server, client}

-- The text and the bytes of the request for the key of web with the counter 4.
abbrev lookup_web : AuthenticatedRequest keys
lookup_web = record { token = codes "token"; counter = 4; request = check_public_key b'W' }

abbrev lookup_text : Str
lookup_text = 4 ∷ b'W' ∷ codes "token"

abbrev lookup_bytes : Bytes
lookup_bytes = message lookup_text

-- The same request twice, and a failure to accept between them.
abbrev replayed : List (Event keys)
replayed =
    accepted files draw (connection keys wire formats 100 lookup_bytes)
    ∷ accept_failed
    ∷ accepted files draw (connection keys wire formats 100 lookup_bytes)
    ∷ []

run-IsGuarded_example : IsGuarded keys wire formats 100 (as_bytes (codes "token")) 2 server replayed
run-IsGuarded_example = run-IsGuarded keys wire formats 100 server replayed wire_compares

-- The peer is another user.
abbrev stranger : Connection
stranger = record { peer_cred = ok 101; received = lookup_bytes; takes_length = true }

stranger_refused : dispatched keys wire formats 100 server stranger ≡ none
unfolding dispatched read_message
stranger_refused = refl

serve_refused_example :
    writes_after keys wire formats 100 (
      serve keys wire formats 100 files draw
        (record server { ca = record authority { private_key = [] } })
        stranger)
    ≡ writes_after keys wire formats 100 (serve keys wire formats 100 files draw server stranger)
serve_refused_example =
    serve_refused keys wire formats 100 files files draw draw
      (record authority { private_key = [] }) server stranger stranger_refused

-- The client has used all its numbers.
abbrev worn_out : CaClient
worn_out = record client { counter = 2 ^ 64 - 1 }

abbrev ca_socket : Socket
ca_socket = server_socket keys wire formats 100 files draw server

web_response :
    or_error (handle_request keys files formats authority draw (check_public_key b'W'))
    ≡ ok (key_found (some (codes "web")))
unfolding handle_request Authority.check_public_key find_config_by_public_key path_starts_with
    read_toml_file from_utf8 file_stem
web_response = refl

send_request_example :
    (send_request keys wire client
        (server_socket keys wire formats 100 files draw server)
        (check_public_key b'W')
      ≡ (record client { counter = 4 }, ok (key_found (some (codes "web")))))
    × (serve keys wire formats 100 files draw server (connection keys wire formats 100 lookup_bytes)
        ≡ ok (
          record server { last_counter = 4 },
          writes_of keys wire formats 100 true (2 ∷ codes "web"),
        ))
unfolding as_bytes
send_request_example =
    send_request-serve keys wire formats 100 files draw server client (check_public_key b'W')
      (key_found (some (codes "web"))) lookup_text (2 ∷ codes "web") wire_laws wire_compares refl
      (omega arith) (omega arith) refl (leb→le (length (as_bytes lookup_text)) 65536 refl)
      web_response refl (leb→le (length (as_bytes (2 ∷ codes "web"))) 65536 refl)

-- A stale socket is removed, and the same request comes twice.
abbrev stale : Binding
stale = record { metadata_is_ok = true; remove_file = ok tt; bind = ok tt; set_permissions = ok tt }

start-InSafety_example :
    InSafety keys wire formats 100 true false (start keys wire formats 100 stale server replayed).0
start-InSafety_example = start-InSafety keys wire formats 100 stale server replayed
