-- ===== src/Tests/Launched.antt =====
-- A witness about the two processes, from their start to two requests.
use ssh_certificate_authorit.Common.{◌≡◌, refl, some, [], ◌∷◌, ok, arith, length, leb→le, ℕ, Str}
use ssh_certificate_authorit.Text.{codes}
use ssh_certificate_authorit.Text.Utf8.{as_bytes, from_utf8}
use ssh_certificate_authorit.FilePath.{FilePath, path_starts_with, file_stem}
use ssh_certificate_authorit.Interfaces.{read_toml_file}
use ssh_certificate_authorit.Inventory.{find_config_by_public_key}
use ssh_certificate_authorit.Authority
use ssh_certificate_authorit.Ipc.{CaResponse, check_public_key, key_found}
use ssh_certificate_authorit.Ipc.Client
use ssh_certificate_authorit.Ipc.Server
use ssh_certificate_authorit.Ipc.Server.{handle_request, or_error}
use ssh_certificate_authorit.Startup.{child_args, run_server}
use ssh_certificate_authorit.Startup.Sharing.{ca_spawned, ca_started}
use ssh_certificate_authorit.EndToEnd.Conversation.{Job, IsAnswered, exchange, run_server-answers}
use ssh_certificate_authorit.Tests.Toy.{keys, wire, wire_laws, wire_compares}
use ssh_certificate_authorit.Tests.World.{files, formats, authority, draw}
use ssh_certificate_authorit.Tests.Launch.{healthy, plain_args, spawned, healthy_starts, reads}

-- Who has this key?
abbrev lookup : ℕ → Job keys
lookup key = record { fs = files; draw = draw; request = check_public_key key }

abbrev web_found : CaResponse keys
web_found = key_found (some (codes "web"))

abbrev db_found : CaResponse keys
db_found = key_found (some (codes "db"))

web_answer :
    or_error (handle_request keys files formats authority draw (check_public_key b'W'))
    ≡ ok web_found
unfolding handle_request Authority.check_public_key find_config_by_public_key path_starts_with
    read_toml_file from_utf8 file_stem
web_answer = refl

db_answer :
    or_error (handle_request keys files formats authority draw (check_public_key b'D'))
    ≡ ok db_found
unfolding handle_request Authority.check_public_key find_config_by_public_key path_starts_with
    read_toml_file from_utf8 file_stem
db_answer = refl

web-IsAnswered :
    IsAnswered keys wire formats 100 authority (codes "secret") 1 (lookup b'W') web_found
unfolding as_bytes
web-IsAnswered = record {
  request_json = 1 ∷ b'W' ∷ codes "secret";
  request_text = refl;
  request_fits = leb→le (length (as_bytes (1 ∷ b'W' ∷ codes "secret"))) 65536 refl;
  answered = web_answer;
  response_json = 2 ∷ codes "web";
  response_text = refl;
  response_fits = leb→le (length (as_bytes (2 ∷ codes "web"))) 65536 refl;
}

db-IsAnswered : IsAnswered keys wire formats 100 authority (codes "secret") 2 (lookup b'D') db_found
unfolding as_bytes
db-IsAnswered = record {
  request_json = 2 ∷ b'D' ∷ codes "secret";
  request_text = refl;
  request_fits = leb→le (length (as_bytes (2 ∷ b'D' ∷ codes "secret"))) 65536 refl;
  answered = db_answer;
  response_json = 2 ∷ codes "db";
  response_text = refl;
  response_fits = leb→le (length (as_bytes (2 ∷ codes "db"))) 65536 refl;
}

run_server-answers_example :
    (path : FilePath) × (ca_token : Str) × (ca_spawned (run_server healthy plain_args).0
      ≡ some (codes "/tmp/ca.sock", path))
    × (ca_started
          (run_server spawned (child_args (codes "main.toml") (codes "/tmp/ca.sock") path)).0
        ≡ some (codes "/tmp/ca.sock", ca_token))
    × (exchange keys wire formats 100
          (Client.new (codes "/tmp/ca.sock") (codes "secret"))
          (Server.new (codes "/tmp/ca.sock") authority ca_token)
          (lookup b'W' ∷ lookup b'D' ∷ [])
        ≡ ok web_found ∷ ok db_found ∷ [])
run_server-answers_example =
    run_server-answers keys wire formats 100 healthy spawned plain_args (codes "/tmp/ca.sock")
      (codes "secret") authority (lookup b'W' ∷ lookup b'D' ∷ []) (web_found ∷ db_found ∷ []) refl
      healthy_starts refl reads refl wire_laws wire_compares (omega arith)
      (web-IsAnswered, (db-IsAnswered, tt))
