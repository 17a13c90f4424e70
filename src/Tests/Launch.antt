-- ===== src/Tests/Launch.antt =====
-- Witnesses about the startup of the processes.
use ssh_certificate_authorit.Common.{
  arith, ◌≤◌, ◌↔◌, ◌⊎◌, ◌≡◌, refl, true, false, none, some, [], ◌∷◌, Str, ok, panic, leb,
}
use ssh_certificate_authorit.Text.{codes}
use ssh_certificate_authorit.FilePath.{FilePath, parent, file_stem, push}
use ssh_certificate_authorit.Startup.Waiting.{Stays, serve_ssh-waits}
use ssh_certificate_authorit.Startup.{
  polls, socket_there, serve_ssh, killed, CliArgs, System, returned, panicked, run_server,
  write_token, restrict_token, spawn_ca, start_ssh, kill_ca, remove_socket, or_generated,
  with_token_extension,
}
use ssh_certificate_authorit.Startup.Sharing.{ssh_started, token_written}
use ssh_certificate_authorit.Startup.TokenFile.{left_open, IsStuck, run_server-IsStuck}
use ssh_certificate_authorit.Startup.Processes.{
  running, run_server-running, spawns, run_server-panicked,
}

-- Everything works, and the socket is there at the fourth look.
abbrev pub healthy : System
healthy = record {
  config = ok tt;
  read_to_string = λ _. ok (codes "token");
  remove_file = λ _. true;
  write = λ _. true;
  set_permissions = λ _. true;
  spawn = true;
  socket_exists = λ n. leb 3 n;
  authority = ok tt;
  authenticators = ok tt;
  ca_run = ok tt;
  ssh_run = ok tt;
  current_exe = true;
  generated_socket = some (codes "/tmp/ca.sock");
  generated_token = codes "secret";
}

abbrev pub plain_args : CliArgs
plain_args = record {
  config_file = codes "main.toml";
  certificate_authority = false;
  socket_path = none;
  disable_ca = false;
  token_file = none;
}

healthy_run : run_server healthy plain_args ≡ (
  write_token (codes "/tmp/ca.token") (codes "secret")
      ∷ restrict_token (codes "/tmp/ca.token")
      ∷ spawn_ca (codes "/tmp/ca.sock") (codes "/tmp/ca.token")
      ∷ start_ssh (codes "/tmp/ca.sock") (codes "secret")
      ∷ kill_ca
      ∷ remove_socket (codes "/tmp/ca.sock")
      ∷ [],
  returned,
)
unfolding run_server with_token_extension parent file_stem push
healthy_run = refl

healthy_returns : (run_server healthy plain_args).1 ≡ returned
unfolding run_server
healthy_returns = refl

run_server-running_example : running false (run_server healthy plain_args).0 ≡ false
run_server-running_example = run_server-running healthy plain_args healthy_returns

-- A token file of another user, which the server can neither restrict nor remove.
abbrev stuck : System
stuck = record healthy { set_permissions = λ _. false; remove_file = λ _. false }

stuck_is_open : left_open false (run_server stuck plain_args).0 ≡ true
unfolding run_server
stuck_is_open = refl

run_server-IsStuck_example :
    (socket : FilePath) × (or_generated stuck plain_args.socket_path ≡ some socket)
    × IsStuck stuck (with_token_extension socket)
run_server-IsStuck_example = run_server-IsStuck stuck plain_args stuck_is_open

-- The configuration names an authenticator that does not exist.
abbrev misnamed : System
misnamed = record healthy { authenticators = panic }

misnamed_panics : (run_server misnamed plain_args).1 ≡ panicked
unfolding run_server
misnamed_panics = refl

misnamed-spawns : spawns (run_server misnamed plain_args).0 ≡ true
unfolding run_server
misnamed-spawns = refl

run_server-panicked_example : running false (run_server misnamed plain_args).0 ≡ true
run_server-panicked_example =
    run_server-panicked misnamed plain_args misnamed_panics misnamed-spawns

healthy_stays : Stays healthy
healthy_stays n h = ground arith

serve_ssh-waits_example :
    (polls healthy 10 0 ≤ 10)
    × ((socket_there healthy ≡ true) ↔ (healthy.socket_exists 10 ≡ true))
    × ((healthy.socket_exists 10 ≡ true)
        ⊎ (serve_ssh healthy true (codes "/tmp/ca.sock") (codes "secret")
            ≡ (killed healthy true, returned)))
serve_ssh-waits_example =
    serve_ssh-waits healthy true (codes "/tmp/ca.sock") (codes "secret") healthy_stays

-- The child reads the token that was written.
abbrev pub spawned : System
spawned = record healthy { read_to_string = λ _. ok (codes "secret") }

pub healthy_starts :
    ssh_started (run_server healthy plain_args).0 ≡ some (codes "/tmp/ca.sock", codes "secret")
unfolding run_server
healthy_starts = refl

pub reads :
    (path : FilePath) (t : Str)
    → token_written (run_server healthy plain_args).0 ≡ some (path, t)
    → (spawned.read_to_string path ≡ ok t) × (spawned.remove_file path ≡ true)
unfolding run_server
reads path t h = (ground arith, refl)
