-- ===== src/Startup/TokenFile.antt =====
-- What becomes of the token file that `run_server` writes.
use ssh_certificate_authorit.Common.{
  ◌≡◌, refl, Bool, true, false, List, [], ◌∷◌, Str, arith, Option, none, some, Outcome, ok, err,
  panic,
}
use ssh_certificate_authorit.FilePath.{FilePath}
use ssh_certificate_authorit.Startup.{
  CliArgs, Effect, System, remove_token, restrict_token, write_token, run_server, run_authority,
  run_ssh, run_with_token, start_authority, serve_ssh, spawn_and_serve, or_generated, run_ssh_at,
  with_token_extension, removed,
}

-- Whether a token file that was written is left without its permissions restricted.
abbrev pub left_open : Bool → List Effect → Bool
left_open written [] = written
left_open written (write_token p t ∷ es) = left_open true es
left_open written (restrict_token p ∷ es) = left_open false es
left_open written (remove_token p ∷ es) = left_open false es
left_open written (_ ∷ es) = left_open written es

module _ (sys : System) where
  -- The file can neither be restricted nor removed.
  abbrev pub IsStuck : FilePath → Type 0
  IsStuck path = (sys.set_permissions path ≡ false) × (sys.remove_file path ≡ false)

  serve_ssh-left_open :
      (child : Bool) (socket : FilePath) (token : Str)
      → left_open false (serve_ssh sys child socket token).0 ≡ false
  unfolding serve_ssh
  serve_ssh-left_open child socket token = ground arith

  spawn_and_serve-IsStuck :
      (disable_ca : Bool) (socket : FilePath) (token : Str)
      → left_open false (spawn_and_serve sys disable_ca socket token).0 ≡ true
      → IsStuck (with_token_extension socket)
  unfolding spawn_and_serve removed
  spawn_and_serve-IsStuck true socket token h = cc (h, serve_ssh-left_open false socket token)
  spawn_and_serve-IsStuck false socket token h =
      ground (arith, serve_ssh-left_open true socket token)

  run_with_token-IsStuck :
      (disable_ca : Bool) (socket path : FilePath) (m : Outcome Str)
      → left_open false (run_with_token sys disable_ca socket path m).0 ≡ true
      → IsStuck (with_token_extension socket)
  unfolding run_with_token
  run_with_token-IsStuck disable_ca socket path (ok token) h =
      spawn_and_serve-IsStuck disable_ca socket token h
  run_with_token-IsStuck disable_ca socket path (err e) h = cc
  run_with_token-IsStuck disable_ca socket path panic h = cc

  run_ssh_at-IsStuck :
      (disable_ca : Bool) (socket token_file : Option FilePath)
      → left_open false (run_ssh_at sys disable_ca socket token_file).0 ≡ true
      → (at : FilePath) × (socket ≡ some at) × IsStuck (with_token_extension at)
  unfolding run_ssh_at run_ssh
  run_ssh_at-IsStuck disable_ca none token_file h = cc
  run_ssh_at-IsStuck disable_ca (some socket) none h =
      (socket, refl, spawn_and_serve-IsStuck disable_ca socket sys.generated_token h)
  run_ssh_at-IsStuck disable_ca (some socket) (some path) h =
      (socket, refl, run_with_token-IsStuck disable_ca socket path (sys.read_to_string path) h)

  run_authority-left_open :
      (socket token_file : Option FilePath)
      → left_open false (run_authority sys socket token_file).0 ≡ false
  unfolding run_authority start_authority
  run_authority-left_open none token_file = refl
  run_authority-left_open (some s) none = refl
  run_authority-left_open (some s) (some t) = ground arith

  -- However `run_server` ends, it leaves a token file that it wrote without its permissions
  -- restricted only if the file, which is named after the socket, can be neither restricted nor
  -- removed.
  pub run_server-IsStuck :
      (args : CliArgs)
      → left_open false (run_server sys args).0 ≡ true
      → (socket : FilePath) × (or_generated sys args.socket_path ≡ some socket)
        × IsStuck (with_token_extension socket)
  unfolding run_server
  run_server-IsStuck args h =
      run_ssh_at-IsStuck args.disable_ca (or_generated sys args.socket_path) args.token_file
        (ground (arith, run_authority-left_open args.socket_path args.token_file))
