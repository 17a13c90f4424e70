-- ===== src/Startup/Processes.antt =====
-- What is left behind when `run_server` comes back.
use ssh_certificate_authorit.Common.{
  ◌≡◌, refl, Bool, true, false, List, [], ◌∷◌, Str, arith, Option, none, some, Outcome, ok, err,
  panic,
}
use ssh_certificate_authorit.FilePath.{FilePath}
use ssh_certificate_authorit.Startup.{
  CliArgs, Effect, Exit, returned, panicked, System, spawn_ca, kill_ca, run_server, run_authority,
  run_ssh, run_with_token, start_authority, serve_ssh, spawn_and_serve, or_generated, run_ssh_at,
  removed,
}

-- Whether a child runs after the effects.
abbrev pub running : Bool → List Effect → Bool
running child [] = child
running child (spawn_ca s t ∷ es) = running true es
running child (kill_ca ∷ es) = running false es
running child (_ ∷ es) = running child es

module _ (sys : System) where
  serve_ssh-running :
      (child : Bool) (socket : FilePath) (token : Str)
      → (serve_ssh sys child socket token).1 ≡ returned
      → running child (serve_ssh sys child socket token).0 ≡ false
  unfolding serve_ssh
  serve_ssh-running child socket token h = ground arith

  spawn_and_serve-running :
      (disable_ca : Bool) (socket : FilePath) (token : Str)
      → (spawn_and_serve sys disable_ca socket token).1 ≡ returned
      → running false (spawn_and_serve sys disable_ca socket token).0 ≡ false
  unfolding spawn_and_serve
  spawn_and_serve-running true socket token h = serve_ssh-running false socket token h
  spawn_and_serve-running false socket token h = ground (arith, serve_ssh-running true socket token)

  run_with_token-running :
      (disable_ca : Bool) (socket path : FilePath) (m : Outcome Str)
      → (run_with_token sys disable_ca socket path m).1 ≡ returned
      → running false (run_with_token sys disable_ca socket path m).0 ≡ false
  unfolding run_with_token
  run_with_token-running disable_ca socket path (ok token) h =
      spawn_and_serve-running disable_ca socket token h
  run_with_token-running disable_ca socket path (err e) h = refl
  run_with_token-running disable_ca socket path panic h = refl

  run_ssh-running :
      (disable_ca : Bool) (socket : FilePath) (token_file : Option FilePath)
      → (run_ssh sys disable_ca socket token_file).1 ≡ returned
      → running false (run_ssh sys disable_ca socket token_file).0 ≡ false
  unfolding run_ssh
  run_ssh-running disable_ca socket none h =
      spawn_and_serve-running disable_ca socket sys.generated_token h
  run_ssh-running disable_ca socket (some path) h =
      run_with_token-running disable_ca socket path (sys.read_to_string path) h

  run_ssh_at-running :
      (disable_ca : Bool) (socket token_file : Option FilePath)
      → (run_ssh_at sys disable_ca socket token_file).1 ≡ returned
      → running false (run_ssh_at sys disable_ca socket token_file).0 ≡ false
  unfolding run_ssh_at
  run_ssh_at-running disable_ca none token_file h = refl
  run_ssh_at-running disable_ca (some socket) token_file h =
      run_ssh-running disable_ca socket token_file h

  run_authority-running :
      (socket token_file : Option FilePath)
      → running false (run_authority sys socket token_file).0 ≡ false
  unfolding run_authority start_authority
  run_authority-running none token_file = refl
  run_authority-running (some s) none = refl
  run_authority-running (some s) (some t) = ground arith

  -- When `run_server` returns, whatever the system answered, no CA that it spawned is left running.
  pub run_server-running :
      (args : CliArgs)
      → (run_server sys args).1 ≡ returned
      → running false (run_server sys args).0 ≡ false
  unfolding run_server
  run_server-running args h = ground (
    arith,
    run_authority-running args.socket_path args.token_file,
    run_ssh_at-running args.disable_ca (or_generated sys args.socket_path) args.token_file,
  )

-- Whether a CA is spawned.
abbrev pub spawns : List Effect → Bool
spawns [] = false
spawns (spawn_ca s t ∷ es) = true
spawns (_ ∷ es) = spawns es

module _ (sys : System) where
  serve_ssh-panicked :
      (socket : FilePath) (token : Str)
      → (serve_ssh sys true socket token).1 ≡ panicked
      → running true (serve_ssh sys true socket token).0 ≡ true
  unfolding serve_ssh
  serve_ssh-panicked socket token h = ground arith

  serve_ssh-without_spawn :
      (child : Bool) (socket : FilePath) (token : Str)
      → spawns (serve_ssh sys child socket token).0 ≡ false
  unfolding serve_ssh
  serve_ssh-without_spawn child socket token = ground arith

  -- The rest is that of a run that panics, if it is one that spawns a CA.
  abbrev Orphans : List Effect × Exit → Type 0
  Orphans (es, x) = x ≡ panicked → spawns es ≡ true → running false es ≡ true

  spawn_and_serve-Orphans :
      (disable_ca : Bool) (socket : FilePath) (token : Str)
      → Orphans (spawn_and_serve sys disable_ca socket token)
  unfolding spawn_and_serve removed
  spawn_and_serve-Orphans true socket token h k = cc (k, serve_ssh-without_spawn false socket token)
  spawn_and_serve-Orphans false socket token h k = ground (arith, serve_ssh-panicked socket token)

  run_with_token-Orphans :
      (disable_ca : Bool) (socket path : FilePath) (m : Outcome Str)
      → Orphans (run_with_token sys disable_ca socket path m)
  unfolding run_with_token
  run_with_token-Orphans disable_ca socket path (ok token) h k =
      spawn_and_serve-Orphans disable_ca socket token h k
  run_with_token-Orphans disable_ca socket path (err e) h k = cc
  run_with_token-Orphans disable_ca socket path panic h k = cc

  run_ssh_at-Orphans :
      (disable_ca : Bool) (socket token_file : Option FilePath)
      → Orphans (run_ssh_at sys disable_ca socket token_file)
  unfolding run_ssh_at run_ssh
  run_ssh_at-Orphans disable_ca none token_file h k = cc
  run_ssh_at-Orphans disable_ca (some socket) none h k =
      spawn_and_serve-Orphans disable_ca socket sys.generated_token h k
  run_ssh_at-Orphans disable_ca (some socket) (some path) h k =
      run_with_token-Orphans disable_ca socket path (sys.read_to_string path) h k

  run_authority-without_spawn :
      (socket token_file : Option FilePath) → spawns (run_authority sys socket token_file).0 ≡ false
  unfolding run_authority start_authority
  run_authority-without_spawn none token_file = refl
  run_authority-without_spawn (some s) none = refl
  run_authority-without_spawn (some s) (some t) = ground arith

  -- A run of `run_server` that panics leaves the CA running, if it has spawned one.
  pub run_server-panicked :
      (args : CliArgs)
      → (run_server sys args).1 ≡ panicked
      → spawns (run_server sys args).0 ≡ true
      → running false (run_server sys args).0 ≡ true
  unfolding run_server
  run_server-panicked args h k = ground (
    arith,
    run_authority-without_spawn args.socket_path args.token_file,
    run_ssh_at-Orphans args.disable_ca (or_generated sys args.socket_path) args.token_file,
  )
