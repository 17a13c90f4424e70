-- ===== src/Startup/Sharing.antt =====
-- What the SSH server and the CA process that it spawns have in common.
use ssh_certificate_authorit.Common.{
  sym, ◌∙◌, ◌⊎◌, inl, inr, ◌≡◌, refl, Bool, true, false, Option, none, some, List, [], ◌∷◌, Str,
  Outcome, ok, err, panic, arith,
}
use ssh_certificate_authorit.FilePath.{FilePath}
use ssh_certificate_authorit.Startup.{
  CliArgs, System, Effect, read_token, remove_token, write_token, spawn_ca, start_ca, start_ssh,
  with_token_extension, child_args, run_server, run_ssh, run_with_token, run_authority,
  start_authority, spawn_and_serve, serve_ssh, or_generated, run_ssh_at,
}

-- The socket and the token that the SSH server is started with.
abbrev pub ssh_started : List Effect → Option (FilePath × Str)
ssh_started [] = none
ssh_started (start_ssh socket token ∷ es) = some (socket, token)
ssh_started (_ ∷ es) = ssh_started es

-- The socket and the token file that the CA is spawned with.
abbrev pub ca_spawned : List Effect → Option (FilePath × FilePath)
ca_spawned [] = none
ca_spawned (spawn_ca socket path ∷ es) = some (socket, path)
ca_spawned (_ ∷ es) = ca_spawned es

-- The socket and the token that the CA is started with.
abbrev pub ca_started : List Effect → Option (FilePath × Str)
ca_started [] = none
ca_started (start_ca socket token ∷ es) = some (socket, token)
ca_started (_ ∷ es) = ca_started es

-- The token that is written, and where.
abbrev pub token_written : List Effect → Option (FilePath × Str)
token_written [] = none
token_written (write_token path token ∷ es) = some (path, token)
token_written (_ ∷ es) = token_written es

-- What the SSH server that is started and the CA have in common.
abbrev IsAgreed : FilePath × Str → List Effect → Type 0
IsAgreed (socket, token) es =
    (ca_spawned es ≡ some (socket, with_token_extension socket))
    × (token_written es ≡ some (with_token_extension socket, token))

module _ (sys : System) where
  serve_ssh-started :
      (child : Bool) (socket : FilePath) (token : Str) {at : FilePath × Str}
      → ssh_started (serve_ssh sys child socket token).0 ≡ some at
      → (socket ≡ at.0) × (token ≡ at.1)
  unfolding serve_ssh
  serve_ssh-started child socket token h = ground arith

  spawn_and_serve_lem :
      (socket : FilePath) (token : Str)
      → (ssh_started (spawn_and_serve sys false socket token).0 ≡ none)
        ⊎ (IsAgreed (socket, token) (spawn_and_serve sys false socket token).0
            × (ssh_started (spawn_and_serve sys false socket token).0
                ≡ ssh_started (serve_ssh sys true socket token).0))
  unfolding spawn_and_serve
  spawn_and_serve_lem socket token = ground arith

  spawn_and_serve-IsAgreed :
      (socket : FilePath) (token : Str) {at : FilePath × Str}
      → ssh_started (spawn_and_serve sys false socket token).0 ≡ some at
      → IsAgreed at (spawn_and_serve sys false socket token).0
  spawn_and_serve-IsAgreed socket token h = elim (spawn_and_serve_lem socket token) [
    | inl e ↦ ground (arith)
    | inr (c, e) ↦ ground (arith, serve_ssh-started true socket token (sym e ∙ h))
  ]

  run_with_token-IsAgreed :
      (socket path : FilePath) (o : Outcome Str) {at : FilePath × Str}
      → ssh_started (run_with_token sys false socket path o).0 ≡ some at
      → IsAgreed at (run_with_token sys false socket path o).0
  unfolding run_with_token
  run_with_token-IsAgreed socket path (err e) h = ground arith
  run_with_token-IsAgreed socket path panic h = ground arith
  run_with_token-IsAgreed socket path (ok token) h = spawn_and_serve-IsAgreed socket token h

  run_ssh-IsAgreed :
      (socket : FilePath) (file : Option FilePath) {at : FilePath × Str}
      → ssh_started (run_ssh sys false socket file).0 ≡ some at
      → IsAgreed at (run_ssh sys false socket file).0
  unfolding run_ssh
  run_ssh-IsAgreed socket none h = spawn_and_serve-IsAgreed socket sys.generated_token h
  run_ssh-IsAgreed socket (some path) h =
      run_with_token-IsAgreed socket path (sys.read_to_string path) h

  run_ssh_at-IsAgreed :
      (socket file : Option FilePath) {at : FilePath × Str}
      → ssh_started (run_ssh_at sys false socket file).0 ≡ some at
      → IsAgreed at (run_ssh_at sys false socket file).0
  unfolding run_ssh_at
  run_ssh_at-IsAgreed none file h = ground arith
  run_ssh_at-IsAgreed (some socket) file h = run_ssh-IsAgreed socket file h

  start_authority-without_ssh :
      (socket file : FilePath) (o : Outcome Str)
      → ssh_started (start_authority sys socket file o).0 ≡ none
  unfolding start_authority
  start_authority-without_ssh socket file (err e) = refl
  start_authority-without_ssh socket file panic = refl
  start_authority-without_ssh socket file (ok token) = ground arith

  run_authority-without_ssh :
      (socket file : Option FilePath) → ssh_started (run_authority sys socket file).0 ≡ none
  unfolding run_authority
  run_authority-without_ssh none file = refl
  run_authority-without_ssh (some socket) none = refl
  run_authority-without_ssh (some socket) (some file) =
      start_authority-without_ssh socket file (sys.read_to_string file)

  run_server-IsAgreed :
      (args : CliArgs) {at : FilePath × Str}
      → args.disable_ca ≡ false
      → ssh_started (run_server sys args).0 ≡ some at
      → IsAgreed at (run_server sys args).0
  unfolding run_server
  run_server-IsAgreed args a h = ground (
    arith,
    run_ssh_at-IsAgreed (or_generated sys args.socket_path) args.token_file,
    run_authority-without_ssh args.socket_path args.token_file,
  )

-- The child, whose system answers as the one that spawned it left the file.
child_starts :
    (sys : System) (config_file : Str) (socket path : FilePath) (token : Str)
    → sys.config ≡ ok tt
    → sys.read_to_string path ≡ ok token
    → sys.remove_file path ≡ true
    → sys.authority ≡ ok tt
    → (run_server sys (child_args config_file socket path)).0
      ≡ read_token path ∷ remove_token path ∷ start_ca socket token ∷ []
unfolding run_server child_args run_authority start_authority
child_starts sys config_file socket path token c r d a = ground arith

pub run_server-shared :
    (sys child : System) (args : CliArgs) (socket : FilePath) (token : Str)
    → args.disable_ca ≡ false
    → ssh_started (run_server sys args).0 ≡ some (socket, token)
    → child.config ≡ ok tt
    → ((path : FilePath) (t : Str)
        → token_written (run_server sys args).0 ≡ some (path, t)
        → (child.read_to_string path ≡ ok t) × (child.remove_file path ≡ true))
    → child.authority ≡ ok tt
    → (ca_spawned (run_server sys args).0 ≡ some (socket, with_token_extension socket))
      × ((run_server child (child_args args.config_file socket (with_token_extension socket))).0
          ≡ read_token (with_token_extension socket)
            ∷ remove_token (with_token_extension socket)
            ∷ start_ca socket token
            ∷ [])
run_server-shared sys child args socket token a h c f k =
    let (spawned, written) = run_server-IsAgreed sys args a h in
    let path = with_token_extension socket in
    let (r, d) = f path token written in
    (spawned, child_starts child args.config_file socket path token c r d k)
