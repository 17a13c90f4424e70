-- ===== src/Startup.antt =====
-- src/lib.rs: `run_server`, which is the CA process or the SSH server with the CA as its child.
pub mod Processes
pub mod Waiting
pub mod Sharing
pub mod TokenFile
mod Main
use ssh_certificate_authorit.Common.{
  ℕ, zero, suc, ◌+◌, Bool, true, false, not, Option, none, some, List, [], ◌∷◌, ◌++◌, Str, Outcome,
  ok, err, panic, if◌then◌else◌,
}
use ssh_certificate_authorit.Text.{codes}
use ssh_certificate_authorit.FilePath.{FilePath, push, parent, file_stem}

pub record CliArgs : Type 0 where
  pub config_file : Str
  pub certificate_authority : Bool
  pub socket_path : Option FilePath
  pub disable_ca : Bool
  pub token_file : Option FilePath

-- The command line of the CA process that is spawned.
unfoldable pub child_args : Str → FilePath → FilePath → CliArgs
child_args config_file socket_path token_file = record {
  config_file = config_file;
  certificate_authority = true;
  socket_path = some socket_path;
  disable_ca = false;
  token_file = some token_file;
}

-- What `run_server` does to the world, each step once it has succeeded; `kill_ca` and
-- `remove_socket`, whose results are not looked at, once they were tried. `start_ca` and
-- `start_ssh` stand for the two servers.
pub data Effect : Type 0 where
  read_token remove_token restrict_token : FilePath → Effect
  write_token : FilePath → Str → Effect
  spawn_ca : (socket_path token_file : FilePath) → Effect
  start_ca : (socket_path : FilePath) (auth_token : Str) → Effect
  start_ssh : (socket_path : FilePath) (auth_token : Str) → Effect
  kill_ca : Effect
  remove_socket : FilePath → Effect

-- How `run_server` ends, if it does.
pub data Exit : Type 0 where
  returned panicked : Exit

-- The answers of the system in one run: files, the child, the socket at each look, the reading of
-- the CA's key and of the authenticators, and how the two servers end. `current_exe` tells whether
-- the path of the executable is known; `generated_socket` is in a new directory, if it can be made.
pub record System : Type 0 where
  pub config : Outcome (Unit {0})
  pub read_to_string : FilePath → Outcome Str
  pub remove_file : FilePath → Bool
  pub write : FilePath → Bool
  pub set_permissions : FilePath → Bool
  pub current_exe : Bool
  pub spawn : Bool
  pub socket_exists : ℕ → Bool
  pub authority : Outcome (Unit {0})
  pub authenticators : Outcome (Unit {0})
  pub ca_run : Outcome (Unit {0})
  pub ssh_run : Outcome (Unit {0})
  pub generated_socket : Option FilePath
  pub generated_token : Str

-- `PathBuf::set_extension("token")`
unfoldable pub with_token_extension : FilePath → FilePath
with_token_extension path = elim (file_stem path) [
  | none ↦ path
  | some stem ↦ elim (parent path) [ none ↦ path | some dir ↦ push dir (stem ++ codes ".token") ]
]

-- `unwrap`
abbrev pub exit_of : Outcome (Unit {0}) → Exit
exit_of (ok _) = returned
exit_of (err e) = panicked
exit_of panic = panicked

module _ (sys : System) where
  -- The number of the look after the loop.
  unfoldable pub polls : ℕ → ℕ → ℕ
  polls zero i = i
  polls (suc n) i = let rest = polls n (i + 1) in if sys.socket_exists i then i + 1 else rest

  unfoldable pub socket_there : Bool
  unfolding polls
  socket_there = sys.socket_exists (polls 10 0)

  -- CA mode, with the token read.
  unfoldable pub start_authority : FilePath → FilePath → Outcome Str → List Effect × Exit
  start_authority socket token_file (err e) = ([], returned)
  start_authority socket token_file panic = ([], panicked)
  start_authority socket token_file (ok auth_token) =
      if not (sys.remove_file token_file)
      then (read_token token_file ∷ [], returned)
      else elim sys.authority [
        | ok _ ↦ (
          read_token token_file ∷ remove_token token_file ∷ start_ca socket auth_token ∷ [],
          exit_of sys.ca_run,
        )
        | err e ↦ (read_token token_file ∷ remove_token token_file ∷ [], panicked)
        | panic ↦ (read_token token_file ∷ remove_token token_file ∷ [], panicked)
      ]

  unfoldable pub run_authority : Option FilePath → Option FilePath → List Effect × Exit
  unfolding start_authority
  run_authority none token_file = ([], panicked)
  run_authority (some socket) none = ([], panicked)
  run_authority (some socket) (some token_file) =
      start_authority socket token_file (sys.read_to_string token_file)

  -- `ca.kill()` on the child, if there is one; `wait` changes nothing.
  abbrev pub killed : Bool → List Effect
  killed true = kill_ca ∷ []
  killed false = []

  -- From the wait for the socket on; `child` tells whether the CA was spawned.
  unfoldable pub serve_ssh : Bool → FilePath → Str → List Effect × Exit
  unfolding socket_there
  serve_ssh child socket auth_token =
      if not socket_there then (killed child, returned) else elim sys.authenticators [
        | err e ↦ ([], panicked)
        | panic ↦ ([], panicked)
        | ok _ ↦ elim sys.ssh_run [
          | ok _ ↦
              (start_ssh socket auth_token ∷ killed child ++ remove_socket socket ∷ [], returned)
          | err e ↦ (start_ssh socket auth_token ∷ [], panicked)
          | panic ↦ (start_ssh socket auth_token ∷ [], panicked)
        ]
      ]

  abbrev pub after_effects : List Effect → List Effect × Exit → List Effect × Exit
  after_effects es (fs, x) = (es ++ fs, x)

  -- `remove_file` where its result is not looked at.
  unfoldable pub removed : FilePath → List Effect
  removed path = if sys.remove_file path then remove_token path ∷ [] else []

  -- With the token: the spawning of the CA, and the rest.
  unfoldable pub spawn_and_serve : Bool → FilePath → Str → List Effect × Exit
  unfolding serve_ssh removed
  spawn_and_serve true socket auth_token = serve_ssh false socket auth_token
  spawn_and_serve false socket auth_token =
      let path = with_token_extension socket in
      if not (sys.write path)
      then ([], returned)
      else if not (sys.set_permissions path)
      then (write_token path auth_token ∷ removed path, returned)
      else if not sys.current_exe
      then (write_token path auth_token ∷ restrict_token path ∷ [], panicked)
      else if not sys.spawn
      then (write_token path auth_token ∷ restrict_token path ∷ removed path, returned)
      else after_effects
          (write_token path auth_token ∷ restrict_token path ∷ spawn_ca socket path ∷ [])
          (serve_ssh true socket auth_token)

  -- `none` is the panic of `tempdir().unwrap()`.
  abbrev pub or_generated : Option FilePath → Option FilePath
  or_generated none = sys.generated_socket
  or_generated (some path) = some path

  -- The SSH server, with the answer for the token file at `path`.
  unfoldable pub run_with_token : Bool → FilePath → FilePath → Outcome Str → List Effect × Exit
  unfolding spawn_and_serve
  run_with_token disable_ca socket path (err e) = ([], returned)
  run_with_token disable_ca socket path panic = ([], panicked)
  run_with_token disable_ca socket path (ok auth_token) =
      after_effects (read_token path ∷ []) (spawn_and_serve disable_ca socket auth_token)

  unfoldable pub run_ssh : Bool → FilePath → Option FilePath → List Effect × Exit
  unfolding run_with_token
  run_ssh disable_ca socket none = spawn_and_serve disable_ca socket sys.generated_token
  run_ssh disable_ca socket (some path) =
      run_with_token disable_ca socket path (sys.read_to_string path)

  unfoldable pub run_ssh_at : Bool → Option FilePath → Option FilePath → List Effect × Exit
  unfolding run_ssh
  run_ssh_at disable_ca none token_file = ([], panicked)
  run_ssh_at disable_ca (some socket) token_file = run_ssh disable_ca socket token_file

  unfoldable pub run_server : CliArgs → List Effect × Exit
  unfolding run_authority run_ssh_at
  run_server args = elim sys.config [
    | err e ↦ ([], returned)
    | panic ↦ ([], panicked)
    | ok _ ↦
        if args.certificate_authority
        then run_authority args.socket_path args.token_file
        else run_ssh_at args.disable_ca (or_generated args.socket_path) args.token_file
  ]
