-- ===== src/Ipc/Server/Binding.antt =====
-- The start of `run`: the socket is bound and closed to other users before a connection is taken.
use ssh_certificate_authorit.Common.{
  ℕ, ◌≡◌, refl, Bool, true, false, List, [], ◌∷◌, Bytes, Outcome, ok, err, panic, arith,
  if◌then◌else◌,
}
use ssh_certificate_authorit.Interfaces.{SshKey, Formats}
use ssh_certificate_authorit.Ipc.{Wire}
use ssh_certificate_authorit.Ipc.Server.{CaServer, Event, step, run}

-- The answers of the system at the start: whether a file is at the path, and each call.
pub record Binding : Type 0 where
  pub metadata_is_ok : Bool
  pub remove_file : Outcome (Unit {0})
  pub bind : Outcome (Unit {0})
  pub set_permissions : Outcome (Unit {0})

-- What `run` has done, each once it has succeeded: `taken` is an event of the loop.
pub data Act (K : SshKey) : Type 0 where
  removed bound restricted : Act K
  taken : Event K → Act K

module _ (K : SshKey) (W : Wire K) (F : Formats) (server_uid : ℕ) where
  -- The events of the loop up to the one that ends it, if one does.
  takes : CaServer K → List (Event K) → List (Act K)
  takes s [] = []
  takes s (e ∷ es) =
      taken e
      ∷ elim (step K W F server_uid s e) [ ok now ↦ takes now.0 es | err x ↦ [] | panic ↦ [] ]

  abbrev Run : Type 0
  Run = List (Act K) × Outcome (CaServer K × List (List Bytes))

  abbrev then_do : Act K → Run → Run
  then_do act (acts, result) = (act ∷ acts, result)

  abbrev restrict_and_run : Outcome (Unit {0}) → CaServer K → List (Event K) → Run
  restrict_and_run (ok _) s es = then_do restricted (takes s es, run K W F server_uid s es)
  restrict_and_run (err e) s es = ([], err e)
  restrict_and_run panic s es = ([], panic)

  unfoldable pub bind_and_run : Binding → CaServer K → List (Event K) → Run
  unfolding takes
  bind_and_run b s es = elim b.bind [
    | ok _ ↦ then_do bound (restrict_and_run b.set_permissions s es)
    | err e ↦ ([], err e)
    | panic ↦ ([], panic)
  ]

  abbrev remove_and_run : Outcome (Unit {0}) → Binding → CaServer K → List (Event K) → Run
  remove_and_run (ok _) b s es = then_do removed (bind_and_run b s es)
  remove_and_run (err e) b s es = ([], err e)
  remove_and_run panic b s es = ([], panic)

  -- `run`, whole.
  unfoldable pub start : Binding → CaServer K → List (Event K) → Run
  unfolding bind_and_run
  start b s es =
      if b.metadata_is_ok then remove_and_run b.remove_file b s es else bind_and_run b s es

  -- The socket is bound only where no file is, and an event is taken only once it is restricted.
  abbrev pub InSafety : (is_file is_restricted : Bool) → List (Act K) → Type 0
  InSafety is_file is_restricted [] = Unit
  InSafety is_file is_restricted (removed ∷ acts) = InSafety false is_restricted acts
  InSafety is_file is_restricted (bound ∷ acts) = (is_file ≡ false) × InSafety true false acts
  InSafety is_file is_restricted (restricted ∷ acts) = InSafety is_file true acts
  InSafety is_file is_restricted (taken e ∷ acts) =
      (is_restricted ≡ true) × InSafety is_file is_restricted acts

  takes-InSafety :
      (is_file : Bool) (s : CaServer K) (es : List (Event K)) → InSafety is_file true (takes s es)
  unfolding takes
  takes-InSafety is_file s [] = tt
  takes-InSafety is_file s (e ∷ es) =
      (refl, go (step K W F server_uid s e) λ s'. takes-InSafety is_file s' es)
    where
      go :
          (m : Outcome (CaServer K × List Bytes))
          → ((s' : CaServer K) → InSafety is_file true (takes s' es))
          → InSafety is_file true (elim m [ ok now ↦ takes now.0 es | err x ↦ [] | panic ↦ [] ])
      go (ok now) ih = ih now.0
      go (err x) ih = tt
      go panic ih = tt

  bind_and_run-InSafety :
      (b : Binding) (s : CaServer K) (es : List (Event K))
      → InSafety false false (bind_and_run b s es).0
  unfolding bind_and_run
  bind_and_run-InSafety b s es = ground (arith, takes-InSafety true s es)

  -- Whatever the system answers and whatever connects, the CA server binds its socket only where no
  -- file is left, and takes its first connection only once the socket is restricted to its user.
  pub start-InSafety :
      (b : Binding) (s : CaServer K) (es : List (Event K))
      → InSafety b.metadata_is_ok false (start b s es).0
  unfolding start
  start-InSafety b s es = from_file b.metadata_is_ok
    where
      removed_first : (m : Outcome (Unit {0})) → InSafety true false (remove_and_run m b s es).0
      removed_first (ok u) = bind_and_run-InSafety b s es
      removed_first (err e) = tt
      removed_first panic = tt

      from_file :
          (is_file : Bool)
          → InSafety is_file false
              (if is_file then remove_and_run b.remove_file b s es else bind_and_run b s es).0
      from_file true = removed_first b.remove_file
      from_file false = bind_and_run-InSafety b s es
