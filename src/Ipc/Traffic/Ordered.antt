-- ===== src/Ipc/Traffic/Ordered.antt =====
-- When the numbers are drawn in the order of the connections, every request is let through.
use ssh_certificate_authorit.Common.{
  ℕ, ◌+◌, ◌≤◌, ◌<◌, ◌≡◌, refl, sym, ◌∙◌, subst, Bool, true, Option, none, some, List, [], ◌∷◌, ◌++◌,
  Str, All, arith,
}
use ssh_certificate_authorit.Interfaces.{SshKey, Formats}
use ssh_certificate_authorit.Ipc.{CaRequest, AuthenticatedRequest, Wire, ComparesBytes}
use ssh_certificate_authorit.Ipc.Client.{CaClient, fetch_add, checked_add_one}
use ssh_certificate_authorit.Ipc.Server.Gate.{admit-eq-some}
use ssh_certificate_authorit.Ipc.Traffic.{
  Traffic, numbered, served, Step, connect, number, serve, Reach, here, next, IsFresh,
}

abbrev IsNumbered {ℓ} : {A : Type ℓ} → Option A → Type 0
IsNumbered none = ⊥
IsNumbered (some a) = Unit

-- All connections in front have drawn their numbers.
abbrev pub InTurn : {K : SshKey} → List (Option (AuthenticatedRequest K)) → Type 0
InTurn before = All IsNumbered before

abbrev IsWaiting {ℓ} : {A : Type ℓ} → Option A → Type 0
IsWaiting none = Unit
IsWaiting (some a) = ⊥

-- The numbers of the queue grow from `low` on and stay within `high`, and the connections that have
-- none stand behind.
abbrev Ascends : {K : SshKey} → Str → ℕ → ℕ → List (Option (AuthenticatedRequest K)) → Type 0
Ascends token low high [] = low ≤ high
Ascends token low high (none ∷ q) = (low ≤ high) × All IsWaiting q
Ascends token low high (some r ∷ q) =
    (r.token ≡ token) × (low < r.counter) × Ascends token r.counter high q

module _ (K : SshKey) where
  All-IsWaiting-snoc :
      (q : List (Option (AuthenticatedRequest K)))
      → All IsWaiting q
      → All IsWaiting (q ++ none ∷ [])
  All-IsWaiting-snoc [] h = (tt, tt)
  All-IsWaiting-snoc (none ∷ q) h = (tt, All-IsWaiting-snoc q h.1)
  All-IsWaiting-snoc (some r ∷ q) h = absurd h.0

  Ascends-connect :
      (token : Str) (low high : ℕ) (q : List (Option (AuthenticatedRequest K)))
      → Ascends token low high q
      → Ascends token low high (q ++ none ∷ [])
  Ascends-connect token low high [] h = (h, tt)
  Ascends-connect token low high (none ∷ q) h = (h.0, All-IsWaiting-snoc q h.1)
  Ascends-connect token low high (some r ∷ q) h =
      (h.0, h.1, Ascends-connect token r.counter high q h.2)

  Ascends-waiting :
      (token : Str) (low : ℕ) (q : List (Option (AuthenticatedRequest K)))
      → All IsWaiting q
      → Ascends token low low q
  Ascends-waiting token low [] h = omega arith
  Ascends-waiting token low (none ∷ q) h = (omega arith, h.1)
  Ascends-waiting token low (some r ∷ q) h = absurd h.0

  Ascends-number :
      (token : Str) (low high : ℕ) (request : CaRequest K)
      (before after : List (Option (AuthenticatedRequest K)))
      → InTurn before
      → Ascends token low high (before ++ none ∷ after)
      → Ascends token low
          (high + 1)
          (before ++ some (record { token = token; counter = high + 1; request = request }) ∷ after)
  Ascends-number token low high request [] after b h =
      (refl, omega arith, Ascends-waiting token (high + 1) after h.1)
  Ascends-number token low high request (none ∷ before) after b h = absurd b.0
  Ascends-number token low high request (some r ∷ before) after b h =
      (h.0, h.1, Ascends-number token r.counter high request before after b.1 h.2)

  -- What every state has when the numbers are drawn in turn.
  pub record InOrder (t : Traffic K) : Type 0 where
    pub token : t.client.auth_token ≡ t.server.auth_token
    pub ascends : Ascends t.server.auth_token t.server.last_counter t.client.counter t.queue
    pub let_through : All (λ (e : AuthenticatedRequest K × Bool). e.1 ≡ true) t.log

module _ (K : SshKey) (W : Wire K) (F : Formats) (server_uid : ℕ) (cmp : ComparesBytes W) where
  numbered-by :
      (c : CaClient) {n : ℕ}
      → checked_add_one (fetch_add c).0 ≡ some n
      → (n ≡ c.counter + 1)
        × ((fetch_add c).1.counter ≡ c.counter + 1)
        × ((fetch_add c).1.auth_token ≡ c.auth_token)
  unfolding fetch_add checked_add_one
  numbered-by c e = ground arith

  moved :
      (t : Traffic K) (request : CaRequest K)
      (before after : List (Option (AuthenticatedRequest K))) (n : ℕ) {high : ℕ}
      → t.client.auth_token ≡ t.server.auth_token
      → n ≡ t.client.counter + 1
      → high ≡ t.client.counter + 1
      → Ascends t.server.auth_token t.server.last_counter (t.client.counter + 1) (
          before
          ++ some (record {
            token = t.server.auth_token;
            counter = t.client.counter + 1;
            request = request;
          })
            ∷ after)
      → Ascends t.server.auth_token t.server.last_counter high
          (before ++ some (numbered t.client n request) ∷ after)
  moved t request before after n e f g =
      subst
        (λ (b : Str × ℕ × ℕ).
          Ascends t.server.auth_token t.server.last_counter b.2
            (before ++ some (record { token = b.0; counter = b.1; request = request }) ∷ after))
        (λ i. (sym e i, sym f i, sym g i))

  served-InOrder :
      (t : Traffic K) (r : AuthenticatedRequest K) (rest : List (Option (AuthenticatedRequest K)))
      → InOrder K t
      → Ascends t.server.auth_token t.server.last_counter t.client.counter (some r ∷ rest)
      → InOrder K
          (served K W F server_uid t r rest (some (record t.server { last_counter = r.counter })))
  served-InOrder t r rest i a = record {
    token = i.token;
    ascends = a.2;
    let_through = (refl, i.let_through);
  }

  Step-InOrder : {t u : Traffic K} → Step K W F server_uid InTurn t u → InOrder K t → InOrder K u
  Step-InOrder {t} connect i = record {
    token = i.token;
    ascends = Ascends-connect K _ _ _ t.queue i.ascends;
    let_through = i.let_through;
  }
  Step-InOrder {t} (number request before after {n} p q e) i =
      let f = numbered-by t.client e in
      record {
        token = f.2 ∙ i.token;
        ascends = moved t request before after n i.token f.0 f.1 (
            Ascends-number K t.server.auth_token t.server.last_counter t.client.counter request
              before after p
              (subst (Ascends t.server.auth_token t.server.last_counter t.client.counter) q
                i.ascends));
        let_through = i.let_through;
      }
  Step-InOrder {t} (serve r rest q) i =
      let a =
        subst (Ascends t.server.auth_token t.server.last_counter t.client.counter) q i.ascends in
      subst (λ o. InOrder K (served K W F server_uid t r rest o))
        (sym (admit-eq-some K W F server_uid cmp t.server r a.0 a.1)) (served-InOrder t r rest i a)

  Reach-InOrder : {s t : Traffic K} → Reach K W F server_uid InTurn s t → InOrder K s → InOrder K t
  Reach-InOrder here i = i
  Reach-InOrder (next r st) i = Step-InOrder st (Reach-InOrder r i)

  IsFresh-InOrder : {s : Traffic K} → IsFresh s → InOrder K s
  IsFresh-InOrder {s} f = record {
    token = f.token;
    ascends =
        subst (Ascends s.server.auth_token s.server.last_counter s.client.counter) (sym f.no_queue)
          (omega arith);
    let_through = subst (All (λ (e : AuthenticatedRequest K × Bool). e.1 ≡ true)) (sym f.no_log) tt;
  }

  -- When the comparison of tokens is that of their bytes, and a client and a server start with the
  -- same token, the same counter and nothing under way, then however the tasks of the client and
  -- the server interleave, as long as each connection draws its number only after all those made
  -- before it that still wait have drawn theirs, the server lets every request through that it
  -- reads.
  pub Reach-let_through :
      {s t : Traffic K}
      → IsFresh s
      → Reach K W F server_uid InTurn s t
      → All (λ (e : AuthenticatedRequest K × Bool). e.1 ≡ true) t.log
  Reach-let_through f r = (Reach-InOrder r (IsFresh-InOrder f)).let_through
