-- ===== src/Ipc/Server/Replay.antt =====
-- Replay protection over a whole run of the server.
use ssh_certificate_authorit.Common.{
  ℕ, ◌<◌, ◌≡◌, refl, ap, ◌∙◌, ◌⊎◌, inl, inr, Option, none, some, List, [], ◌∷◌, Str, Bytes, Outcome,
  ok, err, panic, arith, subst,
}
use ssh_certificate_authorit.Text.Utf8.{as_bytes}
use ssh_certificate_authorit.Interfaces.{Files, SshKey, Formats, Draw}
use ssh_certificate_authorit.Authority.{CertificateAuthority}
use ssh_certificate_authorit.Ipc.{AuthenticatedRequest, Wire, ComparesBytes}
use ssh_certificate_authorit.Ipc.Server.{
  CaServer, Connection, Event, accepted, accept_failed, read_message, serve, step,
}
use ssh_certificate_authorit.Ipc.Server.Gate.{
  dispatched, dispatched-admits, after, serve-after, serve_refused, writes_after, admitted,
}

module _ (K : SshKey) (W : Wire K) (F : Formats) (server_uid : ℕ) where
  -- What the server writes, or how it ends, does not depend on the CA, its files and its random
  -- values.
  abbrev pub IsUntouched : CaServer K → Event K → Type 0
  IsUntouched s accept_failed = Unit
  IsUntouched s (accepted fs draw conn) =
      (fs' : Files) (draw' : Draw K) (ca' : CertificateAuthority K)
      → writes_after K W F server_uid
          (serve K W F server_uid fs' draw' (record s { ca = ca' }) conn)
        ≡ writes_after K W F server_uid (serve K W F server_uid fs draw s conn)

  -- The connection brings this request.
  abbrev pub Brings : Event K → AuthenticatedRequest K → Type 0
  Brings accept_failed r = ⊥
  Brings (accepted fs draw conn) r =
      (json : Str) × (read_message server_uid conn ≡ some json) × (W.request_from_str json ≡ ok r)

  -- In the loop of `run` at a server with this token, while `n` is the last counter: the CA has a
  -- part in the handling of an event only if it brings a request with the token and a counter past
  -- `n`, which is then the last one.
  abbrev pub IsGuarded : Bytes → ℕ → CaServer K → List (Event K) → Type 0
  IsGuarded token n s [] = Unit
  IsGuarded token n s (e ∷ es) =
      (IsUntouched s e × (elim (step K W F server_uid s e) as (λ _. Type 0) [
        | ok out ↦ IsGuarded token n out.0 es
        | err x ↦ Unit
        | panic ↦ Unit
      ]))
      ⊎ ((r : AuthenticatedRequest K) × Brings e r
          × (as_bytes r.token ≡ token)
          × (n < r.counter)
          × (elim (step K W F server_uid s e) as (λ _. Type 0) [
            | ok out ↦ IsGuarded token r.counter out.0 es
            | err x ↦ Unit
            | panic ↦ Unit
          ]))

  admitted-eq-some :
      (s : CaServer K) (m : Outcome (AuthenticatedRequest K)) {r : AuthenticatedRequest K}
      → admitted K W F server_uid s m ≡ some r
      → m ≡ ok r
  admitted-eq-some s m h = ground arith

  dispatched-is_fresh :
      (s : CaServer K) (conn : Connection) (r : AuthenticatedRequest K)
      → ComparesBytes W
      → dispatched K W F server_uid s conn ≡ some r
      → (as_bytes r.token ≡ as_bytes s.auth_token) × (s.last_counter < r.counter)
  dispatched-is_fresh s conn r cmp h = ground (
    arith,
    dispatched-admits K W F server_uid s conn h,
    (cmp (as_bytes r.token) (as_bytes s.auth_token)).0,
  )

  step-after :
      (s : CaServer K) (fs : Files) (draw : Draw K) (conn : Connection)
      (o : Option (AuthenticatedRequest K))
      → dispatched K W F server_uid s conn ≡ o
      → (out : CaServer K × List Bytes) → step K W F server_uid s (accepted fs draw conn) ≡ ok out
      → out.0 ≡ after K W F server_uid s o
  unfolding step
  step-after s fs draw conn o d out h =
      serve-after K W F server_uid fs draw s conn h ∙ ap (after K W F server_uid s) d

  dispatched-Brings :
      (s : CaServer K) (fs : Files) (draw : Draw K) (conn : Connection) {r : AuthenticatedRequest K}
      → dispatched K W F server_uid s conn ≡ some r
      → Brings (accepted fs draw conn) r
  unfolding dispatched
  dispatched-Brings s fs draw conn {r = r} h = parsed (read_message server_uid conn) refl h
    where
      parsed :
          (o : Option Str)
          → read_message server_uid conn ≡ o
          → (elim o as (λ _. Option (AuthenticatedRequest K)) [
            | none ↦ none
            | some json ↦ admitted K W F server_uid s (W.request_from_str json)
          ])
            ≡ some r
          → Brings (accepted fs draw conn) r
      parsed none e k = cc
      parsed (some json) e k = (json, e, admitted-eq-some s (W.request_from_str json) k)

  after_counter :
      (s : CaServer K) (o : Option (AuthenticatedRequest K))
      → as_bytes (after K W F server_uid s o).auth_token ≡ as_bytes s.auth_token
  after_counter s none = refl
  after_counter s (some r) = refl

  -- What follows a step, by its outcome.
  rest-IsGuarded :
      (s : CaServer K) (o : Option (AuthenticatedRequest K)) (es : List (Event K))
      (m : Outcome (CaServer K × List Bytes))
      → ((out : CaServer K × List Bytes) → m ≡ ok out → out.0 ≡ after K W F server_uid s o)
      → ((s' : CaServer K) → IsGuarded (as_bytes s'.auth_token) s'.last_counter s' es)
      → (elim m as (λ _. Type 0) [
        | ok out ↦
            IsGuarded (as_bytes s.auth_token) (after K W F server_uid s o).last_counter out.0 es
        | err x ↦ Unit
        | panic ↦ Unit
      ])
  rest-IsGuarded s o es (ok out) e ih =
      subst (λ t. IsGuarded t (after K W F server_uid s o).last_counter out.0 es)
        (after_counter s o)
        (subst (λ (s' : CaServer K). IsGuarded (as_bytes s'.auth_token) s'.last_counter out.0 es)
          (e out refl) (ih out.0))
  rest-IsGuarded s o es (err x) e ih = tt
  rest-IsGuarded s o es panic e ih = tt

  by_dispatched :
      (s : CaServer K) (fs : Files) (draw : Draw K) (conn : Connection) (es : List (Event K))
      (o : Option (AuthenticatedRequest K))
      → dispatched K W F server_uid s conn ≡ o
      → ComparesBytes W
      → ((s' : CaServer K) → IsGuarded (as_bytes s'.auth_token) s'.last_counter s' es)
      → IsGuarded (as_bytes s.auth_token) s.last_counter s (accepted fs draw conn ∷ es)
  by_dispatched s fs draw conn es none d cmp ih = inl (
    λ fs' draw' ca'. serve_refused K W F server_uid fs fs' draw draw' ca' s conn d,
    rest-IsGuarded s none es (step K W F server_uid s (accepted fs draw conn))
        (step-after s fs draw conn none d) ih,
  )
  by_dispatched s fs draw conn es (some r) d cmp ih =
      let (t, n) = dispatched-is_fresh s conn r cmp d in
      inr (
        r,
        dispatched-Brings s fs draw conn d,
        t,
        n,
        rest-IsGuarded s (some r) es (step K W F server_uid s (accepted fs draw conn))
            (step-after s fs draw conn (some r) d) ih,
      )

  -- When the comparison of tokens is that of their bytes, then whatever connects to the server, in
  -- whatever order, in the loop of `run` the CA, its files and its random values have a part in
  -- what is written, or in how the loop ends, only at connections that bring a request with the
  -- token, whose counter is past those of all such requests before it and past the last counter at
  -- the start.
  pub run-IsGuarded :
      (s : CaServer K) (es : List (Event K))
      → ComparesBytes W
      → IsGuarded (as_bytes s.auth_token) s.last_counter s es
  run-IsGuarded s [] cmp = tt
  run-IsGuarded s (accept_failed ∷ es) cmp = inl (
    tt,
    rest-IsGuarded s none es (step K W F server_uid s accept_failed) (λ out h. unfold step in cc)
        (λ s'. run-IsGuarded s' es cmp),
  )
  run-IsGuarded s (accepted fs draw conn ∷ es) cmp =
      by_dispatched s fs draw conn es (dispatched K W F server_uid s conn) refl cmp
        (λ s'. run-IsGuarded s' es cmp)
