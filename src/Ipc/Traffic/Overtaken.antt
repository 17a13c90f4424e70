-- ===== src/Ipc/Traffic/Overtaken.antt =====
-- Two connections that draw their numbers in the other order.
use ssh_certificate_authorit.Common.{
  ℕ, ◌+◌, ◌^◌, ◌≤◌, ◌<◌, ◌≡◌, refl, subst, true, false, Option, none, some, List, [], ◌∷◌, arith,
}
use ssh_certificate_authorit.Interfaces.{SshKey, Formats}
use ssh_certificate_authorit.Ipc.{CaRequest, AuthenticatedRequest, Wire, ComparesBytes}
use ssh_certificate_authorit.Ipc.Client.{CaClient, fetch_add, checked_add_one}
use ssh_certificate_authorit.Ipc.Server.Gate.{admit-eq-some, admit-eq-none}
use ssh_certificate_authorit.Ipc.Traffic.{
  Traffic, numbered, served, Step, number, serve, Reach, here, next,
}

abbrev pub AnyTurn : {K : SshKey} → List (Option (AuthenticatedRequest K)) → Type 0
AnyTurn before = Unit

module _ (K : SshKey) (W : Wire K) (F : Formats) (server_uid : ℕ) (cmp : ComparesBytes W) where
  draw_first :
      (c : CaClient)
      → c.counter + 2 < 2 ^ 64
      → checked_add_one (fetch_add c).0 ≡ some (c.counter + 1)
  unfolding fetch_add checked_add_one
  draw_first c h = ground arith

  draw_second :
      (c : CaClient)
      → c.counter + 2 < 2 ^ 64
      → checked_add_one (fetch_add (fetch_add c).1).0 ≡ some (c.counter + 2)
  unfolding fetch_add checked_add_one
  draw_second c h = ground arith

  -- When the comparison of tokens is that of their bytes and the client has the server's token,
  -- then wherever two connections stand in front of the queue that have no numbers yet, and the
  -- counter is not near its end, the tasks can go on so that the server lets the first request
  -- through and refuses the second one, although it has the token and is numbered by the client.
  pub Reach-overtaken :
      (t : Traffic K) (a b : CaRequest K) (rest : List (Option (AuthenticatedRequest K)))
      → t.client.auth_token ≡ t.server.auth_token
      → t.server.last_counter ≤ t.client.counter
      → t.client.counter + 2 < 2 ^ 64
      → t.queue ≡ none ∷ none ∷ rest
      → (u : Traffic K) × Reach K W F server_uid AnyTurn t u
        × (u.queue ≡ rest)
        × (u.log
            ≡ (numbered t.client (t.client.counter + 1) b, false)
              ∷ (numbered t.client (t.client.counter + 2) a, true)
              ∷ t.log)
  unfolding fetch_add
  Reach-overtaken t a b rest e n h q =
      let c = t.client in
      let first = numbered c (c.counter + 2) a in
      let second = numbered c (c.counter + 1) b in
      let c' = (fetch_add c).1 in
      let t1 : Traffic K = record t { client = c'; queue = none ∷ some second ∷ rest } in
      let t2 : Traffic K = record t1 {
        client = (fetch_add c').1;
        queue = some first ∷ some second ∷ rest;
      } in
      let s' = record t.server { last_counter = c.counter + 2 } in
      let t3 = served K W F server_uid t2 first (some second ∷ rest) (some s') in
      let step3 : Step K W F server_uid AnyTurn t2 t3 =
        subst
          (λ o.
            Step K W F server_uid AnyTurn t2
              (served K W F server_uid t2 first (some second ∷ rest) o))
          (admit-eq-some K W F server_uid cmp t.server first e (omega arith))
          (serve first (some second ∷ rest) refl) in
      let u = served K W F server_uid t3 second rest none in
      let step4 : Step K W F server_uid AnyTurn t3 u =
        subst (λ o. Step K W F server_uid AnyTurn t3 (served K W F server_uid t3 second rest o))
          (admit-eq-none K W F server_uid s' second (omega arith)) (serve second rest refl) in
      let reach : Reach K W F server_uid AnyTurn t u =
        next
          (next
            (next (next here (number b (none ∷ []) rest tt q (draw_first c h)))
              (number a [] (some second ∷ rest) tt refl (draw_second c h)))
            step3)
          step4 in
      (u, reach, refl, refl)
