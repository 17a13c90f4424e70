-- ===== src/Tests/Interleaved.antt =====
-- Witnesses about requests that are under way at one time.
use ssh_certificate_authorit.Common.{
  ℕ, ◌≡◌, refl, Bool, true, false, none, some, [], ◌∷◌, arith, All,
}
use ssh_certificate_authorit.Ipc.{AuthenticatedRequest, check_public_key}
use ssh_certificate_authorit.Ipc.Client.{fetch_add, checked_add_one}
use ssh_certificate_authorit.Ipc.Server.{admit}
use ssh_certificate_authorit.Ipc.Traffic.{
  Traffic, numbered, served, connect, number, serve, Reach, here, next,
}
use ssh_certificate_authorit.Ipc.Traffic.Ordered.{InTurn, Reach-let_through}
use ssh_certificate_authorit.Ipc.Traffic.Overtaken.{AnyTurn, Reach-overtaken}
use ssh_certificate_authorit.Tests.Toy.{keys, wire, wire_compares}
use ssh_certificate_authorit.Tests.World.{formats, server, client}

abbrev started : Traffic keys
started = record { client = record client { counter = 2 }; server = server; queue = []; log = [] }

abbrev asked : ℕ → ℕ → AuthenticatedRequest keys
asked n k = numbered client n (check_public_key k)

-- Both connections have drawn their numbers in turn.
abbrev both : Traffic keys
both = record started {
  client = record client { counter = 4 };
  queue = some (asked 3 b'W') ∷ some (asked 4 b'D') ∷ [];
}

abbrev one_served : Traffic keys
one_served =
    served keys wire formats 100 both (asked 3 b'W') (some (asked 4 b'D') ∷ [])
      (admit keys wire formats 100 server (asked 3 b'W'))

one_served_reached : Reach keys wire formats 100 InTurn started one_served
unfolding fetch_add checked_add_one
one_served_reached =
    next
      (next
        (next (next (next here connect) connect)
          (number (check_public_key b'W') [] (none ∷ []) {n = 3} tt refl refl))
        (number (check_public_key b'D') (some (asked 3 b'W') ∷ []) [] {n = 4} (tt, tt) refl refl))
      (serve (asked 3 b'W') (some (asked 4 b'D') ∷ []) refl)

Reach-let_through_example :
    All (λ (e : AuthenticatedRequest keys × Bool). e.1 ≡ true) one_served.log
Reach-let_through_example =
    Reach-let_through keys wire formats 100 wire_compares
      (record { token = refl; counters = refl; no_queue = refl; no_log = refl }) one_served_reached

abbrev two_waiting : Traffic keys
two_waiting = record started { queue = none ∷ none ∷ [] }

Reach-overtaken_example :
    (u : Traffic keys) × Reach keys wire formats 100 AnyTurn two_waiting u
    × (u.queue ≡ [])
    × (u.log ≡ (asked 3 b'D', false) ∷ (asked 4 b'W', true) ∷ [])
Reach-overtaken_example =
    Reach-overtaken keys wire formats 100 wire_compares two_waiting (check_public_key b'W')
      (check_public_key b'D') [] refl (omega arith) (omega arith) refl
