-- ===== src/UnitTests/CounterTests.antt =====
-- The unit tests of ca_client.rs. They need nothing but the client, so they all pass by evaluation,
-- and the one with threads in every order of their turns.
use ssh_certificate_authorit.Common.{
  ℕ, ◌+◌, ◌-◌, ◌*◌, ◌%◌, ◌^◌, ◌<◌, ◌≡◌, refl, ◌∙◌, Bool, true, false, Option, none, some, List, [],
  ◌∷◌, Outcome, ok, ◌>>◌, length, ◌==◌, arith, assert,
}
use ssh_certificate_authorit.Text.{codes}
use ssh_certificate_authorit.Ipc.Client
use ssh_certificate_authorit.Ipc.Client.{CaClient, fetch_add, checked_add_one}

abbrev client : CaClient
client = Client.new (codes "/tmp/test.sock") (codes "test-token")

test_counter_starts_at_zero : Outcome (Unit {0})
unfolding Client.new
test_counter_starts_at_zero = assert (client.counter == 0)

test_counter_increment_behavior : Outcome (Unit {0})
unfolding Client.new fetch_add
test_counter_increment_behavior =
    let (prev1, c1) = fetch_add client in
    let (prev2, c2) = fetch_add c1 in
    let (prev3, c3) = fetch_add c2 in
    assert (prev1 + 1 == 1) >> (assert (prev2 + 1 == 2) >> assert (prev3 + 1 == 3))

-- A clone has the same cell.
test_cloned_clients_share_counter : Outcome (Unit {0})
unfolding Client.new fetch_add
test_cloned_clients_share_counter =
    let (prev1, c1) = fetch_add client in
    let (prev2, c2) = fetch_add c1 in
    assert (prev1 + 1 == 1)
    >> (assert (prev2 + 1 == 2) >> (assert (c2.counter == 2) >> assert (c2.counter == 2)))

-- The threads take turns in some order; `schedule` names the thread of each turn.
raise_all : List ℕ → CaClient → CaClient
raise_all [] c = c
raise_all (thread ∷ schedule) c = raise_all schedule (fetch_add c).1

test_counter_thread_safety : List ℕ → Outcome (Unit {0})
unfolding raise_all Client.new
test_counter_thread_safety schedule = assert ((raise_all schedule client).counter == 1000)

abbrev is_some_of : ℕ → Option ℕ → Bool
is_some_of n none = false
is_some_of n (some m) = m == n

abbrev is_none : Option ℕ → Bool
is_none none = true
is_none (some m) = false

test_counter_near_max : Outcome (Unit {0})
unfolding Client.new fetch_add checked_add_one
test_counter_near_max =
    let (prev1, c1) = fetch_add (record client { counter = 2 ^ 64 - 3 }) in
    let (prev2, c2) = fetch_add c1 in
    let (prev3, c3) = fetch_add c2 in
    assert (is_some_of (2 ^ 64 - 2) (checked_add_one prev1))
    >> (assert (is_some_of (2 ^ 64 - 1) (checked_add_one prev2))
        >> (assert (prev3 == 2 ^ 64 - 1) >> assert (is_none (checked_add_one prev3))))

-- Each test passes.
starts_at_zero : test_counter_starts_at_zero ≡ ok tt
unfolding test_counter_starts_at_zero
starts_at_zero = refl

increments : test_counter_increment_behavior ≡ ok tt
unfolding test_counter_increment_behavior
increments = refl

clones_share : test_cloned_clients_share_counter ≡ ok tt
unfolding test_cloned_clients_share_counter
clones_share = refl

near_max : test_counter_near_max ≡ ok tt
unfolding test_counter_near_max
near_max = refl

counter-raise_all :
    (schedule : List ℕ) (c : CaClient)
    → c.counter + length schedule < 2 ^ 64
    → (raise_all schedule c).counter ≡ c.counter + length schedule
unfolding raise_all fetch_add
counter-raise_all [] c h = omega arith
counter-raise_all (thread ∷ schedule) c h =
    let e : (c.counter + 1) % 2 ^ 64 ≡ c.counter + 1 = omega arith in
    counter-raise_all schedule (record c { counter = (c.counter + 1) % 2 ^ 64 }) (omega arith)
    ∙ omega arith

-- In whatever order the threads take their turns, the counter is their number at the end.
thread_safe :
    (schedule : List ℕ) → length schedule ≡ 10 * 100 → test_counter_thread_safety schedule ≡ ok tt
unfolding test_counter_thread_safety
thread_safe schedule h =
    let e : (raise_all schedule client).counter ≡ length schedule =
      counter-raise_all schedule client (omega arith) ∙ omega arith in
    ground arith
