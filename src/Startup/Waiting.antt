-- ===== src/Startup/Waiting.antt =====
-- The wait for the socket of the CA.
use ssh_certificate_authorit.Common.{
  ℕ, zero, suc, ◌+◌, ◌≤◌, ◌≡◌, ◌↔◌, ◌⊎◌, ◌-◌, subst, Bool, true, arith, Bool-cases, inl, inr, Str,
}
use ssh_certificate_authorit.FilePath.{FilePath}
use ssh_certificate_authorit.Startup.{System, polls, socket_there, returned, serve_ssh, killed}

module _ (sys : System) where
  -- Once it is there, the socket stays.
  abbrev pub Stays : Type 0
  Stays = (n : ℕ) → sys.socket_exists n ≡ true → sys.socket_exists (n + 1) ≡ true

  polls_bounds : (n i : ℕ) → (i ≤ polls sys n i) × (polls sys n i ≤ i + n)
  unfolding polls
  polls_bounds zero i = omega arith
  polls_bounds (suc n) i = ground (arith, polls_bounds n (i + 1))

  stays-add : Stays → (k i : ℕ) → sys.socket_exists i ≡ true → sys.socket_exists (i + k) ≡ true
  stays-add st zero i h = subst (λ m. sys.socket_exists m ≡ true) (omega arith) h
  stays-add st (suc k) i h =
      subst (λ m. sys.socket_exists m ≡ true) (omega arith) (stays-add st k (i + 1) (st i h))

  -- The look after the loop finds it if the last one would.
  polls_found :
      Stays
      → (n i : ℕ) → sys.socket_exists (i + n) ≡ true
      → sys.socket_exists (polls sys n i) ≡ true
  unfolding polls
  polls_found st zero i h = subst (λ m. sys.socket_exists m ≡ true) (omega arith) h
  polls_found st (suc n) i h = elim (Bool-cases (sys.socket_exists i)) [
    | inl e ↦ rw e (st i e)
    | inr e ↦
        rw e (polls_found st n (i + 1) (subst (λ m. sys.socket_exists m ≡ true) (omega arith) h))
  ]

  polls_late :
      Stays
      → (n i : ℕ) → sys.socket_exists (polls sys n i) ≡ true
      → sys.socket_exists (i + n) ≡ true
  polls_late st n i h =
      let (low, high) = polls_bounds n i in
      subst (λ m. sys.socket_exists m ≡ true) (omega (arith, low, high))
        (stays-add st (i + n - polls sys n i) (polls sys n i) h)

  -- The wait for the socket of the CA ends: there are ten looks at most before the last one. When
  -- the socket stays once it is there, the SSH server goes on exactly if it is there by the
  -- eleventh look, and else it returns, with the CA killed if it was spawned, and nothing started.
  pub serve_ssh-waits :
      (child : Bool) (socket : FilePath) (token : Str)
      → Stays
      → (polls sys 10 0 ≤ 10)
        × ((socket_there sys ≡ true) ↔ (sys.socket_exists 10 ≡ true))
        × ((sys.socket_exists 10 ≡ true)
            ⊎ (serve_ssh sys child socket token ≡ (killed sys child, returned)))
  unfolding serve_ssh
  serve_ssh-waits child socket token st = (
    (polls_bounds 10 0).1,
    (polls_late st 10 0, polls_found st 10 0),
    elim (Bool-cases (sys.socket_exists 10)) [
      | inl e ↦ inl e
      | inr e ↦ inr (ground (arith, polls_late st 10 0))
    ],
  )
