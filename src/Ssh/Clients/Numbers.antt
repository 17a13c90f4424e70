-- ===== src/Ssh/Clients/Numbers.antt =====
-- Lists of the numbers of connections, and maps by them.
use ssh_certificate_authorit.Common.{
  ℕ, ◌+◌, ◌≤◌, ◌≡◌, refl, Bool, true, false, List, [], ◌∷◌, ◌++◌, All, any, ◌==◌, arith,
}
use ssh_certificate_authorit.Ssh.Handler.{without}

abbrev pub has : ℕ → List ℕ → Bool
has id ids = any (λ x. x == id) ids

-- No number stands twice.
abbrev pub Distinct : List ℕ → Type 0
Distinct [] = Unit
Distinct (id ∷ ids) = (has id ids ≡ false) × Distinct ids

abbrev pub keys_of {ℓ} : {A : Type ℓ} → List (ℕ × A) → List ℕ
keys_of [] = []
keys_of ((id, a) ∷ clients) = id ∷ keys_of clients

abbrev pub Known {ℓ} : {A : Type ℓ} → List ℕ → List (ℕ × A) → Type 0
Known ids [] = Unit
Known ids ((id, a) ∷ clients) = (has id ids ≡ true) × Known ids clients

module _ {ℓ} {A : Type ℓ} where
  pub has-without :
      (id k : ℕ) (c : List (ℕ × A))
      → has k (keys_of c) ≡ false
      → has k (keys_of (without id c)) ≡ false
  has-without id k [] h = refl
  has-without id k ((j, a) ∷ c) h = ground (arith, has-without id k c)

  pub has-without_self : (id : ℕ) (c : List (ℕ × A)) → has id (keys_of (without id c)) ≡ false
  has-without_self id [] = refl
  has-without_self id ((j, a) ∷ c) = ground (arith, has-without_self id c)

  pub Distinct-without :
      (id : ℕ) (c : List (ℕ × A)) → Distinct (keys_of c) → Distinct (keys_of (without id c))
  Distinct-without id [] h = tt
  Distinct-without id ((j, a) ∷ c) h = ground (arith, has-without id j c, Distinct-without id c h.1)

  pub Known-without :
      (id : ℕ) (ids ids' : List ℕ) (c : List (ℕ × A))
      → ((j : ℕ) → (j == id) ≡ false → has j ids ≡ true → has j ids' ≡ true)
      → Known ids c
      → Known ids' (without id c)
  Known-without id ids ids' [] p h = tt
  Known-without id ids ids' ((j, a) ∷ c) p h =
      ground (arith, p j, Known-without id ids ids' c p h.1)

pub has-mid : (id : ℕ) (before after : List ℕ) → has id (before ++ id ∷ after) ≡ true
has-mid id [] after = ground arith
has-mid id (b ∷ before) after = ground (arith, has-mid id before after)

pub has-drop_mid :
    (id : ℕ) (before after : List ℕ) (j : ℕ)
    → (j == id) ≡ false
    → has j (before ++ id ∷ after) ≡ true
    → has j (before ++ after) ≡ true
has-drop_mid id [] after j n h = ground arith
has-drop_mid id (b ∷ before) after j n h = ground (arith, has-drop_mid id before after j n)

pub has-drop_mid_false :
    (id : ℕ) (before after : List ℕ) (j : ℕ)
    → has j (before ++ id ∷ after) ≡ false
    → has j (before ++ after) ≡ false
has-drop_mid_false id [] after j h = ground arith
has-drop_mid_false id (b ∷ before) after j h = ground (arith, has-drop_mid_false id before after j)

pub Distinct-drop_mid :
    (id : ℕ) (before after : List ℕ) → Distinct (before ++ id ∷ after) → Distinct (before ++ after)
Distinct-drop_mid id [] after h = h.1
Distinct-drop_mid id (b ∷ before) after h =
    (has-drop_mid_false id before after b h.0, Distinct-drop_mid id before after h.1)

pub All-drop_mid :
    (n id : ℕ) (before after : List ℕ)
    → All (λ x. x ≤ n) (before ++ id ∷ after)
    → All (λ x. x ≤ n) (before ++ after)
All-drop_mid n id [] after h = h.1
All-drop_mid n id (b ∷ before) after h = (h.0, All-drop_mid n id before after h.1)

pub has-above : (n : ℕ) (ids : List ℕ) → All (λ x. x ≤ n) ids → has (n + 1) ids ≡ false
has-above n [] h = refl
has-above n (x ∷ ids) h = ground (arith, has-above n ids h.1)

pub All-suc : (n : ℕ) (ids : List ℕ) → All (λ x. x ≤ n) ids → All (λ x. x ≤ n + 1) ids
All-suc n [] h = tt
All-suc n (x ∷ ids) h = (omega arith, All-suc n ids h.1)

pub Known-cons {ℓ} :
    {A : Type ℓ} (id : ℕ) (ids : List ℕ) (c : List (ℕ × A)) → Known ids c → Known (id ∷ ids) c
Known-cons id ids [] h = tt
Known-cons id ids ((j, a) ∷ c) h = (ground arith, Known-cons id ids c h.1)
