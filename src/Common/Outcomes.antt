-- ===== src/Common/Outcomes.antt =====
-- What a Rust function that returns `anyhow::Result` does: it returns a value, it returns an
-- error, or it panics. The errors are those of certificat_authority, identiy_handlers and config,
-- and those of the libraries, which are known by their message.
use Prim.Native.Nat.{ℕ}
use mathlib.Core.Path.{◌≡◌, refl}
use mathlib.Core.List.{List}
use mathlib.Core.Bool.{Bool, true, false}
use ssh_certificate_authorit.Common.Tests.{if◌then◌else◌}

-- A Rust string, as the list of its `char`s.
abbrev pub Str : Type 0
Str = List ℕ

abbrev pub Bytes : Type 0
Bytes = List ℕ

pub data Error : Type 0 where
  foreign : Str → Error
  wrong_public_key : Str → Error
  inventory_unresolved : Str → Error
  host_path_unresolved : Str → Error
  path_traversal : Error
  template_too_large : Str → Error
  config_missing : Str → Error
  key_missing : Str → Error
  forbidden_user : Str → Error
  counter_exhausted : Error
  request_too_large : ℕ → Error
  response_too_large : ℕ → Error
  not_utf8 : Error
  invalid_utf8 : Error
  short_read : Error

pub data Outcome {ℓ} (A : Type ℓ) : Type ℓ where
  ok : A → Outcome A
  err : Error → Outcome A
  panic : Outcome A

module _ {ℓ κ} {A : Type ℓ} {B : Type κ} where
  infixl 5 ◌>>=◌ ◌>>◌
  -- The operator `?`, with what comes after it.
  abbrev pub ◌>>=◌ : Outcome A → (A → Outcome B) → Outcome B
  panic >>= next = panic
  err e >>= next = err e
  ok value >>= next = next value

  abbrev pub ◌>>◌ : Outcome A → Outcome B → Outcome B
  first >> second = first >>= λ _. second

-- `map_err`
abbrev pub map_err {ℓ} : {A : Type ℓ} → (Error → Error) → Outcome A → Outcome A
map_err f (ok a) = ok a
map_err f (err e) = err (f e)
map_err f panic = panic

module _ {ℓ κ} {A : Type ℓ} {B : Type κ} where
  -- A block that returned, taken apart: the rest of the proof is the last argument.
  pub >>=-ok-then {μ} :
      {C : Type μ} (first : Outcome A) (next : A → Outcome B) {result : B}
      → (first >>= next) ≡ ok result
      → ((value : A) → first ≡ ok value → next value ≡ ok result → C)
      → C
  >>=-ok-then panic next h k = cc
  >>=-ok-then (err e) next h k = cc
  >>=-ok-then (ok value) next h k = k value refl h

  pub >>=-ok :
      (first : Outcome A) (next : A → Outcome B) {value : A}
      → first ≡ ok value
      → (first >>= next) ≡ next value
  >>=-ok first next e = λ i. e i >>= next

  -- `>>=-ok-then`, as a tuple.
  pub >>=-eq-ok :
      (first : Outcome A) (next : A → Outcome B) {result : B}
      → (first >>= next) ≡ ok result
      → (value : A) × (first ≡ ok value) × (next value ≡ ok result)
  >>=-eq-ok first next h = >>=-ok-then first next h λ value e r. (value, e, r)

-- `unwrap` and `expect`
abbrev pub unwrap {ℓ} : {A : Type ℓ} → Outcome A → Outcome A
unwrap (ok a) = ok a
unwrap (err e) = panic
unwrap panic = panic

-- `assert!`
abbrev pub assert : Bool → Outcome (Unit {0})
assert true = ok tt
assert false = panic

-- A value or an error, and no panic.
abbrev pub Calm {ℓ} : {A : Type ℓ} → Outcome A → Type 0
Calm (ok a) = Unit
Calm (err e) = Unit
Calm panic = ⊥

pub Calm->>= {ℓ κ} :
    {A : Type ℓ} {B : Type κ} (first : Outcome A) (next : A → Outcome B)
    → Calm first
    → ((value : A) → Calm (next value))
    → Calm (first >>= next)
Calm->>= (ok value) next h k = k value
Calm->>= (err e) next h k = tt
Calm->>= panic next h k = absurd h

-- The same, where the rest may use that the first part returned.
pub Calm->>=-ok {ℓ κ} :
    {A : Type ℓ} {B : Type κ} (first : Outcome A) (next : A → Outcome B)
    → Calm first
    → ((value : A) → first ≡ ok value → Calm (next value))
    → Calm (first >>= next)
Calm->>=-ok (ok value) next h k = k value refl
Calm->>=-ok (err e) next h k = tt
Calm->>=-ok panic next h k = absurd h

pub Calm-if {ℓ} :
    {A : Type ℓ} (b : Bool) (x y : Outcome A) → Calm x → Calm y → Calm (if b then x else y)
Calm-if true x y h k = h
Calm-if false x y h k = k

pub Calm-map_err {ℓ} :
    {A : Type ℓ} (f : Error → Error) (m : Outcome A) → Calm m → Calm (map_err f m)
Calm-map_err f (ok a) h = tt
Calm-map_err f (err e) h = tt
Calm-map_err f panic h = h

-- What is calm on values and on errors is calm on an outcome that is calm.
pub Calm-elim {ℓ κ} :
    {A : Type ℓ} {B : Type κ} (f : Outcome A → Outcome B) (m : Outcome A)
    → Calm m
    → ((value : A) → m ≡ ok value → Calm (f (ok value)))
    → ((e : Error) → Calm (f (err e)))
    → Calm (f m)
Calm-elim f (ok a) h k l = k a refl
Calm-elim f (err e) h k l = l e
Calm-elim f panic h k l = absurd h
