-- ===== src/Ssh/Names/Usernames.antt =====
-- What `validate_username` lets through.
use ssh_certificate_authorit.Common.{
  ℕ, suc, ◌<◌, ◌≤◌, ◌≡◌, refl, ◌↔◌, ◌⊎◌, true, false, [], ◌∷◌, Str, length, all, All, arith, le→leb,
  lt→ltb, ap,
}
use ssh_certificate_authorit.Text.{is_empty}
use ssh_certificate_authorit.Text.Utf8.{as_bytes}
use ssh_certificate_authorit.Ssh.Names.{is_user_char, validate_username}

-- An ASCII letter or digit, or one of `.`, `_`, `@` and `-`.
abbrev pub IsUserChar : ℕ → Type 0
IsUserChar c =
    ((b'0' ≤ c) × (c ≤ b'9'))
    ⊎ ((b'A' ≤ c) × (c ≤ b'Z'))
    ⊎ ((b'a' ≤ c) × (c ≤ b'z'))
    ⊎ (c ≡ b'.')
    ⊎ (c ≡ b'_')
    ⊎ (c ≡ b'@')
    ⊎ (c ≡ b'-')

is_user_char_iff : (c : ℕ) → (is_user_char c ≡ true) ↔ IsUserChar c
unfolding is_user_char
is_user_char_iff c = (λ h. ground arith, λ h. ground arith)

all-is_user_char : (s : Str) → all is_user_char s ≡ true → All IsUserChar s
all-is_user_char [] h = tt
all-is_user_char (c ∷ s) h = ground (arith, (is_user_char_iff c).0, all-is_user_char s)

All-IsUserChar : (s : Str) → All IsUserChar s → all is_user_char s ≡ true
All-IsUserChar [] h = refl
All-IsUserChar (c ∷ s) h = rw ((is_user_char_iff c).1 h.0) (All-IsUserChar s h.1)

user_char-lt : (c : ℕ) → IsUserChar c → c < 0x80
user_char-lt c h = ground arith

-- Such a text has one byte for each character.
length-as_bytes : (s : Str) → All IsUserChar s → length (as_bytes s) ≡ length s
unfolding as_bytes
length-as_bytes [] h = refl
length-as_bytes (c ∷ s) h = rw (lt→ltb c 0x80 (user_char-lt c h.0)) (ap suc (length-as_bytes s h.1))

parts :
    (user : Str)
    → validate_username user ≡ true
    → (is_empty user ≡ false) × (length (as_bytes user) ≤ 64) × (all is_user_char user ≡ true)
unfolding validate_username
parts user h = ground arith

allowed :
    (user : Str)
    → validate_username user ≡ true
    → (0 < length user) × (length user ≤ 64) × All IsUserChar user
allowed [] h = cc (parts [] h).0
allowed (c ∷ s) h =
    let (n, b, a) = parts (c ∷ s) h in
    let chars = all-is_user_char (c ∷ s) a in
    (omega arith, omega (arith, length-as_bytes (c ∷ s) chars), chars)

allow :
    (user : Str)
    → (0 < length user) × (length user ≤ 64) × All IsUserChar user
    → validate_username user ≡ true
unfolding validate_username
allow [] (n, b, a) = absurd (omega arith)
allow (c ∷ s) (n, b, a) =
    rw (le→leb (length (as_bytes (c ∷ s))) 64 (omega (arith, length-as_bytes (c ∷ s) a)))
      (All-IsUserChar (c ∷ s) a)

-- A username is let through exactly if it has 1 to 64 characters, each an ASCII letter or digit or
-- one of `.`, `_`, `@` and `-`.
pub validate_username_iff :
    (user : Str)
    → (validate_username user ≡ true)
      ↔ ((0 < length user) × (length user ≤ 64) × All IsUserChar user)
validate_username_iff user = (allowed user, allow user)
