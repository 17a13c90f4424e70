-- ===== src/Ssh/Names/Refused.antt =====
-- What `validate_hostname` refuses.
use ssh_certificate_authorit.Common.{
  ℕ, ◌≡◌, ◌≢◌, refl, ◌↔◌, true, false, Bool-cases, inl, inr, none, [], ◌∷◌, ◌++◌, Str, All, arith,
  ap,
}
use ssh_certificate_authorit.Text.{codes, contains_char, contains_str, starts_with}
use ssh_certificate_authorit.Ssh.Names.{validate_hostname}

starts_with_sound : (s p : Str) → starts_with s p ≡ true → (after : Str) × (s ≡ p ++ after)
starts_with_sound s [] h = (s, refl)
starts_with_sound [] (y ∷ p) h = cc
starts_with_sound (x ∷ s) (y ∷ p) h =
    let head : x ≡ y = ground arith in
    let (after, e) = starts_with_sound s p (ground arith) in (after, λ i. head i ∷ e i)

starts_with-append : (p after : Str) → starts_with (p ++ after) p ≡ true
starts_with-append [] after = refl
starts_with-append (y ∷ p) after = ground (arith, starts_with-append p after)

-- Where the text that is looked for stands.
contains_str_sound :
    (p s : Str)
    → contains_str p s ≡ true
    → (before : Str) × (after : Str) × (s ≡ before ++ p ++ after)
contains_str_sound p [] h = let (after, e) = starts_with_sound [] p h in ([], after, e)
contains_str_sound p (x ∷ s) h = elim (Bool-cases (starts_with (x ∷ s) p)) [
  | inl here ↦ let (after, e) = starts_with_sound (x ∷ s) p here in ([], after, e)
  | inr further ↦
      let (before, after, e) = contains_str_sound p s (ground arith) in
      (x ∷ before, after, ap (λ l. x ∷ l) e)
]

contains_str_here : (p s : Str) → starts_with s p ≡ true → contains_str p s ≡ true
contains_str_here p [] h = h
contains_str_here p (x ∷ s) h = ground arith

contains_str-append : (p before after : Str) → contains_str p (before ++ p ++ after) ≡ true
contains_str-append p [] after = contains_str_here p (p ++ after) (starts_with-append p after)
contains_str-append p (x ∷ before) after = ground (arith, contains_str-append p before after)

contains_char_iff : (c : ℕ) (s : Str) → (contains_char c s ≡ false) ↔ All (λ x. x ≢ c) s
contains_char_iff c [] = (λ h. tt, λ h. refl)
contains_char_iff c (x ∷ s) =
    let (there, back) = contains_char_iff c s in
    (λ h. (λ e. ground arith, there (ground arith)), λ h. ground (arith, back h.1, h.0))

hostname-parts :
    (host_name : Str)
    → validate_hostname host_name ≡ none
    → (host_name ≢ [])
      × (contains_char b'/' host_name ≡ false)
      × (contains_char b'\\' host_name ≡ false)
      × (contains_str (codes "..") host_name ≡ false)
      × (contains_char 0 host_name ≡ false)
unfolding validate_hostname
hostname-parts [] h = cc
hostname-parts (c ∷ s) h = (λ e. cc, ground arith, ground arith, ground arith, ground arith)

hostname_of_parts :
    (host_name : Str)
    → host_name ≢ []
    → contains_char b'/' host_name ≡ false
    → contains_char b'\\' host_name ≡ false
    → contains_str (codes "..") host_name ≡ false
    → contains_char 0 host_name ≡ false
    → validate_hostname host_name ≡ none
unfolding validate_hostname
hostname_of_parts [] n a b d z = absurd (n refl)
hostname_of_parts (c ∷ s) n a b d z = rw (a, b, d, z) refl

no_dots :
    (host_name : Str)
    → ((before after : Str) → host_name ≢ before ++ codes ".." ++ after)
    → contains_str (codes "..") host_name ≡ false
no_dots host_name d = elim (Bool-cases (contains_str (codes "..") host_name)) [
  | inl there ↦
      let (before, after, e) = contains_str_sound (codes "..") host_name there in
      absurd (d before after e)
  | inr none_there ↦ none_there
]

-- A host name is let through exactly if it is not empty, no character of it is a slash, a backslash
-- or NUL, and no two dots stand next to each other in it.
pub validate_hostname_iff :
    (host_name : Str)
    → (validate_hostname host_name ≡ none) ↔ (
        (host_name ≢ [])
        × All (λ c. c ≢ b'/') host_name
        × All (λ c. c ≢ b'\\') host_name
        × All (λ c. c ≢ 0) host_name
        × ((before after : Str) → host_name ≢ before ++ codes ".." ++ after))
validate_hostname_iff host_name = (
  λ h.
      let (n, a, b, d, z) = hostname-parts host_name h in
      (
        n,
        (contains_char_iff b'/' host_name).0 a,
        (contains_char_iff b'\\' host_name).0 b,
        (contains_char_iff 0 host_name).0 z,
        λ before after e.
            cc (d, ap (contains_str (codes "..")) e, contains_str-append (codes "..") before after),
      ),
  λ (n, a, b, z, d).
      hostname_of_parts host_name n ((contains_char_iff b'/' host_name).1 a)
        ((contains_char_iff b'\\' host_name).1 b) (no_dots host_name d)
        ((contains_char_iff 0 host_name).1 z),
)
