-- ===== src/Text.antt =====
-- Rust strings as far as the program uses them: literals, equality, `contains`, `len`, `format!`.
pub mod Utf8
pub mod Words
pub mod Decimal
use Prim.Native.Char.{code}
use Prim.Native.String
use ssh_certificate_authorit.Common.{
  ℕ, zero, suc, ◌+◌, ◌-◌, ◌*◌, ◌/◌, ◌%◌, ◌<◌, ◌≡◌, refl, ◌↔◌, Bool, true, false, ◌&&◌, ◌||◌, List,
  [], ◌∷◌, ◌++◌, Str, ltb, leb, ◌==◌, if◌then◌else◌, arith, all, any, ap, ap₂, ==_iff, Bool-cases,
  inl, inr, ◌∙◌, String,
}

-- A literal, as the list of its characters.
abbrev pub codes : String → Str
codes String.[] = []
codes (String.◌∷◌ c s) = code c ∷ codes s

-- `==` on strings.
unfoldable pub str_eq : Str → Str → Bool
str_eq [] [] = true
str_eq [] (y ∷ ys) = false
str_eq (x ∷ xs) [] = false
str_eq (x ∷ xs) (y ∷ ys) = x == y && str_eq xs ys

str_eq_sound : (s t : Str) → str_eq s t ≡ true → s ≡ t
unfolding str_eq
str_eq_sound [] [] h = refl
str_eq_sound [] (y ∷ ys) h = cc
str_eq_sound (x ∷ xs) [] h = cc
str_eq_sound (x ∷ xs) (y ∷ ys) h = ground (arith, str_eq_sound xs ys)

str_eq_refl : (s : Str) → str_eq s s ≡ true
unfolding str_eq
str_eq_refl [] = refl
str_eq_refl (x ∷ xs) = ground (arith, str_eq_refl xs)

pub str_eq_iff : (s t : Str) → (str_eq s t ≡ true) ↔ (s ≡ t)
str_eq_iff s t = (str_eq_sound s t, λ e. subst_eq e)
  where
    subst_eq : s ≡ t → str_eq s t ≡ true
    subst_eq e = rw e (str_eq_refl t)

-- `s.contains(c)` for a character.
abbrev pub contains_char : ℕ → Str → Bool
contains_char c s = any (λ x. x == c) s

-- `s.starts_with(p)`
abbrev pub starts_with : Str → Str → Bool
starts_with s [] = true
starts_with [] (y ∷ ys) = false
starts_with (x ∷ xs) (y ∷ ys) = x == y && starts_with xs ys

-- `s.contains(p)` for a string.
abbrev pub contains_str : Str → Str → Bool
contains_str p [] = starts_with [] p
contains_str p (x ∷ xs) = starts_with (x ∷ xs) p || contains_str p xs

abbrev pub is_empty : Str → Bool
is_empty [] = true
is_empty (c ∷ s) = false

-- `char::is_ascii_alphanumeric`
abbrev pub is_ascii_alphanumeric : ℕ → Bool
is_ascii_alphanumeric c =
    leb b'0' c && leb c b'9' || leb b'A' c && leb c b'Z' || leb b'a' c && leb c b'z'
