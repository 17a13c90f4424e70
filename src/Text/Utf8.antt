-- ===== src/Text/Utf8.antt =====
-- UTF-8: `str::as_bytes`, `String::from_utf8` and `String::from_utf8_lossy`.
use native.Mathlib.Decide.{dec_lt}
use ssh_certificate_authorit.Common.{
  ℕ, zero, suc, ◌+◌, ◌-◌, ◌*◌, ◌/◌, ◌%◌, ◌<◌, ◌≤◌, ◌≡◌, refl, ◌⊎◌, ◌&&◌, Option, none, some, List,
  [], ◌∷◌, ◌++◌, Str, Bytes, ltb, leb, if◌then◌else◌, arith, All, map, ap, ◌∙◌,
}

-- The bytes of a character.
encode_char : ℕ → Bytes
encode_char c =
    if ltb c 0x80
    then c ∷ []
    else if ltb c 0x800
    then (0xC0 + c / 0x40) ∷ (0x80 + c % 0x40) ∷ []
    else if ltb c 0x10000
    then (0xE0 + c / 0x1000) ∷ (0x80 + c / 0x40 % 0x40) ∷ (0x80 + c % 0x40) ∷ []
    else (0xF0 + c / 0x40000)
      ∷ (0x80 + c / 0x1000 % 0x40)
      ∷ (0x80 + c / 0x40 % 0x40)
      ∷ (0x80 + c % 0x40)
      ∷ []

-- `as_bytes`
unfoldable pub as_bytes : Str → Bytes
unfolding encode_char
as_bytes [] = []
as_bytes (c ∷ s) = encode_char c ++ as_bytes s

-- What a decoder waits for: a first byte, or a byte within bounds with so many to come after it.
pub data Pending : Type 0 where
  start : Pending
  within : (lo hi after acc : ℕ) → Pending

-- The first byte of a character; `none` marks an ill-formed sequence.
lead : ℕ → List (Option ℕ) × Pending
lead b =
    if ltb b 0x80
    then (some b ∷ [], start)
    else if ltb b 0xC2
    then (none ∷ [], start)
    else if ltb b 0xE0
    then ([], within 0x80 0xBF 0 (b - 0xC0))
    else if ltb b 0xE1
    then ([], within 0xA0 0xBF 1 (b - 0xE0))
    else if ltb b 0xED
    then ([], within 0x80 0xBF 1 (b - 0xE0))
    else if ltb b 0xEE
    then ([], within 0x80 0x9F 1 (b - 0xE0))
    else if ltb b 0xF0
    then ([], within 0x80 0xBF 1 (b - 0xE0))
    else if ltb b 0xF1
    then ([], within 0x90 0xBF 2 (b - 0xF0))
    else if ltb b 0xF4
    then ([], within 0x80 0xBF 2 (b - 0xF0))
    else if ltb b 0xF5
    then ([], within 0x80 0x8F 2 (b - 0xF0))
    else (none ∷ [], start)

next : ℕ → ℕ → List (Option ℕ) × Pending
next zero c = (some c ∷ [], start)
next (suc k) c = ([], within 0x80 0xBF k c)

-- A byte out of bounds ends the sequence as ill-formed, and is read as a first byte.
feed : Pending → ℕ → List (Option ℕ) × Pending
unfolding lead next
feed start b = lead b
feed (within lo hi after acc) b =
    if leb lo b && leb b hi
    then next after (acc * 0x40 + (b - 0x80))
    else (none ∷ (lead b).0, (lead b).1)

decode_from : Pending → Bytes → List (Option ℕ)
decode_from start [] = []
decode_from (within lo hi after acc) [] = none ∷ []
decode_from s (b ∷ bs) = let (out, s') = feed s b in out ++ decode_from s' bs

decode : Bytes → List (Option ℕ)
decode = decode_from start

abbrev or_replacement : Option ℕ → ℕ
or_replacement none = 0xFFFD
or_replacement (some c) = c

unfoldable pub from_utf8_lossy : Bytes → Str
unfolding decode decode_from feed
from_utf8_lossy bs = map or_replacement (decode bs)

sequence : List (Option ℕ) → Option Str
sequence [] = some []
sequence (none ∷ os) = none
sequence (some c ∷ os) = elim (sequence os) [ none ↦ none | some s ↦ some (c ∷ s) ]

unfoldable pub from_utf8 : Bytes → Option Str
unfolding decode decode_from feed sequence
from_utf8 bs = sequence (decode bs)

-- A Unicode scalar value, which is what a Rust `char` is.
abbrev pub IsScalar : ℕ → Type 0
IsScalar c = (c < 0xD800) ⊎ ((0xE000 ≤ c) × (c < 0x110000))

abbrev pub IsText : Str → Type 0
IsText = All IsScalar

-- One character at a time: its first byte, the bytes between, the last one.
feed-lead :
    (c : ℕ)
    → ((0x80 ≤ c) × (c < 0x800)
        → feed start (0xC0 + c / 0x40) ≡ ([], within 0x80 0xBF 0 (c / 0x40)))
      × (c < 0x80 → feed start c ≡ (some c ∷ [], start))
unfolding feed
feed-lead c = (λ h. ground arith, λ h. ground arith)

feed_last :
    (lo hi acc b c : ℕ)
    → lo ≤ b
    → b ≤ hi
    → acc * 0x40 + (b - 0x80) ≡ c
    → feed (within lo hi 0 acc) b ≡ (some c ∷ [], start)
unfolding feed
feed_last lo hi acc b c l h e = ground arith

feed_next :
    (lo hi k acc b c : ℕ)
    → lo ≤ b
    → b ≤ hi
    → acc * 0x40 + (b - 0x80) ≡ c
    → feed (within lo hi (suc k) acc) b ≡ ([], within 0x80 0xBF k c)
unfolding feed
feed_next lo hi k acc b c l h e = ground arith

-- The bounds on the second byte, as a function of the character: no overlong form, no surrogate,
-- nothing past 0x10FFFF.
lead_3 :
    (c : ℕ)
    → 0x800 ≤ c
    → c < 0x10000
    → IsScalar c
    → (lo : ℕ) × (hi : ℕ) × (feed start (0xE0 + c / 0x1000) ≡ ([], within lo hi 1 (c / 0x1000)))
      × (lo ≤ 0x80 + c / 0x40 % 0x40)
      × (0x80 + c / 0x40 % 0x40 ≤ hi)
unfolding feed
lead_3 c l h s = elim (dec_lt c 0x1000) [
  | yes p ↦ (0xA0, 0xBF, ground arith, omega arith, omega arith)
  | no p ↦ elim (dec_lt c 0xD000) [
    | yes q ↦ (0x80, 0xBF, ground arith, omega arith, omega arith)
    | no q ↦ elim (dec_lt c 0xE000) [
      | yes r ↦ (0x80, 0x9F, ground arith, omega arith, omega arith)
      | no r ↦ (0x80, 0xBF, ground arith, omega arith, omega arith)
    ]
  ]
]

lead_4 :
    (c : ℕ)
    → 0x10000 ≤ c
    → c < 0x110000
    → (lo : ℕ) × (hi : ℕ) × (feed start (0xF0 + c / 0x40000) ≡ ([], within lo hi 2 (c / 0x40000)))
      × (lo ≤ 0x80 + c / 0x1000 % 0x40)
      × (0x80 + c / 0x1000 % 0x40 ≤ hi)
unfolding feed
lead_4 c l h = elim (dec_lt c 0x40000) [
  | yes p ↦ (0x90, 0xBF, ground arith, omega arith, omega arith)
  | no p ↦ elim (dec_lt c 0x100000) [
    | yes q ↦ (0x80, 0xBF, ground arith, omega arith, omega arith)
    | no q ↦ (0x80, 0x8F, ground arith, omega arith, omega arith)
  ]
]

decode-three :
    (c : ℕ) (bs : Bytes)
    → 0x800 ≤ c
    → c < 0x10000
    → IsScalar c
    → decode_from start (encode_char c ++ bs) ≡ some c ∷ decode_from start bs
unfolding decode_from encode_char
decode-three c bs l h s =
    let (lo, hi, e, p, q) = lead_3 c l h s in
    ground (
      arith,
      e,
      feed_next lo hi 0 (c / 0x1000) (0x80 + c / 0x40 % 0x40) (c / 0x40) p q (omega arith),
      feed_last 0x80 0xBF (c / 0x40) (0x80 + c % 0x40) c (omega arith) (omega arith) (omega arith),
    )

decode-four :
    (c : ℕ) (bs : Bytes)
    → 0x10000 ≤ c
    → c < 0x110000
    → decode_from start (encode_char c ++ bs) ≡ some c ∷ decode_from start bs
unfolding decode_from encode_char
decode-four c bs l h =
    let (lo, hi, e, p, q) = lead_4 c l h in
    ground (
      arith,
      e,
      feed_next lo hi 1 (c / 0x40000) (0x80 + c / 0x1000 % 0x40) (c / 0x1000) p q (omega arith),
      feed_next 0x80 0xBF 0 (c / 0x1000) (0x80 + c / 0x40 % 0x40) (c / 0x40) (omega arith)
          (omega arith) (omega arith),
      feed_last 0x80 0xBF (c / 0x40) (0x80 + c % 0x40) c (omega arith) (omega arith) (omega arith),
    )

decode-encode_char :
    (c : ℕ) (bs : Bytes)
    → IsScalar c
    → decode_from start (encode_char c ++ bs) ≡ some c ∷ decode_from start bs
unfolding decode_from encode_char
decode-encode_char c bs s = elim (dec_lt c 0x80) [
  | yes p ↦ ground (arith, (feed-lead c).1)
  | no p ↦ elim (dec_lt c 0x800) [
    | yes q ↦ ground (
      arith,
      (feed-lead c).0 (omega arith),
      feed_last 0x80 0xBF (c / 0x40) (0x80 + c % 0x40) c (omega arith) (omega arith) (omega arith),
    )
    | no q ↦ elim (dec_lt c 0x10000) [
      | yes r ↦ decode-three c bs (omega arith) r s
      | no r ↦ decode-four c bs (omega arith) (omega arith)
    ]
  ]
]

decode-as_bytes : (s : Str) → IsText s → decode_from start (as_bytes s) ≡ map some s
unfolding as_bytes decode_from
decode-as_bytes [] t = refl
decode-as_bytes (c ∷ s) t =
    decode-encode_char c (as_bytes s) t.0 ∙ ap (λ l. some c ∷ l) (decode-as_bytes s t.1)

sequence-map-some : (s : Str) → sequence (map some s) ≡ some s
unfolding sequence
sequence-map-some [] = refl
sequence-map-some (c ∷ s) = ground (arith, sequence-map-some s)

map-or_replacement : (s : Str) → map or_replacement (map some s) ≡ s
map-or_replacement [] = refl
map-or_replacement (c ∷ s) = ap (λ l. c ∷ l) (map-or_replacement s)

-- The bytes of a string read back as that string, by either decoder.
pub from_utf8-as_bytes : (s : Str) → IsText s → from_utf8 (as_bytes s) ≡ some s
unfolding from_utf8
from_utf8-as_bytes s t = ap sequence (decode-as_bytes s t) ∙ sequence-map-some s

pub from_utf8_lossy-as_bytes : (s : Str) → IsText s → from_utf8_lossy (as_bytes s) ≡ s
unfolding from_utf8_lossy
from_utf8_lossy-as_bytes s t = ap (map or_replacement) (decode-as_bytes s t) ∙ map-or_replacement s
