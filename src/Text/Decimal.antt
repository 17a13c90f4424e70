-- ===== src/Text/Decimal.antt =====
-- `{}` on an unsigned integer.
use ssh_certificate_authorit.Common.{
  ℕ, zero, suc, ◌+◌, ◌*◌, ◌-◌, ◌/◌, ◌%◌, ◌^◌, ◌<◌, ◌≡◌, refl, ap, ◌∙◌, Bool, true, false, [], ◌∷◌,
  Str, ltb, ltb→lt, if◌then◌else◌, arith,
}

-- The digits of `n` in front of `s`.
digits : ℕ → ℕ → Str → Str
digits zero n s = s
digits (suc fuel) n s =
    let d = b'0' + n % 10 in
    let rest = digits fuel (n / 10) (d ∷ s) in if ltb n 10 then d ∷ s else rest

-- A `u64` has twenty digits at most.
unfoldable pub decimal : ℕ → Str
unfolding digits
decimal n = digits 20 n []

decimal_max :
    decimal (2 ^ 64)
    ≡ b'1' ∷ b'8' ∷ b'4' ∷ b'4' ∷ b'6' ∷ b'7' ∷ b'4' ∷ b'4' ∷ b'0' ∷ b'7' ∷ b'3' ∷ b'7' ∷ b'0'
      ∷ b'9' ∷ b'5' ∷ b'5' ∷ b'1' ∷ b'6' ∷ b'1' ∷ b'6' ∷ []
unfolding decimal
decimal_max = refl

-- The number that a text of digits stands for, after the digits of `acc`.
abbrev value : ℕ → Str → ℕ
value acc [] = acc
value acc (c ∷ s) = value (acc * 10 + (c - b'0')) s

value-digits : (fuel n : ℕ) (s : Str) → n < 10 ^ fuel → value 0 (digits fuel n s) ≡ value n s
unfolding digits
value-digits zero n s h = ap (λ m. value m s) (omega arith)
value-digits (suc fuel) n s h =
    by_size (ltb n 10) refl (value-digits fuel (n / 10) ((b'0' + n % 10) ∷ s) (omega arith))
  where
    by_size :
        (b : Bool)
        → ltb n 10 ≡ b
        → value 0 (digits fuel (n / 10) ((b'0' + n % 10) ∷ s))
          ≡ value (n / 10) ((b'0' + n % 10) ∷ s)
        → value 0 (if b then (b'0' + n % 10) ∷ s else digits fuel (n / 10) ((b'0' + n % 10) ∷ s))
          ≡ value n s
    by_size true e ih = let small : n < 10 = ltb→lt n 10 e in ap (λ m. value m s) (omega arith)
    by_size false e ih = ih ∙ ap (λ m. value m s) (omega arith)

-- A `u64` is printed with all its digits: they stand for it.
value-decimal : (n : ℕ) → n < 2 ^ 64 → value 0 (decimal n) ≡ n
unfolding decimal
value-decimal n h = value-digits 20 n [] (omega arith)
