-- ===== src/Ipc/Frame.antt =====
-- A message on the socket: its length as four big-endian bytes, then its bytes.
use ssh_certificate_authorit.Common.{
  ℕ, ◌+◌, ◌*◌, ◌/◌, ◌%◌, ◌^◌, ◌<◌, ◌≡◌, Option, none, some, [], ◌∷◌, ◌++◌, Bytes, length, take,
  drop, leb, if◌then◌else◌, arith, take-append, drop-append, le→leb, length-append,
}

-- `n as u32`
abbrev pub as_u32 : ℕ → ℕ
as_u32 n = n % 2 ^ 32

unfoldable pub to_be_bytes : ℕ → Bytes
to_be_bytes n = n / 0x1000000 % 0x100 ∷ n / 0x10000 % 0x100 ∷ n / 0x100 % 0x100 ∷ n % 0x100 ∷ []

unfoldable pub from_be_bytes : Bytes → ℕ
from_be_bytes (a ∷ b ∷ c ∷ d ∷ []) = a * 0x1000000 + b * 0x10000 + c * 0x100 + d
from_be_bytes _ = 0

-- `read_exact` into `n` bytes: what is read and what is left, or `none` at an early end.
unfoldable pub read_exact : ℕ → Bytes → Option (Bytes × Bytes)
read_exact n bytes = if leb n (length bytes) then some (take n bytes, drop n bytes) else none

pub from_be_bytes-to_be_bytes : (n : ℕ) → n < 2 ^ 32 → from_be_bytes (to_be_bytes n) ≡ n
unfolding from_be_bytes to_be_bytes
from_be_bytes-to_be_bytes n h = omega arith

pub read_exact-append : (a b : Bytes) → read_exact (length a) (a ++ b) ≡ some (a, b)
unfolding read_exact
read_exact-append a b =
    rw (le→leb (length a) (length (a ++ b)) (omega (arith, length-append a b)))
      (rw (take-append a b) (rw (drop-append a b)))

pub read_exact_length :
    (n : ℕ) (rest : Bytes) → read_exact 4 (to_be_bytes n ++ rest) ≡ some (to_be_bytes n, rest)
unfolding to_be_bytes
read_exact_length n rest = read_exact-append (to_be_bytes n) rest
