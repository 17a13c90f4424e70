-- ===== src/Fuzz/Sound.antt =====
-- The assertions of the targets that parse names and commands hold for all bytes.
use ssh_certificate_authorit.Common.{
  ◌≡◌, refl, false, if◌then◌else◌, none, some, Option, List, [], ◌∷◌, Str, Bytes, Outcome, ok,
  length, ltb, any, All, arith,
}
use ssh_certificate_authorit.Text.Utf8.{from_utf8, from_utf8_lossy, as_bytes}
use ssh_certificate_authorit.Text.Words.{is_whitespace, IsWord, split_whitespace-IsWord}
use ssh_certificate_authorit.Ssh.Names.{validate_hostname, parse_exec_command, command_of}
use ssh_certificate_authorit.Fuzz.Parsers.{
  check_hostname, fuzz_hostname_validation, fuzz_exec_request_parser, is_ascii_whitespace,
  assert_args, check_words,
}

check_hostname_ok : (s : Str) → check_hostname s (validate_hostname s) ≡ ok tt
unfolding validate_hostname
check_hostname_ok s = ground arith

-- ASCII white space is white space.
any-is_ascii_whitespace :
    (s : Str) → any is_whitespace s ≡ false → any is_ascii_whitespace s ≡ false
unfolding is_whitespace
any-is_ascii_whitespace [] h = refl
any-is_ascii_whitespace (c ∷ s) h = ground (arith, any-is_ascii_whitespace s)

assert_args_ok : (args : List Str) → All IsWord args → assert_args args ≡ ok tt
assert_args_ok [] h = refl
assert_args_ok (a ∷ args) h =
    ground (arith, any-is_ascii_whitespace a h.0.solid, assert_args_ok args h.1)

check_words_ok : (ws : List Str) → All IsWord ws → check_words (command_of ws) ≡ ok tt
check_words_ok [] h = refl
check_words_ok (w ∷ ws) h =
    ground (arith, any-is_ascii_whitespace w h.0.solid, assert_args_ok ws h.1)

-- Whatever bytes the fuzzer makes, no assertion of fuzz_hostname_validation and none of
-- fuzz_exec_request_parser fails: a name of at most 512 bytes that `validate_hostname` lets through is not empty and has
-- no separator, no "..", and no zero character in it, and neither the command nor an argument that
-- `parse_exec_command` finds has ASCII white space in it.
pub assertions_hold :
    (bytes : Bytes)
    → (fuzz_hostname_validation bytes ≡ ok tt) × (fuzz_exec_request_parser bytes ≡ ok tt)
unfolding fuzz_hostname_validation fuzz_exec_request_parser parse_exec_command
assertions_hold bytes =
    (hostname (from_utf8 bytes), check_words_ok _ (split_whitespace-IsWord (from_utf8_lossy bytes)))
  where
    hostname :
        (o : Option Str)
        → (elim o as (λ _. Outcome (Unit {0})) [
          | none ↦ ok tt
          | some s ↦
              if ltb 512 (length (as_bytes s))
              then ok tt
              else check_hostname s (validate_hostname s)
        ])
          ≡ ok tt
    hostname none = refl
    hostname (some s) = ground (arith, check_hostname_ok s)
