-- ===== src/Fuzz/Parsers.antt =====
-- The targets that parse bytes: fuzz_hostname_validation, fuzz_exec_request_parser,
-- fuzz_config_parsing, fuzz_ssh_protocol, fuzz_user_key_parsing and fuzz_ca_new_invalid_key.
use ssh_certificate_authorit.Common.{
  assert, unwrap, ℕ, ◌*◌, Bool, not, ◌||◌, Option, none, some, List, [], ◌∷◌, Str, Bytes, Outcome,
  ok, err, panic, ◌>>=◌, ◌>>◌, if◌then◌else◌, ltb, length, any, ◌==◌,
}
use ssh_certificate_authorit.Text.{codes, is_empty, contains_char, contains_str}
use ssh_certificate_authorit.Text.Utf8.{as_bytes, from_utf8, from_utf8_lossy}
use ssh_certificate_authorit.FilePath.{push}
use ssh_certificate_authorit.Interfaces.{SshKey, Formats}
use ssh_certificate_authorit.Authority
use ssh_certificate_authorit.Authority.{key_from_openssh}
use ssh_certificate_authorit.Ssh.Names.{validate_hostname, parse_exec_command}
use ssh_certificate_authorit.Fuzz.{ignore, TempFiles}

abbrev pub check_hostname : Str → Option Str → Outcome (Unit {0})
check_hostname s (some e) = ok tt
check_hostname s none = do
  assert (not (is_empty s))
  assert (not (contains_char b'/' s))
  assert (not (contains_char b'\\' s))
  assert (not (contains_str (codes "..") s))
  assert (not (contains_char 0 s))

unfoldable pub fuzz_hostname_validation : Bytes → Outcome (Unit {0})
fuzz_hostname_validation data' = elim (from_utf8 data') [
  | none ↦ ok tt
  | some s ↦ if ltb 512 (length (as_bytes s)) then ok tt else check_hostname s (validate_hostname s)
]

-- `char::is_ascii_whitespace`
abbrev pub is_ascii_whitespace : ℕ → Bool
is_ascii_whitespace c = c == 0x20 || c == 0x09 || c == 0x0A || c == 0x0C || c == 0x0D

abbrev pub assert_args : List Str → Outcome (Unit {0})
assert_args [] = ok tt
assert_args (arg ∷ args) = do assert (not (any is_ascii_whitespace arg)); assert_args args

abbrev pub check_words : Str × List Str → Outcome (Unit {0})
check_words (command_name, args) = do
  assert (not (any is_ascii_whitespace command_name))
  assert_args args

unfoldable pub fuzz_exec_request_parser : Bytes → Outcome (Unit {0})
fuzz_exec_request_parser data' = check_words (parse_exec_command data')

-- The target's own struct, whose fields may all be missing.
pub record FuzzDefaults : Type 0 where
  pub validity_in_days : Option ℕ
  pub principals : Option (List Str)
  pub extensions : Option (List Str)

abbrev pub fuzz_max_template_size : ℕ
fuzz_max_template_size = 64 * 1024

-- toml at that struct, and minijinja at a template with the two names that are given to it.
module _ (F : Formats) (defaults_from_str : Str → Outcome FuzzDefaults)
    (render : F.Template → (user_name host_name : Str) → Outcome Str) where
  render_test : Str → Outcome (Unit {0})
  render_test template_str = elim (F.add_template F.new_environment (codes "test") template_str) [
    | panic ↦ panic
    | err e ↦ ok tt
    | ok jinja_env ↦ elim (F.get_template jinja_env (codes "test")) [
      | panic ↦ panic
      | err e ↦ ok tt
      | ok tmpl ↦ ignore (render tmpl (codes "testuser") (codes "testhost"))
    ]
  ]

  unfoldable pub fuzz_config_parsing : Bytes → Outcome (Unit {0})
  unfolding render_test
  fuzz_config_parsing data' =
      if ltb fuzz_max_template_size (length data') then ok tt else elim (from_utf8 data') [
        | none ↦ ok tt
        | some s ↦ ignore (defaults_from_str s) >> render_test s
      ]

module _ (K : SshKey) where
  unfoldable pub fuzz_ssh_protocol : Bytes → Outcome (Unit {0})
  unfolding key_from_openssh
  fuzz_ssh_protocol data' = do
    let openssh_key = from_utf8_lossy data'
    ignore (key_from_openssh K openssh_key)

  -- `from_bytes` is `PublicKey::from_bytes`.
  unfoldable pub fuzz_user_key_parsing : (Bytes → Outcome K.PublicKey) → Bytes → Outcome (Unit {0})
  unfolding key_from_openssh
  fuzz_user_key_parsing from_bytes data' = do
    ignore (from_bytes data')
    elim (from_utf8 data') [ none ↦ ok tt | some s ↦ ignore (key_from_openssh K s) ]

module _ (K : SshKey) (T : TempFiles) (F : Formats) where
  unfoldable pub fuzz_ca_new_invalid_key : Bytes → Outcome (Unit {0})
  fuzz_ca_new_invalid_key data' = if ltb 8192 (length data') then ok tt else do
    (base_path, disk) ← unwrap T.temp_dir
    let key_path = push base_path (codes "ca_key")
    disk ← unwrap (T.write disk key_path data')
    ignore (
        Authority.new K (T.seen disk) F (record {
          user_list_file = codes "/dev/null";
          default_user_template = codes "/dev/null";
          host_inventory = push base_path (codes "hosts");
          ca_key = key_path;
        }))
