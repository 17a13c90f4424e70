-- ===== src/Fuzz.antt =====
-- fuzz/fuzz_targets: the fuzz targets, as functions of the input that the fuzzer makes. A target
-- fails by a panic. This file has what several targets do in the same words.
pub mod Parsers
pub mod Requests
pub mod HostCertificates
pub mod Sound
pub mod Steady
use ssh_certificate_authorit.Common.{
  ℕ, ◌%◌, Bool, true, false, ◌||◌, List, [], ◌∷◌, ◌++◌, Str, Bytes, Outcome, ok, err, panic, ◌>>=◌,
  if◌then◌else◌, length, map, ◌==◌, unwrap,
}
use ssh_certificate_authorit.Text.{codes, is_empty, contains_str}
use ssh_certificate_authorit.Text.Utf8.{as_bytes}
use ssh_certificate_authorit.FilePath.{FilePath, push}
use ssh_certificate_authorit.Records.{Ca}
use ssh_certificate_authorit.Interfaces.{Files, SshKey}

-- `let _ =`
abbrev pub ignore {ℓ} : {A : Type ℓ} → Outcome A → Outcome (Unit {0})
ignore (ok a) = ok tt
ignore (err e) = ok tt
ignore panic = panic

-- `unwrap_or_else`
abbrev pub unwrap_or {ℓ} : {A : Type ℓ} → A → Outcome A → Outcome A
unwrap_or a (ok b) = ok b
unwrap_or a (err e) = ok a
unwrap_or a panic = panic

-- tempfile and `std::fs`: a new directory, and writes, each with the disk after it.
pub record TempFiles : Type 1 where
  pub Disk : Type 0
  pub temp_dir : Outcome (FilePath × Disk)
  pub write : Disk → FilePath → Bytes → Outcome Disk
  pub create_dir : Disk → FilePath → Outcome Disk
  pub seen : Disk → Files

-- What ssh-key draws in one run of a target: a key for the CA, and another key.
pub record RandomKeys (K : SshKey) : Type 0 where
  pub ca_key : Outcome K.PrivateKey
  pub other_key : Outcome K.PrivateKey
  pub to_openssh : K.PrivateKey → Outcome Str
  pub public_key : K.PrivateKey → K.PublicKey

-- `s.replace(c, with)` for a character.
unfoldable pub replace_char : ℕ → Str → Str → Str
replace_char c with [] = []
replace_char c with (x ∷ s) =
    let rest = replace_char c with s in if x == c then with ++ rest else x ∷ rest

-- Backslashes first, then quotes.
unfoldable pub escape_toml : Str → Str
unfolding replace_char
escape_toml s = replace_char b'"' (b'\\' ∷ b'"' ∷ []) (replace_char b'\\' (b'\\' ∷ b'\\' ∷ []) s)

-- `"…"`
abbrev pub quoted : Str → Str
quoted s = b'"' ∷ s ++ b'"' ∷ []

abbrev pub safe_char : ℕ → ℕ
safe_char c = if c == b'/' || c == b'\\' || c == 0 then b'_' else c

-- A name that is one component of a path.
unfoldable pub safe_name : Str → Str
safe_name host_name =
    let name = map safe_char host_name in
    if is_empty name || contains_str (codes "..") name then codes "fuzz_host" else name

module _ (K : SshKey) (T : TempFiles) (R : RandomKeys K) where
  -- The files of a small CA below a directory, with these texts as the list of users and the
  -- default template.
  unfoldable pub set_up_in : FilePath → T.Disk → Str → Str → Outcome (Ca × T.Disk)
  set_up_in base_path disk user_list template = do
    ca_key ← unwrap R.ca_key
    ca_key_openssh ← unwrap (R.to_openssh ca_key)
    disk ← unwrap (T.write disk (push base_path (codes "ca_key")) (as_bytes ca_key_openssh))
    disk ← unwrap (T.write disk (push base_path (codes "user.toml")) (as_bytes user_list))
    disk ← unwrap (T.write disk (push base_path (codes "user_default.toml")) (as_bytes template))
    disk ← unwrap (T.create_dir disk (push base_path (codes "hosts")))
    ok (
      record {
        user_list_file = push base_path (codes "user.toml");
        default_user_template = push base_path (codes "user_default.toml");
        host_inventory = push base_path (codes "hosts");
        ca_key = push base_path (codes "ca_key");
      },
      disk,
    )

  unfoldable pub set_up : Str → Outcome (Ca × T.Disk)
  set_up template = do
    (base_path, disk) ← unwrap T.temp_dir
    set_up_in base_path disk (codes "[users]\n") template

  -- `let _ = fs::write(…)`
  abbrev pub or_unchanged : T.Disk → Outcome T.Disk → Outcome T.Disk
  or_unchanged disk written = unwrap_or disk written
