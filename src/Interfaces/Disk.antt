-- ===== src/Interfaces/Disk.antt =====
-- The file system in one state, the crate glob over it, and `read_toml_file` of
-- src/certificat_authority/mod.rs.
use ssh_certificate_authorit.Common.{
  Bool, List, none, some, Str, Bytes, Outcome, ok, err, not_utf8, ◌>>=◌,
}
use ssh_certificate_authorit.FilePath.{FilePath}
use ssh_certificate_authorit.Text.Utf8.{from_utf8}

pub record Files : Type 0 where
  -- `Path::exists`
  pub path_exists : FilePath → Bool
  -- `File::open` and `read_to_end`
  pub read_to_end : FilePath → Outcome Bytes
  -- `Path::canonicalize`
  pub canonicalize : FilePath → Outcome FilePath
  -- `glob::glob`: an error for a bad pattern, else the matches in order, each a path or an error
  pub glob : Str → Outcome (List (Outcome FilePath))

unfoldable pub read_to_string : Files → FilePath → Outcome Str
read_to_string fs path = do
  bytes ← fs.read_to_end path
  elim (from_utf8 bytes) [ none ↦ err not_utf8 | some text ↦ ok text ]

unfoldable pub read_toml_file {ℓ} : {T : Type ℓ} → Files → (Str → Outcome T) → FilePath → Outcome T
unfolding read_to_string
read_toml_file fs from_str path = do text ← read_to_string fs path; from_str text
