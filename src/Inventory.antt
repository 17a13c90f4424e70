-- ===== src/Inventory.antt =====
-- src/certificat_authority/host_config_reader.rs: the host inventory, a directory of TOML files.
pub mod Confined
pub mod Order
mod Answers
pub mod Search
pub mod Steady
use ssh_certificate_authorit.Common.{
  Bool, false, Option, none, some, List, [], ◌∷◌, ◌++◌, Str, Outcome, ok, err, panic, ◌>>=◌,
  map_err, inventory_unresolved, host_path_unresolved, path_traversal, if◌then◌else◌,
}
use ssh_certificate_authorit.Text.{codes}
use ssh_certificate_authorit.Errors.{to_string}
use ssh_certificate_authorit.FilePath.{FilePath, path_starts_with, push, file_stem}
use ssh_certificate_authorit.Records.{Ca, HostConfig}
use ssh_certificate_authorit.Interfaces.{Files, SshKey, Formats, read_toml_file}

unfoldable pub ensure_path_within_directory : Files → FilePath → FilePath → Outcome FilePath
ensure_path_within_directory fs candidate base_dir = do
  canonical_base ← map_err (λ e. inventory_unresolved (to_string e)) (fs.canonicalize base_dir)
  canonical_candidate ←
      map_err (λ e. host_path_unresolved (to_string e)) (fs.canonicalize candidate)
  if path_starts_with canonical_candidate canonical_base
      then ok canonical_candidate
      else err path_traversal

-- `format!("{}.toml", host_name)`
abbrev pub toml_name : Str → Str
toml_name host_name = host_name ++ codes ".toml"

module _ (fs : Files) (F : Formats) where
  unfoldable pub read_host_config : Str → Ca → Outcome HostConfig
  unfolding ensure_path_within_directory
  read_host_config host_name config = do
    let host_inventory_path = push config.host_inventory (toml_name host_name)
    safe_path ← ensure_path_within_directory fs host_inventory_path config.host_inventory
    read_toml_file fs F.host_config_from_str safe_path

module _ (K : SshKey) (fs : Files) (F : Formats) where
  open K use {PublicKey, KeyData, from_openssh, key_data, same_data}

  -- The test of a configuration that was read, against the key that is looked for.
  matches_key : KeyData → HostConfig → Outcome Bool
  matches_key search_data host_config = elim (from_openssh host_config.public_key) [
    | ok config_pub_key ↦ ok (same_data (key_data config_pub_key) search_data)
    | err e ↦ ok false
    | panic ↦ panic
  ]

  -- The loop's body at one match: `none` where it goes on with the next.
  check_config : KeyData → FilePath → HostConfig → Outcome (Option (Str × HostConfig))
  check_config search_data file host_config = do
    found ← matches_key search_data host_config
    if found
        then elim (file_stem file) [ none ↦ panic | some stem ↦ ok (some (stem, host_config)) ]
        else ok none

  check_file : KeyData → FilePath → FilePath → Outcome (Option (Str × HostConfig))
  unfolding matches_key check_config
  check_file search_data canonical_inventory file = elim (fs.canonicalize file) [
    | panic ↦ panic
    | err e ↦ ok none
    | ok canonical_file ↦
        if path_starts_with canonical_file canonical_inventory
        then elim (read_toml_file fs F.host_config_from_str file) [
          | panic ↦ panic
          | err e ↦ ok none
          | ok host_config ↦ check_config search_data file host_config
        ]
        else ok none
  ]

  -- The loop over the matches; `flatten` leaves the errors among them out.
  search_files : KeyData → FilePath → List (Outcome FilePath) → Outcome (Option (Str × HostConfig))
  search_files search_data inventory [] = ok none
  search_files search_data inventory (ok file ∷ files) =
      elim (check_file search_data inventory file) [
        | panic ↦ panic
        | err e ↦ err e
        | ok (some found) ↦ ok (some found)
        | ok none ↦ search_files search_data inventory files
      ]
  search_files search_data inventory (err e ∷ files) = search_files search_data inventory files
  search_files search_data inventory (panic ∷ files) = panic

  unfoldable pub glob_pattern : FilePath → Str
  glob_pattern canonical_inventory = canonical_inventory ++ codes "/**/*.toml"

  unfoldable pub find_config_by_public_key : Str → Ca → Outcome (Option (Str × HostConfig))
  unfolding search_files check_file glob_pattern
  find_config_by_public_key public_key config = elim (from_openssh public_key) [
    | panic ↦ panic
    | err e ↦ ok none
    | ok search_key ↦ elim (fs.canonicalize config.host_inventory) [
      | panic ↦ panic
      | err e ↦ ok none
      | ok canonical_inventory ↦ elim (fs.glob (glob_pattern canonical_inventory)) [
        | ok files ↦ search_files (key_data search_key) canonical_inventory files
        | err e ↦ panic
        | panic ↦ panic
      ]
    ]
  ]
