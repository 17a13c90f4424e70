-- ===== src/UnitTests/InventoryTests.antt =====
-- The unit tests of src/certificat_authority/host_config_reader.rs.
use ssh_certificate_authorit.Common.{
  ◌++◌, [], ◌∷◌, Str, Outcome, ok, panic, ◌>>=◌, ◌>>◌, Option, none, some, unwrap, assert, ◌==◌,
}
use ssh_certificate_authorit.Text.{codes, str_eq}
use ssh_certificate_authorit.Text.Utf8.{as_bytes}
use ssh_certificate_authorit.FilePath.{FilePath, push, parent, components}
use ssh_certificate_authorit.Records.{Ca, HostConfig}
use ssh_certificate_authorit.Interfaces.{SshKey, Formats}
use ssh_certificate_authorit.Inventory.{ensure_path_within_directory, find_config_by_public_key}
use ssh_certificate_authorit.Fuzz.{TempFiles}
use ssh_certificate_authorit.UnitTests.DefaultsTests.{texts_eq}
use ssh_certificate_authorit.UnitTests.ServerTests.{expect_ok, expect_error}

-- What the tests use besides: another temporary directory, a symbolic link (at the second path,
-- to the first), and `create_dir_all`.
pub record Places (T : TempFiles) : Type 0 where
  pub another_dir : T.Disk → Outcome (FilePath × T.Disk)
  pub symlink : T.Disk → FilePath → FilePath → Outcome T.Disk
  pub create_dir_all : T.Disk → FilePath → Outcome T.Disk

unfoldable dir_above : FilePath → Outcome FilePath
unfolding parent
dir_above path = elim (parent path) [ none ↦ panic | some dir ↦ ok dir ]

abbrev test_text : Str
test_text = codes "test"

abbrev test_key : Str
test_key = codes "ssh-ed25519 AAAAC3NzaC1lZDI1NTE5AAAAIGPvWF5WtFPlxWSSr4xSg5sAR7Wdp5zZd7hqmZvC4Fkj"

abbrev different_key : Str
different_key =
    codes "ssh-ed25519 AAAAC3NzaC1lZDI1NTE5AAAAIDifferentKeyDataHereXXXXXXXXXXXXXXXXXXXXX"

-- The text of a host's file with this in the place of the key.
abbrev host_file : Str → Str
host_file key =
    codes "\npublic_key = \""
    ++ key
    ++ codes "\"\nvalidity_in_days = 30\nhostnames = [\"testhost.example.com\"]\nextensions = []\n"

abbrev inventory_at : FilePath → Ca
inventory_at base_path = record {
  user_list_file = push base_path (codes "user.toml");
  ca_key = push base_path (codes "ca_key");
  default_user_template = push base_path (codes "user_default.toml");
  host_inventory = base_path;
}

module _ (T : TempFiles) (L : Places T) where
  abbrev save : T.Disk → FilePath → Str → Outcome T.Disk
  save disk path text = unwrap (T.write disk path (as_bytes text))

  -- The path is accepted, and the result is its canonical form.
  abbrev assert_accepted : T.Disk → FilePath → FilePath → Outcome (Unit {0})
  assert_accepted disk path base_path = do
    result ← expect_ok (ensure_path_within_directory (T.seen disk) path base_path)
    canonical ← unwrap ((T.seen disk).canonicalize path)
    assert (texts_eq (components result) (components canonical))

  abbrev assert_rejected : T.Disk → FilePath → FilePath → Outcome (Unit {0})
  assert_rejected disk path base_path =
      expect_error (codes "path traversal")
        (ensure_path_within_directory (T.seen disk) path base_path)

  unfoldable pub test_ensure_path_within_directory_valid : Outcome (Unit {0})
  test_ensure_path_within_directory_valid = do
    (base_path, disk) ← unwrap T.temp_dir
    let valid_file = push base_path (codes "valid.toml")
    disk ← save disk valid_file test_text
    assert_accepted disk valid_file base_path

  unfoldable pub test_ensure_path_within_directory_rejects_traversal : Outcome (Unit {0})
  unfolding dir_above
  test_ensure_path_within_directory_rejects_traversal = do
    (base_path, disk) ← unwrap T.temp_dir
    outside_dir ← dir_above base_path
    disk ← save disk (push outside_dir (codes "outside.toml")) test_text
    assert_rejected disk (push (push base_path (codes "..")) (codes "outside.toml")) base_path

  unfoldable pub test_ensure_path_within_directory_rejects_absolute_outside : Outcome (Unit {0})
  test_ensure_path_within_directory_rejects_absolute_outside = do
    (base_path, disk) ← unwrap T.temp_dir
    (other_path, disk) ← unwrap (L.another_dir disk)
    let outside_file = push other_path (codes "outside.toml")
    disk ← save disk outside_file test_text
    assert_rejected disk outside_file base_path

  unfoldable pub test_ensure_path_within_directory_rejects_symlink_escape : Outcome (Unit {0})
  unfolding dir_above
  test_ensure_path_within_directory_rejects_symlink_escape = do
    (base_path, disk) ← unwrap T.temp_dir
    outside_dir ← dir_above base_path
    let outside_file = push outside_dir (codes "outside.toml")
    disk ← save disk outside_file test_text
    let symlink_path = push base_path (codes "symlink.toml")
    disk ← unwrap (L.symlink disk outside_file symlink_path)
    assert_rejected disk symlink_path base_path

  unfoldable pub test_ensure_path_within_directory_nested_valid : Outcome (Unit {0})
  test_ensure_path_within_directory_nested_valid = do
    (base_path, disk) ← unwrap T.temp_dir
    let nested_dir = push (push base_path (codes "subdir1")) (codes "subdir2")
    disk ← unwrap (L.create_dir_all disk nested_dir)
    let nested_file = push nested_dir (codes "nested.toml")
    disk ← save disk nested_file test_text
    assert_accepted disk nested_file base_path

module _ (K : SshKey) (T : TempFiles) (F : Formats) where
  -- The search for a key, in a directory with one file, which has this in the place of the key.
  abbrev search_one : Str → Str → Outcome (Option (Str × HostConfig))
  search_one stored search_key = do
    (base_path, disk) ← unwrap T.temp_dir
    disk ←
        unwrap (T.write disk (push base_path (codes "testhost.toml")) (as_bytes (host_file stored)))
    find_config_by_public_key K (T.seen disk) F search_key (inventory_at base_path)

  abbrev assert_none : Option (Str × HostConfig) → Outcome (Unit {0})
  assert_none none = ok tt
  assert_none (some host) = panic

  abbrev assert_testhost : Option (Str × HostConfig) → Outcome (Unit {0})
  assert_testhost none = panic
  assert_testhost (some (hostname, config)) = do
    assert (str_eq hostname (codes "testhost"))
    assert (config.validity_in_days == 30)
    assert (texts_eq config.hostnames (codes "testhost.example.com" ∷ []))

  unfoldable pub test_find_config_by_public_key_match : Outcome (Unit {0})
  test_find_config_by_public_key_match =
      search_one (test_key ++ codes " comment") test_key >>= assert_testhost

  unfoldable pub test_find_config_by_public_key_no_match : Outcome (Unit {0})
  test_find_config_by_public_key_no_match =
      search_one (test_key ++ codes " comment") different_key >>= assert_none

  unfoldable pub test_find_config_by_public_key_malformed_key : Outcome (Unit {0})
  test_find_config_by_public_key_malformed_key =
      search_one (codes "ssh-ed25519") test_key >>= assert_none
