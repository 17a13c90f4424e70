-- ===== src/Tests/Places.antt =====
-- The unit tests of the host inventory, run on a disk whose canonical paths are a table.
use ssh_certificate_authorit.Common.{
  ◌≡◌, refl, List, [], ◌∷◌, Str, Outcome, ok, panic, if◌then◌else◌, ◌==◌, drop,
}
use ssh_certificate_authorit.Text.{codes, str_eq}
use ssh_certificate_authorit.Text.Utf8.{from_utf8, as_bytes}
use ssh_certificate_authorit.Errors.{to_string}
use ssh_certificate_authorit.FilePath.{
  FilePath, push, parent, components, path_starts_with, file_stem,
}
use ssh_certificate_authorit.Interfaces.{Formats, SshKey, read_toml_file}
use ssh_certificate_authorit.Inventory.{ensure_path_within_directory, find_config_by_public_key}
use ssh_certificate_authorit.Fuzz.{TempFiles}
use ssh_certificate_authorit.UnitTests.InventoryTests.{
  Places, test_ensure_path_within_directory_valid,
  test_ensure_path_within_directory_rejects_traversal,
  test_ensure_path_within_directory_rejects_absolute_outside,
  test_ensure_path_within_directory_rejects_symlink_escape,
  test_ensure_path_within_directory_nested_valid, test_find_config_by_public_key_match,
  test_find_config_by_public_key_no_match, test_find_config_by_public_key_malformed_key,
}
use ssh_certificate_authorit.Tests.Toy.{keys}
use ssh_certificate_authorit.Tests.World.{formats, web_config}
use ssh_certificate_authorit.Tests.Harness.{temp_files, seen}
use ssh_certificate_authorit.Tests.Passing.{after_quote}

-- The canonical path of a path in the table; that of any other is itself.
abbrev canonical_in : List (FilePath × FilePath) → FilePath → Outcome FilePath
canonical_in [] path = ok path
canonical_in ((name, target) ∷ table) path =
    if str_eq name path then ok target else canonical_in table path

abbrev linked : List (FilePath × FilePath) → TempFiles
linked table = record temp_files {
  seen = λ disk. record (seen disk) {
    canonicalize = canonical_in table;
    glob = λ _. ok (ok (codes "/tmp/fuzz/testhost.toml") ∷ []);
  };
}

abbrev places : (table : List (FilePath × FilePath)) → Places (linked table)
places table = record {
  another_dir = λ disk. ok (codes "/tmp/other", disk);
  symlink = λ disk target link. ok disk;
  create_dir_all = λ disk path. ok disk;
}

-- `..` is the directory above, and the link points out of the inventory.
abbrev outwards : List (FilePath × FilePath)
outwards =
    (codes "/tmp/fuzz/../outside.toml", codes "/tmp/outside.toml")
    ∷ (codes "/tmp/fuzz/symlink.toml", codes "/tmp/outside.toml")
    ∷ []

abbrev before_quote : Str → Str
before_quote [] = []
before_quote (c ∷ s) = let rest = before_quote s in if c == b'"' then [] else c ∷ rest

abbrev pub reading : Formats
reading = record formats {
  host_config_from_str = λ text. ok (record web_config {
    public_key = before_quote (after_quote text);
    hostnames = codes "testhost.example.com" ∷ [];
  });
}

-- A key is told by one letter of its text.
abbrev long_keys : SshKey
long_keys = record keys { from_openssh = λ text. keys.from_openssh (drop 37 text) }

accepts_valid : test_ensure_path_within_directory_valid (linked outwards) (places outwards) ≡ ok tt
unfolding test_ensure_path_within_directory_valid ensure_path_within_directory path_starts_with
    components push str_eq
accepts_valid = refl

accepts_nested :
    test_ensure_path_within_directory_nested_valid (linked outwards) (places outwards) ≡ ok tt
unfolding test_ensure_path_within_directory_nested_valid ensure_path_within_directory
    path_starts_with components push str_eq
accepts_nested = refl

rejects_traversal :
    test_ensure_path_within_directory_rejects_traversal (linked outwards) (places outwards) ≡ ok tt
unfolding test_ensure_path_within_directory_rejects_traversal ensure_path_within_directory
    path_starts_with components push parent to_string str_eq
rejects_traversal = refl

rejects_outside :
    test_ensure_path_within_directory_rejects_absolute_outside (linked outwards) (places outwards)
    ≡ ok tt
unfolding test_ensure_path_within_directory_rejects_absolute_outside ensure_path_within_directory
    path_starts_with components push to_string str_eq
rejects_outside = refl

rejects_symlink :
    test_ensure_path_within_directory_rejects_symlink_escape (linked outwards) (places outwards)
    ≡ ok tt
unfolding test_ensure_path_within_directory_rejects_symlink_escape ensure_path_within_directory
    path_starts_with components push parent to_string str_eq
rejects_symlink = refl

finds_match : test_find_config_by_public_key_match long_keys (linked []) reading ≡ ok tt
unfolding test_find_config_by_public_key_match find_config_by_public_key path_starts_with
    read_toml_file push str_eq from_utf8 as_bytes file_stem
finds_match = refl

finds_no_match : test_find_config_by_public_key_no_match long_keys (linked []) reading ≡ ok tt
unfolding test_find_config_by_public_key_no_match find_config_by_public_key path_starts_with
    read_toml_file push str_eq from_utf8 as_bytes
finds_no_match = refl

passes_malformed :
    test_find_config_by_public_key_malformed_key long_keys (linked []) reading ≡ ok tt
unfolding test_find_config_by_public_key_malformed_key find_config_by_public_key path_starts_with
    read_toml_file push str_eq from_utf8 as_bytes
passes_malformed = refl

-- Where the link is taken for a file of the inventory, the test fails.
follows_symlink :
    test_ensure_path_within_directory_rejects_symlink_escape (linked []) (places []) ≡ panic
unfolding test_ensure_path_within_directory_rejects_symlink_escape ensure_path_within_directory
    path_starts_with components push parent to_string str_eq
follows_symlink = refl
