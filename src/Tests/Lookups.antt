-- ===== src/Tests/Lookups.antt =====
-- The unit tests that look up a key, and those that read the files of the repository, run on
-- stand-ins.
use ssh_certificate_authorit.Common.{
  ◌≡◌, refl, List, [], ◌∷◌, ◌++◌, Bytes, Outcome, ok, panic, drop,
}
use ssh_certificate_authorit.Text.{codes, str_eq}
use ssh_certificate_authorit.Text.Utf8.{from_utf8, as_bytes}
use ssh_certificate_authorit.Text.Words.{split_whitespace, is_whitespace}
use ssh_certificate_authorit.FilePath.{FilePath, push, parent, path_starts_with, file_stem}
use ssh_certificate_authorit.Interfaces.{SshKey, read_toml_file, read_to_string}
use ssh_certificate_authorit.Inventory.{find_config_by_public_key}
use ssh_certificate_authorit.UserTemplates.{read_user_defaults, lookup}
use ssh_certificate_authorit.Authority
use ssh_certificate_authorit.Config.{read_config}
use ssh_certificate_authorit.Fuzz.{TempFiles, RandomKeys}
use ssh_certificate_authorit.UnitTests.LookupTests.{
  test_check_public_key_found, test_check_public_key_not_found,
}
use ssh_certificate_authorit.UnitTests.ReadingTests.{
  test_sign_certificate, read_user_defaults_test, read_config_test,
}
use ssh_certificate_authorit.Tests.Toy.{keys}
use ssh_certificate_authorit.Tests.World.{formats, draw}
use ssh_certificate_authorit.Tests.Harness.{temp_files, seen}
use ssh_certificate_authorit.Tests.Places.{reading}
use ssh_certificate_authorit.Tests.Passing.{drawn}

-- The text of a key is its type, one letter, and a comment.
abbrev worded_keys : SshKey
worded_keys = record keys {
  to_openssh = λ k. ok (codes "ssh-ed25519 " ++ k ∷ codes " me@home");
  from_openssh = λ text. keys.from_openssh (drop 12 text);
}

abbrev worded_drawn : RandomKeys worded_keys
worded_drawn = record {
  ca_key = drawn.ca_key;
  other_key = drawn.other_key;
  to_openssh = drawn.to_openssh;
  public_key = drawn.public_key;
}

-- A directory in which the glob finds these files.
abbrev holding : List (Outcome FilePath) → TempFiles
holding found = record temp_files { seen = λ disk. record (seen disk) { glob = λ _. ok found } }

-- A temporary file, and the files of the repository.
abbrev repository : Outcome (FilePath × List (FilePath × Bytes))
repository = ok (
  codes "/tmp/key",
  (codes "./config/user.toml", codes "[users]")
      ∷ (codes "./config/user_default.toml", codes "template")
      ∷ [],
)

found :
    test_check_public_key_found worded_keys
      (holding (ok (codes "/tmp/fuzz/hosts/myserver.toml") ∷ []))
      worded_drawn
      reading
      (ok (codes "H"))
    ≡ ok tt
unfolding test_check_public_key_found Authority.new str_eq push Authority.check_public_key
    find_config_by_public_key split_whitespace is_whitespace path_starts_with read_toml_file
    from_utf8 as_bytes file_stem
found = refl

not_found :
    test_check_public_key_not_found worded_keys (holding []) worded_drawn reading (ok (codes "H"))
    ≡ ok tt
unfolding test_check_public_key_not_found Authority.new str_eq push Authority.check_public_key
    find_config_by_public_key split_whitespace is_whitespace
not_found = refl

-- With a key whose text is one word, the test cannot be carried out.
one_word : test_check_public_key_not_found keys (holding []) drawn reading (ok (codes "H")) ≡ panic
unfolding test_check_public_key_not_found Authority.new str_eq push split_whitespace is_whitespace
one_word = refl

signs : test_sign_certificate keys temp_files drawn formats repository draw (ok (codes "S")) ≡ ok tt
unfolding test_sign_certificate Authority.sign_certificate read_user_defaults lookup read_toml_file
    str_eq from_utf8 as_bytes
signs = refl

reads_defaults : read_user_defaults_test keys temp_files drawn formats repository ≡ ok tt
unfolding read_user_defaults_test read_user_defaults lookup read_toml_file str_eq from_utf8 as_bytes
reads_defaults = refl

reads_config : read_config_test temp_files formats ≡ ok tt
unfolding read_config_test read_config parent push read_to_string str_eq from_utf8 as_bytes
reads_config = refl
