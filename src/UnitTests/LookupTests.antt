-- ===== src/UnitTests/LookupTests.antt =====
-- The unit tests of src/certificat_authority/mod.rs about check_public_key.
use ssh_certificate_authorit.Common.{
  List, [], ◌∷◌, ◌++◌, Str, Outcome, ok, panic, ◌>>=◌, Option, none, some, unwrap, assert,
}
use ssh_certificate_authorit.Text.{codes, str_eq}
use ssh_certificate_authorit.Text.Utf8.{as_bytes}
use ssh_certificate_authorit.Text.Words.{split_whitespace}
use ssh_certificate_authorit.FilePath.{FilePath, push}
use ssh_certificate_authorit.Interfaces.{SshKey, Formats}
use ssh_certificate_authorit.Authority
use ssh_certificate_authorit.Authority.{CertificateAuthority}
use ssh_certificate_authorit.Fuzz.{TempFiles, RandomKeys}

-- `format!("{} {}", key_parts[0], key_parts[1])`, of the words of a key's text.
abbrev type_and_data : List Str → Outcome Str
type_and_data [] = panic
type_and_data (word ∷ []) = panic
type_and_data (word ∷ key_data ∷ words) = ok (word ++ codes " " ++ key_data)

-- The text of the file of the host `myserver`.
abbrev myserver_text : Str → Str
myserver_text key =
    codes "\npublic_key = \""
    ++ key
    ++ codes "\"\nvalidity_in_days = 30\nhostnames = [\"myserver.example.com\"]\nextensions = []\n"

abbrev assert_found : Option Str → Str → Outcome (Unit {0})
assert_found none expected = panic
assert_found (some host_name) expected = assert (str_eq host_name expected)

abbrev assert_not_found : Option Str → Outcome (Unit {0})
assert_not_found none = ok tt
assert_not_found (some host_name) = panic

module _ (K : SshKey) (T : TempFiles) (R : RandomKeys K) (F : Formats) where
  -- A temporary directory with a key for the CA and an empty inventory.
  abbrev with_inventory : Outcome (FilePath × T.Disk)
  with_inventory = do
    (base_path, disk) ← unwrap T.temp_dir
    ca_key ← unwrap R.ca_key
    ca_key_openssh ← unwrap (R.to_openssh ca_key)
    disk ← unwrap (T.write disk (push base_path (codes "ca_key")) (as_bytes ca_key_openssh))
    disk ← unwrap (T.create_dir disk (push base_path (codes "hosts")))
    ok (base_path, disk)

  -- The CA of that directory.
  abbrev authority_in : T.Disk → FilePath → Outcome (CertificateAuthority K)
  authority_in disk base_path = unwrap (
      Authority.new K (T.seen disk) F (record {
        user_list_file = push base_path (codes "user.toml");
        ca_key = push base_path (codes "ca_key");
        default_user_template = push base_path (codes "user_default.toml");
        host_inventory = push base_path (codes "hosts");
      }))

  unfoldable pub test_check_public_key_found : Outcome K.PrivateKey → Outcome (Unit {0})
  test_check_public_key_found drawn = do
    (base_path, disk) ← with_inventory
    host_key ← unwrap drawn
    host_public_key_str ← unwrap (K.to_openssh (R.public_key host_key))
    disk ← unwrap (
        T.write disk (push (push base_path (codes "hosts")) (codes "myserver.toml"))
          (as_bytes (myserver_text host_public_key_str)))
    authority ← authority_in disk base_path
    search_key ← type_and_data (split_whitespace host_public_key_str)
    result ← Authority.check_public_key K (T.seen disk) F authority search_key
    assert_found result (codes "myserver")

  unfoldable pub test_check_public_key_not_found : Outcome K.PrivateKey → Outcome (Unit {0})
  test_check_public_key_not_found drawn = do
    (base_path, disk) ← with_inventory
    authority ← authority_in disk base_path
    unknown_key ← unwrap drawn
    unknown_public_key_str ← unwrap (K.to_openssh (R.public_key unknown_key))
    search_key ← type_and_data (split_whitespace unknown_public_key_str)
    result ← Authority.check_public_key K (T.seen disk) F authority search_key
    assert_not_found result
