-- ===== src/UnitTests/DefaultsTests.antt =====
-- The unit tests of src/certificat_authority/user_defaults_reader.rs that write their own files.
use ssh_certificate_authorit.Common.{
  Bool, true, false, ◌&&◌, List, [], ◌∷◌, Str, Outcome, ok, panic, ◌>>=◌, ◌>>◌, unwrap, assert,
  length, ◌==◌,
}
use ssh_certificate_authorit.Text.{codes, str_eq}
use ssh_certificate_authorit.Text.Utf8.{as_bytes}
use ssh_certificate_authorit.FilePath.{FilePath, push}
use ssh_certificate_authorit.Records.{Ca}
use ssh_certificate_authorit.Interfaces.{SshKey, Formats}
use ssh_certificate_authorit.UserTemplates.{read_user_defaults}
use ssh_certificate_authorit.Fuzz.{TempFiles, RandomKeys}

-- `texts[0]`, `texts[1]`, `texts[2]`
abbrev first_text : List Str → Outcome Str
first_text [] = panic
first_text (t ∷ texts) = ok t

abbrev second_text : List Str → Outcome Str
second_text [] = panic
second_text (t ∷ texts) = first_text texts

abbrev third_text : List Str → Outcome Str
third_text [] = panic
third_text (t ∷ texts) = second_text texts

abbrev pub texts_eq : List Str → List Str → Bool
texts_eq [] [] = true
texts_eq [] (t ∷ texts) = false
texts_eq (s ∷ others) [] = false
texts_eq (s ∷ others) (t ∷ texts) = str_eq s t && texts_eq others texts

abbrev assert_text : Outcome Str → Str → Outcome (Unit {0})
assert_text text expected = do t ← text; assert (str_eq t expected)

-- The configuration with the files in this directory.
abbrev config_in : FilePath → Ca
config_in base_path = record {
  user_list_file = push base_path (codes "user.toml");
  ca_key = push base_path (codes "ca_key");
  default_user_template = push base_path (codes "user_default.toml");
  host_inventory = push base_path (codes "hosts");
}

module _ (K : SshKey) (T : TempFiles) (R : RandomKeys K) (F : Formats) where
  abbrev save_text : T.Disk → FilePath → Str → Outcome T.Disk
  save_text disk path text = unwrap (T.write disk path (as_bytes text))

  -- A temporary directory with a key for the CA.
  abbrev with_key : Outcome (FilePath × T.Disk)
  with_key = do
    (base_path, disk) ← unwrap T.temp_dir
    ca_key ← unwrap R.ca_key
    ca_key_openssh ← unwrap (R.to_openssh ca_key)
    disk ← save_text disk (push base_path (codes "ca_key")) ca_key_openssh
    ok (base_path, disk)

  unfoldable pub test_template_rendering_username_substitution : Outcome (Unit {0})
  test_template_rendering_username_substitution = do
    (base_path, disk) ← with_key
    let ca_config = config_in base_path
    disk ← save_text disk ca_config.user_list_file (codes "[users]")
    disk ← save_text disk ca_config.default_user_template (
        codes
          "\nvalidity_in_days = 1\nprincipals = [\"{{ user_name }}\", \"{{ user_name }}-admin\"]\nextensions = [\"permit-pty\"]\n")
    result ← unwrap (read_user_defaults (T.seen disk) F (codes "alice") ca_config)
    assert (length result.principals == 2)
    assert_text (first_text result.principals) (codes "alice")
    assert_text (second_text result.principals) (codes "alice-admin")
    assert (result.validity_in_days == 1)
    assert (texts_eq result.extensions (codes "permit-pty" ∷ []))

  unfoldable pub test_user_specific_template_override : Outcome (Unit {0})
  test_user_specific_template_override = do
    (base_path, disk) ← with_key
    let ca_config = config_in base_path
    disk ← save_text disk (push base_path (codes "admin_template.toml")) (
        codes
          "\nvalidity_in_days = 30\nprincipals = [\"{{ user_name }}\", \"root\", \"admin\"]\nextensions = [\"permit-pty\", \"permit-port-forwarding\", \"permit-agent-forwarding\"]\n")
    disk ←
        save_text disk ca_config.user_list_file
          (codes "\n[users]\nadmin = \"admin_template.toml\"\n")
    disk ← save_text disk ca_config.default_user_template (
        codes
          "\nvalidity_in_days = 1\nprincipals = [\"{{ user_name }}\"]\nextensions = [\"permit-pty\"]\n")
    admin_result ← unwrap (read_user_defaults (T.seen disk) F (codes "admin") ca_config)
    assert (admin_result.validity_in_days == 30)
    assert (length admin_result.principals == 3)
    assert_text (first_text admin_result.principals) (codes "admin")
    assert_text (second_text admin_result.principals) (codes "root")
    assert_text (third_text admin_result.principals) (codes "admin")
    assert (length admin_result.extensions == 3)
    regular_result ← unwrap (read_user_defaults (T.seen disk) F (codes "regularuser") ca_config)
    assert (regular_result.validity_in_days == 1)
    assert (length regular_result.principals == 1)
    assert_text (first_text regular_result.principals) (codes "regularuser")
    assert (texts_eq regular_result.extensions (codes "permit-pty" ∷ []))

  unfoldable pub test_relative_path_resolution : Outcome (Unit {0})
  test_relative_path_resolution = do
    (base_path, disk) ← with_key
    let ca_config = config_in base_path
    let templates_dir = push base_path (codes "templates")
    disk ← unwrap (T.create_dir disk templates_dir)
    disk ←
        save_text disk (push templates_dir (codes "special.toml"))
          (codes "\nvalidity_in_days = 5\nprincipals = [\"{{ user_name }}\"]\nextensions = []\n")
    disk ←
        save_text disk ca_config.user_list_file
          (codes "\n[users]\nspecial = \"templates/special.toml\"\n")
    disk ←
        save_text disk ca_config.default_user_template
          (codes "\nvalidity_in_days = 1\nprincipals = [\"{{ user_name }}\"]\nextensions = []\n")
    result ← unwrap (read_user_defaults (T.seen disk) F (codes "special") ca_config)
    assert (result.validity_in_days == 5)

  unfoldable pub test_empty_extensions : Outcome (Unit {0})
  test_empty_extensions = do
    (base_path, disk) ← with_key
    let ca_config = config_in base_path
    disk ← save_text disk ca_config.user_list_file (codes "[users]")
    disk ←
        save_text disk ca_config.default_user_template
          (codes "\nvalidity_in_days = 1\nprincipals = [\"{{ user_name }}\"]\nextensions = []\n")
    result ← unwrap (read_user_defaults (T.seen disk) F (codes "testuser") ca_config)
    assert (length result.extensions == 0)
