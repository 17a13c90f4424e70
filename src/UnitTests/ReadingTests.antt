-- ===== src/UnitTests/ReadingTests.antt =====
-- The unit tests that read files of the repository, of src/certificat_authority/mod.rs,
-- user_defaults_reader.rs and certificat_template_reader.rs, and the one of src/config/mod.rs.
use ssh_certificate_authorit.Common.{◌++◌, Str, Outcome, ok, ◌>>=◌, unwrap}
use ssh_certificate_authorit.Text.{codes}
use ssh_certificate_authorit.Text.Utf8.{as_bytes}
use ssh_certificate_authorit.FilePath.{FilePath, push}
use ssh_certificate_authorit.Records.{Ca}
use ssh_certificate_authorit.CertificateTemplates.{
  CertificateConfig, ConfigContext, read_certificate_config,
}
use ssh_certificate_authorit.Interfaces.{Files, SshKey, Formats, Draw}
use ssh_certificate_authorit.Authority
use ssh_certificate_authorit.Authority.{CertificateAuthority}
use ssh_certificate_authorit.UserTemplates.{read_user_defaults}
use ssh_certificate_authorit.Config.{read_config}
use ssh_certificate_authorit.Fuzz.{TempFiles, RandomKeys}

-- The files in the repository, and the key in a temporary file.
abbrev repository_config : Str → FilePath → Ca
repository_config hosts ca_key_path = record {
  user_list_file = codes "./config/user.toml";
  ca_key = ca_key_path;
  default_user_template = codes "./config/user_default.toml";
  host_inventory = hosts;
}

-- The text of the main configuration file, with this path of the key of the CA.
abbrev config_content : FilePath → Str
config_content key_path =
    codes
      "\n[ssh]\nbind = \"127.0.0.1\"\nport = 2222\nprivate_key = \"/etc/ssh/ssh_host_ed25519_key\"\n\n[ca]\nca_key = \""
    ++ key_path
    ++ codes
        "\"\ncertificate_validity_days = 30\nuser_list_file=\"../test_data/test_key\"\ndefault_user_template=\"../test_data/test_key\"\nhost_inventory=\"../test_data/\"\n\n[identity_handlers]\nuser_authenticators = [\"pam\"]\n"

-- `named_file` is `NamedTempFile::new`.
module _ (K : SshKey) (T : TempFiles) (R : RandomKeys K) (F : Formats)
    (named_file : Outcome (FilePath × T.Disk)) where
  -- A key for the CA, and the file with its text.
  abbrev key_file : Outcome (K.PrivateKey × FilePath × T.Disk)
  key_file = do
    ca_key ← unwrap R.ca_key
    ca_key_openssh ← unwrap (R.to_openssh ca_key)
    (ca_key_path, disk) ← unwrap named_file
    disk ← unwrap (T.write disk ca_key_path (as_bytes ca_key_openssh))
    ok (ca_key, ca_key_path, disk)

  unfoldable pub test_sign_certificate : Draw K → Outcome K.PrivateKey → Outcome (Unit {0})
  test_sign_certificate draw drawn = do
    (ca_key, ca_key_path, disk) ← key_file
    subject_private_key ← unwrap drawn
    let ca_config = repository_config (codes "./config/hosts/") ca_key_path
    let authority : CertificateAuthority K = record { private_key = ca_key; config = ca_config }
    cert ← unwrap (
        Authority.sign_certificate K (T.seen disk) F authority draw (codes "test")
          (R.public_key subject_private_key))
    ok tt

  unfoldable pub read_user_defaults_test : Outcome (Unit {0})
  read_user_defaults_test = do
    (ca_key, ca_key_path, disk) ← key_file
    let ca_config = repository_config (codes "./config/hosts") ca_key_path
    config ← unwrap (read_user_defaults (T.seen disk) F (codes "test") ca_config)
    ok tt

module _ (T : TempFiles) (F : Formats) where
  unfoldable pub read_config_test : Outcome (Unit {0})
  read_config_test = do
    (dir, disk) ← unwrap T.temp_dir
    let key_path = push dir (codes "test_key")
    disk ← unwrap (T.write disk key_path (as_bytes (codes "test key data")))
    let config_path = push dir (codes "config.toml")
    disk ← unwrap (T.write disk config_path (as_bytes (config_content key_path)))
    config ← unwrap (read_config (T.seen disk) F config_path)
    ok tt

module _ (fs : Files) (F : Formats) (render : F.Template → ConfigContext → Outcome Str)
    (certificate_config_from_str : Str → Outcome CertificateConfig) (debug_str : Str → Str) where
  unfoldable pub read_cert_config_test : Outcome (Unit {0})
  read_cert_config_test = do
    config ← unwrap (
        read_certificate_config fs F render certificate_config_from_str debug_str
          (codes "./test_data/user_cert_config.toml"))
    ok tt
