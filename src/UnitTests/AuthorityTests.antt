-- ===== src/UnitTests/AuthorityTests.antt =====
-- Two unit tests of src/certificat_authority/mod.rs: the principals and the validity of a user's
-- certificate.
use ssh_certificate_authorit.Common.{
  ℕ, ◌-◌, ◌*◌, Bool, true, false, Option, none, some, List, Str, Outcome, ok, ◌>>=◌, ◌>>◌, unwrap,
  assert, length, any, leb, ◌==◌,
}
use ssh_certificate_authorit.Text.{codes, starts_with, str_eq}
use ssh_certificate_authorit.Text.Utf8.{as_bytes}
use ssh_certificate_authorit.FilePath.{push}
use ssh_certificate_authorit.Interfaces.{SshKey, Formats, Draw, CertType, user, host, CertFields}
use ssh_certificate_authorit.Authority
use ssh_certificate_authorit.Authority.{CertificateAuthority}
use ssh_certificate_authorit.Fuzz.{TempFiles, RandomKeys}

abbrev is_user : CertType → Bool
is_user user = true
is_user host = false

abbrev is_some : Option Str → Bool
is_some none = false
is_some (some value) = true

-- `fields_of` reads a certificate.
module _ (K : SshKey) (T : TempFiles) (R : RandomKeys K) (F : Formats) (draw : Draw K)
    (fields_of : K.Certificate → CertFields K) where
  record Prepared : Type 0 where
    authority : CertificateAuthority K
    disk : T.Disk

  -- A CA with no users of their own, and this default template.
  prepared : Str → Outcome Prepared
  prepared user_template = do
    (base_path, disk) ← unwrap T.temp_dir
    ca_key ← unwrap R.ca_key
    ca_key_openssh ← unwrap (R.to_openssh ca_key)
    disk ← unwrap (T.write disk (push base_path (codes "ca_key")) (as_bytes ca_key_openssh))
    disk ← unwrap (T.write disk (push base_path (codes "user.toml")) (as_bytes (codes "[users]")))
    disk ←
        unwrap (T.write disk (push base_path (codes "user_default.toml")) (as_bytes user_template))
    authority ← unwrap (
        Authority.new K (T.seen disk) F (record {
          user_list_file = push base_path (codes "user.toml");
          default_user_template = push base_path (codes "user_default.toml");
          host_inventory = push base_path (codes "hosts");
          ca_key = push base_path (codes "ca_key");
        }))
    ok (record { authority = authority; disk = disk })

  abbrev signed_user : Prepared → K.PublicKey → Outcome (CertFields K)
  signed_user p key = do
    cert ←
        unwrap
          (Authority.sign_certificate K (T.seen p.disk) F p.authority draw (codes "testuser") key)
    ok (fields_of cert)

  abbrev contains : Str → List Str → Bool
  contains s texts = any (λ t. str_eq t s) texts

  unfoldable pub test_sign_certificate_principals : Outcome K.PrivateKey → Outcome (Unit {0})
  unfolding prepared
  test_sign_certificate_principals drawn = do
    p ← prepared (
        codes
          "\nvalidity_in_days = 1\nprincipals = [\"{{ user_name }}\", \"admin\"]\nextensions = [\"permit-pty\", \"permit-port-forwarding\"]\n")
    subject_key ← unwrap drawn
    cert ← signed_user p (R.public_key subject_key)
    assert (is_user cert.cert_type)
    assert (starts_with cert.key_id (codes "user-testuser-"))
    assert (length cert.principals == 2)
    assert (contains (codes "testuser") cert.principals)
    assert (contains (codes "admin") cert.principals)
    assert (is_some (cert.extensions (codes "permit-pty")))
    assert (is_some (cert.extensions (codes "permit-port-forwarding")))

  -- The clock before and after the signing, besides the two times that the signing looks at it.
  unfoldable pub test_sign_certificate_validity :
      Outcome ℕ → Outcome ℕ → Outcome K.PrivateKey → Outcome (Unit {0})
  unfolding prepared
  test_sign_certificate_validity clock_before clock_after drawn = do
    p ←
        prepared
          (codes "\nvalidity_in_days = 7\nprincipals = [\"{{ user_name }}\"]\nextensions = []\n")
    subject_key ← unwrap drawn
    before_signing ← unwrap clock_before
    cert ← signed_user p (R.public_key subject_key)
    after_signing ← unwrap clock_after
    assert (leb before_signing cert.valid_after)
    assert (leb cert.valid_after after_signing)
    -- A test is built with overflow checks.
    assert (leb cert.valid_after cert.valid_before)
    let actual_duration = cert.valid_before - cert.valid_after
    assert (actual_duration == 7 * 86400)
