-- ===== src/Authority.antt =====
-- src/certificat_authority/mod.rs: `CertificateAuthority`.
pub mod Issue
pub mod Certificates
pub mod Hosts
pub mod Steady
use ssh_certificate_authorit.Common.{
  ℕ, ◌+◌, ◌*◌, ◌%◌, ◌^◌, Bool, Option, none, some, List, [], ◌∷◌, ◌++◌, Str, Outcome, ok, err,
  panic, ◌>>=◌, map_err, wrong_public_key, if◌then◌else◌,
}
use ssh_certificate_authorit.Text.{codes}
use ssh_certificate_authorit.Text.Decimal.{decimal}
use ssh_certificate_authorit.Records.{Ca, HostConfig, UserDefaults}
use ssh_certificate_authorit.Interfaces.{Files, SshKey, Formats, Draw, CertType, user, host}
use ssh_certificate_authorit.Inventory.{read_host_config, find_config_by_public_key}
use ssh_certificate_authorit.UserTemplates.{read_user_defaults}

pub record CertificateAuthority (K : SshKey) : Type 0 where
  pub private_key : K.PrivateKey
  pub config : Ca

-- Arithmetic on `u64`; a release build wraps around.
abbrev pub u64 : ℕ → ℕ
u64 n = n % 2 ^ 64

-- `duration_since(UNIX_EPOCH).unwrap().as_secs()`
abbrev pub as_secs : Option ℕ → Outcome ℕ
as_secs none = panic
as_secs (some n) = ok n

module _ (K : SshKey) where
  open K use {PublicKey, PrivateKey, Certificate, Builder}

  -- The loops over principals and extensions.
  add_principals : Builder → List Str → Builder
  add_principals b [] = b
  add_principals b (principal ∷ principals) =
      add_principals (K.valid_principal b principal) principals

  add_extensions : Builder → List Str → Outcome Builder
  add_extensions b [] = ok b
  add_extensions b (extension ∷ extensions) = do
    b' ← K.extension b extension []
    add_extensions b' extensions

  -- What `sign_certificate` and `sign_host_certificate` do in the same words once they have the
  -- values: `label` is "user" or "host", and `name` the user or the host.
  unfoldable pub issue :
      Draw K
      → PrivateKey
      → PublicKey
      → Str
      → Str
      → CertType
      → ℕ
      → List Str
      → List Str
      → Outcome Certificate
  unfolding add_principals add_extensions
  issue draw private_key public_key label name tag validity_in_days principals extensions = do
    valid_after ← as_secs draw.first_clock
    later ← as_secs draw.second_clock
    let valid_before = u64 (later + u64 (validity_in_days * 86400))
    b ← K.new_with_random_nonce draw.nonce public_key valid_after valid_before
    b ← K.serial b draw.serial
    b ← K.key_id b (label ++ codes "-" ++ name ++ codes "-" ++ decimal valid_after)
    b ← K.cert_type b tag
    let b = add_principals b principals
    b ← K.comment b (K.key_comment public_key)
    b ← add_extensions b extensions
    K.sign b private_key

-- A wrapper of the function of ssh-key.
unfoldable pub key_from_openssh : (K : SshKey) → Str → Outcome K.PublicKey
key_from_openssh K = K.from_openssh

report_mismatch : Str → Outcome Str → Outcome Str → Outcome (Unit {0})
report_mismatch host_name (ok _) (ok _) = err (wrong_public_key host_name)
report_mismatch host_name _ _ = panic

module _ (K : SshKey) where
  open K use {PublicKey}

  -- The comparison with the configured key. Printing the two keys may panic.
  unfoldable pub check_host_key : Str → HostConfig → PublicKey → Outcome (Unit {0})
  unfolding report_mismatch
  check_host_key host_name host_config public_key = do
    config_pub_key ←
        map_err (λ _. wrong_public_key host_name) (K.from_openssh host_config.public_key)
    if K.same_data (K.key_data config_pub_key) (K.key_data public_key)
        then ok tt
        else report_mismatch host_name (K.to_openssh config_pub_key) (K.to_openssh public_key)

module _ (K : SshKey) (fs : Files) (F : Formats) where
  open K use {PublicKey, PrivateKey, Certificate}

  -- `CertificateAuthority::new`
  unfoldable pub new : Ca → Outcome (CertificateAuthority K)
  new ca_config = do
    key_buffer ← fs.read_to_end ca_config.ca_key
    private_key ← K.private_from_openssh key_buffer
    ok (record { private_key = private_key; config = ca_config })

  unfoldable pub sign_certificate :
      CertificateAuthority K → Draw K → Str → PublicKey → Outcome Certificate
  unfolding issue
  sign_certificate ca draw user_name public_key = do
    user_defaults ← read_user_defaults fs F user_name ca.config
    issue K draw ca.private_key public_key (codes "user") user_name user
        user_defaults.validity_in_days user_defaults.principals user_defaults.extensions

  unfoldable pub check_public_key : CertificateAuthority K → Str → Outcome (Option Str)
  check_public_key ca public_key = do
    found ← find_config_by_public_key K fs F public_key ca.config
    elim found [ some (host_name, _) ↦ ok (some host_name) | none ↦ ok none ]

  unfoldable pub sign_host_certificate :
      CertificateAuthority K → Draw K → Str → PublicKey → Outcome Certificate
  unfolding issue check_host_key
  sign_host_certificate ca draw host_name public_key = do
    host_config ← read_host_config fs F host_name ca.config
    _ ← check_host_key K host_name host_config public_key
    issue K draw ca.private_key public_key (codes "host") host_name host
        host_config.validity_in_days host_config.hostnames host_config.extensions
