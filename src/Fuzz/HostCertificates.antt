-- ===== src/Fuzz/HostCertificates.antt =====
-- The target fuzz_host_cert_signing: a host's certificate is signed from a file that the fuzzer
-- makes.
use ssh_certificate_authorit.Common.{
  ℕ, Bool, ◌||◌, List, [], ◌∷◌, ◌++◌, Str, Outcome, ok, err, panic, ◌>>=◌, if◌then◌else◌, ltb,
  length, map, take,
}
use ssh_certificate_authorit.Text.{codes, is_empty, contains_char, contains_str}
use ssh_certificate_authorit.Text.Utf8.{as_bytes}
use ssh_certificate_authorit.Text.Decimal.{decimal}
use ssh_certificate_authorit.FilePath.{push}
use ssh_certificate_authorit.Records.{Ca}
use ssh_certificate_authorit.Interfaces.{Files, SshKey, Formats, Draw}
use ssh_certificate_authorit.Authority
use ssh_certificate_authorit.Authority.{CertificateAuthority}
use ssh_certificate_authorit.Fuzz.{
  ignore, TempFiles, RandomKeys, escape_toml, quoted, set_up, or_unchanged,
}

pub record FuzzInput (K : SshKey) : Type 0 where
  pub host_name : Str
  pub public_key : K.PublicKey
  pub config_public_key : Str
  pub validity_in_days : ℕ
  pub hostnames : List Str
  pub extensions : List Str

-- An input that the target returns on at once.
unfoldable pub is_skipped : {K : SshKey} → FuzzInput K → Bool
is_skipped input =
    is_empty input.host_name
    || ltb 256 (length (as_bytes input.host_name))
    || contains_char b'/' input.host_name
    || contains_char b'\\' input.host_name
    || contains_char 0 input.host_name
    || contains_str (codes "..") input.host_name
    || ltb 32 (length input.hostnames)
    || ltb 32 (length input.extensions)

-- `texts.join(", ")`
comma_join : List Str → Str
comma_join [] = []
comma_join (s ∷ []) = s
comma_join (s ∷ t ∷ texts) = s ++ codes ", " ++ comma_join (t ∷ texts)

abbrev toml_list : List Str → Str
toml_list texts = comma_join (map (λ s. quoted (escape_toml s)) (take 32 texts))

abbrev min : ℕ → ℕ → ℕ
min a b = if ltb b a then b else a

unfoldable pub input_config_text : {K : SshKey} → FuzzInput K → Str
unfolding comma_join
input_config_text input =
    codes "public_key = "
    ++ quoted (escape_toml input.config_public_key)
    ++ codes "\nvalidity_in_days = "
    ++ decimal (min input.validity_in_days 3650)
    ++ codes "\nhostnames = ["
    ++ toml_list input.hostnames
    ++ codes "]\nextensions = ["
    ++ toml_list input.extensions
    ++ codes "]\n"

abbrev pub plain_template : Str
plain_template = codes "validity_in_days = 1\nprincipals = []\nextensions = []\n"

module _ (K : SshKey) (T : TempFiles) (R : RandomKeys K) (F : Formats) where
  abbrev pub signed :
      Files → Draw K → FuzzInput K → Outcome (CertificateAuthority K) → Outcome (Unit {0})
  signed fs draw input panic = panic
  signed fs draw input (err e) = ok tt
  signed fs draw input (ok ca) =
      ignore (Authority.sign_host_certificate K fs F ca draw input.host_name input.public_key)

  -- From the host's file on.
  unfoldable pub signed_for : Draw K → FuzzInput K → Ca → T.Disk → Outcome (Unit {0})
  unfolding input_config_text
  signed_for draw input ca_config disk = do
    disk ← or_unchanged K T R disk (
        T.write disk (push ca_config.host_inventory (input.host_name ++ codes ".toml"))
          (as_bytes (input_config_text input)))
    signed (T.seen disk) draw input (Authority.new K (T.seen disk) F ca_config)

  unfoldable pub fuzz_host_cert_signing : Draw K → FuzzInput K → Outcome (Unit {0})
  unfolding is_skipped signed_for
  fuzz_host_cert_signing draw input =
      if is_skipped input
      then ok tt
      else do (ca_config, disk) ← set_up K T R plain_template; signed_for draw input ca_config disk
