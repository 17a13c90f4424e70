-- ===== src/Authority/Certificates.antt =====
-- When the CA signs, and what it signs.
use ssh_certificate_authorit.Common.{
  ℕ, ◌+◌, ◌*◌, ◌^◌, ◌<◌, ◌≡◌, true, some, Str, Outcome, ok, err, panic, >>=-ok-then,
  wrong_public_key, map_err, arith,
}
use ssh_certificate_authorit.Text.{codes}
use ssh_certificate_authorit.Records.{HostConfig, UserDefaults}
use ssh_certificate_authorit.Interfaces.{Files, SshKey, Formats, Draw, user, host, BuilderLaws}
use ssh_certificate_authorit.Inventory.{read_host_config}
use ssh_certificate_authorit.Inventory.Confined.{map_err-eq-ok}
use ssh_certificate_authorit.UserTemplates.{read_user_defaults}
use ssh_certificate_authorit.Authority.{
  CertificateAuthority, u64, sign_certificate, sign_host_certificate, check_host_key,
  report_mismatch,
}
use ssh_certificate_authorit.Authority.Issue.{IsIssued, issue-fields}

module _ (K : SshKey) where
  open K use {PublicKey}

  report_mismatch-ne-ok :
      (host_name : Str) (m n : Outcome Str) {A : Type 0} → report_mismatch host_name m n ≡ ok tt → A
  unfolding report_mismatch
  report_mismatch-ne-ok host_name (ok a) (ok b) h = cc
  report_mismatch-ne-ok host_name (ok a) (err e) h = cc
  report_mismatch-ne-ok host_name (ok a) panic h = cc
  report_mismatch-ne-ok host_name (err e) n h = cc
  report_mismatch-ne-ok host_name panic n h = cc

  -- The check passes only for the configured key.
  check_host_key-eq-ok :
      (host_name : Str) (c : HostConfig) (public_key : PublicKey) {u : Unit {0}}
      → check_host_key K host_name c public_key ≡ ok u
      → (configured : PublicKey) × (K.from_openssh c.public_key ≡ ok configured)
        × (K.same_data (K.key_data configured) (K.key_data public_key) ≡ true)
  unfolding check_host_key
  check_host_key-eq-ok host_name c public_key h =
      >>=-ok-then (map_err (λ _. wrong_public_key host_name) (K.from_openssh c.public_key)) _ h
        λ configured h1 k1.
          (configured, map_err-eq-ok _ (K.from_openssh c.public_key) h1, ground arith)

module _ (K : SshKey) (L : BuilderLaws K) (fs : Files) (F : Formats) where
  open K use {PublicKey, PrivateKey, Certificate}

  -- When the builder does what ssh-key documents: a user certificate that is signed is for the key
  -- that was sent; it is of the type user, is valid from the first reading of the clock for so many
  -- days as the defaults of the user say, and has the principals and extensions of those defaults
  -- and the key id `user-<name>-<time>`.
  pub sign_certificate-IsIssued :
      (ca : CertificateAuthority K) (draw : Draw K) (user_name : Str) (public_key : PublicKey)
      {cert : Certificate}
      → sign_certificate K fs F ca draw user_name public_key ≡ ok cert
      → (d : UserDefaults) × (now : ℕ) × (later : ℕ) × (read_user_defaults fs F user_name ca.config
          ≡ ok d)
        × (draw.first_clock ≡ some now)
        × (draw.second_clock ≡ some later)
        × IsIssued K
            (L.cert_fields cert)
            public_key
            (codes "user")
            user_name
            user
            d.validity_in_days
            d.principals
            d.extensions
            now
            later
  unfolding sign_certificate
  sign_certificate-IsIssued ca draw user_name public_key h =
      >>=-ok-then (read_user_defaults fs F user_name ca.config) _ h λ d hd k.
        let (now, later, c1, c2, i) =
          issue-fields K L draw ca.private_key public_key (codes "user") user_name user
            d.validity_in_days d.principals d.extensions k in
        (d, now, later, hd, c1, c2, i)

  -- When the builder does what ssh-key documents: a host certificate that is signed is for the key
  -- that was sent, whose key data is equal to that of the key in the configuration of the host; it
  -- is of the type host, is valid from the first reading of the clock for so many days as the
  -- configuration says, and has the host names and extensions of the configuration and the key id
  -- `host-<name>-<time>`.
  pub sign_host_certificate-IsIssued :
      (ca : CertificateAuthority K) (draw : Draw K) (host_name : Str) (public_key : PublicKey)
      {cert : Certificate}
      → sign_host_certificate K fs F ca draw host_name public_key ≡ ok cert
      → (c : HostConfig) × (configured : PublicKey) × (now : ℕ) × (later : ℕ) × (read_host_config fs
            F host_name ca.config
          ≡ ok c)
        × (K.from_openssh c.public_key ≡ ok configured)
        × (K.same_data (K.key_data configured) (K.key_data public_key) ≡ true)
        × (draw.first_clock ≡ some now)
        × (draw.second_clock ≡ some later)
        × IsIssued K
            (L.cert_fields cert)
            public_key
            (codes "host")
            host_name
            host
            c.validity_in_days
            c.hostnames
            c.extensions
            now
            later
  unfolding sign_host_certificate
  sign_host_certificate-IsIssued ca draw host_name public_key h =
      >>=-ok-then (read_host_config fs F host_name ca.config) _ h λ c hc k.
        >>=-ok-then (check_host_key K host_name c public_key) _ k λ u checked issue'.
          let (configured, parsed, same) = check_host_key-eq-ok K host_name c public_key checked in
          let (now, later, c1, c2, i) =
            issue-fields K L draw ca.private_key public_key (codes "host") host_name host
              c.validity_in_days c.hostnames c.extensions issue' in
          (c, configured, now, later, hc, parsed, same, c1, c2, i)

-- A clock before 2 ^ 63 and a `u16` of days leave the end of the validity where it should be: so
-- many days after the reading, with no wrap-around.
pub validity_exact :
    (later days : ℕ)
    → later < 2 ^ 63
    → days < 2 ^ 16
    → u64 (later + u64 (days * 86400)) ≡ later + days * 86400
validity_exact later days h k = omega arith
