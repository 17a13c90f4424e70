-- ===== src/Authority/Steady.antt =====
-- The CA does not panic, under the hypotheses of Interfaces/Calmness on what it calls and unwraps.
use ssh_certificate_authorit.Common.{
  ℕ, ◌≡◌, Option, some, List, [], ◌∷◌, Str, Calm, Calm->>=, Calm-map_err, arith,
}
use ssh_certificate_authorit.Text.{codes}
use ssh_certificate_authorit.FilePath.{FilePath, parent}
use ssh_certificate_authorit.Records.{Ca, HostConfig}
use ssh_certificate_authorit.Interfaces.{
  Files, SshKey, Formats, Draw, CertType, user, host, CalmKeys, CalmFiles, CalmFormats, CalmClock,
}
use ssh_certificate_authorit.Inventory.Steady.{read_host_config-Calm, find_config-Calm}
use ssh_certificate_authorit.UserTemplates.Steady.{read_user_defaults-Calm}
use ssh_certificate_authorit.Authority.{
  CertificateAuthority, new, sign_certificate, check_public_key, sign_host_certificate, issue,
  check_host_key, report_mismatch, as_secs, add_extensions,
}

module _ (K : SshKey) (ck : CalmKeys K) where
  add_extensions-Calm :
      (b : K.Builder) (extensions : List Str) → Calm (add_extensions K b extensions)
  unfolding add_extensions
  add_extensions-Calm b [] = tt
  add_extensions-Calm b (e ∷ es) =
      Calm->>= _ _ (ck.extension b e []) (λ b'. add_extensions-Calm b' es)

  as_secs-Calm : {o : Option ℕ} {n : ℕ} → o ≡ some n → Calm (as_secs o)
  as_secs-Calm e = ground arith

  issue-Calm :
      (draw : Draw K) (private_key : K.PrivateKey) (public_key : K.PublicKey) (label name : Str)
      (tag : CertType) (days : ℕ) (principals extensions : List Str)
      → CalmClock draw
      → Calm (issue K draw private_key public_key label name tag days principals extensions)
  unfolding issue
  issue-Calm draw private_key public_key label name tag days principals extensions c =
      Calm->>= _ _ (as_secs-Calm c.first.1) λ valid_after.
        Calm->>= _ _ (as_secs-Calm c.second.1) λ later.
          Calm->>= _ _ (ck.new_with_random_nonce draw.nonce public_key valid_after _) λ b.
            Calm->>= _ _ (ck.serial b draw.serial) λ b. Calm->>= _ _ (ck.key_id b _) λ b.
              Calm->>= _ _ (ck.cert_type b tag) λ b.
                Calm->>= _ _ (ck.comment _ (K.key_comment public_key))
                  λ b. Calm->>= _ _ (add_extensions-Calm b extensions) λ b. ck.sign b private_key

  check_host_key-Calm :
      (host_name : Str) (c : HostConfig) (public_key : K.PublicKey)
      → Calm (check_host_key K host_name c public_key)
  unfolding check_host_key report_mismatch
  check_host_key-Calm host_name c public_key =
      Calm->>= _ _ (Calm-map_err _ _ (ck.from_openssh c.public_key))
        λ key. ground (arith, (ck.to_openssh key).1, (ck.to_openssh public_key).1)

module _ (K : SshKey) (fs : Files) (F : Formats) (ck : CalmKeys K) (cf : CalmFiles fs)
    (cF : CalmFormats F) where
  pub new-Calm : (config : Ca) → Calm (new K fs F config)
  unfolding new
  new-Calm config =
      Calm->>= _ _ (cf.read_to_end config.ca_key)
        λ bytes. Calm->>= _ _ (ck.private_from_openssh bytes) λ key. tt

  pub sign_certificate-Calm :
      (ca : CertificateAuthority K) (draw : Draw K) (name : Str) (key : K.PublicKey)
      {dir : FilePath}
      → CalmClock draw
      → parent ca.config.user_list_file ≡ some dir
      → Calm (sign_certificate K fs F ca draw name key)
  unfolding sign_certificate
  sign_certificate-Calm ca draw name key c p =
      Calm->>= _ _ (read_user_defaults-Calm fs F cf cF name ca.config p) λ d.
        issue-Calm K ck draw ca.private_key key (codes "user") name user d.validity_in_days
          d.principals d.extensions c

  pub check_public_key-Calm :
      (ca : CertificateAuthority K) (text : Str) → Calm (check_public_key K fs F ca text)
  unfolding check_public_key
  check_public_key-Calm ca text =
      Calm->>= _ _ (find_config-Calm fs F cf cF K ck text ca.config) λ found. ground arith

  pub sign_host_certificate-Calm :
      (ca : CertificateAuthority K) (draw : Draw K) (name : Str) (key : K.PublicKey)
      → CalmClock draw
      → Calm (sign_host_certificate K fs F ca draw name key)
  unfolding sign_host_certificate
  sign_host_certificate-Calm ca draw name key c =
      Calm->>= _ _ (read_host_config-Calm fs F cf cF name ca.config) λ d.
        Calm->>= _ _ (check_host_key-Calm K ck name d key) λ u.
          issue-Calm K ck draw ca.private_key key (codes "host") name host d.validity_in_days
            d.hostnames d.extensions c
