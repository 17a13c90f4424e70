-- ===== src/Authority/Hosts.antt =====
-- What is issued for a host that the CA finds by its key, and the refusal of another key.
use ssh_certificate_authorit.Common.{
  ◌≡◌, refl, true, false, Str, ok, err, wrong_public_key, arith, ◌∙◌,
}
use ssh_certificate_authorit.Text.{codes}
use ssh_certificate_authorit.FilePath.{FilePath, push, path_starts_with}
use ssh_certificate_authorit.Records.{Ca, HostConfig}
use ssh_certificate_authorit.Interfaces.{Files, SshKey, Formats, Draw, host, read_toml_file}
use ssh_certificate_authorit.Inventory.{toml_name, ensure_path_within_directory, read_host_config}
use ssh_certificate_authorit.Inventory.Search.{IsMatch}
use ssh_certificate_authorit.Authority.{
  CertificateAuthority, issue, check_host_key, report_mismatch, sign_host_certificate,
}

module _ (K : SshKey) (fs : Files) (F : Formats) where
  read_host_config-inside :
      (host_name : Str) (config : Ca) (base path : FilePath)
      → fs.canonicalize config.host_inventory ≡ ok base
      → fs.canonicalize (push config.host_inventory (toml_name host_name)) ≡ ok path
      → path_starts_with path base ≡ true
      → read_host_config fs F host_name config ≡ read_toml_file fs F.host_config_from_str path
  unfolding read_host_config ensure_path_within_directory
  read_host_config-inside host_name config base path b p i = ground (arith, b, p, i)

  check_host_key-same :
      (host_name : Str) (c : HostConfig) (key configured : K.PublicKey)
      → K.from_openssh c.public_key ≡ ok configured
      → K.same_data (K.key_data configured) (K.key_data key) ≡ true
      → check_host_key K host_name c key ≡ ok tt
  unfolding check_host_key
  check_host_key-same host_name c key configured e s = ground (arith, e, s)

  -- When a file of the inventory has the key, is named after the host, and stands where a host of
  -- that name is looked for, signing for the host is issuing with what the file says, or the error
  -- of that.
  sign_host_certificate-of_IsMatch :
      (ca : CertificateAuthority K) (draw : Draw K) (host_name : Str) (key : K.PublicKey)
      (inventory file : FilePath) (c : HostConfig)
      (m : IsMatch K fs F (K.key_data key) inventory file host_name c)
      → fs.canonicalize ca.config.host_inventory ≡ ok inventory
      → fs.canonicalize (push ca.config.host_inventory (toml_name host_name)) ≡ ok m.canonical
      → read_toml_file fs F.host_config_from_str m.canonical ≡ ok c
      → sign_host_certificate K fs F ca draw host_name key
        ≡ issue K draw ca.private_key key
            (codes "host")
            host_name
            host
            c.validity_in_days
            c.hostnames
            c.extensions
  unfolding sign_host_certificate
  sign_host_certificate-of_IsMatch ca draw host_name key inventory file c m b p r =
      rw
        (
          read_host_config-inside host_name ca.config inventory m.canonical b p m.inside ∙ r,
          check_host_key-same host_name c key m.configured m.parsed m.same_key,
        )
        refl

  -- When the host has a configuration whose key can be read and has other key data than the key
  -- that was sent, and both keys can be printed, the certificate is refused with the host's name.
  sign_host_certificate_mismatch :
      (ca : CertificateAuthority K) (draw : Draw K) (host_name : Str) (key configured : K.PublicKey)
      (c : HostConfig) (configured_text key_text : Str)
      → read_host_config fs F host_name ca.config ≡ ok c
      → K.from_openssh c.public_key ≡ ok configured
      → K.same_data (K.key_data configured) (K.key_data key) ≡ false
      → K.to_openssh configured ≡ ok configured_text
      → K.to_openssh key ≡ ok key_text
      → sign_host_certificate K fs F ca draw host_name key ≡ err (wrong_public_key host_name)
  unfolding sign_host_certificate check_host_key
  sign_host_certificate_mismatch ca draw host_name key configured c ct kt r e s t u =
      rw r (rw e (rw s (rw (t, u) (unfold report_mismatch in refl))))
