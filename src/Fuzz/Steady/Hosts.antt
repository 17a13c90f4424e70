-- ===== src/Fuzz/Steady/Hosts.antt =====
-- The target fuzz_host_cert_signing, and the three that run the CA, under the hypotheses of Sane.
use ssh_certificate_authorit.Common.{
  ◌≡◌, refl, ◌∙◌, ◌++◌, Bool, true, false, Outcome, ok, err, panic, Calm, Bytes, >>=-ok,
  if◌then◌else◌,
}
use ssh_certificate_authorit.Text.{codes}
use ssh_certificate_authorit.Text.Utf8.{as_bytes}
use ssh_certificate_authorit.FilePath.{push}
use ssh_certificate_authorit.Records.{Ca}
use ssh_certificate_authorit.Interfaces.{SshKey, Formats, Draw}
use ssh_certificate_authorit.Authority
use ssh_certificate_authorit.Authority.Steady.{new-Calm, sign_host_certificate-Calm}
use ssh_certificate_authorit.Fuzz.{TempFiles, RandomKeys, set_up}
use ssh_certificate_authorit.Fuzz.HostCertificates.{
  FuzzInput, is_skipped, input_config_text, signed, signed_for, plain_template,
  fuzz_host_cert_signing,
}
use ssh_certificate_authorit.Ipc.{Wire, CaRequest, CaResponse, AuthenticatedRequest}
use ssh_certificate_authorit.Fuzz.Requests.{default_template, fuzz_cert_signing, fuzz_ipc_messages}
use ssh_certificate_authorit.Fuzz.Steady.{
  Sane, unwrap_or-ok, ignore-Calm, fuzz_cert_signing_ok, fuzz_ipc_messages_ok,
}

module _ (K : SshKey) (T : TempFiles) (R : RandomKeys K) (F : Formats) (draw : Draw K)
    (sane : Sane K T R F draw) where
  signed_ok :
      (disk : T.Disk) (input : FuzzInput K) (m : Outcome (Authority.CertificateAuthority K))
      → Calm m
      → signed K T R F (T.seen disk) draw input m ≡ ok tt
  signed_ok disk input (ok ca) h = ignore-Calm _ (
      sign_host_certificate-Calm K (T.seen disk) F sane.keys (sane.files disk) sane.formats ca draw
        input.host_name input.public_key sane.clock)
  signed_ok disk input (err e) h = refl
  signed_ok disk input panic h = absurd h

  signed_for_ok :
      (input : FuzzInput K) (config : Ca) (disk : T.Disk)
      → signed_for K T R F draw input config disk ≡ ok tt
  unfolding signed_for
  signed_for_ok input config disk =
      let path = push config.host_inventory (input.host_name ++ codes ".toml") in
      let bytes = as_bytes (input_config_text input) in
      let (disk', e) = unwrap_or-ok disk (T.write disk path bytes) (sane.write disk path bytes) in
      >>=-ok _ _ e
      ∙ signed_ok disk' input (Authority.new K (T.seen disk') F config)
          (new-Calm K (T.seen disk') F sane.keys (sane.files disk') sane.formats config)

  skipped_or : (b : Bool) (m : Outcome (Unit {0})) → m ≡ ok tt → (if b then ok tt else m) ≡ ok tt
  skipped_or true m h = refl
  skipped_or false m h = h

  -- Under the hypotheses of Sane, and when the set-up of the target works, fuzz_host_cert_signing ends without a panic at every
  -- input: the certificate is signed or refused with an error.
  fuzz_host_cert_signing_ok :
      (input : FuzzInput K) {config : Ca} {disk : T.Disk}
      → set_up K T R plain_template ≡ ok (config, disk)
      → fuzz_host_cert_signing K T R F draw input ≡ ok tt
  unfolding fuzz_host_cert_signing
  fuzz_host_cert_signing_ok input {config} {disk} ready =
      skipped_or (is_skipped input) _
        (>>=-ok (set_up K T R plain_template) _ ready ∙ signed_for_ok input config disk)

  -- Under the hypotheses of Sane, when serde_json does not panic on the bytes and the set-up of the
  -- targets works, the three fuzz targets that run the CA end without a panic: fuzz_cert_signing at every request,
  -- fuzz_ipc_messages at these bytes, and fuzz_host_cert_signing at every input. The CA handles a
  -- request with a result or an error.
  ca_targets_ok :
      (W : Wire K) (request_from_slice : Bytes → Outcome (AuthenticatedRequest K))
      (response_from_slice : Bytes → Outcome (CaResponse K)) (bytes : Bytes) (request : CaRequest K)
      (input : FuzzInput K) {config config' : Ca} {disk disk' : T.Disk}
      → set_up K T R default_template ≡ ok (config, disk)
      → set_up K T R plain_template ≡ ok (config', disk')
      → Calm (request_from_slice bytes)
      → Calm (response_from_slice bytes)
      → (fuzz_cert_signing K T R F draw request ≡ ok tt)
        × (fuzz_ipc_messages K T R F W request_from_slice response_from_slice draw bytes ≡ ok tt)
        × (fuzz_host_cert_signing K T R F draw input ≡ ok tt)
  ca_targets_ok W request_from_slice response_from_slice bytes request input ready ready' cq cr = (
    fuzz_cert_signing_ok K T R F draw sane request ready,
    fuzz_ipc_messages_ok K T R F draw sane W request_from_slice response_from_slice bytes ready cq
        cr,
    fuzz_host_cert_signing_ok input ready',
  )
