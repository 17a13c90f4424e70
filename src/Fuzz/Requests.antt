-- ===== src/Fuzz/Requests.antt =====
-- The targets fuzz_cert_signing and fuzz_ipc_messages: a request is handled by a CA that was just
-- set up, with a file for the host when it is for one.
use ssh_certificate_authorit.Common.{
  unwrap, ◌%◌, not, ◌++◌, Str, Bytes, Outcome, ok, err, panic, ◌>>=◌, ◌>>◌, if◌then◌else◌, length,
  ◌==◌,
}
use ssh_certificate_authorit.Text.{codes}
use ssh_certificate_authorit.Text.Utf8.{as_bytes}
use ssh_certificate_authorit.FilePath.{FilePath, push}
use ssh_certificate_authorit.Records.{Ca}
use ssh_certificate_authorit.Interfaces.{Files, SshKey, Formats, Draw}
use ssh_certificate_authorit.Authority
use ssh_certificate_authorit.Ipc.{
  CaRequest, CaResponse, AuthenticatedRequest, Wire, sign_certificate, check_public_key,
  sign_host_certificate,
}
use ssh_certificate_authorit.Ipc.Server
use ssh_certificate_authorit.Ipc.Server.{handle_request}
use ssh_certificate_authorit.Fuzz.{
  ignore, unwrap_or, TempFiles, RandomKeys, escape_toml, quoted, safe_name, set_up, or_unchanged,
}

unfoldable pub host_config_text : Str → Str → Str
host_config_text config_key name =
    codes "public_key = "
    ++ quoted (escape_toml config_key)
    ++ codes "\nvalidity_in_days = 30\nhostnames = ["
    ++ quoted (escape_toml name)
    ++ codes "]\nextensions = []\n"

abbrev pub default_template : Str
default_template =
    codes "validity_in_days = 7\nprincipals = [\"{{ user_name }}\"]\nextensions = []\n"

abbrev pub fuzz_token : Str
fuzz_token = codes "fuzz_token"

module _ (K : SshKey) (T : TempFiles) (R : RandomKeys K) (F : Formats) where
  -- The key of the host's file, by the length of the name: the key itself, another one, or no key.
  unfoldable pub config_key : Str → K.PublicKey → Outcome Str
  config_key host_name public_key =
      let case = length (as_bytes host_name) % 3 in
      if case == 0
      then unwrap_or (codes "invalid") (K.to_openssh public_key)
      else if case == 1
      then (do other ← unwrap R.other_key; unwrap (K.to_openssh (R.public_key other)))
      else ok (codes "not-a-valid-ssh-key")

  unfoldable pub populate : T.Disk → FilePath → CaRequest K → Outcome T.Disk
  unfolding config_key host_config_text
  populate disk host_inventory (sign_certificate user public_key) = ok disk
  populate disk host_inventory (check_public_key public_key) = ok disk
  populate disk host_inventory (sign_host_certificate host_name public_key) = do
    key ← config_key host_name public_key
    let host_config = host_config_text key (safe_name host_name)
    or_unchanged K T R disk (
        T.write disk (push host_inventory (safe_name host_name ++ codes ".toml"))
          (as_bytes host_config))

  -- `if let Ok(ca) = CertificateAuthority::new(…)`, and the server with it.
  abbrev pub handled :
      Files → Draw K → CaRequest K → Outcome (Authority.CertificateAuthority K) → Outcome (Unit {0})
  handled fs draw request panic = panic
  handled fs draw request (err e) = ok tt
  handled fs draw request (ok ca) =
      let server = Server.new (codes "fuzz_socket") ca fuzz_token in
      ignore (handle_request K fs F server.ca draw request)

  -- From the host's file on.
  unfoldable pub requested : Draw K → CaRequest K → Ca → T.Disk → Outcome (Unit {0})
  unfolding populate
  requested draw request ca_config disk = do
    disk ← populate disk ca_config.host_inventory request
    handled (T.seen disk) draw request (Authority.new K (T.seen disk) F ca_config)

  unfoldable pub fuzz_cert_signing : Draw K → CaRequest K → Outcome (Unit {0})
  unfolding requested
  fuzz_cert_signing draw request = do
    (ca_config, disk) ← set_up K T R default_template
    requested draw request ca_config disk

  -- `serde_json::from_slice` at both messages.
  module _ (W : Wire K) (request_from_slice : Bytes → Outcome (AuthenticatedRequest K))
      (response_from_slice : Bytes → Outcome (CaResponse K)) where
    unfoldable pub fuzz_ipc_messages : Draw K → Bytes → Outcome (Unit {0})
    unfolding requested
    fuzz_ipc_messages draw data' = elim (request_from_slice data') [
      | panic ↦ panic
      | err e ↦ ok tt
      | ok auth_req ↦
          ignore (response_from_slice data')
          >> (if not (W.ct_eq (as_bytes auth_req.token) (as_bytes fuzz_token)) then ok tt else (do
            (ca_config, disk) ← set_up K T R default_template
            requested draw auth_req.request ca_config disk))
    ]
