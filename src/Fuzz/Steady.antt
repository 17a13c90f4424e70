-- ===== src/Fuzz/Steady.antt =====
-- The targets that set a CA up, under the hypotheses of Sane, which has CalmKeys and CalmFiles.
pub mod Hosts
use ssh_certificate_authorit.Common.{
  unwrap, ℕ, ◌≡◌, refl, ap, ◌∙◌, sym, subst, not, some, List, [], ◌∷◌, ◌++◌, Str, Bytes, Outcome,
  ok, err, panic, ◌>>=◌, ◌>>◌, >>=-eq-ok, >>=-ok, Calm, Calm->>=, Calm-if, arith, if◌then◌else◌,
  Bool, true, false, length, ◌%◌, ◌==◌,
}
use ssh_certificate_authorit.Text.{codes, str_eq}
use ssh_certificate_authorit.Text.Utf8.{as_bytes}
use ssh_certificate_authorit.FilePath.{FilePath, push, parent}
use ssh_certificate_authorit.FilePath.Parent.{parent-push}
use ssh_certificate_authorit.Records.{Ca}
use ssh_certificate_authorit.Interfaces.{
  SshKey, Formats, Files, Draw, CalmKeys, CalmFiles, CalmFormats, CalmClock,
}
use ssh_certificate_authorit.Authority
use ssh_certificate_authorit.Authority.Steady.{new-Calm, sign_host_certificate-Calm}
use ssh_certificate_authorit.Ipc.{
  CaRequest, CaResponse, AuthenticatedRequest, Wire, sign_certificate, check_public_key,
  sign_host_certificate,
}
use ssh_certificate_authorit.Ipc.Server
use ssh_certificate_authorit.Ipc.Server.{handle_request}
use ssh_certificate_authorit.Ipc.Server.Steady.{handle_request-Calm}
use ssh_certificate_authorit.Fuzz.{
  ignore, unwrap_or, TempFiles, RandomKeys, set_up, set_up_in, or_unchanged, safe_name,
}
use ssh_certificate_authorit.Fuzz.Requests.{
  config_key, populate, requested, host_config_text, handled, default_template, fuzz_token,
  fuzz_cert_signing, fuzz_ipc_messages,
}

pub unwrap_or-ok {ℓ} :
    {A : Type ℓ} (a : A) (m : Outcome A) → Calm m → (b : A) × (unwrap_or a m ≡ ok b)
unwrap_or-ok a (ok b) h = (b, refl)
unwrap_or-ok a (err e) h = (a, refl)
unwrap_or-ok a panic h = absurd h

pub ignore-Calm {ℓ} : {A : Type ℓ} (m : Outcome A) → Calm m → ignore m ≡ ok tt
ignore-Calm (ok b) h = refl
ignore-Calm (err e) h = refl
ignore-Calm panic h = absurd h

-- What a target relies on: the libraries and the disk do not panic, what the program unwraps of
-- them is there, the clock is past the epoch, and there is a second key.
pub record Sane (K : SshKey) (T : TempFiles) (R : RandomKeys K) (F : Formats) (draw : Draw K)
    : Type 0 where
  pub keys : CalmKeys K
  pub formats : CalmFormats F
  pub files : (disk : T.Disk) → CalmFiles (T.seen disk)
  pub write : (disk : T.Disk) (path : FilePath) (bytes : Bytes) → Calm (T.write disk path bytes)
  pub clock : CalmClock draw
  pub other_key : (key : K.PrivateKey) × (R.other_key ≡ ok key)

module _ (K : SshKey) (T : TempFiles) (R : RandomKeys K) (F : Formats) (draw : Draw K)
    (sane : Sane K T R F draw) where
  set_up_in-user_list :
      (base : FilePath) (disk : T.Disk) (users template : Str) {config : Ca} {disk' : T.Disk}
      → set_up_in K T R base disk users template ≡ ok (config, disk')
      → config.user_list_file ≡ push base (codes "user.toml")
  unfolding set_up_in
  set_up_in-user_list base disk users template h = ground arith

  user_list-parent :
      (template : Str) {config : Ca} {disk : T.Disk}
      → set_up K T R template ≡ ok (config, disk)
      → (dir : FilePath) × (parent config.user_list_file ≡ some dir)
  unfolding set_up str_eq
  user_list-parent template h =
      let (at, t, rest) = >>=-eq-ok (unwrap T.temp_dir) _ h in
      let e = set_up_in-user_list at.0 at.1 (codes "[users]\n") template rest in
      let (dir, p) =
        parent-push at.0 (codes "user.toml") (record { no_slash = refl; named = refl }) in
      (dir, ap parent e ∙ p)

  mismatched_key :
      (text : Str) × ((do other ← unwrap R.other_key; unwrap (K.to_openssh (R.public_key other)))
        ≡ ok text)
  mismatched_key =
      let (other, o) = sane.other_key in
      let (text, t) = sane.keys.to_openssh (R.public_key other) in (text, ground (arith, o, t))

  config_key-ok :
      (name : Str) (key : K.PublicKey) → (text : Str) × (config_key K T R F name key ≡ ok text)
  unfolding config_key
  config_key-ok name key =
      by_case (length (as_bytes name) % 3 == 0) (length (as_bytes name) % 3 == 1)
    where
      by_case :
          (same other : Bool)
          → (text : Str) × ((if same
                then unwrap_or (codes "invalid") (K.to_openssh key)
                else if other
                then (do other ← unwrap R.other_key; unwrap (K.to_openssh (R.public_key other)))
                else ok (codes "not-a-valid-ssh-key"))
              ≡ ok text)
      by_case true other = let (text, t) = sane.keys.to_openssh key in (text, ground (arith, t))
      by_case false true = mismatched_key
      by_case false false = (codes "not-a-valid-ssh-key", refl)

  populate-ok :
      (disk : T.Disk) (inventory : FilePath) (request : CaRequest K)
      → (disk' : T.Disk) × (populate K T R F disk inventory request ≡ ok disk')
  unfolding populate
  populate-ok disk inventory (sign_certificate user key) = (disk, refl)
  populate-ok disk inventory (check_public_key key) = (disk, refl)
  populate-ok disk inventory (sign_host_certificate name key) =
      let (text, t) = config_key-ok name key in
      let path = push inventory (safe_name name ++ codes ".toml") in
      let bytes = as_bytes (host_config_text text (safe_name name)) in
      let (disk', w) = unwrap_or-ok disk (T.write disk path bytes) (sane.write disk path bytes) in
      (disk', >>=-ok (config_key K T R F name key) _ t ∙ w)

  new-config :
      (fs : Files) (config : Ca) {ca : Authority.CertificateAuthority K}
      → Authority.new K fs F config ≡ ok ca
      → ca.config ≡ config
  unfolding Authority.new
  new-config fs config h = ground arith

  handled_ok :
      (disk : T.Disk) (request : CaRequest K) (config : Ca) {dir : FilePath}
      → parent config.user_list_file ≡ some dir
      → handled K T R F (T.seen disk) draw request (Authority.new K (T.seen disk) F config) ≡ ok tt
  unfolding Server.new
  handled_ok disk request config {dir} p =
      of (Authority.new K (T.seen disk) F config) refl
        (new-Calm K (T.seen disk) F sane.keys (sane.files disk) sane.formats config)
    where
      of :
          (m : Outcome (Authority.CertificateAuthority K))
          → Authority.new K (T.seen disk) F config ≡ m
          → Calm m
          → handled K T R F (T.seen disk) draw request m ≡ ok tt
      of (ok ca) e h = ignore-Calm _ (
          handle_request-Calm K F sane.keys sane.formats (T.seen disk) ca draw request
            (sane.files disk) sane.clock
            (subst (λ (c : Ca). parent c.user_list_file ≡ some dir)
              (sym (new-config (T.seen disk) config e)) p))
      of (err x) e h = refl
      of panic e h = absurd h

  requested_ok :
      (request : CaRequest K) {config : Ca} {disk : T.Disk}
      → set_up K T R default_template ≡ ok (config, disk)
      → requested K T R F draw request config disk ≡ ok tt
  unfolding requested
  requested_ok request {config} {disk} ready =
      let (disk', e) = populate-ok disk config.host_inventory request in
      let (dir, p) = user_list-parent default_template ready in
      >>=-ok (populate K T R F disk config.host_inventory request) _ e
      ∙ handled_ok disk' request config p

  -- Under the hypotheses of Sane, and when the set-up of the target works, fuzz_cert_signing ends without a panic at every
  -- request: the CA handles it with a result or an error.
  pub fuzz_cert_signing_ok :
      (request : CaRequest K) {config : Ca} {disk : T.Disk}
      → set_up K T R default_template ≡ ok (config, disk)
      → fuzz_cert_signing K T R F draw request ≡ ok tt
  unfolding fuzz_cert_signing
  fuzz_cert_signing_ok request ready =
      >>=-ok (set_up K T R default_template) _ ready ∙ requested_ok request ready

  -- Under the hypotheses of Sane, when serde_json does not panic on the bytes and the set-up works,
  -- fuzz_ipc_messages ends without a panic: bytes that are no request, or have another token, are
  -- dropped, and a request is handled with a result or an error.
  pub fuzz_ipc_messages_ok :
      (W : Wire K) (request_from_slice : Bytes → Outcome (AuthenticatedRequest K))
      (response_from_slice : Bytes → Outcome (CaResponse K)) (bytes : Bytes) {config : Ca}
      {disk : T.Disk}
      → set_up K T R default_template ≡ ok (config, disk)
      → Calm (request_from_slice bytes)
      → Calm (response_from_slice bytes)
      → fuzz_ipc_messages K T R F W request_from_slice response_from_slice draw bytes ≡ ok tt
  unfolding fuzz_ipc_messages
  fuzz_ipc_messages_ok W request_from_slice response_from_slice bytes {config} {disk} ready cq cr =
      read (request_from_slice bytes) cq
    where
      run : CaRequest K → Outcome (Unit {0})
      run request = do
        (ca_config, disk) ← set_up K T R default_template
        requested K T R F draw request ca_config disk

      run_ok : (request : CaRequest K) → run request ≡ ok tt
      run_ok request = >>=-ok (set_up K T R default_template) _ ready ∙ requested_ok request ready

      read :
          (m : Outcome (AuthenticatedRequest K))
          → Calm m
          → (elim m as (λ _. Outcome (Unit {0})) [
            | panic ↦ panic
            | err e ↦ ok tt
            | ok auth_req ↦
                ignore (response_from_slice bytes)
                >> (if not (W.ct_eq (as_bytes auth_req.token) (as_bytes fuzz_token))
                    then ok tt
                    else run auth_req.request)
          ])
            ≡ ok tt
      read (ok auth_req) h =
          ground (arith, ignore-Calm (response_from_slice bytes) cr, run_ok auth_req.request)
      read (err e) h = refl
      read panic h = absurd h
