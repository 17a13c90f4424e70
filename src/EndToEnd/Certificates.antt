-- ===== src/EndToEnd/Certificates.antt =====
-- A certificate, from the request of a user or a host to what is sent back.
use ssh_certificate_authorit.Common.{
  ℕ, ◌≡◌, refl, sym, ap, ap₂, ◌∙◌, ◌⊎◌, inl, inr, subst, none, some, [], ◌∷◌, ◌++◌, Str, Bytes,
  Outcome, ok, err, panic, arith, Error,
}
use ssh_certificate_authorit.Text.{codes, str_eq}
use ssh_certificate_authorit.Text.Utf8.{from_utf8_lossy}
use ssh_certificate_authorit.Text.Words.{join}
use ssh_certificate_authorit.Errors.{to_string}
use ssh_certificate_authorit.Interfaces.{Files, SshKey, Formats, Draw, Russh}
use ssh_certificate_authorit.Authority
use ssh_certificate_authorit.Ipc.{
  CaRequest, CaResponse, Wire, JsonLaws, ComparesBytes, sign_certificate, sign_host_certificate,
  signed_certificate,
}
use ssh_certificate_authorit.Ipc.Client.{CaClient}
use ssh_certificate_authorit.Ipc.Client.Exchange.{server_socket}
use ssh_certificate_authorit.Ipc.Server.{CaServer}
use ssh_certificate_authorit.Ssh.Names.{validate_hostname, parse_exec_command}
use ssh_certificate_authorit.Ssh.Handler.{
  SshCaServer, ConnectionHandler, by_password, returned, panicked, Turn, disconnect, send_data,
  exit_status, eof, close,
}
use ssh_certificate_authorit.Ssh.Signing.{
  handler_sign_user_key, exec_request, sign_user_key, exec_with, exec_for, run_command,
  handle_sign_host_key, sign_valid_host, request_host_certificate, request_certificate,
  after_request, calls_for, on_key, send_cert_and_close,
}
use ssh_certificate_authorit.EndToEnd.{
  Carries, send_request-Carries, Answers, sign_certificate-Answers, sign_host_certificate-Answers,
}

module _ (K : SshKey) (R : Russh) where
  -- What becomes of a certificate that was made or refused: it is sent to the channel, which is then
  -- closed; or the connection is ended with the reason; or its text cannot be made.
  abbrev pub Replies : R.ChannelId → Outcome K.Certificate → Turn K R (Unit {0}) → Type 0
  Replies channel made t =
      ((cert : K.Certificate) × (text : Str) × (made ≡ ok cert)
        × (K.cert_to_openssh cert ≡ ok text)
        × (t.calls
            ≡ send_data channel text ∷ exit_status channel 0 ∷ eof channel ∷ close channel ∷ [])
        × (t.result ≡ returned tt))
      ⊎ ((cert : K.Certificate) × (e : Error) × (made ≡ ok cert)
          × (K.cert_to_openssh cert ≡ err e)
          × (t.calls
              ≡ disconnect (codes "failed to convert cert to openssh format: " ++ to_string e) ∷ [])
          × (t.result ≡ returned tt))
      ⊎ ((cert : K.Certificate) × (made ≡ ok cert)
          × (K.cert_to_openssh cert ≡ panic)
          × (t.result ≡ panicked))
      ⊎ ((e : Error) × (made ≡ err e)
          × (t.calls ≡ disconnect (codes "CA server error: " ++ to_string e) ∷ [])
          × (t.result ≡ returned tt))

  after_request-cert :
      (h : ConnectionHandler R) (s : SshCaServer R) (request : CaRequest K) (channel : R.ChannelId)
      (cert : K.Certificate) (m : Outcome Str)
      → K.cert_to_openssh cert ≡ m
      → Replies channel
          (ok cert)
          (after_request K R h s request (calls_for K R channel (ok (signed_certificate cert))))
  unfolding calls_for send_cert_and_close after_request
  after_request-cert h s request channel cert (ok text) e =
      inl (cert, text, refl, e, ground (arith, e), ground (arith, e))
  after_request-cert h s request channel cert (err x) e =
      inr (inl (cert, x, refl, e, ground (arith, e), ground (arith, e)))
  after_request-cert h s request channel cert panic e =
      inr (inr (inl (cert, refl, e, ground (arith, e))))

  after_request-Replies :
      (h : ConnectionHandler R) (s : SshCaServer R) (request : CaRequest K) (channel : R.ChannelId)
      (made : Outcome K.Certificate) (resp : CaResponse K)
      → Answers K made resp
      → Replies channel made (after_request K R h s request (calls_for K R channel (ok resp)))
  unfolding calls_for after_request
  after_request-Replies h s request channel made resp (inl (cert, m, e)) =
      subst
        (λ x. Replies channel x (after_request K R h s request (calls_for K R channel (ok resp))))
        (sym m)
        (subst
          (λ x.
            Replies channel (ok cert)
              (after_request K R h s request (calls_for K R channel (ok x))))
          (sym e) (after_request-cert h s request channel cert (K.cert_to_openssh cert) refl))
  after_request-Replies h s request channel made resp (inr (x, m, e)) =
      inr (inr (inr (x, m, rw e refl, rw e refl)))

module _ (K : SshKey) (R : Russh) (W : Wire K) (F : Formats) (server_uid : ℕ) (fs : Files)
    (draw : Draw K) (ca : CaServer K) (laws : JsonLaws W) (cmp : ComparesBytes W)
    (h : ConnectionHandler R) (s : SshCaServer R) (channel : R.ChannelId) where
  request_certificate-Replies :
      (request : CaRequest K) (made : Outcome K.Certificate) (resp : CaResponse K)
      → Carries K W F server_uid fs draw ca s.ca_client request resp
      → Answers K made resp
      → Replies K R channel made (
          request_certificate K R W (server_socket K W F server_uid fs draw ca) h s channel request)
  unfolding request_certificate
  request_certificate-Replies request made resp k a =
      subst
        (λ (x : CaClient × Outcome (CaResponse K)).
          Replies K R channel made (
            after_request K R h (record s { ca_client = x.0 }) request (calls_for K R channel x.1)))
        (sym (send_request-Carries K W F server_uid fs draw ca s.ca_client request resp laws cmp k))
        (after_request-Replies K R h _ request channel made resp a)

  -- When a user who logged in by a password sends a key, and the request for a certificate goes
  -- through to a CA of the same user, the CA makes a certificate for the name of the login and the
  -- key, or refuses to, and the user is sent the certificate, or the reason.
  pub handler_sign_user_key-Replies :
      (bytes : Bytes) (name : Str) (key : K.PublicKey) (resp : CaResponse K)
      → h.username ≡ some name
      → h.auth_method ≡ some by_password
      → K.from_openssh (from_utf8_lossy bytes) ≡ ok key
      → Carries K W F server_uid fs draw ca s.ca_client (sign_certificate name key) resp
      → Replies K R channel (Authority.sign_certificate K fs F ca.ca draw name key) (
          handler_sign_user_key K R W (server_socket K W F server_uid fs draw ca) h s channel bytes)
  unfolding handler_sign_user_key sign_user_key on_key
  handler_sign_user_key-Replies bytes name key resp u m p k =
      let socket = server_socket K W F server_uid fs draw ca in
      subst (Replies K R channel (Authority.sign_certificate K fs F ca.ca draw name key))
        (sym (
          ap₂ (sign_user_key K R W socket h s channel bytes) u m
          ∙ ap
              (on_key K R W socket h s
                (λ x. request_certificate K R W socket h s channel (sign_certificate name x)))
              p))
        (request_certificate-Replies (sign_certificate name key) _ resp k
          (sign_certificate-Answers K fs F ca.ca draw name key resp k.answered))

  -- When a host that logged in by a key asks for a certificate, its name is one that
  -- `validate_hostname` lets through, and the request goes through to a CA of the same user, the CA
  -- makes a certificate for that name and that key, or refuses to, and the host is sent the
  -- certificate, or the reason.
  pub exec_request-Replies :
      (bytes : Bytes) (host_name text : Str) (presented : R.PublicKey) (key : K.PublicKey)
      (resp : CaResponse K)
      → (parse_exec_command bytes).0 ≡ codes "sign_host_key"
      → h.public_key ≡ some presented
      → h.username ≡ some host_name
      → R.to_openssh presented ≡ ok text
      → K.from_openssh text ≡ ok key
      → validate_hostname host_name ≡ none
      → Carries K W F server_uid fs draw ca s.ca_client (sign_host_certificate host_name key) resp
      → Replies K R channel
          (Authority.sign_host_certificate K fs F ca.ca draw host_name key)
          (exec_request K R W (server_socket K W F server_uid fs draw ca) h s channel bytes)
  unfolding exec_request exec_with exec_for run_command handle_sign_host_key sign_valid_host on_key
      request_host_certificate str_eq join
  exec_request-Replies bytes host_name text presented key resp c pk u t p v k =
      let socket = server_socket K W F server_uid fs draw ca in
      subst (Replies K R channel (Authority.sign_host_certificate K fs F ca.ca draw host_name key))
        (sym (
          ap₂ (exec_with K R W socket h s channel) c pk
          ∙ ap₂ (exec_for K R W socket h s channel (codes "sign_host_key")) t u
          ∙ ap (sign_valid_host K R W socket h s channel host_name text) v
          ∙ ap
              (on_key K R W socket h s
                (request_host_certificate K R W socket h s channel host_name h.username))
              p
          ∙ ap (λ x. request_host_certificate K R W socket h s channel host_name x key) u))
        (request_certificate-Replies (sign_host_certificate host_name key) _ resp k
          (sign_host_certificate-Answers K fs F ca.ca draw host_name key resp k.answered))
