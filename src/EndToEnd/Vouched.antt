-- ===== src/EndToEnd/Vouched.antt =====
-- Every certificate that a client is sent, with all the connections of the SSH server and the CA.
pub mod Requests
pub mod Sites
use ssh_certificate_authorit.Common.{
  ℕ, ◌≡◌, ◌≢◌, refl, sym, ap, ◌∙◌, ◌⊎◌, inl, inr, subst, true, none, some, Option, List, [], ◌∷◌,
  ◌++◌, Str, Bytes, Outcome, ok, err, panic, Error, All, All-map, All-both, All-Memᴰ, Memᴰ, arith,
}
use ssh_certificate_authorit.Records.{SshServerConfig, HostConfig}
use ssh_certificate_authorit.Interfaces.{Files, SshKey, Formats, Draw, Russh}
use ssh_certificate_authorit.Inventory.{find_config_by_public_key}
use ssh_certificate_authorit.Identity.{UserAuthenticator}
use ssh_certificate_authorit.Authority
use ssh_certificate_authorit.Authority.{CertificateAuthority}
use ssh_certificate_authorit.Ipc.{
  CaRequest, CaResponse, Wire, JsonLaws, sign_certificate, check_public_key, sign_host_certificate,
  signed_certificate, key_found, error,
}
use ssh_certificate_authorit.Ipc.Client.{CaClient, Socket, send_request}
use ssh_certificate_authorit.Ipc.Client.Exchange.{server_socket}
use ssh_certificate_authorit.Ipc.Client.Answered.{ShortTexts, send_request-answered}
use ssh_certificate_authorit.Ipc.Server.{CaServer, handle_request, or_error, authentication_failed}
use ssh_certificate_authorit.Ssh.Names.{validate_username, validate_hostname, parse_exec_command}
use ssh_certificate_authorit.Ssh.Handler.{
  SshCaServer, ConnectionHandler, Call, disconnect, send_data, exit_status, eof, close, convert_key,
}
use ssh_certificate_authorit.Ssh.Handler.Login.{Accepted}
use ssh_certificate_authorit.Ssh.Session
use ssh_certificate_authorit.Ssh.Session.{
  Event, password_offered, key_offered, session_opened, data_received, exec_requested,
}
use ssh_certificate_authorit.Ssh.Session.Legit.{IsLegit, IsSound, Recognised}
use ssh_certificate_authorit.Ssh.Session.Sources.{
  IsFrom, At, auth_password_calls, auth_publickey_calls, sign_user_key-IsSourced,
  exec_with-IsSourced,
}
use ssh_certificate_authorit.Ssh.Session.Signers.{sign_user_key-Keeps, exec_with-Keeps}
use ssh_certificate_authorit.Ssh.Signing.{handler_sign_user_key, exec_request}
use ssh_certificate_authorit.EndToEnd.{
  Answers, sign_certificate-Answers, sign_host_certificate-Answers,
}
use ssh_certificate_authorit.EndToEnd.Login.{IsKnown, IsKnown-iff}

module _ (K : SshKey) (W : Wire K) (F : Formats) (server_uid : ℕ) (ca : CertificateAuthority K)
    (disk : Socket → Files) where
  -- The socket of a server with this CA, in any state, that meets the files `disk` has for the
  -- socket, or one that cannot be connected to.
  abbrev pub AtCa : Socket → Type 0
  AtCa socket =
      ((draw : Draw K) × (s : CaServer K) × (s.ca ≡ ca)
        × (socket ≡ server_socket K W F server_uid (disk socket) draw s))
      ⊎ ((e : Error) × (socket.connect ≡ err e))

  module _ (laws : JsonLaws W) (short : ShortTexts W) where
    -- What is answered there, unless the server refuses.
    pub AtCa-answered :
        (socket : Socket) (c : CaClient) (request : CaRequest K) (resp : CaResponse K)
        → AtCa socket
        → (send_request K W c socket request).1 ≡ ok resp
        → (resp ≡ authentication_failed)
          ⊎ ((draw : Draw K) × (or_error (handle_request K (disk socket) F ca draw request)
                ≡ ok resp))
    unfolding send_request
    AtCa-answered socket c request resp (inr (e, down)) h = ground arith
    AtCa-answered socket c request resp (inl (draw, s, same, at)) h =
        elim (send_request-answered K W F server_uid laws short (disk socket) draw s c request resp
          (subst (λ x. (send_request K W c x request).1 ≡ ok resp) at h)) [
            | inl refused ↦ inl refused
            | inr answered ↦ inr (
              draw,
              subst (λ a. or_error (handle_request K (disk socket) F a draw request) ≡ ok resp) same
                  answered,
            )
          ]

module _ (K : SshKey) (R : Russh) (F : Formats) (ca : CertificateAuthority K)
    (disk : Socket → Files) (auths : List UserAuthenticator) (calls : List (ℕ × Event R))
    (id : ℕ) where
  -- A user certificate for a valid name, for which a password was offered on this connection and
  -- accepted, as the CA makes it from its files at `now`.
  abbrev pub ForUser : Socket → K.Certificate → Type 0
  ForUser now cert =
      (user : Str) × (pass : Str) × (key : K.PublicKey) × (draw : Draw K) × Memᴰ
        (id, password_offered user pass) calls
      × (validate_username user ≡ true)
      × Accepted auths user pass
      × (Authority.sign_certificate K (disk now) F ca draw user key ≡ ok cert)

  -- A host certificate for a key that was offered on this connection, in a call whose socket has the
  -- files in which a search of the inventory finds the key, as the CA makes it from its files at
  -- `now`.
  abbrev pub ForHost : Socket → K.Certificate → Type 0
  ForHost now cert =
      (host_name : Str) × (socket : Socket) × (user : Str) × (presented : R.PublicKey)
      × (key : K.PublicKey) × (text : Str) × (found : Str × HostConfig) × (draw : Draw K) × Memᴰ
          (id, key_offered socket user presented) calls
      × (convert_key K R presented ≡ some key)
      × (K.to_openssh key ≡ ok text)
      × (find_config_by_public_key K (disk socket) F text ca.config ≡ ok (some found))
      × (validate_hostname host_name ≡ none)
      × (Authority.sign_host_certificate K (disk now) F ca draw host_name key ≡ ok cert)

  abbrev pub IsVouched : Socket → Call R → Type 0
  IsVouched now (send_data channel text) =
      (cert : K.Certificate) × (K.cert_to_openssh cert ≡ ok text)
      × (ForUser now cert ⊎ ForHost now cert)
  IsVouched now (disconnect reason) = Unit
  IsVouched now (exit_status channel code) = Unit
  IsVouched now (eof channel) = Unit
  IsVouched now (close channel) = Unit

  -- The same of what a call on the handler does; those without a request for a certificate do
  -- nothing to the session.
  abbrev pub IsVouchedIn : Event R → Call R → Type 0
  IsVouchedIn (password_offered user pass) call = ⊥
  IsVouchedIn (key_offered socket user public_key) call = ⊥
  IsVouchedIn (session_opened channel handle) call = ⊥
  IsVouchedIn (data_received socket channel bytes) call = IsVouched socket call
  IsVouchedIn (exec_requested socket channel bytes) call = IsVouched socket call

module _ (K : SshKey) (R : Russh) (W : Wire K) (F : Formats) (server_uid : ℕ)
    (ca : CertificateAuthority K) (disk : Socket → Files) (calls : List (ℕ × Event R)) where
  -- A call that was made, with the socket of the CA.
  abbrev pub Made : ℕ → Event R → Type 0
  Made id e = Memᴰ (id, e) calls × At K R W e (AtCa K W F server_uid ca disk)
