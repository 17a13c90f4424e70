-- ===== src/EndToEnd.antt =====
-- The SSH server and the CA process together: a request of the one that the other serves.
pub mod Login
pub mod Certificates
pub mod Vouched
pub mod Visits
pub mod Conversation
use ssh_certificate_authorit.Common.{
  ℕ, ◌+◌, ◌^◌, ◌≤◌, ◌<◌, ◌≡◌, ◌⊎◌, inl, inr, refl, ok, err, panic, Str, Outcome, Error, arith,
}
use ssh_certificate_authorit.Errors.{to_string}
use ssh_certificate_authorit.Interfaces.{Files, SshKey, Formats, Draw}
use ssh_certificate_authorit.Authority
use ssh_certificate_authorit.Authority.{CertificateAuthority}
use ssh_certificate_authorit.Ipc.{
  CaRequest, CaResponse, Wire, JsonLaws, ComparesBytes, sign_certificate, check_public_key,
  sign_host_certificate, signed_certificate, error, key_found,
}
use ssh_certificate_authorit.Ipc.Client.{CaClient, send_request}
use ssh_certificate_authorit.Ipc.Client.Exchange.{
  FitsMessage, server_socket, next_request, send_request-serve,
}
use ssh_certificate_authorit.Ipc.Server.{CaServer, handle_request, or_error}

module _ (K : SshKey) (W : Wire K) (F : Formats) (server_uid : ℕ) where
  -- The exchange of a request, when nothing on the way prevents it: client and server have the same
  -- token, the client's counter is not behind and has room, and both texts can be written and fit.
  pub record Carries (fs : Files) (draw : Draw K) (ca : CaServer K) (c : CaClient)
      (request : CaRequest K) (resp : CaResponse K) : Type 0 where
    pub token : c.auth_token ≡ ca.auth_token
    pub fresh : ca.last_counter ≤ c.counter
    pub room : c.counter + 1 < 2 ^ 64
    pub request_json : Str
    pub request_text :
        W.request_to_string (next_request K W F server_uid c request) ≡ ok request_json
    pub request_fits : FitsMessage request_json
    pub answered : or_error (handle_request K fs F ca.ca draw request) ≡ ok resp
    pub response_json : Str
    pub response_text : W.response_to_string resp ≡ ok response_json
    pub response_fits : FitsMessage response_json

  pub send_request-Carries :
      (fs : Files) (draw : Draw K) (ca : CaServer K) (c : CaClient) (request : CaRequest K)
      (resp : CaResponse K)
      → JsonLaws W
      → ComparesBytes W
      → Carries fs draw ca c request resp
      → send_request K W c (server_socket K W F server_uid fs draw ca) request
        ≡ (record c { counter = c.counter + 1 }, ok resp)
  send_request-Carries fs draw ca c request resp laws cmp k =
      (send_request-serve K W F server_uid fs draw ca c request resp k.request_json k.response_json
        laws cmp k.token k.fresh k.room k.request_text k.request_fits k.answered k.response_text
        k.response_fits).0

-- A request for a certificate is answered with the certificate, or with the text of the error.
abbrev pub Answers : (K : SshKey) → Outcome K.Certificate → CaResponse K → Type 0
Answers K made resp =
    ((cert : K.Certificate) × (made ≡ ok cert) × (resp ≡ signed_certificate cert))
    ⊎ ((e : Error) × (made ≡ err e) × (resp ≡ error (to_string e)))

pub made :
    (K : SshKey) (m : Outcome K.Certificate) (cert : K.Certificate)
    → Answers K m (signed_certificate cert)
    → m ≡ ok cert
made K m cert (inl (c, e, same)) = ground arith
made K m cert (inr (e, f, other)) = cc

module _ (K : SshKey) (fs : Files) (F : Formats) (ca : CertificateAuthority K) (draw : Draw K) where
  pub sign_certificate-Answers :
      (user : Str) (key : K.PublicKey) (resp : CaResponse K)
      → or_error (handle_request K fs F ca draw (sign_certificate user key)) ≡ ok resp
      → Answers K (Authority.sign_certificate K fs F ca draw user key) resp
  unfolding handle_request
  sign_certificate-Answers user key resp h = ground arith

  pub sign_host_certificate-Answers :
      (host_name : Str) (key : K.PublicKey) (resp : CaResponse K)
      → or_error (handle_request K fs F ca draw (sign_host_certificate host_name key)) ≡ ok resp
      → Answers K (Authority.sign_host_certificate K fs F ca draw host_name key) resp
  unfolding handle_request
  sign_host_certificate-Answers host_name key resp h = ground arith
