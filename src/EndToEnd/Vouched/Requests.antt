-- ===== src/EndToEnd/Vouched/Requests.antt =====
-- A certificate in an answer of the CA: what the request for it was.
use ssh_certificate_authorit.Common.{
  ℕ, ◌≡◌, ◌≢◌, ap, ◌∙◌, ◌⊎◌, inl, inr, subst, some, List, [], Str, ok, Memᴰ, arith,
}
use ssh_certificate_authorit.Interfaces.{Files, SshKey, Formats, Draw, Russh}
use ssh_certificate_authorit.Identity.{UserAuthenticator}
use ssh_certificate_authorit.Authority.{CertificateAuthority}
use ssh_certificate_authorit.Ipc.{
  CaRequest, Wire, JsonLaws, sign_certificate, check_public_key, sign_host_certificate,
  signed_certificate, key_found,
}
use ssh_certificate_authorit.Ipc.Client.{CaClient, Socket, send_request}
use ssh_certificate_authorit.Ipc.Client.Answered.{ShortTexts}
use ssh_certificate_authorit.Ipc.Server.{CaServer, handle_request, or_error}
use ssh_certificate_authorit.Ssh.Handler.{convert_key}
use ssh_certificate_authorit.Ssh.Session.{Event, key_offered}
use ssh_certificate_authorit.Ssh.Session.Legit.{IsLegit, Recognised}
use ssh_certificate_authorit.EndToEnd.{
  made, sign_certificate-Answers, sign_host_certificate-Answers,
}
use ssh_certificate_authorit.EndToEnd.Login.{IsKnown, IsKnown-iff}
use ssh_certificate_authorit.EndToEnd.Vouched.{AtCa, AtCa-answered, ForUser, ForHost, Made}

module _ (K : SshKey) (R : Russh) (W : Wire K) (F : Formats) (server_uid : ℕ)
    (ca : CertificateAuthority K) (disk : Socket → Files) (auths : List UserAuthenticator)
    (calls : List (ℕ × Event R)) (laws : JsonLaws W) (short : ShortTexts W) where
  abbrev any_server : CaServer K
  any_server = record { socket_path = []; ca = ca; auth_token = []; last_counter = 0 }

  same_key :
      (presented : R.PublicKey) (text : Str) (key key' : K.PublicKey)
      → convert_key K R presented ≡ some key'
      → R.to_openssh presented ≡ ok text
      → K.from_openssh text ≡ ok key
      → key' ≡ key
  unfolding convert_key
  same_key presented text key key' c t e = ground arith

  no_certificate :
      (key : K.PublicKey) (cert : K.Certificate) (fs : Files) (draw : Draw K)
      → or_error (handle_request K fs F ca draw (check_public_key key))
        ≢ ok (signed_certificate cert)
  unfolding handle_request
  no_certificate key cert fs draw h = ground arith

  module _ (id : ℕ) (socket : Socket) (at : AtCa K W F server_uid ca disk socket) (c : CaClient)
      (cert : K.Certificate) where
    user-ForUser :
        (user : Str) (key : K.PublicKey)
        → IsLegit K R W auths (Made K R W F server_uid ca disk calls id) (sign_certificate user key)
        → (send_request K W c socket (sign_certificate user key)).1 ≡ ok (signed_certificate cert)
        → ForUser K R F ca disk auths calls id socket cert
    user-ForUser user key (v, (pass, (called, _), accepted)) h =
        elim (AtCa-answered K W F server_uid ca disk laws short socket c (sign_certificate user key)
          (signed_certificate cert) at h) [
            | inl refused ↦ cc
            | inr (draw, answered) ↦ (
              user,
              pass,
              key,
              draw,
              called,
              v,
              accepted,
              made K _ cert
                  (sign_certificate-Answers K (disk socket) F ca draw user key _ answered),
            )
          ]

    -- What the inventory said of the key of a login.
    Recognised-IsKnown :
        (presented : R.PublicKey) (text : Str) (key : K.PublicKey)
        → Recognised K R W auths (Made K R W F server_uid ca disk calls id) presented
        → R.to_openssh presented ≡ ok text
        → K.from_openssh text ≡ ok key
        → (socket' : Socket) × (user : Str) × (host : Str) × Memᴰ
            (id, key_offered socket' user presented)
            calls
          × (convert_key K R presented ≡ some key)
          × IsKnown K R W F server_uid (disk socket') any_server key host
    Recognised-IsKnown presented text key (socket', user, key', c', host, (called, at'), e, found) t
          f =
        let same = same_key presented text key key' e t f in
        elim (AtCa-answered K W F server_uid ca disk laws short socket' c' (check_public_key key')
          (key_found (some host)) at' found) [
            | inl refused ↦ cc
            | inr (draw, answered) ↦ (
              socket',
              user,
              host,
              called,
              e ∙ ap some same,
              subst (λ k. IsKnown K R W F server_uid (disk socket') any_server k host) same
                  ((IsKnown-iff K R W F server_uid (disk socket') draw any_server key' host).0
                    answered),
            )
          ]

    host-ForHost :
        (host_name : Str) (key : K.PublicKey)
        → IsLegit K R W auths
            (Made K R W F server_uid ca disk calls id)
            (sign_host_certificate host_name key)
        → (send_request K W c socket (sign_host_certificate host_name key)).1
          ≡ ok (signed_certificate cert)
        → ForHost K R F ca disk auths calls id socket cert
    host-ForHost host_name key (v, (presented, text, recognised, t, f)) h =
        let (socket', user, host, called, e, (text', config, k, found)) =
          Recognised-IsKnown presented text key recognised t f in
        elim (AtCa-answered K W F server_uid ca disk laws short socket c
          (sign_host_certificate host_name key) (signed_certificate cert) at h) [
            | inl refused ↦ cc
            | inr (draw, answered) ↦ (
              host_name,
              socket',
              user,
              presented,
              key,
              text',
              (host, config),
              draw,
              called,
              e,
              k,
              found,
              v,
              made K _ cert (
                  sign_host_certificate-Answers K (disk socket) F ca draw host_name key _ answered),
            )
          ]

    lookup_gives_none :
        (key : K.PublicKey)
        → (send_request K W c socket (check_public_key key)).1 ≢ ok (signed_certificate cert)
    lookup_gives_none key h =
        elim (AtCa-answered K W F server_uid ca disk laws short socket c (check_public_key key)
          (signed_certificate cert) at h) [
            | inl refused ↦ cc
            | inr (draw, answered) ↦ no_certificate key cert (disk socket) draw answered
          ]

    pub request-Vouched :
        (request : CaRequest K)
        → IsLegit K R W auths (Made K R W F server_uid ca disk calls id) request
        → (send_request K W c socket request).1 ≡ ok (signed_certificate cert)
        → ForUser K R F ca disk auths calls id socket cert
          ⊎ ForHost K R F ca disk auths calls id socket cert
    request-Vouched (sign_certificate user key) l h = inl (user-ForUser user key l h)
    request-Vouched (sign_host_certificate host_name key) l h = inr (host-ForHost host_name key l h)
    request-Vouched (check_public_key key) l h = absurd (lookup_gives_none key h)
