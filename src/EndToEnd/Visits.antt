-- ===== src/EndToEnd/Visits.antt =====
-- A whole visit, from the connection to the certificate: what its calls come to.
pub mod Served
use ssh_certificate_authorit.Common.{
  ℕ, ◌+◌, ◌≡◌, refl, sym, ap, ◌∙◌, true, some, none, List, [], ◌∷◌, ◌++◌, append-nil, Str, Bytes,
  Outcome, ok, inl, inr, subst, arith, ◌%◌, ◌^◌,
}
use ssh_certificate_authorit.Text.{codes}
use ssh_certificate_authorit.Text.Utf8.{from_utf8_lossy}
use ssh_certificate_authorit.Interfaces.{Files, SshKey, Formats, Draw, Russh}
use ssh_certificate_authorit.Authority
use ssh_certificate_authorit.Ipc.{
  Wire, JsonLaws, ComparesBytes, sign_certificate, check_public_key, sign_host_certificate,
  signed_certificate, key_found, CaResponse,
}
use ssh_certificate_authorit.Ipc.Client.{CaClient, send_request}
use ssh_certificate_authorit.Ipc.Client.Exchange.{server_socket}
use ssh_certificate_authorit.Ipc.Server.{CaServer}
use ssh_certificate_authorit.Ssh.Names.{validate_username, validate_hostname, parse_exec_command}
use ssh_certificate_authorit.Ssh.Handler.{
  SshCaServer, ConnectionHandler, Call, send_data, exit_status, eof, close, new_client, by_password,
  by_public_key, auth_password, auth_publickey, channel_open_session, returned, Turn, Returned,
  request_denied, failed, panicked, convert_key, decide_key, key_found_of, accept,
}
use ssh_certificate_authorit.Ssh.Handler.Login.{Accepted, auth_password-of_Accepted}
use ssh_certificate_authorit.Ssh.Handler.KeyLogin.{auth_publickey-some}
use ssh_certificate_authorit.Ssh.Signing.{handler_sign_user_key, exec_request}
use ssh_certificate_authorit.Ssh.Session
use ssh_certificate_authorit.Ssh.Session.{
  password_offered, key_offered, session_opened, data_received, exec_requested, session_calls,
}
use ssh_certificate_authorit.EndToEnd.{
  made, Carries, send_request-Carries, sign_certificate-Answers, sign_host_certificate-Answers,
}
use ssh_certificate_authorit.EndToEnd.Certificates.{
  Replies, handler_sign_user_key-Replies, exec_request-Replies,
}

module _ (K : SshKey) (R : Russh) where
  -- The certificate is sent, and the channel closed.
  abbrev pub sends : R.ChannelId → Str → List (Call R)
  sends channel text =
      send_data channel text ∷ exit_status channel 0 ∷ eof channel ∷ close channel ∷ []

  pub Replies-sends :
      (channel : R.ChannelId) (m : Outcome K.Certificate) (cert : K.Certificate) (text : Str)
      (t : Turn K R (Unit {0}))
      → m ≡ ok cert
      → K.cert_to_openssh cert ≡ ok text
      → Replies K R channel m t
      → (t.calls ≡ sends channel text) × (t.result ≡ returned tt)
  Replies-sends channel m cert text t e f (inl (c, x, made, written, calls, result)) =
      let same : c ≡ cert = ground arith in
      let same_text : x ≡ text = cc (written, f, ap K.cert_to_openssh same) in
      (calls ∙ ap (sends channel) same_text, result)
  Replies-sends channel m cert text t e f (inr (inl (c, x, made, written, calls, result))) =
      let same : c ≡ cert = ground arith in cc (written, f, ap K.cert_to_openssh same)
  Replies-sends channel m cert text t e f (inr (inr (inl (c, made, written, result)))) =
      let same : c ≡ cert = ground arith in cc (written, f, ap K.cert_to_openssh same)
  Replies-sends channel m cert text t e f (inr (inr (inr (x, made, calls, result)))) = cc (made, e)

module _ (K : SshKey) (R : Russh) (W : Wire K) (F : Formats) (server_uid : ℕ) (laws : JsonLaws W)
    (cmp : ComparesBytes W) where
  -- A call that returns, and the calls after it.
  session_calls-cons :
      (h : ConnectionHandler R) (s : SshCaServer R) (e : Session.Event R)
      (es : List (Session.Event R)) (t : Turn K R (Unit {0}))
      → Session.step K R W h s e ≡ t
      → t.result ≡ returned tt
      → session_calls K R W h s (e ∷ es) ≡ t.calls ++ session_calls K R W t.handler t.server es
  unfolding session_calls
  session_calls-cons h s e es t q r =
      ap
        (λ (t : Turn K R (Unit {0})). t.calls ++ elim t.result [
          | returned u ↦ session_calls K R W t.handler t.server es
          | request_denied ↦ []
          | failed x ↦ []
          | panicked ↦ []
        ])
        q
      ∙ ap
          (λ (x : Returned (Unit {0})). t.calls ++ elim x [
            | returned u ↦ session_calls K R W t.handler t.server es
            | request_denied ↦ []
            | failed x ↦ []
            | panicked ↦ []
          ])
          r

  -- The last call of a visit.
  pub last_call :
      (h : ConnectionHandler R) (s : SshCaServer R) (e : Session.Event R) (channel : R.ChannelId)
      (text : Str)
      → ((Session.step K R W h s e).calls ≡ sends K R channel text)
        × ((Session.step K R W h s e).result ≡ returned tt)
      → session_calls K R W h s (e ∷ []) ≡ sends K R channel text
  unfolding session_calls
  last_call h s e channel text (c, r) =
      session_calls-cons h s e [] (Session.step K R W h s e) refl r ∙ ap (λ l. l ++ []) c

  pub user_visit :
      (s : SshCaServer R) (h : ConnectionHandler R) (user pass : Str) (channel : R.ChannelId)
      (handle : R.Handle) (e : Session.Event R)
      → validate_username user ≡ true
      → Accepted s.user_authenticators user pass
      → session_calls K R W h s
          (password_offered user pass ∷ session_opened channel handle ∷ e ∷ [])
        ≡ session_calls K R W
            (record h { username = some user; auth_method = some by_password })
            (channel_open_session
              (record h { username = some user; auth_method = some by_password })
              s
              channel
              handle)
            (e ∷ [])
  unfolding Session.step
  user_visit s h user pass channel handle e v a =
      session_calls-cons h s (password_offered user pass) _ _
        (ap (Session.untyped K R W) (auth_password-of_Accepted K R h s user pass v a)) refl
      ∙ session_calls-cons _ s (session_opened channel handle) _ _ refl refl

  pub host_visit :
      (fs : Files) (draw : Draw K) (ca : CaServer K) (s : SshCaServer R) (h : ConnectionHandler R)
      (user : Str) (public_key : R.PublicKey) (key : K.PublicKey) (host : Str)
      (channel : R.ChannelId) (handle : R.Handle) (e : Session.Event R)
      → convert_key K R public_key ≡ some key
      → Carries K W F server_uid fs draw ca s.ca_client
          (check_public_key key)
          (key_found (some host))
      → session_calls K R W h s (
          key_offered (server_socket K W F server_uid fs draw ca) user public_key
          ∷ session_opened channel handle
          ∷ e
          ∷ [])
        ≡ session_calls K R W
            (record h {
              username = some host;
              auth_method = some by_public_key;
              public_key = some public_key;
            })
            (channel_open_session
              (record h {
                username = some host;
                auth_method = some by_public_key;
                public_key = some public_key;
              })
              (record s { ca_client = record s.ca_client { counter = s.ca_client.counter + 1 } })
              channel
              handle)
            (e ∷ [])
  unfolding Session.step decide_key key_found_of
  host_visit fs draw ca s h user public_key key host channel handle e c k =
      let socket = server_socket K W F server_uid fs draw ca in
      let sent =
        send_request-Carries K W F server_uid fs draw ca s.ca_client (check_public_key key)
          (key_found (some host)) laws cmp k in
      session_calls-cons h s (key_offered socket user public_key) _ _
        (ap (Session.untyped K R W) (
          auth_publickey-some K R W socket h s user public_key key c
          ∙ ap
              (λ (x : CaClient × Outcome (CaResponse K)).
                decide_key K R h (record s { ca_client = x.0 }) public_key (check_public_key key)
                  (key_found_of K R x.1))
              sent))
        refl
      ∙ session_calls-cons _ _ (session_opened channel handle) _ _ refl refl
