-- ===== src/EndToEnd/Vouched/Sites.antt =====
-- What the connections of a server are sent, however they interleave.
use ssh_certificate_authorit.Common.{
  ℕ, ◌≡◌, refl, sym, subst, true, List, ◌∷◌, ◌++◌, All, All-map, All-both, All-Memᴰ, Memᴰ,
}
use ssh_certificate_authorit.Records.{SshServerConfig}
use ssh_certificate_authorit.Interfaces.{Files, SshKey, Formats, Russh}
use ssh_certificate_authorit.Identity.{UserAuthenticator}
use ssh_certificate_authorit.Authority.{CertificateAuthority}
use ssh_certificate_authorit.Ipc.{CaRequest, Wire, JsonLaws}
use ssh_certificate_authorit.Ipc.Client.{CaClient, Socket}
use ssh_certificate_authorit.Ipc.Client.Answered.{ShortTexts}
use ssh_certificate_authorit.Ssh.Names.{parse_exec_command}
use ssh_certificate_authorit.Ssh.Handler.{
  SshCaServer, ConnectionHandler, Call, disconnect, send_data, exit_status, eof, close,
}
use ssh_certificate_authorit.Ssh.Session
use ssh_certificate_authorit.Ssh.Session.{
  Event, password_offered, key_offered, session_opened, data_received, exec_requested,
}
use ssh_certificate_authorit.Ssh.Session.Legit.{IsLegit, IsSound}
use ssh_certificate_authorit.Ssh.Session.Sources.{
  IsFrom, At, auth_password_calls, auth_publickey_calls, sign_user_key-IsSourced,
  exec_with-IsSourced,
}
use ssh_certificate_authorit.Ssh.Session.Signers.{sign_user_key-Keeps, exec_with-Keeps}
use ssh_certificate_authorit.Ssh.Signing.{handler_sign_user_key, exec_request}
use ssh_certificate_authorit.EndToEnd.Vouched.{AtCa, IsVouched, IsVouchedIn, Made}
use ssh_certificate_authorit.EndToEnd.Vouched.Requests.{request-Vouched}
use ssh_certificate_authorit.Ssh.Clients.{Slot, Site, opened, Reach, history}
use ssh_certificate_authorit.Ssh.Clients.Logins.{opened-HasLogins, mid-OwnLogin}

module _ (K : SshKey) (R : Russh) (W : Wire K) (F : Formats) (server_uid : ℕ)
    (ca : CertificateAuthority K) (disk : Socket → Files) (auths : List UserAuthenticator)
    (calls : List (ℕ × Event R)) (laws : JsonLaws W) (short : ShortTexts W) where
  module _ (id : ℕ) (socket : Socket) (at : AtCa K W F server_uid ca disk socket)
      (sent : List (CaRequest K))
      (legit : All (IsLegit K R W auths (Made K R W F server_uid ca disk calls id)) sent) where
    call-IsVouched :
        (call : Call R)
        → IsFrom K R W socket sent call
        → IsVouched K R F ca disk auths calls id socket call
    call-IsVouched (send_data channel text) (c, request, cert, one, answered, t) = (
      cert,
      t,
      request-Vouched K R W F server_uid ca disk auths calls laws short id socket at c cert request
          (subst (All (IsLegit K R W auths (Made K R W F server_uid ca disk calls id))) one legit).0
          answered,
    )
    call-IsVouched (disconnect reason) f = tt
    call-IsVouched (exit_status channel code) f = tt
    call-IsVouched (eof channel) f = tt
    call-IsVouched (close channel) f = tt

  step-IsVouched :
      (h : ConnectionHandler R) (s : SshCaServer R) (e : Event R)
      → s.user_authenticators ≡ auths
      → IsSound K R W auths (Made K R W F server_uid ca disk calls h.id) h
      → At K R W e (AtCa K W F server_uid ca disk)
      → All (IsVouchedIn K R F ca disk auths calls h.id e) (Session.step K R W h s e).calls
  unfolding Session.step handler_sign_user_key exec_request
  step-IsVouched h s (password_offered user pass) a i at =
      subst (All (IsVouchedIn K R F ca disk auths calls h.id (password_offered user pass)))
        (sym (auth_password_calls K R W h s user pass)) tt
  step-IsVouched h s (key_offered socket user public_key) a i at =
      subst (All (IsVouchedIn K R F ca disk auths calls h.id (key_offered socket user public_key)))
        (sym (auth_publickey_calls K R W socket h s user public_key)) tt
  step-IsVouched h s (session_opened channel handle) a i at = tt
  step-IsVouched h s (data_received socket channel bytes) a i at =
      let k =
        sign_user_key-Keeps K R W auths (Made K R W F server_uid ca disk calls h.id) socket h s a i
          channel bytes h.username h.auth_method refl refl in
      All-map (call-IsVouched h.id socket at _ k.legit) _
        (sign_user_key-IsSourced K R W socket h s channel bytes h.username h.auth_method)
  step-IsVouched h s (exec_requested socket channel bytes) a i at =
      let name = (parse_exec_command bytes).0 in
      let k =
        exec_with-Keeps K R W auths (Made K R W F server_uid ca disk calls h.id) socket h s a i
          channel name h.public_key refl in
      All-map (call-IsVouched h.id socket at _ k.legit) _
        (exec_with-IsSourced K R W socket h s channel name h.public_key)

-- When serde_json does what it documents and no message has 2 ^ 32 bytes or more, and each socket
-- that a call on a handler has is that of a server with this CA, in any state, that meets the files
-- `disk` has for the socket, or cannot be connected to: from a new SSH server on, however its
-- connections come, are handled and end, whatever a call on one of them sends to a channel is the
-- text of a certificate that the CA made from its files at that call. It is a user certificate for a
-- valid name, for which a password was offered in an earlier call on this very connection and is
-- accepted by the authenticators; or it is a host certificate in a name that `validate_hostname`
-- lets through, for a key that was offered in an earlier call on this very connection and that a
-- search of the inventory finds in the files of that earlier call.
pub Reach-IsVouched :
    (K : SshKey) (R : Russh) (W : Wire K) (F : Formats) (server_uid : ℕ)
    (ca : CertificateAuthority K) (disk : Socket → Files) (config : SshServerConfig)
    (ca_client : CaClient) (auths : List UserAuthenticator) {t : Site R}
    (r : Reach K R W (opened config ca_client auths) t) (h : ConnectionHandler R)
    (before after : List (Slot R)) (e : Event R)
    → JsonLaws W
    → ShortTexts W
    → t.slots ≡ before ++ record { handler = h; is_live = true } ∷ after
    → All (λ (x : ℕ × Event R). At K R W x.1 (AtCa K W F server_uid ca disk)) (history K R W r)
    → At K R W e (AtCa K W F server_uid ca disk)
    → All
        (IsVouchedIn K R F ca disk auths (history K R W r) h.id e)
        (Session.step K R W h t.server e).calls
Reach-IsVouched K R W F server_uid ca disk config ca_client auths r h before after e laws short q
      past now =
    let calls = history K R W r in
    let P = Made K R W F server_uid ca disk calls in
    let made =
      All-both (λ (x : ℕ × Event R). Memᴰ (x.0, x.1) calls)
        (λ (x : ℕ × Event R). At K R W x.1 (AtCa K W F server_uid ca disk)) calls (All-Memᴰ calls)
        past in
    let logins = opened-HasLogins K R W auths P config ca_client r made in
    let (_, own, _) =
      mid-OwnLogin K R W auths P (record { handler = h; is_live = true }) before after q logins in
    step-IsVouched K R W F server_uid ca disk auths calls laws short h _ e logins.authenticators own
      now
