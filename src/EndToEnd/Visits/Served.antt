-- ===== src/EndToEnd/Visits/Served.antt =====
-- A user and a host that are given a certificate, from the connection on.
use ssh_certificate_authorit.Common.{
  ℕ, ◌+◌, ◌≡◌, refl, ◌∙◌, true, some, none, [], ◌∷◌, Str, Bytes, ok, arith,
}
use ssh_certificate_authorit.Text.{codes}
use ssh_certificate_authorit.Text.Utf8.{from_utf8_lossy}
use ssh_certificate_authorit.Interfaces.{Files, SshKey, Formats, Draw, Russh}
use ssh_certificate_authorit.Authority
use ssh_certificate_authorit.Ipc.{
  Wire, JsonLaws, ComparesBytes, sign_certificate, check_public_key, sign_host_certificate,
  signed_certificate, key_found,
}
use ssh_certificate_authorit.Ipc.Client.Exchange.{server_socket}
use ssh_certificate_authorit.Ipc.Server.{CaServer}
use ssh_certificate_authorit.Ssh.Names.{validate_username, validate_hostname, parse_exec_command}
use ssh_certificate_authorit.Ssh.Handler.{
  SshCaServer, ConnectionHandler, new_client, by_password, by_public_key, channel_open_session,
  convert_key,
}
use ssh_certificate_authorit.Ssh.Handler.Login.{Accepted}
use ssh_certificate_authorit.Ssh.Session
use ssh_certificate_authorit.Ssh.Session.{
  password_offered, key_offered, session_opened, data_received, exec_requested, session_calls,
}
use ssh_certificate_authorit.EndToEnd.{
  made, Carries, sign_certificate-Answers, sign_host_certificate-Answers,
}
use ssh_certificate_authorit.EndToEnd.Certificates.{
  handler_sign_user_key-Replies, exec_request-Replies,
}
use ssh_certificate_authorit.EndToEnd.Visits.{
  sends, Replies-sends, last_call, user_visit, host_visit,
}

module _ (K : SshKey) (R : Russh) (W : Wire K) (F : Formats) (server_uid : ℕ) (laws : JsonLaws W)
    (cmp : ComparesBytes W) where
  module _ (fs : Files) (draw : Draw K) (ca : CaServer K) (s : SshCaServer R) where
    -- When serde_json and subtle do what they document: a user with a valid name opens a
    -- connection, offers a password that the authenticators accept, opens a channel and sends a
    -- key, and the request goes through to a CA of the same user that answers it with a certificate
    -- whose text can be made. Then the CA made that certificate for the name and the key, and what
    -- the connection is sent is its text, a success, and the end of the channel.
    pub user_visit-served :
        (user pass : Str) (channel : R.ChannelId) (handle : R.Handle) (bytes : Bytes)
        (key : K.PublicKey) (cert : K.Certificate) (text : Str)
        → validate_username user ≡ true
        → Accepted s.user_authenticators user pass
        → K.from_openssh (from_utf8_lossy bytes) ≡ ok key
        → K.cert_to_openssh cert ≡ ok text
        → Carries K W F server_uid fs draw ca s.ca_client
            (sign_certificate user key)
            (signed_certificate cert)
        → (Authority.sign_certificate K fs F ca.ca draw user key ≡ ok cert)
          × (session_calls K R W (new_client s).1 (new_client s).0 (
                password_offered user pass
                ∷ session_opened channel handle
                ∷ data_received (server_socket K W F server_uid fs draw ca) channel bytes
                ∷ [])
              ≡ sends K R channel text)
    unfolding new_client channel_open_session Session.step
    user_visit-served user pass channel handle bytes key cert text v a p t k =
        let (s', h) = new_client s in
        let socket = server_socket K W F server_uid fs draw ca in
        let e = data_received socket channel bytes in
        let h' : ConnectionHandler R = record h {
          username = some user;
          auth_method = some by_password;
        } in
        let s'' = channel_open_session h' s' channel handle in
        let signed =
          made K (Authority.sign_certificate K fs F ca.ca draw user key) cert
            (sign_certificate-Answers K fs F ca.ca draw user key _ k.answered) in
        (
          signed,
          user_visit K R W F server_uid laws cmp s' h user pass channel handle e v a
              ∙ last_call K R W F server_uid laws cmp h' s'' e channel text (
                  Replies-sends K R channel _ cert text (Session.step K R W h' s'' e) signed t (
                    handler_sign_user_key-Replies K R W F server_uid fs draw ca laws cmp h' s''
                      channel bytes user key _ refl refl p k)),
        )

    -- When serde_json and subtle do what they document: a host opens a connection and logs in with
    -- a key for which the CA names a host, with a name that `validate_hostname` lets through, opens
    -- a channel and gives the command `sign_host_key`; both requests go through to a CA of the same
    -- user, which has the files and the random values of the time, and the second is answered with a
    -- certificate whose text can be made. Then the CA made that certificate for the name that it
    -- gave and the key, and what the connection is sent is its text, a success, and the end of the
    -- channel.
    pub host_visit-served :
        (user : Str) (public_key : R.PublicKey) (key_text : Str) (key : K.PublicKey) (host : Str)
        (channel : R.ChannelId) (handle : R.Handle) (bytes : Bytes) (later_fs : Files)
        (later_draw : Draw K) (later_ca : CaServer K) (cert : K.Certificate) (text : Str)
        → R.to_openssh public_key ≡ ok key_text
        → K.from_openssh key_text ≡ ok key
        → (parse_exec_command bytes).0 ≡ codes "sign_host_key"
        → validate_hostname host ≡ none
        → K.cert_to_openssh cert ≡ ok text
        → Carries K W F server_uid fs draw ca s.ca_client
            (check_public_key key)
            (key_found (some host))
        → Carries K W F server_uid later_fs later_draw later_ca
            (record s.ca_client { counter = s.ca_client.counter + 1 })
            (sign_host_certificate host key)
            (signed_certificate cert)
        → (Authority.sign_host_certificate K later_fs F later_ca.ca later_draw host key ≡ ok cert)
          × (session_calls K R W (new_client s).1 (new_client s).0 (
                key_offered (server_socket K W F server_uid fs draw ca) user public_key
                ∷ session_opened channel handle
                ∷ exec_requested
                    (server_socket K W F server_uid later_fs later_draw later_ca)
                    channel
                    bytes
                ∷ [])
              ≡ sends K R channel text)
    unfolding new_client channel_open_session Session.step convert_key
    host_visit-served user public_key key_text key host channel handle bytes later_fs later_draw
          later_ca cert text e f c v t k l =
        let (s', h) = new_client s in
        let s'' : SshCaServer R = record s' {
          ca_client = record s.ca_client { counter = s.ca_client.counter + 1 };
        } in
        let h' : ConnectionHandler R = record h {
          username = some host;
          auth_method = some by_public_key;
          public_key = some public_key;
        } in
        let s3 = channel_open_session h' s'' channel handle in
        let e3 : Session.Event R =
          exec_requested (server_socket K W F server_uid later_fs later_draw later_ca) channel
            bytes in
        let converted : convert_key K R public_key ≡ some key = ground arith in
        let signed =
          made K (Authority.sign_host_certificate K later_fs F later_ca.ca later_draw host key) cert
            (sign_host_certificate-Answers K later_fs F later_ca.ca later_draw host key _
              l.answered) in
        (
          signed,
          host_visit K R W F server_uid laws cmp fs draw ca s' h user public_key key host channel
                handle e3 converted k
              ∙ last_call K R W F server_uid laws cmp h' s3 e3 channel text (
                  Replies-sends K R channel _ cert text (Session.step K R W h' s3 e3) signed t (
                    exec_request-Replies K R W F server_uid later_fs later_draw later_ca laws cmp h'
                      s3 channel bytes host key_text public_key key _ c refl refl e f v l)),
        )
