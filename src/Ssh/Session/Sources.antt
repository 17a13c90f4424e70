-- ===== src/Ssh/Session/Sources.antt =====
-- What a handler sends to a channel, and the answer of the CA that it comes from.
use ssh_certificate_authorit.Common.{
  ◌≡◌, refl, Bool, true, false, Option, none, some, List, [], ◌∷◌, Str, Bytes, Outcome, ok, err,
  panic, All, arith,
}
use ssh_certificate_authorit.Text.Words.{join}
use ssh_certificate_authorit.Interfaces.{SshKey, Russh}
use ssh_certificate_authorit.Ipc.{
  CaRequest, CaResponse, Wire, sign_certificate, sign_host_certificate, signed_certificate, error,
  key_found,
}
use ssh_certificate_authorit.Ipc.Client.{CaClient, Socket, send_request}
use ssh_certificate_authorit.Ssh.Names.{validate_hostname}
use ssh_certificate_authorit.Ssh.Handler.{
  AuthMethod, by_password, by_public_key, SshCaServer, ConnectionHandler, Turn, Call, disconnect,
  send_data, exit_status, eof, close, auth_password, auth_publickey,
}
use ssh_certificate_authorit.Ssh.Signing.{
  send_cert_and_close, request_certificate, after_request, calls_for, run_command, on_key,
  sign_user_key, request_host_certificate, sign_valid_host, exec_for, exec_with,
}
use ssh_certificate_authorit.Ssh.Session.{
  Event, password_offered, key_offered, session_opened, data_received, exec_requested,
}

module _ (K : SshKey) (R : Russh) (W : Wire K) where
  -- The text that is sent to a channel is that of a certificate in the answer to the one request
  -- that was sent over this socket.
  abbrev pub IsFrom : Socket → List (CaRequest K) → Call R → Type 0
  IsFrom socket sent (send_data channel text) =
      (c : CaClient) × (request : CaRequest K) × (cert : K.Certificate) × (sent ≡ request ∷ [])
      × ((send_request K W c socket request).1 ≡ ok (signed_certificate cert))
      × (K.cert_to_openssh cert ≡ ok text)
  IsFrom socket sent (disconnect reason) = Unit
  IsFrom socket sent (exit_status channel code) = Unit
  IsFrom socket sent (eof channel) = Unit
  IsFrom socket sent (close channel) = Unit

  abbrev pub IsSourced : {A : Type 0} → Socket → Turn K R A → Type 0
  IsSourced socket t = All (IsFrom socket t.sent) t.calls

  module _ (socket : Socket) (h : ConnectionHandler R) (s : SshCaServer R)
      (channel : R.ChannelId) where
    cert-IsSourced :
        (c : CaClient) (s' : SshCaServer R) (request : CaRequest K) (cert : K.Certificate)
        (m : Outcome Str)
        → (send_request K W c socket request).1 ≡ ok (signed_certificate cert)
        → K.cert_to_openssh cert ≡ m
        → IsSourced socket
            (after_request K R h s' request (calls_for K R channel (ok (signed_certificate cert))))
    unfolding after_request calls_for send_cert_and_close
    cert-IsSourced c s' request cert (ok text) a e =
        rw (e, after_request) ((c, request, cert, refl, a, e), (tt, (tt, (tt, tt))))
    cert-IsSourced c s' request cert (err x) a e = rw (e, after_request) (tt, tt)
    cert-IsSourced c s' request cert panic a e = rw (e, after_request) tt

    answered-IsSourced :
        (c : CaClient) (s' : SshCaServer R) (request : CaRequest K)
        (answer : Outcome (CaResponse K))
        → (send_request K W c socket request).1 ≡ answer
        → IsSourced socket (after_request K R h s' request (calls_for K R channel answer))
    unfolding after_request calls_for
    answered-IsSourced c s' request (ok (signed_certificate cert)) a =
        cert-IsSourced c s' request cert (K.cert_to_openssh cert) a refl
    answered-IsSourced c s' request (ok (error e)) a = (tt, tt)
    answered-IsSourced c s' request (ok (key_found found)) a = tt
    answered-IsSourced c s' request (err e) a = (tt, tt)
    answered-IsSourced c s' request panic a = tt

    request_certificate-IsSourced :
        (request : CaRequest K)
        → IsSourced socket (request_certificate K R W socket h s channel request)
    unfolding request_certificate
    request_certificate-IsSourced request =
        answered-IsSourced s.ca_client _ request (send_request K W s.ca_client socket request).1
          refl

    on_key-IsSourced :
        (next : K.PublicKey → Turn K R (Unit {0})) (parsed : Outcome K.PublicKey)
        → ((key : K.PublicKey) → IsSourced socket (next key))
        → IsSourced socket (on_key K R W socket h s next parsed)
    unfolding on_key
    on_key-IsSourced next (ok key) k = k key
    on_key-IsSourced next (err e) k = (tt, tt)
    on_key-IsSourced next panic k = tt

    pub sign_user_key-IsSourced :
        (bytes : Bytes) (username : Option Str) (method : Option AuthMethod)
        → IsSourced socket (sign_user_key K R W socket h s channel bytes username method)
    unfolding sign_user_key
    sign_user_key-IsSourced bytes none method = tt
    sign_user_key-IsSourced bytes (some name) (some by_public_key) = (tt, tt)
    sign_user_key-IsSourced bytes (some name) (some by_password) =
        on_key-IsSourced _ _ λ key. request_certificate-IsSourced (sign_certificate name key)
    sign_user_key-IsSourced bytes (some name) none =
        on_key-IsSourced _ _ λ key. request_certificate-IsSourced (sign_certificate name key)

    request_host-IsSourced :
        (host_name : Str) (name : Option Str) (key : K.PublicKey)
        → IsSourced socket (request_host_certificate K R W socket h s channel host_name name key)
    unfolding request_host_certificate
    request_host-IsSourced host_name none key = tt
    request_host-IsSourced host_name (some name) key =
        request_certificate-IsSourced (sign_host_certificate host_name key)

    sign_valid_host-IsSourced :
        (host_name text : Str) (valid : Option Str)
        → IsSourced socket (sign_valid_host K R W socket h s channel host_name text valid)
    unfolding sign_valid_host
    sign_valid_host-IsSourced host_name text (some message) = (tt, tt)
    sign_valid_host-IsSourced host_name text none =
        on_key-IsSourced _ (K.from_openssh text) (request_host-IsSourced host_name h.username)

    run_command-IsSourced :
        (command_name hostname text : Str) (known : Bool)
        → IsSourced socket
            (run_command K R W socket h s channel command_name (hostname ∷ text ∷ []) known)
    unfolding run_command join
    run_command-IsSourced command_name hostname text true =
        sign_valid_host-IsSourced hostname text (validate_hostname hostname)
    run_command-IsSourced command_name hostname text false = (tt, tt)

    exec_for-IsSourced :
        (command_name : Str) (text : Outcome Str) (username : Option Str)
        → IsSourced socket (exec_for K R W socket h s channel command_name text username)
    unfolding exec_for
    exec_for-IsSourced command_name (err e) username = tt
    exec_for-IsSourced command_name panic username = tt
    exec_for-IsSourced command_name (ok text) none = tt
    exec_for-IsSourced command_name (ok text) (some hostname) =
        run_command-IsSourced command_name hostname text _

    pub exec_with-IsSourced :
        (command_name : Str) (key : Option R.PublicKey)
        → IsSourced socket (exec_with K R W socket h s channel command_name key)
    unfolding exec_with
    exec_with-IsSourced command_name none = tt
    exec_with-IsSourced command_name (some pubkey) =
        exec_for-IsSourced command_name (R.to_openssh pubkey) h.username

  -- A login sends nothing to a channel.
  pub auth_password_calls :
      (h : ConnectionHandler R) (s : SshCaServer R) (user pass : Str)
      → (auth_password K R h s user pass).calls ≡ []
  unfolding auth_password
  auth_password_calls h s user pass = ground arith

  pub auth_publickey_calls :
      (socket : Socket) (h : ConnectionHandler R) (s : SshCaServer R) (user : Str)
      (public_key : R.PublicKey)
      → (auth_publickey K R W socket h s user public_key).calls ≡ []
  unfolding auth_publickey
  auth_publickey_calls socket h s user public_key = ground arith

  -- The socket that a call of the handler has.
  abbrev pub At : Event R → (Socket → Type 0) → Type 0
  At (password_offered user pass) Q = Unit
  At (key_offered socket user public_key) Q = Q socket
  At (session_opened channel handle) Q = Unit
  At (data_received socket channel bytes) Q = Q socket
  At (exec_requested socket channel bytes) Q = Q socket
