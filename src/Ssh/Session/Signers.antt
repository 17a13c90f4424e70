-- ===== src/Ssh/Session/Signers.antt =====
-- The signing handlers send legitimate requests only.
use ssh_certificate_authorit.Common.{
  ◌≡◌, refl, Bool, true, false, Option, none, some, List, [], ◌∷◌, Str, Bytes, Outcome, ok, err,
  panic, arith, subst,
}
use ssh_certificate_authorit.Text.Utf8.{from_utf8_lossy}
use ssh_certificate_authorit.Text.Words.{join}
use ssh_certificate_authorit.Interfaces.{SshKey, Russh}
use ssh_certificate_authorit.Ipc.{CaRequest, Wire, sign_certificate, sign_host_certificate}
use ssh_certificate_authorit.Ipc.Client.{Socket, send_request}
use ssh_certificate_authorit.Identity.{UserAuthenticator}
use ssh_certificate_authorit.Ssh.Names.{validate_username, validate_hostname}
use ssh_certificate_authorit.Ssh.Handler.{
  AuthMethod, by_password, by_public_key, SshCaServer, ConnectionHandler, request_denied, failed,
  panicked, Turn,
}
use ssh_certificate_authorit.Ssh.Handler.Login.{Accepted}
use ssh_certificate_authorit.Ssh.Signing.{
  request_certificate, calls_for, run_command, on_key, sign_user_key, request_host_certificate,
  sign_valid_host, exec_for, exec_with,
}
use ssh_certificate_authorit.Ssh.Session.{Event, password_offered}
use ssh_certificate_authorit.Ssh.Session.Legit.{
  Recognised, IsLegit, IsSound, Keeps, stop-Keeps, hang_up-Keeps, after_request-Keeps,
}

module _ (K : SshKey) (R : Russh) (W : Wire K) (auths : List UserAuthenticator)
    (P : Event R → Type 0) where
  module _ (socket : Socket) (h : ConnectionHandler R) (s : SshCaServer R)
      (a : s.user_authenticators ≡ auths) (i : IsSound K R W auths P h)
      (channel : R.ChannelId) where
    request_certificate-Keeps :
        (request : CaRequest K)
        → IsLegit K R W auths P request
        → Keeps K R W auths P (request_certificate K R W socket h s channel request)
    unfolding request_certificate
    request_certificate-Keeps request l =
        let (ca_client, answer) = send_request K W s.ca_client socket request in
        after_request-Keeps K R W auths P h s a i (record s { ca_client = ca_client }) request
          (calls_for K R channel answer) a l

    on_key-Keeps :
        (next : K.PublicKey → Turn K R (Unit {0})) (parsed : Outcome K.PublicKey)
        → ((key : K.PublicKey) → parsed ≡ ok key → Keeps K R W auths P (next key))
        → Keeps K R W auths P (on_key K R W socket h s next parsed)
    unfolding on_key
    on_key-Keeps next (ok key) k = k key refl
    on_key-Keeps next (err e) k = hang_up-Keeps K R W auths P h s a i _
    on_key-Keeps next panic k = stop-Keeps K R W auths P h s a i panicked

    pub sign_user_key-Keeps :
        (bytes : Bytes) (username : Option Str) (method : Option AuthMethod)
        → h.username ≡ username
        → h.auth_method ≡ method
        → Keeps K R W auths P (sign_user_key K R W socket h s channel bytes username method)
    unfolding sign_user_key
    sign_user_key-Keeps bytes none method u m = stop-Keeps K R W auths P h s a i panicked
    sign_user_key-Keeps bytes (some name) (some by_public_key) u m =
        hang_up-Keeps K R W auths P h s a i _
    sign_user_key-Keeps bytes (some name) (some by_password) u m =
        on_key-Keeps _ (K.from_openssh (from_utf8_lossy bytes))
          λ key e. request_certificate-Keeps (sign_certificate name key) (of_password name u m)
      where
        of_password :
            (name : Str)
            → h.username ≡ some name
            → h.auth_method ≡ some by_password
            → (validate_username name ≡ true)
              × ((pass : Str) × P (password_offered name pass) × Accepted auths name pass)
        of_password name u m =
            let (user, pass, e, p, v, acc) = i.with_password m in
            let same : user ≡ name = ground arith in
            (
              subst (λ x. validate_username x ≡ true) same v,
              (
                pass,
                subst (λ x. P (password_offered x pass)) same p,
                subst (λ x. Accepted auths x pass) same acc,
              ),
            )
    sign_user_key-Keeps bytes (some name) none u m = cc (i.anonymous m, u)

    request_host-Keeps :
        (host_name : Str) (name : Option Str) (key : K.PublicKey) (presented : R.PublicKey)
        (text : Str)
        → validate_hostname host_name ≡ none
        → Recognised K R W auths P presented
        → R.to_openssh presented ≡ ok text
        → K.from_openssh text ≡ ok key
        → Keeps K R W auths P (request_host_certificate K R W socket h s channel host_name name key)
    unfolding request_host_certificate
    request_host-Keeps host_name none key presented text v q t e =
        stop-Keeps K R W auths P h s a i panicked
    request_host-Keeps host_name (some name) key presented text v q t e =
        request_certificate-Keeps (sign_host_certificate host_name key)
          (v, (presented, text, q, t, e))

    sign_valid_host-Keeps :
        (host_name text : Str) (valid : Option Str) (presented : R.PublicKey)
        → Recognised K R W auths P presented
        → validate_hostname host_name ≡ valid
        → R.to_openssh presented ≡ ok text
        → Keeps K R W auths P (sign_valid_host K R W socket h s channel host_name text valid)
    unfolding sign_valid_host
    sign_valid_host-Keeps host_name text (some message) presented q v t =
        hang_up-Keeps K R W auths P h s a i message
    sign_valid_host-Keeps host_name text none presented q v t =
        on_key-Keeps _ (K.from_openssh text)
          λ key e. request_host-Keeps host_name h.username key presented text v q t e

    run_command-Keeps :
        (command_name hostname text : Str) (known : Bool) (presented : R.PublicKey)
        → Recognised K R W auths P presented
        → R.to_openssh presented ≡ ok text
        → Keeps K R W auths P
            (run_command K R W socket h s channel command_name (hostname ∷ text ∷ []) known)
    unfolding run_command join
    run_command-Keeps command_name hostname text true presented q t =
        sign_valid_host-Keeps hostname text (validate_hostname hostname) presented q refl t
    run_command-Keeps command_name hostname text false presented q t =
        hang_up-Keeps K R W auths P h s a i _

    exec_for-Keeps :
        (command_name : Str) (text : Outcome Str) (username : Option Str) (presented : R.PublicKey)
        → Recognised K R W auths P presented
        → R.to_openssh presented ≡ text
        → Keeps K R W auths P (exec_for K R W socket h s channel command_name text username)
    unfolding exec_for
    exec_for-Keeps command_name (err e) username presented q t =
        stop-Keeps K R W auths P h s a i (failed e)
    exec_for-Keeps command_name panic username presented q t =
        stop-Keeps K R W auths P h s a i panicked
    exec_for-Keeps command_name (ok text) none presented q t =
        stop-Keeps K R W auths P h s a i request_denied
    exec_for-Keeps command_name (ok text) (some hostname) presented q t =
        run_command-Keeps command_name hostname text _ presented q t

    pub exec_with-Keeps :
        (command_name : Str) (key : Option R.PublicKey)
        → h.public_key ≡ key
        → Keeps K R W auths P (exec_with K R W socket h s channel command_name key)
    unfolding exec_with
    exec_with-Keeps command_name none e = stop-Keeps K R W auths P h s a i request_denied
    exec_with-Keeps command_name (some pubkey) e =
        exec_for-Keeps command_name (R.to_openssh pubkey) h.username pubkey (i.with_key pubkey e)
          refl
