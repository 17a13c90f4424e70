-- ===== src/Ssh/Signing.antt =====
-- The signing handlers: src/ssh_server/signing_common.rs, host_key_signer.rs, user_key_signer.rs,
-- and `exec_request` of mod.rs.
use ssh_certificate_authorit.Common.{
  Bool, true, false, Option, none, some, List, [], ◌∷◌, ◌++◌, Str, Bytes, Outcome, ok, err, panic,
}
use ssh_certificate_authorit.Text.{codes, str_eq}
use ssh_certificate_authorit.Text.Utf8.{from_utf8_lossy}
use ssh_certificate_authorit.Text.Words.{join}
use ssh_certificate_authorit.Errors.{to_string}
use ssh_certificate_authorit.Interfaces.{SshKey, Russh}
use ssh_certificate_authorit.Ipc.{
  CaRequest, CaResponse, Wire, sign_certificate, sign_host_certificate, signed_certificate, error,
  key_found,
}
use ssh_certificate_authorit.Ipc.Client.{Socket, send_request}
use ssh_certificate_authorit.Ssh.Names.{parse_exec_command, validate_hostname}
use ssh_certificate_authorit.Ssh.Handler.{
  AuthMethod, by_public_key, SshCaServer, ConnectionHandler, Returned, returned, request_denied,
  failed, panicked, Call, disconnect, send_data, exit_status, eof, close, Turn,
}

module _ (K : SshKey) (R : Russh) where
  open R use {ChannelId}

  -- `send_cert_and_close`: the calls on the session, or `none` for a panic.
  unfoldable pub send_cert_and_close : K.Certificate → ChannelId → Option (List (Call R))
  send_cert_and_close cert channel = elim (K.cert_to_openssh cert) [
    | ok openssh_cert ↦
        some (
          send_data channel openssh_cert ∷ exit_status channel 0 ∷ eof channel ∷ close channel ∷ [])
    | err e ↦
        some (disconnect (codes "failed to convert cert to openssh format: " ++ to_string e) ∷ [])
    | panic ↦ none
  ]

  -- `send_sign_request` by the answer, and then `send_cert_and_close`.
  unfoldable pub calls_for : ChannelId → Outcome (CaResponse K) → Option (List (Call R))
  unfolding send_cert_and_close
  calls_for channel (ok (signed_certificate cert)) = send_cert_and_close cert channel
  calls_for channel (ok (error e)) = some (disconnect (codes "CA server error: " ++ e) ∷ [])
  calls_for channel (ok (key_found found)) = none
  calls_for channel (err e) =
      some (disconnect (codes "Failed to send request to CA server: " ++ to_string e) ∷ [])
  calls_for channel panic = none

  abbrev pub hang_up : ConnectionHandler R → SshCaServer R → Str → Turn K R (Unit {0})
  hang_up h s msg = record {
    handler = h;
    server = s;
    sent = [];
    calls = disconnect msg ∷ [];
    result = returned tt;
  }

  abbrev pub stop : ConnectionHandler R → SshCaServer R → Returned (Unit {0}) → Turn K R (Unit {0})
  stop h s r = record { handler = h; server = s; sent = []; calls = []; result = r }

  -- The turn of a handler that has sent a request.
  unfoldable pub after_request :
      ConnectionHandler R
      → SshCaServer R
      → CaRequest K
      → Option (List (Call R))
      → Turn K R (Unit {0})
  after_request h s request none = record {
    handler = h;
    server = s;
    sent = request ∷ [];
    calls = [];
    result = panicked;
  }
  after_request h s request (some calls) = record {
    handler = h;
    server = s;
    sent = request ∷ [];
    calls = calls;
    result = returned tt;
  }

  module _ (W : Wire K) (socket : Socket) where
    -- A request for a certificate, and what its answer leads to.
    unfoldable pub request_certificate :
        ConnectionHandler R → SshCaServer R → ChannelId → CaRequest K → Turn K R (Unit {0})
    unfolding calls_for after_request
    request_certificate h s channel request =
        let (ca_client, answer) = send_request K W s.ca_client socket request in
        after_request h (record s { ca_client = ca_client }) request (calls_for channel answer)

    -- `parse_openssh_key`, and what follows with the key.
    unfoldable pub on_key :
        ConnectionHandler R
        → SshCaServer R
        → (K.PublicKey → Turn K R (Unit {0}))
        → Outcome K.PublicKey
        → Turn K R (Unit {0})
    on_key h s next (ok key) = next key
    on_key h s next (err e) =
        hang_up h s (codes "failed to read openssh public key: " ++ to_string e)
    on_key h s next panic = stop h s panicked

    -- With the username read: the log line needs one.
    unfoldable pub request_host_certificate :
        ConnectionHandler R
        → SshCaServer R
        → ChannelId
        → Str
        → Option Str
        → K.PublicKey
        → Turn K R (Unit {0})
    unfolding request_certificate
    request_host_certificate h s channel host_name none public_key = stop h s panicked
    request_host_certificate h s channel host_name (some name) public_key =
        request_certificate h s channel (sign_host_certificate host_name public_key)

    -- With the answer of `validate_hostname`.
    unfoldable pub sign_valid_host :
        ConnectionHandler R
        → SshCaServer R
        → ChannelId
        → Str
        → Str
        → Option Str
        → Turn K R (Unit {0})
    unfolding on_key request_host_certificate
    sign_valid_host h s channel host_name ssh_key (some error_message) = hang_up h s error_message
    sign_valid_host h s channel host_name ssh_key none =
        on_key h s (request_host_certificate h s channel host_name h.username)
          (K.from_openssh ssh_key)

    unfoldable pub handle_sign_host_key :
        ConnectionHandler R → SshCaServer R → ChannelId → List Str → Turn K R (Unit {0})
    unfolding sign_valid_host
    handle_sign_host_key h s channel [] =
        hang_up h s (codes "Usage: sign_host_key <host_name> <public_key>")
    handle_sign_host_key h s channel (host_name ∷ []) =
        hang_up h s (codes "Usage: sign_host_key <host_name> <public_key>")
    handle_sign_host_key h s channel (host_name ∷ word ∷ words) =
        sign_valid_host h s channel host_name (join (word ∷ words)) (validate_hostname host_name)

    -- `handler_sign_user_key`, with the username and the method read.
    unfoldable pub sign_user_key :
        ConnectionHandler R
        → SshCaServer R
        → ChannelId
        → Bytes
        → Option Str
        → Option AuthMethod
        → Turn K R (Unit {0})
    unfolding request_certificate on_key
    sign_user_key h s channel bytes none auth_method = stop h s panicked
    sign_user_key h s channel bytes (some username) (some by_public_key) =
        hang_up h s (codes "Public key authenticated users can only request host certificates.")
    sign_user_key h s channel bytes (some username) auth_method =
        on_key h s
          (λ public_key. request_certificate h s channel (sign_certificate username public_key))
          (K.from_openssh (from_utf8_lossy bytes))

    unfoldable pub handler_sign_user_key :
        ConnectionHandler R → SshCaServer R → ChannelId → Bytes → Turn K R (Unit {0})
    unfolding sign_user_key
    handler_sign_user_key h s channel bytes =
        sign_user_key h s channel bytes h.username h.auth_method

    -- The dispatch on the command's name.
    unfoldable pub run_command :
        ConnectionHandler R
        → SshCaServer R
        → ChannelId
        → Str
        → List Str
        → Bool
        → Turn K R (Unit {0})
    unfolding handle_sign_host_key
    run_command h s channel command_name args true = handle_sign_host_key h s channel args
    run_command h s channel command_name args false =
        hang_up h s (codes "Unknown command: " ++ command_name)

    -- With the text of the connection's key, and the username read.
    unfoldable pub exec_for :
        ConnectionHandler R
        → SshCaServer R
        → ChannelId
        → Str
        → Outcome Str
        → Option Str
        → Turn K R (Unit {0})
    unfolding run_command
    exec_for h s channel command_name (err e) username = stop h s (failed e)
    exec_for h s channel command_name panic username = stop h s panicked
    exec_for h s channel command_name (ok pub_key) none = stop h s request_denied
    exec_for h s channel command_name (ok pub_key) (some hostname) =
        run_command h s channel command_name (hostname ∷ pub_key ∷ [])
          (str_eq command_name (codes "sign_host_key"))

    -- With the connection's key read.
    unfoldable pub exec_with :
        ConnectionHandler R
        → SshCaServer R
        → ChannelId
        → Str
        → Option R.PublicKey
        → Turn K R (Unit {0})
    unfolding exec_for
    exec_with h s channel command_name none = stop h s request_denied
    exec_with h s channel command_name (some pubkey) =
        exec_for h s channel command_name (R.to_openssh pubkey) h.username

    unfoldable pub exec_request :
        ConnectionHandler R → SshCaServer R → ChannelId → Bytes → Turn K R (Unit {0})
    unfolding exec_with
    exec_request h s channel bytes = exec_with h s channel (parse_exec_command bytes).0 h.public_key
