-- ===== src/Ssh/Session.antt =====
-- A whole connection: the calls that russh makes on its handler, one after the other.
pub mod Legit
pub mod Signers
pub mod Requests
pub mod Sources
use ssh_certificate_authorit.Common.{
  ℕ, Bool, Option, none, some, List, [], ◌∷◌, ◌++◌, Str, Bytes, Error, Outcome, if◌then◌else◌,
}
use ssh_certificate_authorit.Interfaces.{SshKey, Russh}
use ssh_certificate_authorit.Ipc.{CaRequest, Wire}
use ssh_certificate_authorit.Ipc.Client.{Socket}
use ssh_certificate_authorit.Ssh.Handler.{
  SshCaServer, ConnectionHandler, Returned, returned, request_denied, failed, panicked, Turn, Call,
  auth_password, auth_publickey, channel_open_session,
}
use ssh_certificate_authorit.Ssh.Signing.{handler_sign_user_key, exec_request}

-- A call on the handler, with the socket that a request to the CA meets.
pub data Event (R : Russh) : Type 0 where
  password_offered : (user pass : Str) → Event R
  key_offered : Socket → (user : Str) (public_key : R.PublicKey) → Event R
  session_opened : R.ChannelId → R.Handle → Event R
  data_received : Socket → R.ChannelId → Bytes → Event R
  exec_requested : Socket → R.ChannelId → Bytes → Event R

module _ (K : SshKey) (R : Russh) (W : Wire K) where
  abbrev pub forget : {A : Type 0} → Returned A → Returned (Unit {0})
  forget (returned a) = returned tt
  forget request_denied = request_denied
  forget (failed e) = failed e
  forget panicked = panicked

  abbrev pub untyped : {A : Type 0} → Turn K R A → Turn K R (Unit {0})
  untyped t = record {
    handler = t.handler;
    server = t.server;
    sent = t.sent;
    calls = t.calls;
    result = forget t.result;
  }

  unfoldable pub step : ConnectionHandler R → SshCaServer R → Event R → Turn K R (Unit {0})
  step h s (password_offered user pass) = untyped (auth_password K R h s user pass)
  step h s (key_offered socket user public_key) =
      untyped (auth_publickey K R W socket h s user public_key)
  step h s (session_opened channel handle) = record {
    handler = h;
    server = channel_open_session h s channel handle;
    sent = [];
    calls = [];
    result = returned tt;
  }
  step h s (data_received socket channel bytes) =
      handler_sign_user_key K R W socket h s channel bytes
  step h s (exec_requested socket channel bytes) = exec_request K R W socket h s channel bytes

  -- The requests that a connection hands to the CA client, until a call ends it.
  unfoldable pub requests :
      ConnectionHandler R → SshCaServer R → List (Event R) → List (CaRequest K)
  unfolding step
  requests h s [] = []
  requests h s (e ∷ es) =
      let t = step h s e in
      t.sent ++ elim t.result [
        | returned u ↦ requests t.handler t.server es
        | request_denied ↦ []
        | failed x ↦ []
        | panicked ↦ []
      ]

  -- The calls that a connection makes on its session, until a call ends it.
  unfoldable pub session_calls :
      ConnectionHandler R → SshCaServer R → List (Event R) → List (Call R)
  unfolding step
  session_calls h s [] = []
  session_calls h s (e ∷ es) =
      let t = step h s e in
      t.calls ++ elim t.result [
        | returned u ↦ session_calls t.handler t.server es
        | request_denied ↦ []
        | failed x ↦ []
        | panicked ↦ []
      ]
