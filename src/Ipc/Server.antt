-- ===== src/Ipc/Server.antt =====
-- src/certificat_authority/ca_server.rs: `CaServer`.
pub mod Gate
pub mod Replay
pub mod Steady
pub mod Binding
use ssh_certificate_authorit.Common.{
  ℕ, Bool, true, false, not, ◌&&◌, Option, none, some, List, [], ◌∷◌, ◌++◌, Str, Bytes, Outcome, ok,
  err, panic, ◌>>=◌, if◌then◌else◌, leb, ltb, length, ◌==◌,
}
use ssh_certificate_authorit.Text.{codes}
use ssh_certificate_authorit.Text.Utf8.{as_bytes, from_utf8}
use ssh_certificate_authorit.Errors.{to_string}
use ssh_certificate_authorit.FilePath.{FilePath}
use ssh_certificate_authorit.Interfaces.{Files, SshKey, Formats, Draw}
use ssh_certificate_authorit.Authority
use ssh_certificate_authorit.Authority.{CertificateAuthority}
use ssh_certificate_authorit.Ipc.{
  CaRequest, CaResponse, AuthenticatedRequest, Wire, max_message_size, sign_certificate,
  check_public_key, sign_host_certificate, signed_certificate, error, key_found,
}
use ssh_certificate_authorit.Ipc.Frame.{as_u32, to_be_bytes, from_be_bytes, read_exact}

pub record CaServer (K : SshKey) : Type 0 where
  pub socket_path : FilePath
  pub ca : CertificateAuthority K
  pub auth_token : Str
  pub last_counter : ℕ

unfoldable pub new : {K : SshKey} → FilePath → CertificateAuthority K → Str → CaServer K
new socket_path ca auth_token = record {
  socket_path = socket_path;
  ca = ca;
  auth_token = auth_token;
  last_counter = 0;
}

-- One accepted stream of a peer that closes: its user id, or the error; what it sends before it
-- closes; and whether it takes the length of the response.
pub record Connection : Type 0 where
  pub peer_cred : Outcome ℕ
  pub received : Bytes
  pub takes_length : Bool

-- The request text of a connection; `none` is `continue`.
unfoldable pub read_message : ℕ → Connection → Option Str
read_message server_uid conn = elim conn.peer_cred [
  | err e ↦ none
  | panic ↦ none
  | ok uid ↦ if not (uid == server_uid) then none else elim (read_exact 4 conn.received) [
    | none ↦ none
    | some (len_buf, rest) ↦
        if ltb max_message_size (from_be_bytes len_buf)
        then none
        else elim (read_exact (from_be_bytes len_buf) rest) [
          | none ↦ none
          | some (buf, _) ↦ from_utf8 buf
        ]
  ]
]

module _ (K : SshKey) (fs : Files) (F : Formats) where
  unfoldable pub handle_request :
      CertificateAuthority K → Draw K → CaRequest K → Outcome (CaResponse K)
  handle_request ca draw (sign_certificate user public_key) = do
    signed_cert ← Authority.sign_certificate K fs F ca draw user public_key
    ok (signed_certificate signed_cert)
  handle_request ca draw (sign_host_certificate host_name public_key) = do
    signed_cert ← Authority.sign_host_certificate K fs F ca draw host_name public_key
    ok (signed_certificate signed_cert)
  handle_request ca draw (check_public_key public_key) = elim (K.to_openssh public_key) [
    | ok str_key ↦ do found ← Authority.check_public_key K fs F ca str_key; ok (key_found found)
    | err e ↦ ok (key_found none)
    | panic ↦ panic
  ]

abbrev pub authentication_failed : {K : SshKey} → CaResponse K
authentication_failed = error (codes "authentication failed")

-- The response to an error of `handle_request`.
abbrev pub or_error : {K : SshKey} → Outcome (CaResponse K) → Outcome (CaResponse K)
or_error (ok resp) = ok resp
or_error (err e) = ok (error (to_string e))
or_error panic = panic

module _ (K : SshKey) (W : Wire K) (F : Formats) (server_uid : ℕ) where
  -- The checks on a request that was read: the token, then the counter, which is then kept. `none`
  -- is a refusal.
  unfoldable pub admit : CaServer K → AuthenticatedRequest K → Option (CaServer K)
  admit s auth_req =
      if not (W.ct_eq (as_bytes auth_req.token) (as_bytes s.auth_token))
      then none
      else if leb auth_req.counter s.last_counter
      then none
      else some (record s { last_counter = auth_req.counter })

  unfoldable pub authenticate :
      Files → Draw K → CaServer K → AuthenticatedRequest K → Outcome (CaServer K × CaResponse K)
  unfolding admit
  authenticate fs draw s auth_req = elim (admit s auth_req) [
    | none ↦ ok (s, authentication_failed)
    | some s' ↦ do
      resp ← or_error (handle_request K fs F s'.ca draw auth_req.request)
      ok (s', resp)
  ]

  unfoldable pub respond : Files → Draw K → CaServer K → Str → Outcome (CaServer K × CaResponse K)
  unfolding authenticate
  respond fs draw s request_json = elim (W.request_from_str request_json) [
    | ok auth_req ↦ authenticate fs draw s auth_req
    | err e ↦ ok (s, error (codes "Invalid request format: " ++ to_string e))
    | panic ↦ panic
  ]

  -- The writes that answer a response text.
  unfoldable pub writes_of : Bool → Str → List Bytes
  writes_of takes_length response_json =
      let payload = as_bytes response_json in
      to_be_bytes (as_u32 (length payload)) ∷ (if takes_length then payload ∷ [] else [])

  -- The body of the loop for one connection: the new state and the writes. An error ends `run`.
  unfoldable pub serve :
      Files → Draw K → CaServer K → Connection → Outcome (CaServer K × List Bytes)
  unfolding respond writes_of read_message
  serve fs draw s conn = elim (read_message server_uid conn) [
    | none ↦ ok (s, [])
    | some request_json ↦ do
      answer ← respond fs draw s request_json
      response_json ← W.response_to_string answer.1
      ok (answer.0, writes_of conn.takes_length response_json)
  ]

-- What `accept` gives: a stream, met by the files and the random values of its time, or an error.
pub data Event (K : SshKey) : Type 0 where
  accepted : Files → Draw K → Connection → Event K
  accept_failed : Event K

module _ (K : SshKey) (W : Wire K) (F : Formats) (server_uid : ℕ) where
  unfoldable pub step : CaServer K → Event K → Outcome (CaServer K × List Bytes)
  step s accept_failed = ok (s, [])
  step s (accepted fs draw conn) = serve K W F server_uid fs draw s conn

  -- The loop of `run` over the events that come, with the writes of each.
  unfoldable pub run : CaServer K → List (Event K) → Outcome (CaServer K × List (List Bytes))
  unfolding step
  run s [] = ok (s, [])
  run s (e ∷ es) = do now ← step s e; later ← run now.0 es; ok (later.0, now.1 ∷ later.1)
