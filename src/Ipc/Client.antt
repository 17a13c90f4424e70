-- ===== src/Ipc/Client.antt =====
-- src/certificat_authority/ca_client.rs: `CaClient`.
pub mod Counter
pub mod Exchange
pub mod Answered
use ssh_certificate_authorit.Common.{
  ℕ, ◌+◌, ◌%◌, ◌^◌, Option, none, some, List, [], ◌∷◌, ◌++◌, Str, Bytes, Outcome, ok, err, panic,
  ◌>>=◌, counter_exhausted, request_too_large, response_too_large, invalid_utf8, short_read,
  if◌then◌else◌, ltb, length,
}
use ssh_certificate_authorit.Text.Utf8.{as_bytes, from_utf8}
use ssh_certificate_authorit.FilePath.{FilePath}
use ssh_certificate_authorit.Interfaces.{SshKey}
use ssh_certificate_authorit.Ipc.{
  CaRequest, CaResponse, AuthenticatedRequest, Wire, max_message_size,
}
use ssh_certificate_authorit.Ipc.Frame.{as_u32, to_be_bytes, from_be_bytes, read_exact}

-- The counter is one cell that the clones of a client share.
pub record CaClient : Type 0 where
  pub socket_path : FilePath
  pub auth_token : Str
  pub counter : ℕ

unfoldable pub new : FilePath → Str → CaClient
new socket_path auth_token = record {
  socket_path = socket_path;
  auth_token = auth_token;
  counter = 0;
}

-- `fetch_add(1)`: the value before, and the cell, which wraps around.
unfoldable pub fetch_add : CaClient → ℕ × CaClient
fetch_add c = (c.counter, record c { counter = (c.counter + 1) % 2 ^ 64 })

-- `checked_add(1)`
unfoldable pub checked_add_one : ℕ → Option ℕ
checked_add_one n = if ltb (n + 1) (2 ^ 64) then some (n + 1) else none

-- The other end of the socket: whether it can be connected to, whether it takes what is written,
-- and what it sends for the bytes it was given.
pub record Socket : Type 0 where
  pub connect : Outcome (Unit {0})
  pub write_all : Bytes → Outcome (Unit {0})
  pub reply : Bytes → Bytes

-- `read_exact` as the client meets it.
or_short_read : Option (Bytes × Bytes) → Outcome (Bytes × Bytes)
or_short_read none = err short_read
or_short_read (some r) = ok r

or_not_utf8 : Option Str → Outcome Str
or_not_utf8 none = err invalid_utf8
or_not_utf8 (some s) = ok s

module _ (K : SshKey) (W : Wire K) where
  -- The bytes of a request, or the error for one that is too large.
  unfoldable pub frame : AuthenticatedRequest K → Outcome Bytes
  frame auth_request = do
    request_json ← W.request_to_string auth_request
    let request_bytes = as_bytes request_json
    let request_len = as_u32 (length request_bytes)
    if ltb max_message_size request_len
        then err (request_too_large request_len)
        else ok (to_be_bytes request_len ++ request_bytes)

  -- The response in the bytes that come back.
  unfoldable pub read_response : Bytes → Outcome (CaResponse K)
  unfolding or_short_read or_not_utf8
  read_response bytes = do
    (len_buf, rest) ← or_short_read (read_exact 4 bytes)
    let response_len = from_be_bytes len_buf
    if ltb max_message_size response_len then err (response_too_large response_len) else do
      (response_buf, _) ← or_short_read (read_exact response_len rest)
      response_json ← or_not_utf8 (from_utf8 response_buf)
      W.response_from_str response_json

  -- `send_request`, from the counter on, and whole. The two writes are one.
  unfoldable pub send_numbered : CaClient → Socket → CaRequest K → Option ℕ → Outcome (CaResponse K)
  unfolding frame read_response
  send_numbered c socket request none = err counter_exhausted
  send_numbered c socket request (some counter) = do
    bytes ← frame (record { token = c.auth_token; counter = counter; request = request })
    _ ← socket.write_all bytes
    read_response (socket.reply bytes)

  unfoldable pub send_request : CaClient → Socket → CaRequest K → CaClient × Outcome (CaResponse K)
  unfolding fetch_add checked_add_one send_numbered
  send_request c socket request = elim socket.connect [
    | err e ↦ (c, err e)
    | panic ↦ (c, panic)
    | ok _ ↦
        let (prev, c') = fetch_add c in (c', send_numbered c socket request (checked_add_one prev))
  ]
