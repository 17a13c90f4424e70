-- ===== src/Ipc/Client/Answered.antt =====
-- A response that a client got from the server: where it comes from.
use ssh_certificate_authorit.Common.{
  ℕ, ◌^◌, ◌<◌, ◌≡◌, ◌≢◌, refl, sym, ap, ◌∙◌, ◌⊎◌, inl, inr, true, Bool-cases, Option, none, some,
  List, [], ◌>>=◌, Str, Bytes, Outcome, ok, err, panic, ltb, length, arith, subst, >>=-ok-then,
}
use ssh_certificate_authorit.Text.Utf8.{as_bytes}
use ssh_certificate_authorit.Interfaces.{Files, SshKey, Formats, Draw}
use ssh_certificate_authorit.Ipc.{
  CaRequest, CaResponse, AuthenticatedRequest, Wire, JsonLaws, max_message_size,
}
use ssh_certificate_authorit.Ipc.Frame.{
  read_exact, as_u32, read_exact_length, from_be_bytes-to_be_bytes,
}
use ssh_certificate_authorit.Ipc.Server.{
  CaServer, handle_request, or_error, admit, authenticate, respond, serve, authentication_failed,
  writes_of,
}
use ssh_certificate_authorit.Ipc.Client.{
  CaClient, frame, read_response, send_numbered, checked_add_one, send_request,
}
use ssh_certificate_authorit.Ipc.Client.Exchange.{
  FitsMessage, message, server_socket, connection, read_message-message, read_response-message,
  bytes_of, flat_writes,
}

-- No text of a message has 2 ^ 32 bytes or more, so that its length is not cut off.
pub record ShortTexts {K : SshKey} (W : Wire K) : Type 0 where
  pub request_short :
      (r : AuthenticatedRequest K) {s : Str}
      → W.request_to_string r ≡ ok s
      → length (as_bytes s) < 2 ^ 32
  pub response_short :
      (r : CaResponse K) {s : Str} → W.response_to_string r ≡ ok s → length (as_bytes s) < 2 ^ 32

module _ (K : SshKey) (W : Wire K) (F : Formats) (server_uid : ℕ) (laws : JsonLaws W)
    (short : ShortTexts W) where
  -- A frame that was made holds a text that fits.
  frame-eq-ok :
      (r : AuthenticatedRequest K) {bytes : Bytes}
      → frame K W r ≡ ok bytes
      → (text : Str) × (W.request_to_string r ≡ ok text) × FitsMessage text × (bytes ≡ message text)
  unfolding frame message
  frame-eq-ok r h = >>=-ok-then (W.request_to_string r) _ h λ text e k.
      let n = length (as_bytes text) in
      let same : as_u32 n ≡ n = omega (arith, short.request_short r e) in
      (text, e, ground (arith, same), ground (arith, same))

  -- The client refuses a text that is too long.
  read_response_long :
      (text : Str) {read : CaResponse K}
      → length (as_bytes text) < 2 ^ 32
      → ltb max_message_size (length (as_bytes text)) ≡ true
      → read_response K W (message text) ≢ ok read
  unfolding read_response message
  read_response_long text b long h =
      let n = length (as_bytes text) in
      let same : as_u32 n ≡ n = omega arith in
      ground
        (arith, read_exact_length (as_u32 n) (as_bytes text), same, from_be_bytes-to_be_bytes n b)

  -- What a client reads in a written response is that response.
  read_response-eq-ok :
      (resp read : CaResponse K) (text : Str)
      → W.response_to_string resp ≡ ok text
      → read_response K W (message text) ≡ ok read
      → read ≡ resp
  read_response-eq-ok resp read text e h =
      elim (Bool-cases (ltb max_message_size (length (as_bytes text)))) [
        | inl long ↦ absurd (read_response_long text (short.response_short resp e) long h)
        | inr fits ↦ ground (
          arith,
          read_response-message K W F server_uid text (laws.response_text resp e) (ground arith),
          laws.response_back resp e,
        )
      ]

  nothing_read : {read : CaResponse K} → read_response K W [] ≢ ok read
  unfolding read_response read_exact
  nothing_read h = ground arith

  module _ (fs : Files) (draw : Draw K) (s : CaServer K) where
    -- The writes that answer a response.
    written : Outcome (CaServer K × CaResponse K) → Outcome (CaServer K × List Bytes)
    written answered = do
      answer ← answered
      response_json ← W.response_to_string answer.1
      ok (answer.0, writes_of K W F server_uid true response_json)

    serve-message :
        (r : AuthenticatedRequest K) (text : Str)
        → W.request_to_string r ≡ ok text
        → FitsMessage text
        → serve K W F server_uid fs draw s (connection K W F server_uid (message text))
          ≡ written (authenticate K W F server_uid fs draw s r)
    unfolding serve respond written
    serve-message r text e h = ground (
      arith,
      read_message-message K W F server_uid text true (laws.request_text r e) h,
      laws.request_back r e,
    )

    read_text :
        (s' : CaServer K) (resp read : CaResponse K) (m : Outcome Str)
        → W.response_to_string resp ≡ m
        → read_response K W (
            bytes_of K W F server_uid (m >>= λ json. ok (s', writes_of K W F server_uid true json)))
          ≡ ok read
        → read ≡ resp
    read_text s' resp read (ok text) e h =
        read_response-eq-ok resp read text e
          (subst (λ b. read_response K W b ≡ ok read) (flat_writes K W F server_uid text) h)
    read_text s' resp read (err x) e h = absurd (nothing_read h)
    read_text s' resp read panic e h = absurd (nothing_read h)

    read_written :
        (answered : Outcome (CaServer K × CaResponse K)) (read : CaResponse K)
        → read_response K W (bytes_of K W F server_uid (written answered)) ≡ ok read
        → (s' : CaServer K) × (answered ≡ ok (s', read))
    unfolding written
    read_written panic read h = absurd (nothing_read h)
    read_written (err e) read h = absurd (nothing_read h)
    read_written (ok (s', resp)) read h =
        (s', ap (λ x. ok (s', x)) (sym (read_text s' resp read (W.response_to_string resp) refl h)))

    authenticate-eq-ok :
        (r : AuthenticatedRequest K) {s' : CaServer K} {resp : CaResponse K}
        → authenticate K W F server_uid fs draw s r ≡ ok (s', resp)
        → (resp ≡ authentication_failed)
          ⊎ (or_error (handle_request K fs F s.ca draw r.request) ≡ ok resp)
    unfolding authenticate admit
    authenticate-eq-ok r h = ground arith

    numbered-answered :
        (c : CaClient) (request : CaRequest K) (n : Option ℕ) (read : CaResponse K)
        → send_numbered K W c (server_socket K W F server_uid fs draw s) request n ≡ ok read
        → (read ≡ authentication_failed)
          ⊎ (or_error (handle_request K fs F s.ca draw request) ≡ ok read)
    unfolding send_numbered
    numbered-answered c request none read h = cc
    numbered-answered c request (some n) read h =
        let r : AuthenticatedRequest K = record {
          token = c.auth_token;
          counter = n;
          request = request;
        } in
        >>=-ok-then (frame K W r) _ h λ bytes framed reading.
          let (text, e, fits, same) = frame-eq-ok r framed in
          let served =
            ap (λ b. serve K W F server_uid fs draw s (connection K W F server_uid b)) same
            ∙ serve-message r text e fits in
          let (s', answered) = read_written (authenticate K W F server_uid fs draw s r) read (
            subst (λ x. read_response K W (bytes_of K W F server_uid x) ≡ ok read) served
              reading) in
          authenticate-eq-ok r answered

    -- When serde_json does what it documents and no message has 2 ^ 32 bytes or more, a response
    -- that a client gets from a server, whatever the counters and tokens of both, is the refusal of
    -- the server or what the CA answers to the very request that the client sent.
    pub send_request-answered :
        (c : CaClient) (request : CaRequest K) (read : CaResponse K)
        → (send_request K W c (server_socket K W F server_uid fs draw s) request).1 ≡ ok read
        → (read ≡ authentication_failed)
          ⊎ (or_error (handle_request K fs F s.ca draw request) ≡ ok read)
    unfolding send_request
    send_request-answered c request read h =
        numbered-answered c request (checked_add_one c.counter) read h
