-- ===== src/Ipc/Client/Exchange.antt =====
-- A client that talks to the server: what one writes, the other reads.
use native.Mathlib.Nat.{mod-eq_of_lt}
use ssh_certificate_authorit.Common.{
  ℕ, ◌+◌, ◌^◌, ◌<◌, ◌≤◌, ◌≡◌, refl, sym, ap, ap₂, ◌∙◌, Bool, true, false, some, List, [], ◌∷◌, ◌++◌,
  Str, Bytes, Outcome, ok, err, panic, ◌>>=◌, ltb, length, arith, append-nil, subst, lt→ltb,
}
use ssh_certificate_authorit.Text.Utf8.{as_bytes, IsText, from_utf8-as_bytes}
use ssh_certificate_authorit.Interfaces.{Files, SshKey, Formats, Draw}
use ssh_certificate_authorit.Ipc.{
  CaRequest, CaResponse, AuthenticatedRequest, Wire, JsonLaws, ComparesBytes, max_message_size,
}
use ssh_certificate_authorit.Ipc.Frame.{
  as_u32, to_be_bytes, from_be_bytes, read_exact, from_be_bytes-to_be_bytes, read_exact-append,
  read_exact_length,
}
use ssh_certificate_authorit.Ipc.Server.{
  admit, CaServer, Connection, read_message, handle_request, or_error, serve, writes_of,
}
use ssh_certificate_authorit.Ipc.Server.Gate.{dispatched, serve-dispatched, answer}
use ssh_certificate_authorit.Ipc.Client.{
  CaClient, Socket, frame, read_response, send_numbered, checked_add_one, send_request,
}

-- A text small enough for one message.
abbrev pub FitsMessage : Str → Type 0
FitsMessage text = length (as_bytes text) ≤ max_message_size

-- The bytes of a text on the socket.
unfoldable pub message : Str → Bytes
message text = to_be_bytes (as_u32 (length (as_bytes text))) ++ as_bytes text

-- The length in front of a message that fits is read back.
length-message : (n : ℕ) → n ≤ max_message_size → from_be_bytes (to_be_bytes (as_u32 n)) ≡ n
length-message n h =
    let e : as_u32 n ≡ n = omega arith in rw e (from_be_bytes-to_be_bytes n (omega arith))

read_exact_all : (a : Bytes) → read_exact (length a) a ≡ some (a, [])
read_exact_all a =
    subst (λ b. read_exact (length a) b ≡ some (a, [])) (append-nil a) (read_exact-append a [])

pub not_too_long : (n : ℕ) → n ≤ max_message_size → ltb max_message_size n ≡ false
not_too_long n h = ground arith

module _ (K : SshKey) (W : Wire K) (F : Formats) (server_uid : ℕ) where
  pub read_message-message :
      (text : Str) (takes_length : Bool)
      → IsText text
      → FitsMessage text
      → read_message server_uid (record {
        peer_cred = ok server_uid;
        received = message text;
        takes_length = takes_length;
      })
        ≡ some text
  unfolding read_message message
  read_message-message text takes_length t h =
      let bytes = as_bytes text in
      let n = length bytes in
      ground (
        arith,
        read_exact_length (as_u32 n) bytes,
        length-message n h,
        not_too_long n h,
        read_exact_all bytes,
        from_utf8-as_bytes text t,
      )

  pub read_response-message :
      (text : Str)
      → IsText text
      → FitsMessage text
      → read_response K W (message text) ≡ W.response_from_str text
  unfolding read_response message
  read_response-message text t h =
      let bytes = as_bytes text in
      let n = length bytes in
      ground (
        arith,
        read_exact_length (as_u32 n) bytes,
        length-message n h,
        not_too_long n h,
        read_exact_all bytes,
        from_utf8-as_bytes text t,
      )

  -- A client whose next request comes to this server in this state.
  abbrev pub flat : List Bytes → Bytes
  flat [] = []
  flat (b ∷ bs) = b ++ flat bs

  abbrev pub bytes_of : Outcome (CaServer K × List Bytes) → Bytes
  bytes_of (ok (_, writes)) = flat writes
  bytes_of (err e) = []
  bytes_of panic = []

  abbrev pub connection : Bytes → Connection
  connection bytes = record { peer_cred = ok server_uid; received = bytes; takes_length = true }

  -- The socket of a server: it takes the frame, serves the connection and sends what it writes.
  abbrev pub server_socket : Files → Draw K → CaServer K → Socket
  server_socket fs draw s = record {
    connect = ok tt;
    write_all = λ _. ok tt;
    reply = λ bytes. bytes_of (serve K W F server_uid fs draw s (connection bytes));
  }

  -- The request that a client sends next.
  abbrev pub next_request : CaClient → CaRequest K → AuthenticatedRequest K
  next_request c request = record {
    token = c.auth_token;
    counter = c.counter + 1;
    request = request;
  }

  pub frame-message :
      (r : AuthenticatedRequest K) (text : Str)
      → W.request_to_string r ≡ ok text
      → FitsMessage text
      → frame K W r ≡ ok (message text)
  unfolding frame message
  frame-message r text e h =
      let n = length (as_bytes text) in
      let m : as_u32 n ≡ n = omega arith in
      rw (e, ◌>>=◌) (rw (subst (λ k. ltb max_message_size k ≡ false) (sym m) (not_too_long n h)))

  -- When serde_json and subtle do what they document: a request that is written as a text that fits
  -- a message, with the token of the server and a counter past the last one accepted, reaches the
  -- CA when the bytes of that text come in a connection of the same user.
  pub dispatched-message :
      (s : CaServer K) (r : AuthenticatedRequest K) (text : Str)
      → JsonLaws W
      → ComparesBytes W
      → W.request_to_string r ≡ ok text
      → FitsMessage text
      → r.token ≡ s.auth_token
      → s.last_counter < r.counter
      → dispatched K W F server_uid s (connection (message text)) ≡ some r
  unfolding dispatched admit
  dispatched-message s r text laws cmp e h t n = ground (
    arith,
    read_message-message text true (laws.request_text r e) h,
    laws.request_back r e,
    lt→ltb s.last_counter r.counter n,
    (cmp (as_bytes r.token) (as_bytes s.auth_token)).1 (ap as_bytes t),
  )

  pub flat_writes : (text : Str) → flat (writes_of K W F server_uid true text) ≡ message text
  unfolding writes_of message
  flat_writes text =
      ap (λ b. to_be_bytes (as_u32 (length (as_bytes text))) ++ b) (append-nil (as_bytes text))

  answer-writes :
      (fs : Files) (draw : Draw K) (s : CaServer K) (r : AuthenticatedRequest K)
      (resp : CaResponse K) (text : Str)
      → or_error (handle_request K fs F s.ca draw r.request) ≡ ok resp
      → W.response_to_string resp ≡ ok text
      → answer K W F server_uid fs draw s r true
        ≡ ok (record s { last_counter = r.counter }, writes_of K W F server_uid true text)
  answer-writes fs draw s r resp text he re = ground (arith, he, re)

  send_number :
      (c : CaClient) (socket : Socket) (request : CaRequest K) (bytes : Bytes) (resp : CaResponse K)
      → c.counter + 1 < 2 ^ 64
      → frame K W (next_request c request) ≡ ok bytes
      → socket.write_all bytes ≡ ok tt
      → read_response K W (socket.reply bytes) ≡ ok resp
      → send_numbered K W c socket request (checked_add_one c.counter) ≡ ok resp
  unfolding send_numbered checked_add_one
  send_number c socket request bytes resp u fe we re =
      rw (lt→ltb (c.counter + 1) (2 ^ 64) u) (ground (arith, fe, we, re))

  -- When serde_json and subtle do what they document, the client has the token of the server and a
  -- counter that is not behind that of the server and not at its end, the CA answers the request
  -- with a response (an error of the CA is one too), and both texts fit a message, then the client
  -- is given that response by a server of the same user, and both counters stand at the number of
  -- the request.
  pub send_request-serve :
      (fs : Files) (draw : Draw K) (s : CaServer K) (c : CaClient) (request : CaRequest K)
      (resp : CaResponse K) (request_json response_json : Str)
      → JsonLaws W
      → ComparesBytes W
      → c.auth_token ≡ s.auth_token
      → s.last_counter ≤ c.counter
      → c.counter + 1 < 2 ^ 64
      → W.request_to_string (next_request c request) ≡ ok request_json
      → FitsMessage request_json
      → or_error (handle_request K fs F s.ca draw request) ≡ ok resp
      → W.response_to_string resp ≡ ok response_json
      → FitsMessage response_json
      → (send_request K W c (server_socket fs draw s) request
          ≡ (record c { counter = c.counter + 1 }, ok resp))
        × (serve K W F server_uid fs draw s (connection (message request_json))
            ≡ ok (
              record s { last_counter = c.counter + 1 },
              writes_of K W F server_uid true response_json,
            ))
  unfolding send_request
  send_request-serve fs draw s c request resp qj rj J cmp t n u qe qf he re rf =
      let r = next_request c request in
      let at_server = dispatched-message s r qj J cmp qe qf t (omega arith) in
      let served =
        serve-dispatched K W F server_uid fs draw s (connection (message qj)) at_server
        ∙ answer-writes fs draw s r resp rj he re in
      let back = ap bytes_of served ∙ flat_writes rj in
      let read =
        ap (read_response K W) back
        ∙ read_response-message rj (J.response_text resp re) rf
        ∙ J.response_back resp re in
      (
        ap₂ (λ (n : ℕ) (o : Outcome (CaResponse K)). (record c { counter = n }, o)) (mod-eq_of_lt u)
            (send_number c (server_socket fs draw s) request (message qj) resp u
              (frame-message r qj qe qf) refl read),
        served,
      )
