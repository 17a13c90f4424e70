-- ===== src/Ipc/Server/Gate.antt =====
-- Which requests reach the CA: those of the same user with the token and a fresh counter.
use ssh_certificate_authorit.Common.{
  ℕ, ◌≡◌, Bool, true, ◌&&◌, Option, none, some, List, Str, Bytes, Outcome, ok, err, panic, ◌>>=◌,
  ltb, arith, ap, ◌<◌, ◌≤◌,
}
use ssh_certificate_authorit.Text.Utf8.{as_bytes}
use ssh_certificate_authorit.Interfaces.{Files, SshKey, Formats, Draw}
use ssh_certificate_authorit.Authority.{CertificateAuthority}
use ssh_certificate_authorit.Ipc.{CaResponse, AuthenticatedRequest, Wire, ComparesBytes}
use ssh_certificate_authorit.Ipc.Server.{
  CaServer, Connection, read_message, handle_request, or_error, admit, authenticate, respond, serve,
  writes_of,
}

module _ (K : SshKey) (W : Wire K) (F : Formats) (server_uid : ℕ) where
  -- The token is the server's and the counter is past the last one accepted.
  abbrev pub admits : CaServer K → AuthenticatedRequest K → Bool
  admits s r = W.ct_eq (as_bytes r.token) (as_bytes s.auth_token) && ltb s.last_counter r.counter

  abbrev pub admitted :
      CaServer K → Outcome (AuthenticatedRequest K) → Option (AuthenticatedRequest K)
  admitted s (ok r) = elim (admit K W F server_uid s r) [ none ↦ none | some _ ↦ some r ]
  admitted s (err e) = none
  admitted s panic = none

  -- The request of a connection that passes all checks, if one does.
  unfoldable pub dispatched : CaServer K → Connection → Option (AuthenticatedRequest K)
  dispatched s conn = elim (read_message server_uid conn) [
    | none ↦ none
    | some request_json ↦ admitted s (W.request_from_str request_json)
  ]

  abbrev pub after : CaServer K → Option (AuthenticatedRequest K) → CaServer K
  after s none = s
  after s (some r) = record s { last_counter = r.counter }

  -- The work that a dispatched request starts, and the writes that answer it.
  abbrev pub answer :
      Files
      → Draw K
      → CaServer K
      → AuthenticatedRequest K
      → Bool
      → Outcome (CaServer K × List Bytes)
  answer fs draw s r takes_length = do
    resp ← or_error (handle_request K fs F s.ca draw r.request)
    response_json ← W.response_to_string resp
    ok (
      record s { last_counter = r.counter },
      writes_of K W F server_uid takes_length response_json,
    )

  abbrev pub writes_after : Outcome (CaServer K × List Bytes) → Outcome (List Bytes)
  writes_after m = do out ← m; ok out.1

  authenticate-admits :
      (fs : Files) (draw : Draw K) (s : CaServer K) (r : AuthenticatedRequest K)
      {out : CaServer K × CaResponse K}
      → authenticate K W F server_uid fs draw s r ≡ ok out
      → out.0 ≡ after s (admitted s (ok r))
  unfolding authenticate
  authenticate-admits fs draw s r h = ground arith

  respond-admitted :
      (fs : Files) (draw : Draw K) (s : CaServer K) (json : Str) {out : CaServer K × CaResponse K}
      → respond K W F server_uid fs draw s json ≡ ok out
      → out.0 ≡ after s (admitted s (W.request_from_str json))
  unfolding respond
  respond-admitted fs draw s json h = ground (arith)

  -- After a connection the server differs by the counter of the request it dispatched, if any.
  pub serve-after :
      (fs : Files) (draw : Draw K) (s : CaServer K) (conn : Connection)
      {out : CaServer K × List Bytes}
      → serve K W F server_uid fs draw s conn ≡ ok out
      → out.0 ≡ after s (dispatched s conn)
  unfolding serve dispatched
  serve-after fs draw s conn h = ground arith

  pub dispatched-admits :
      (s : CaServer K) (conn : Connection) {r : AuthenticatedRequest K}
      → dispatched s conn ≡ some r
      → admits s r ≡ true
  unfolding dispatched admit
  dispatched-admits s conn h = ground arith

  -- A connection whose request is dispatched is answered with what the CA gives for it, the text of
  -- its error included, and the server then has the counter of the request; where the response
  -- cannot be written as JSON the server ends with that error.
  pub serve-dispatched :
      (fs : Files) (draw : Draw K) (s : CaServer K) (conn : Connection) {r : AuthenticatedRequest K}
      → dispatched s conn ≡ some r
      → serve K W F server_uid fs draw s conn ≡ answer fs draw s r conn.takes_length
  unfolding serve dispatched
  serve-dispatched fs draw s conn h = ground arith

  -- A connection whose request is not dispatched is answered, or not, in the same way whatever the
  -- CA, its files and its random values are.
  pub serve_refused :
      (fs fs' : Files) (draw draw' : Draw K) (ca' : CertificateAuthority K) (s : CaServer K)
      (conn : Connection)
      → dispatched s conn ≡ none
      → writes_after (serve K W F server_uid fs' draw' (record s { ca = ca' }) conn)
        ≡ writes_after (serve K W F server_uid fs draw s conn)
  unfolding serve dispatched
  serve_refused fs fs' draw draw' ca' s conn h = ground arith

  pub admit-eq-some :
      (cmp : ComparesBytes W) (s : CaServer K) (r : AuthenticatedRequest K)
      → r.token ≡ s.auth_token
      → s.last_counter < r.counter
      → admit K W F server_uid s r ≡ some (record s { last_counter = r.counter })
  unfolding admit
  admit-eq-some cmp s r t n =
      ground (arith, (cmp (as_bytes r.token) (as_bytes s.auth_token)).1 (ap as_bytes t))

  pub admit-eq-none :
      (s : CaServer K) (r : AuthenticatedRequest K)
      → r.counter ≤ s.last_counter
      → admit K W F server_uid s r ≡ none
  unfolding admit
  admit-eq-none s r n = ground arith
