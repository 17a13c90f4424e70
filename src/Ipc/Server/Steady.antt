-- ===== src/Ipc/Server/Steady.antt =====
-- The CA server after connections that end, under the hypotheses CalmKeys, CalmFiles, CalmFormats,
-- CalmClock and CalmWire on the libraries.
use ssh_certificate_authorit.Common.{
  ℕ, ◌≡◌, refl, ap, Option, none, some, List, [], ◌∷◌, ◌++◌, Str, Bytes, Outcome, ok, err, panic,
  ◌>>=◌, All, Calm, Calm->>=, arith, length, suc, subst, sym, ◌∙◌,
}
use ssh_certificate_authorit.Text.{codes}
use ssh_certificate_authorit.Errors.{to_string}
use ssh_certificate_authorit.FilePath.{FilePath, parent}
use ssh_certificate_authorit.Interfaces.{
  Files, SshKey, Formats, Draw, CalmKeys, CalmFiles, CalmFormats, CalmClock,
}
use ssh_certificate_authorit.Authority.{CertificateAuthority}
use ssh_certificate_authorit.Authority.Steady.{
  sign_certificate-Calm, check_public_key-Calm, sign_host_certificate-Calm,
}
use ssh_certificate_authorit.Ipc.{
  CaRequest, CaResponse, AuthenticatedRequest, Wire, sign_certificate, check_public_key,
  sign_host_certificate, error,
}
use ssh_certificate_authorit.Ipc.Server.{
  CaServer, Event, accepted, accept_failed, handle_request, or_error, admit, writes_of,
  authenticate, respond, serve, step, run, read_message,
}

-- serde_json: a text is read or refused, and every response has a text.
pub record CalmWire {K : SshKey} (W : Wire K) : Type 0 where
  pub request_from_str : (s : Str) → Calm (W.request_from_str s)
  pub response_to_string : (r : CaResponse K) → (text : Str) × (W.response_to_string r ≡ ok text)

-- What `run` meets at an event.
abbrev pub CalmEvent : {K : SshKey} → Event K → Type 0
CalmEvent accept_failed = Unit
CalmEvent (accepted fs draw conn) = CalmFiles fs × CalmClock draw

module _ (K : SshKey) (F : Formats) (ck : CalmKeys K) (cF : CalmFormats F) where
  pub handle_request-Calm :
      (fs : Files) (ca : CertificateAuthority K) (draw : Draw K) (request : CaRequest K)
      {dir : FilePath}
      → CalmFiles fs
      → CalmClock draw
      → parent ca.config.user_list_file ≡ some dir
      → Calm (handle_request K fs F ca draw request)
  unfolding handle_request
  handle_request-Calm fs ca draw (sign_certificate user key) cf c p =
      Calm->>= _ _ (sign_certificate-Calm K fs F ck cf cF ca draw user key c p) λ cert. tt
  handle_request-Calm fs ca draw (sign_host_certificate name key) cf c p =
      Calm->>= _ _ (sign_host_certificate-Calm K fs F ck cf cF ca draw name key c) λ cert. tt
  handle_request-Calm fs ca draw (check_public_key key) cf c p =
      let (text, e) = ck.to_openssh key in
      ground (arith, e, check_public_key-Calm K fs F ck cf cF ca text)

  or_error-ok :
      (m : Outcome (CaResponse K)) → Calm m → (resp : CaResponse K) × (or_error m ≡ ok resp)
  or_error-ok (ok resp) h = (resp, refl)
  or_error-ok (err e) h = (_, refl)
  or_error-ok panic h = absurd h

module _ (K : SshKey) (W : Wire K) (F : Formats) (server_uid : ℕ) (ck : CalmKeys K)
    (cW : CalmWire W) (cF : CalmFormats F) where
  -- A result is there, and the CA is as it was.
  abbrev Goes : {A : Type 0} → CaServer K → Outcome (CaServer K × A) → Type 0
  Goes s (ok out) = out.0.ca ≡ s.ca
  Goes s (err e) = ⊥
  Goes s panic = ⊥

  authenticate-Goes :
      (fs : Files) (draw : Draw K) (s : CaServer K) (r : AuthenticatedRequest K) {dir : FilePath}
      → CalmFiles fs
      → CalmClock draw
      → parent s.ca.config.user_list_file ≡ some dir
      → Goes s (authenticate K W F server_uid fs draw s r)
  unfolding authenticate admit
  authenticate-Goes fs draw s r cf c p = ground (
    arith,
    handle_request-Calm K F ck cF fs s.ca draw r.request cf c p,
    (or_error-ok K F ck cF (handle_request K fs F s.ca draw r.request)
        (handle_request-Calm K F ck cF fs s.ca draw r.request cf c p)).1,
  )

  respond-Goes :
      (fs : Files) (draw : Draw K) (s : CaServer K) (json : Str) {dir : FilePath}
      → CalmFiles fs
      → CalmClock draw
      → parent s.ca.config.user_list_file ≡ some dir
      → Goes s (respond K W F server_uid fs draw s json)
  unfolding respond
  respond-Goes fs draw s json cf c p = parsed (W.request_from_str json) (cW.request_from_str json)
    where
      parsed :
          (m : Outcome (AuthenticatedRequest K))
          → Calm m
          → Goes s (elim m as (λ _. Outcome (CaServer K × CaResponse K)) [
            | ok auth_req ↦ authenticate K W F server_uid fs draw s auth_req
            | err e ↦ ok (s, error (codes "Invalid request format: " ++ to_string e))
            | panic ↦ panic
          ])
      parsed (ok r) h = authenticate-Goes fs draw s r cf c p
      parsed (err e) h = refl
      parsed panic h = h

  step-Goes :
      (s : CaServer K) (e : Event K) {dir : FilePath}
      → CalmEvent e
      → parent s.ca.config.user_list_file ≡ some dir
      → Goes s (step K W F server_uid s e)
  unfolding step serve
  step-Goes s accept_failed h p = refl
  step-Goes s (accepted fs draw conn) h p = read (read_message server_uid conn)
    where
      written :
          (m : Outcome (CaServer K × CaResponse K))
          → Goes s m
          → Goes s (
              m >>= λ answer. W.response_to_string answer.1 >>= λ response_json.
              ok (answer.0, writes_of K W F server_uid conn.takes_length response_json))
      written (ok answer) g = let (text, t) = cW.response_to_string answer.1 in rw t g
      written (err x) g = g
      written panic g = g

      read :
          (o : Option Str)
          → Goes s (elim o as (λ _. Outcome (CaServer K × List Bytes)) [
            | none ↦ ok (s, [])
            | some json ↦ respond K W F server_uid fs draw s json >>= λ answer.
                W.response_to_string answer.1 >>= λ response_json.
                ok (answer.0, writes_of K W F server_uid conn.takes_length response_json)
          ])
      read none = refl
      read (some json) =
          written (respond K W F server_uid fs draw s json) (respond-Goes fs draw s json h.0 h.1 p)

  -- Under these hypotheses, and when the list of users does not stand at the root of the file
  -- system, the loop of `run` goes through any connections that end, whatever they send, without an
  -- error or a panic, and the CA's key and configuration stay what they were.
  run-eq-ok :
      (s : CaServer K) (es : List (Event K)) {dir : FilePath}
      → All CalmEvent es
      → parent s.ca.config.user_list_file ≡ some dir
      → (out : CaServer K × List (List Bytes)) × (run K W F server_uid s es ≡ ok out)
        × (length out.1 ≡ length es)
        × (out.0.ca ≡ s.ca)
  unfolding run
  run-eq-ok s [] h p = ((s, []), refl, refl, refl)
  run-eq-ok s (e ∷ es) {dir} h p = go (step K W F server_uid s e) (step-Goes s e h.0 p) refl λ s' g.
      run-eq-ok s' es h.1 (subst (λ ca. parent ca.config.user_list_file ≡ some dir) (sym g) p)
    where
      go :
          (m : Outcome (CaServer K × List Bytes))
          → Goes s m
          → step K W F server_uid s e ≡ m
          → ((s' : CaServer K)
              → s'.ca ≡ s.ca
              → (out : CaServer K × List (List Bytes)) × (run K W F server_uid s' es ≡ ok out)
                × (length out.1 ≡ length es)
                × (out.0.ca ≡ s'.ca))
          → (out : CaServer K × List (List Bytes)) × (run K W F server_uid s (e ∷ es) ≡ ok out)
            × (length out.1 ≡ suc (length es))
            × (out.0.ca ≡ s.ca)
      go (ok (s', writes)) g q rest =
          let (out, r, n, c) = rest s' g in ((out.0, writes ∷ out.1), ground arith, ap suc n, c ∙ g)
      go (err x) g q rest = absurd g
      go panic g q rest = absurd g
