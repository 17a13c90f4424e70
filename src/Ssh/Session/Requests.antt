-- ===== src/Ssh/Session/Requests.antt =====
-- Every request of a connection is legitimate.
use ssh_certificate_authorit.Common.{
  ◌≡◌, refl, inl, inr, Option, none, some, List, [], ◌∷◌, Str, Outcome, ok, err, panic, All,
  All-append, All-Memᴰ, Memᴰ, arith, Option-cases, subst, sym,
}
use ssh_certificate_authorit.Interfaces.{SshKey, Russh}
use ssh_certificate_authorit.Ipc.{CaRequest, CaResponse, Wire, check_public_key, key_found}
use ssh_certificate_authorit.Ipc.Client.{Socket, send_request}
use ssh_certificate_authorit.Identity.{UserAuthenticator}
use ssh_certificate_authorit.Ssh.Handler.{
  SshCaServer, ConnectionHandler, Returned, returned, request_denied, failed, panicked,
  auth_publickey, convert_key, decide_key, key_found_of, channel_open_session, new_client,
}
use ssh_certificate_authorit.Ssh.Handler.KeyLogin.{auth_publickey-none, auth_publickey-some}
use ssh_certificate_authorit.Ssh.Signing.{handler_sign_user_key, exec_request}
use ssh_certificate_authorit.Ssh.Session.{
  Event, password_offered, key_offered, session_opened, data_received, exec_requested, step,
  requests,
}
use ssh_certificate_authorit.Ssh.Session.Legit.{IsLegit, Recognised, IsSound, Keeps, password-Keeps}
use ssh_certificate_authorit.Ssh.Session.Signers.{sign_user_key-Keeps, exec_with-Keeps}

module _ (K : SshKey) (R : Russh) (W : Wire K) (auths : List UserAuthenticator)
    (P : Event R → Type 0) where
  module _ (h : ConnectionHandler R) (s : SshCaServer R) (a : s.user_authenticators ≡ auths)
      (i : IsSound K R W auths P h) where
    decide_key-Keeps :
        (public_key : R.PublicKey) (request : CaRequest K) (found : Outcome (Option Str))
        → IsLegit K R W auths P request
        → ((host : Str) → found ≡ ok (some host) → Recognised K R W auths P public_key)
        → Keeps K R W auths P (decide_key K R h s public_key request found)
    unfolding decide_key
    decide_key-Keeps public_key request (ok (some host)) l q = record {
      authenticators = a;
      sound = record {
        with_password = λ e. cc;
        with_key = λ key e.
            let same : public_key ≡ key = ground arith in
            subst (Recognised K R W auths P) same (q host refl);
        anonymous = λ e. cc;
      };
      legit = (l, tt);
    }
    decide_key-Keeps public_key request (ok none) l q = record {
      authenticators = a;
      sound = i;
      legit = (l, tt);
    }
    decide_key-Keeps public_key request (err x) l q = record {
      authenticators = a;
      sound = i;
      legit = (l, tt);
    }
    decide_key-Keeps public_key request panic l q = record {
      authenticators = a;
      sound = i;
      legit = (l, tt);
    }

  key_found_of-eq-ok :
      (answer : Outcome (CaResponse K)) (host : Str)
      → key_found_of K R answer ≡ ok (some host)
      → answer ≡ ok (key_found (some host))
  unfolding key_found_of
  key_found_of-eq-ok answer host e = ground arith

  key-Keeps :
      (socket : Socket) (h : ConnectionHandler R) (s : SshCaServer R) (user : Str)
      (public_key : R.PublicKey)
      → s.user_authenticators ≡ auths
      → IsSound K R W auths P h
      → P (key_offered socket user public_key)
      → Keeps K R W auths P (auth_publickey K R W socket h s user public_key)
  key-Keeps socket h s user public_key a i p = elim (Option-cases (convert_key K R public_key)) [
    | inl e ↦
        subst (Keeps K R W auths P) (sym (auth_publickey-none K R W socket h s user public_key e))
          (record { authenticators = a; sound = i; legit = tt })
    | inr (key, e) ↦
        let (ca_client, answer) = send_request K W s.ca_client socket (check_public_key key) in
        subst (Keeps K R W auths P)
          (sym (auth_publickey-some K R W socket h s user public_key key e))
          (decide_key-Keeps h (record s { ca_client = ca_client }) a i public_key
            (check_public_key key) (key_found_of K R answer) (socket, user, public_key, p, e)
            λ host f.
              (socket, user, key, s.ca_client, host, p, e, key_found_of-eq-ok answer host f))
  ]

  pub step-Keeps :
      (h : ConnectionHandler R) (s : SshCaServer R) (e : Event R)
      → s.user_authenticators ≡ auths
      → IsSound K R W auths P h
      → P e
      → Keeps K R W auths P (step K R W h s e)
  unfolding step handler_sign_user_key exec_request channel_open_session
  step-Keeps h s (password_offered user pass) a i p =
      let k = password-Keeps K R W auths P h s a i user pass p in
      record { authenticators = k.authenticators; sound = k.sound; legit = k.legit }
  step-Keeps h s (key_offered socket user public_key) a i p =
      let k = key-Keeps socket h s user public_key a i p in
      record { authenticators = k.authenticators; sound = k.sound; legit = k.legit }
  step-Keeps h s (session_opened channel handle) a i p = record {
    authenticators = a;
    sound = i;
    legit = tt;
  }
  step-Keeps h s (data_received socket channel bytes) a i p =
      sign_user_key-Keeps K R W auths P socket h s a i channel bytes h.username h.auth_method refl
        refl
  step-Keeps h s (exec_requested socket channel bytes) a i p =
      exec_with-Keeps K R W auths P socket h s a i channel _ h.public_key refl

  requests-IsLegit :
      (h : ConnectionHandler R) (s : SshCaServer R) (es : List (Event R))
      → s.user_authenticators ≡ auths
      → IsSound K R W auths P h
      → All P es
      → All (IsLegit K R W auths P) (requests K R W h s es)
  unfolding requests
  requests-IsLegit h s [] a i ps = tt
  requests-IsLegit h s (e ∷ es) a i ps =
      let t = step K R W h s e in
      let k = step-Keeps h s e a i ps.0 in
      All-append (IsLegit K R W auths P) t.sent _ k.legit (
        more t.result (requests K R W t.handler t.server es)
          (requests-IsLegit t.handler t.server es k.authenticators k.sound ps.1))
    where
      more :
          (r : Returned (Unit {0})) (rest : List (CaRequest K))
          → All (IsLegit K R W auths P) rest
          → All
              (IsLegit K R W auths P)
              (elim r [ returned u ↦ rest | request_denied ↦ [] | failed x ↦ [] | panicked ↦ [] ])
      more (returned u) rest l = l
      more request_denied rest l = tt
      more (failed x) rest l = tt
      more panicked rest l = tt

  pub new_client-IsSound : (s : SshCaServer R) → IsSound K R W auths P (new_client s).1
  unfolding new_client
  new_client-IsSound s = record {
    with_password = λ e. cc;
    with_key = λ key e. cc;
    anonymous = λ e. refl;
  }

-- Whatever calls russh makes on the handler of a new connection, in whatever order and whatever
-- the CA answers, each request that the connection hands to the CA client is legitimate: a user
-- certificate is asked for only in a valid name that a password was offered for in one of the
-- calls, which the authenticators accept; a host certificate only in a name that
-- `validate_hostname` lets through, and for a key that was offered in one of the calls and that the
-- CA, asked for it, named a host for; and a key is looked up only if it was offered in one of the
-- calls.
pub new_client-IsLegit :
    (K : SshKey) (R : Russh) (W : Wire K) (s : SshCaServer R) (es : List (Event R))
    → let (s', h) = new_client s in
      All (IsLegit K R W s.user_authenticators (λ e. Memᴰ e es)) (requests K R W h s' es)
unfolding new_client
new_client-IsLegit K R W s es =
    let P : Event R → Type 0 = λ e. Memᴰ e es in
    requests-IsLegit K R W s.user_authenticators P (new_client s).1 (new_client s).0 es refl
      (new_client-IsSound K R W s.user_authenticators P s) (All-Memᴰ es)
