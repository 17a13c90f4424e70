-- ===== src/Ssh/Session/Legit.antt =====
-- Which requests a connection can hand to the CA.
use ssh_certificate_authorit.Common.{
  ◌≡◌, refl, ap, ◌∙◌, inl, inr, true, Option, none, some, List, [], Str, ok, arith, All, subst, sym,
}
use ssh_certificate_authorit.Interfaces.{SshKey, Russh}
use ssh_certificate_authorit.Ipc.{
  Wire, key_found, CaRequest, sign_certificate, check_public_key, sign_host_certificate,
}
use ssh_certificate_authorit.Identity.{UserAuthenticator}
use ssh_certificate_authorit.Ssh.Names.{validate_username, validate_hostname}
use ssh_certificate_authorit.Ssh.Handler.{
  by_password, SshCaServer, ConnectionHandler, Returned, Call, Turn, auth_password, convert_key,
}
use ssh_certificate_authorit.Ssh.Handler.Login.{Accepted, auth_password_iff, auth_password-handler}
use ssh_certificate_authorit.Ipc.Client.{CaClient, Socket, send_request}
use ssh_certificate_authorit.Ssh.Session.{Event, password_offered, key_offered}
use ssh_certificate_authorit.Ssh.Signing.{after_request, hang_up, stop}

module _ (K : SshKey) (R : Russh) (W : Wire K) (auths : List UserAuthenticator)
    (P : Event R → Type 0) where
  -- The CA named a host for a key that was offered in a call of `P`.
  abbrev pub Recognised : R.PublicKey → Type 0
  Recognised presented =
      (socket : Socket) × (user : Str) × (key : K.PublicKey) × (c : CaClient) × (host : Str) × P
        (key_offered socket user presented)
      × (convert_key K R presented ≡ some key)
      × ((send_request K W c socket (check_public_key key)).1 ≡ ok (key_found (some host)))

  -- A user certificate is asked for only in a name that a password was offered for in a call of
  -- `P` and accepted; a host certificate only in a name that `validate_hostname` lets through, and
  -- for a key that the CA named a host for; and a key is looked up only if it was offered in a call
  -- of `P`.
  abbrev pub IsLegit : CaRequest K → Type 0
  IsLegit (sign_certificate user key) =
      (validate_username user ≡ true)
      × ((pass : Str) × P (password_offered user pass) × Accepted auths user pass)
  IsLegit (sign_host_certificate host_name key) =
      (validate_hostname host_name ≡ none)
      × ((presented : R.PublicKey) × (text : Str) × Recognised presented
          × (R.to_openssh presented ≡ ok text)
          × (K.from_openssh text ≡ ok key))
  IsLegit (check_public_key key) =
      (socket : Socket) × (user : Str) × (presented : R.PublicKey) × P
        (key_offered socket user presented)
      × (convert_key K R presented ≡ some key)

  -- Who a connection belongs to. Without a method nobody is logged in.
  pub record IsSound (h : ConnectionHandler R) : Type 0 where
    pub with_password :
        h.auth_method ≡ some by_password
        → (user : Str) × (pass : Str) × (h.username ≡ some user)
          × P (password_offered user pass)
          × (validate_username user ≡ true)
          × Accepted auths user pass
    pub with_key : (key : R.PublicKey) → h.public_key ≡ some key → Recognised key
    pub anonymous : h.auth_method ≡ none → h.username ≡ none

  -- A call that keeps the connection sound and sends legitimate requests only.
  pub record Keeps {A : Type 0} (t : Turn K R A) : Type 0 where
    pub authenticators : t.server.user_authenticators ≡ auths
    pub sound : IsSound t.handler
    pub legit : All IsLegit t.sent

  module _ (h : ConnectionHandler R) (s : SshCaServer R) (a : s.user_authenticators ≡ auths)
      (i : IsSound h) where
    password-quiet :
        (user pass : Str)
        → ((auth_password K R h s user pass).server ≡ s)
          × ((auth_password K R h s user pass).sent ≡ [])
    unfolding auth_password
    password-quiet user pass = (ground arith, ground arith)

    IsSound-password :
        (user pass : Str)
        → P (password_offered user pass)
        → validate_username user ≡ true
        → Accepted auths user pass
        → IsSound (record h { username = some user; auth_method = some by_password })
    IsSound-password user pass p v acc = record {
      with_password = λ e. (user, pass, refl, p, v, acc);
      with_key = λ key e. i.with_key key e;
      anonymous = λ e. cc;
    }

    pub password-Keeps :
        (user pass : Str) → P (password_offered user pass) → Keeps (auth_password K R h s user pass)
    password-Keeps user pass p =
        let (same, quiet) = password-quiet user pass in
        record {
          authenticators = ap (λ (x : SshCaServer R). x.user_authenticators) same ∙ a;
          sound = elim (auth_password-handler K R h s user pass) [
            | inl (acc, e) ↦
                let (v, acc') = (auth_password_iff K R h s user pass).0 acc in
                subst IsSound (sym e) (
                  IsSound-password user pass p v
                    (subst (λ (l : List UserAuthenticator). Accepted l user pass) a acc'))
            | inr (_, e) ↦ subst IsSound (sym e) i
          ];
          legit = subst (All IsLegit) (sym quiet) tt;
        }

    pub stop-Keeps : (r : Returned (Unit {0})) → Keeps (stop K R h s r)
    stop-Keeps r = record { authenticators = a; sound = i; legit = tt }

    pub hang_up-Keeps : (msg : Str) → Keeps (hang_up K R h s msg)
    hang_up-Keeps msg = record { authenticators = a; sound = i; legit = tt }

    pub after_request-Keeps :
        (s' : SshCaServer R) (request : CaRequest K) (calls : Option (List (Call R)))
        → s'.user_authenticators ≡ auths
        → IsLegit request
        → Keeps (after_request K R h s' request calls)
    unfolding after_request
    after_request-Keeps s' request none a' l = record {
      authenticators = a';
      sound = i;
      legit = (l, tt);
    }
    after_request-Keeps s' request (some calls) a' l = record {
      authenticators = a';
      sound = i;
      legit = (l, tt);
    }
