-- ===== src/Ssh/Handler/Login.antt =====
-- Who is logged in by a password.
use ssh_certificate_authorit.Common.{
  ℕ, ◌<◌, ◌≡◌, ◌≢◌, refl, ◌↔◌, ◌⊎◌, inl, inr, true, some, List, [], ◌∷◌, Str, ok, err, panic, arith,
  forbidden_user, subst,
}
use ssh_certificate_authorit.Text.{codes, str_eq_iff}
use ssh_certificate_authorit.Interfaces.{SshKey, Russh}
use ssh_certificate_authorit.Identity.{
  Accounts, password, UserAuthenticator, pam_authenticate_user, pam_authenticator,
  setup_user_authenticators,
}
use ssh_certificate_authorit.Ssh.Names.{validate_username}
use ssh_certificate_authorit.Ssh.Handler.{
  by_password, SshCaServer, ConnectionHandler, returned, accept, try_authenticators, auth_password,
}

-- The first authenticator that does not refuse or fail accepts.
abbrev pub Accepted : List UserAuthenticator → Str → Str → Type 0
Accepted [] user pass = ⊥
Accepted (authenticate ∷ rest) user pass =
    (authenticate user (password pass) ≡ ok true)
    ⊎ ((authenticate user (password pass) ≢ ok true)
        × (authenticate user (password pass) ≢ panic)
        × Accepted rest user pass)

try_authenticators-Accepted :
    (auths : List UserAuthenticator) (user pass : Str)
    → try_authenticators auths user pass ≡ ok true
    → Accepted auths user pass
unfolding try_authenticators
try_authenticators-Accepted [] user pass h = ground arith
try_authenticators-Accepted (a ∷ auths) user pass h =
    ground (arith, try_authenticators-Accepted auths user pass)

Accepted-try_authenticators :
    (auths : List UserAuthenticator) (user pass : Str)
    → Accepted auths user pass
    → try_authenticators auths user pass ≡ ok true
unfolding try_authenticators
Accepted-try_authenticators [] user pass h = absurd h
Accepted-try_authenticators (a ∷ auths) user pass h =
    ground (arith, Accepted-try_authenticators auths user pass)

module _ (K : SshKey) (R : Russh) (h : ConnectionHandler R) (s : SshCaServer R)
    (user pass : Str) where
  -- A password is accepted exactly if the username is valid and some authenticator accepts before
  -- any panics; the errors and refusals of the ones before it do not matter.
  pub auth_password_iff :
      ((auth_password K R h s user pass).result ≡ returned accept)
      ↔ ((validate_username user ≡ true) × Accepted s.user_authenticators user pass)
  unfolding auth_password
  auth_password_iff = (
    λ a. ground (arith, try_authenticators-Accepted s.user_authenticators user pass),
    λ a. ground (arith, Accepted-try_authenticators s.user_authenticators user pass a.1),
  )

  -- An accepted password sets the username and the method; otherwise the connection's state
  -- stays.
  pub auth_password-handler :
      (((auth_password K R h s user pass).result ≡ returned accept)
        × ((auth_password K R h s user pass).handler
            ≡ record h { username = some user; auth_method = some by_password }))
      ⊎ (((auth_password K R h s user pass).result ≢ returned accept)
          × ((auth_password K R h s user pass).handler ≡ h))
  unfolding auth_password
  auth_password-handler = ground arith

pub auth_password-of_Accepted :
    (K : SshKey) (R : Russh) (h : ConnectionHandler R) (s : SshCaServer R) (user pass : Str)
    → validate_username user ≡ true
    → Accepted s.user_authenticators user pass
    → auth_password K R h s user pass ≡ record {
      handler = record h { username = some user; auth_method = some by_password };
      server = s;
      sent = [];
      calls = [];
      result = returned accept;
    }
unfolding auth_password
auth_password-of_Accepted K R h s user pass v a =
    rw (v, Accepted-try_authenticators s.user_authenticators user pass a) refl

-- The names that PAM is never asked about: root, and those that the lookup finds with a user id of
-- the system.
abbrev pub IsBarred : Accounts → Str → Type 0
IsBarred accounts user =
    (user ≡ codes "root") ⊎ ((uid : ℕ) × (accounts.from_name user ≡ ok (some uid)) × (uid < 1000))

pam_authenticate_user-IsBarred :
    (accounts : Accounts) (user pass : Str)
    → IsBarred accounts user
    → pam_authenticate_user accounts user pass ≡ err (forbidden_user user)
unfolding pam_authenticate_user
pam_authenticate_user-IsBarred accounts user pass (inl e) =
    rw ((str_eq_iff user (codes "root")).1 e)
pam_authenticate_user-IsBarred accounts user pass (inr (uid, e, l)) = ground arith

setup-cons :
    (accounts : Accounts) (name : Str) (names : List Str) {auths : List UserAuthenticator}
    → setup_user_authenticators accounts (name ∷ names) ≡ ok auths
    → (rest : List UserAuthenticator) × (setup_user_authenticators accounts names ≡ ok rest)
      × (auths ≡ pam_authenticator accounts ∷ rest)
unfolding setup_user_authenticators
setup-cons accounts name names h = ground arith

pam-IsBarred :
    (accounts : Accounts) (user pass : Str)
    → IsBarred accounts user
    → pam_authenticator accounts user (password pass) ≡ err (forbidden_user user)
unfolding pam_authenticator
pam-IsBarred accounts user pass b = pam_authenticate_user-IsBarred accounts user pass b

not-Accepted-IsBarred :
    (accounts : Accounts) (names : List Str) (user pass : Str) {auths : List UserAuthenticator}
    → setup_user_authenticators accounts names ≡ ok auths
    → IsBarred accounts user
    → Accepted auths user pass
    → ⊥
unfolding setup_user_authenticators
not-Accepted-IsBarred accounts [] user pass {auths = []} h b a = a
not-Accepted-IsBarred accounts [] user pass {auths = x ∷ xs} h b a = cc
not-Accepted-IsBarred accounts (name ∷ names) user pass {auths} h b a =
    let (rest, r, e) = setup-cons accounts name names h in
    refuse rest (not-Accepted-IsBarred accounts names user pass {auths = rest} r b)
      (subst (λ (l : List UserAuthenticator). Accepted l user pass) e a)
  where
    refuse :
        (rest : List UserAuthenticator)
        → (Accepted rest user pass → ⊥)
        → Accepted (pam_authenticator accounts ∷ rest) user pass
        → ⊥
    refuse rest ih (inl p) = cc (p, pam-IsBarred accounts user pass b)
    refuse rest ih (inr (n, m, more)) = ih more

-- With the authenticators that the configuration sets up, whichever it names, no password logs in
-- root, or an account that the lookup finds with a user id below 1000, and the connection's state
-- stays.
pub auth_password-IsBarred :
    (K : SshKey) (R : Russh) (accounts : Accounts) (names : List Str) (h : ConnectionHandler R)
    (s : SshCaServer R) (user pass : Str)
    → setup_user_authenticators accounts names ≡ ok s.user_authenticators
    → IsBarred accounts user
    → ((auth_password K R h s user pass).result ≢ returned accept)
      × ((auth_password K R h s user pass).handler ≡ h)
auth_password-IsBarred K R accounts names h s user pass e b =
    elim (auth_password-handler K R h s user pass) [
      | inl (acc, _) ↦ absurd (
          not-Accepted-IsBarred accounts names user pass e b
            ((auth_password_iff K R h s user pass).0 acc).1)
      | inr kept ↦ kept
    ]
