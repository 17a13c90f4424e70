-- ===== src/Identity.antt =====
-- src/identiy_handlers/mod.rs and pam_auth.rs: who may log in with a password.
use ssh_certificate_authorit.Common.{
  ℕ, Bool, true, false, Option, none, some, List, [], ◌∷◌, Str, Outcome, ok, err, panic, ◌>>=◌,
  forbidden_user, if◌then◌else◌, ltb,
}
use ssh_certificate_authorit.Text.{codes, str_eq}

pub data Credential : Type 0 where
  password : Str → Credential

-- A `UserAuthenticator`, by its method `authenticate`.
abbrev pub UserAuthenticator : Type 0
UserAuthenticator = Str → Credential → Outcome Bool

-- The system's accounts and PAM: the user id of a name, an error for a failed lookup, and the
-- conversation with the service "login", which ends well or with an error.
pub record Accounts : Type 0 where
  pub from_name : Str → Outcome (Option ℕ)
  pub login : Str → Str → Outcome (Unit {0})

-- The user is known, and is one of the system's.
abbrev pub is_system : Outcome (Option ℕ) → Bool
is_system (ok (some uid)) = ltb uid 1000
is_system (ok none) = false
is_system (err e) = false
is_system panic = false

unfoldable pub pam_authenticate_user : Accounts → Str → Str → Outcome Bool
unfolding str_eq
pam_authenticate_user accounts user pass =
    if str_eq user (codes "root")
    then err (forbidden_user user)
    else if is_system (accounts.from_name user)
    then err (forbidden_user user)
    else do _ ← accounts.login user pass; ok true

unfoldable pub pam_authenticator : Accounts → UserAuthenticator
unfolding pam_authenticate_user
pam_authenticator accounts username (password p) = pam_authenticate_user accounts username p

-- An unknown name is a panic.
unfoldable pub setup_user_authenticators : Accounts → List Str → Outcome (List UserAuthenticator)
unfolding pam_authenticator
setup_user_authenticators accounts [] = ok []
setup_user_authenticators accounts (name ∷ names) =
    if str_eq name (codes "pam")
    then (setup_user_authenticators accounts names >>= λ rest.
        ok (pam_authenticator accounts ∷ rest))
    else panic
