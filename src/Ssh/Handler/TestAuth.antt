-- ===== src/Ssh/Handler/TestAuth.antt =====
-- `auth_password` as it is built with the feature test_auth, for the integration tests.
use ssh_certificate_authorit.Common.{
  ◌≡◌, refl, ◌↔◌, true, not, ◌&&◌, some, Str, arith, if◌then◌else◌, subst, sym,
}
use ssh_certificate_authorit.Text.{codes, str_eq, str_eq_iff}
use ssh_certificate_authorit.Interfaces.{SshKey, Russh}
use ssh_certificate_authorit.Ssh.Names.{validate_username}
use ssh_certificate_authorit.Ssh.Handler.{
  by_password, SshCaServer, ConnectionHandler, Turn, Auth, returned, accept, reject, turn,
}

module _ (K : SshKey) (R : Russh) where
  unfoldable test_auth_password : ConnectionHandler R → SshCaServer R → Str → Str → Turn K R Auth
  test_auth_password h s user pass =
      if not (validate_username user)
      then turn K R h s (returned reject)
      else if str_eq user (codes "test") && str_eq pass (codes "test")
      then turn K R (record h { username = some user; auth_method = some by_password }) s
          (returned accept)
      else turn K R h s (returned reject)

  module _ (h : ConnectionHandler R) (s : SshCaServer R) (user pass : Str) where
    test_is_valid : validate_username (codes "test") ≡ true
    unfolding validate_username
    test_is_valid = refl

    -- With the feature the one login is the user test with the password test, whatever the
    -- authenticators are.
    test_auth_password_iff :
        ((test_auth_password h s user pass).result ≡ returned accept)
        ↔ ((user ≡ codes "test") × (pass ≡ codes "test"))
    unfolding test_auth_password
    test_auth_password_iff = (
      λ a. ground (arith, str_eq_iff user (codes "test"), str_eq_iff pass (codes "test")),
      λ (u, p). ground (
        arith,
        subst (λ n. validate_username n ≡ true) (sym u) test_is_valid,
        (str_eq_iff user (codes "test")).1 u,
        (str_eq_iff pass (codes "test")).1 p,
      ),
    )
