-- ===== src/Ssh/Listening.antt =====
-- `SshCaServer::run`: the settings with which russh is started.
use ssh_certificate_authorit.Common.{
  ℕ, ◌≡◌, ◌⊎◌, inl, inr, refl, sym, subst, Option, none, some, List, [], ◌∷◌, Str, Outcome, ok, err,
  panic, ◌>>=◌, unwrap,
}
use ssh_certificate_authorit.FilePath.{FilePath}
use ssh_certificate_authorit.Records.{SshServerConfig}
use ssh_certificate_authorit.Interfaces.{Russh}
use ssh_certificate_authorit.Ssh.Handler.{SshCaServer}

pub data MethodKind : Type 0 where
  password_method public_key_method : MethodKind

-- `russh::server::Config`, as far as the program sets it. Times are in seconds.
pub record RusshConfig (PrivateKey Certificate : Type 0) : Type 0 where
  pub inactivity_timeout : Option ℕ
  pub auth_rejection_time : ℕ
  pub auth_rejection_time_initial : Option ℕ
  pub max_auth_attempts : ℕ
  pub methods : List MethodKind
  pub keys : List PrivateKey
  pub certificates : List Certificate

-- `russh::keys`, the default settings, and the server of russh.
pub record Listener : Type 1 where
  pub PrivateKey : Type 0
  pub Certificate : Type 0
  pub load_secret_key : FilePath → Outcome PrivateKey
  pub load_openssh_certificate : FilePath → Outcome Certificate
  pub defaults : RusshConfig PrivateKey Certificate
  pub run_on_address : RusshConfig PrivateKey Certificate → Str × ℕ → Outcome (Unit {0})

module _ (L : Listener) where
  open L use {PrivateKey, Certificate}

  abbrev pub auth_methods : List MethodKind
  auth_methods = password_method ∷ public_key_method ∷ []

  unfoldable pub config_with :
      PrivateKey → Option FilePath → Outcome (RusshConfig PrivateKey Certificate)
  config_with server_private_key none = ok (record L.defaults {
    inactivity_timeout = some 5;
    auth_rejection_time = 3;
    auth_rejection_time_initial = none;
    max_auth_attempts = 3;
    methods = auth_methods;
    keys = server_private_key ∷ [];
  })
  config_with server_private_key (some server_certificate_path) = do
    server_certificate ← unwrap (L.load_openssh_certificate server_certificate_path)
    ok (record L.defaults {
      inactivity_timeout = some 5;
      auth_rejection_time = 3;
      auth_rejection_time_initial = none;
      max_auth_attempts = 3;
      methods = auth_methods;
      keys = server_private_key ∷ [];
      certificates = server_certificate ∷ [];
    })

  unfoldable pub run : {R : Russh} → SshCaServer R → Outcome (Unit {0})
  unfolding config_with
  run s = do
    server_private_key ← unwrap (L.load_secret_key s.config.private_key)
    ssh_config ← config_with server_private_key s.config.certificate
    unwrap (L.run_on_address ssh_config (s.config.bind, s.config.port))

  -- The certificates are those of the defaults, or the one that is configured.
  abbrev pub IsCertified : Option FilePath → List Certificate → Type 0
  IsCertified none certificates = certificates ≡ L.defaults.certificates
  IsCertified (some path) certificates =
      (certificate : Certificate) × (L.load_openssh_certificate path ≡ ok certificate)
      × (certificates ≡ certificate ∷ [])

  pub record IsServed (config : SshServerConfig) (c : RusshConfig PrivateKey Certificate)
      : Type 0 where
    pub methods : c.methods ≡ password_method ∷ public_key_method ∷ []
    pub attempts : c.max_auth_attempts ≡ 3
    pub key :
        (key : PrivateKey) × (L.load_secret_key config.private_key ≡ ok key) × (c.keys ≡ key ∷ [])
    pub certificates : IsCertified config.certificate c.certificates

  abbrev IsFailed : {A : Type 0} → Outcome A → Type 0
  IsFailed (ok a) = ⊥
  IsFailed (err e) = Unit
  IsFailed panic = Unit

  -- A file of the configuration could not be loaded.
  abbrev pub IsUnloaded : SshServerConfig → Type 0
  IsUnloaded config =
      IsFailed (L.load_secret_key config.private_key)
      ⊎ ((path : FilePath) × (config.certificate ≡ some path)
          × IsFailed (L.load_openssh_certificate path))

  module _ (config : SshServerConfig) where
    -- A configuration of russh that serves this one, or a panic as a file could not be loaded.
    abbrev Settled : Outcome (RusshConfig PrivateKey Certificate) → Type 0
    Settled (ok c) = IsServed config c
    Settled (err e) = ⊥
    Settled panic = IsUnloaded config

    config_with-Settled :
        (key : PrivateKey) (certificate : Option FilePath)
        → L.load_secret_key config.private_key ≡ ok key
        → config.certificate ≡ certificate
        → Settled (config_with key certificate)
    unfolding config_with
    config_with-Settled key none k e = record {
      methods = refl;
      attempts = refl;
      key = (key, k, refl);
      certificates = subst (λ o. IsCertified o L.defaults.certificates) (sym e) refl;
    }
    config_with-Settled key (some path) k e = loaded (L.load_openssh_certificate path) refl
      where
        loaded :
            (m : Outcome Certificate)
            → L.load_openssh_certificate path ≡ m
            → Settled (
                unwrap m >>= λ server_certificate. ok (record L.defaults {
                  inactivity_timeout = some 5;
                  auth_rejection_time = 3;
                  auth_rejection_time_initial = none;
                  max_auth_attempts = 3;
                  methods = auth_methods;
                  keys = key ∷ [];
                  certificates = server_certificate ∷ [];
                }))
        loaded (ok c) q = record {
          methods = refl;
          attempts = refl;
          key = (key, k, refl);
          certificates = subst (λ o. IsCertified o (c ∷ [])) (sym e) (c, q, refl);
        }
        loaded (err x) q = inr (path, e, subst IsFailed (sym q) tt)
        loaded panic q = inr (path, e, subst IsFailed (sym q) tt)

  -- The server of russh runs with a configuration that serves this one, or a file is missing.
  abbrev pub Served : {R : Russh} → SshCaServer R → Outcome (Unit {0}) → Type 0
  Served s result =
      ((c : RusshConfig PrivateKey Certificate) × IsServed s.config c
        × (result ≡ unwrap (L.run_on_address c (s.config.bind, s.config.port))))
      ⊎ (IsUnloaded s.config × (result ≡ panic))

  -- The SSH server comes up with a configuration of russh that takes passwords and public keys,
  -- allows three rejected attempts, and has the configured key, and the configured certificate or
  -- else the default ones, on the configured address; or it panics as the key or the certificate
  -- cannot be loaded.
  pub run-Served : {R : Russh} (s : SshCaServer R) → Served s (run s)
  unfolding run
  run-Served {R} s = keyed (L.load_secret_key s.config.private_key) refl
    where
      configured :
          (m : Outcome (RusshConfig PrivateKey Certificate))
          → Settled s.config m
          → Served s (m >>= λ c. unwrap (L.run_on_address c (s.config.bind, s.config.port)))
      configured (ok c) h = inl (c, h, refl)
      configured (err e) h = absurd h
      configured panic h = inr (h, refl)

      keyed :
          (m : Outcome PrivateKey)
          → L.load_secret_key s.config.private_key ≡ m
          → Served s (
              unwrap m >>= λ key. config_with key s.config.certificate >>= λ c.
              unwrap (L.run_on_address c (s.config.bind, s.config.port)))
      keyed (ok key) q =
          configured (config_with key s.config.certificate)
            (config_with-Settled s.config key s.config.certificate q refl)
      keyed (err e) q = inr (inl (subst IsFailed (sym q) tt), refl)
      keyed panic q = inr (inl (subst IsFailed (sym q) tt), refl)
