-- ===== src/UnitTests/ServerTests.antt =====
-- The unit tests of ca_server.rs, on a temporary directory and keys that ssh-key draws.
use ssh_certificate_authorit.Common.{
  ◌++◌, Str, Outcome, ok, err, panic, ◌>>=◌, ◌>>◌, unwrap, assert, none, some,
}
use ssh_certificate_authorit.Text.{codes, starts_with, contains_str}
use ssh_certificate_authorit.Text.Utf8.{as_bytes}
use ssh_certificate_authorit.Errors.{to_string}
use ssh_certificate_authorit.FilePath.{FilePath, push}
use ssh_certificate_authorit.Interfaces.{SshKey, Formats, Draw}
use ssh_certificate_authorit.Authority
use ssh_certificate_authorit.Ipc.{
  CaRequest, CaResponse, sign_certificate, check_public_key, sign_host_certificate,
  signed_certificate, error, key_found,
}
use ssh_certificate_authorit.Ipc.Server
use ssh_certificate_authorit.Ipc.Server.{CaServer, handle_request}
use ssh_certificate_authorit.Fuzz.{TempFiles, RandomKeys, set_up_in}

-- `assert!(response.is_ok())`, and `unwrap`.
abbrev pub expect_ok {ℓ} : {A : Type ℓ} → Outcome A → Outcome A
expect_ok (ok a) = ok a
expect_ok (err e) = panic
expect_ok panic = panic

abbrev pub expect_error : {A : Type 0} → Str → Outcome A → Outcome (Unit {0})
expect_error part (ok a) = panic
expect_error part (err e) = assert (contains_str part (to_string e))
expect_error part panic = panic

-- The text of a host's file.
abbrev host_text : Str → Str
host_text key =
    codes "\npublic_key = \""
    ++ key
    ++ codes "\"\nvalidity_in_days = 30\nhostnames = [\"testhost.example.com\"]\nextensions = []\n"

module _ (K : SshKey) (T : TempFiles) (R : RandomKeys K) (F : Formats) (draw : Draw K) where
  record TestServer : Type 0 where
    server : CaServer K
    disk : T.Disk
    temp_dir : FilePath

  create_test_ca_server : Outcome TestServer
  create_test_ca_server = do
    (base_path, disk) ← unwrap T.temp_dir
    (ca_config, disk) ← set_up_in K T R base_path disk (codes "\n[users]\n") (
        codes
          "\nvalidity_in_days = 1\nprincipals = [\"{{ user_name }}\"]\nextensions = [\"permit-pty\"]\n")
    ca ← unwrap (Authority.new K (T.seen disk) F ca_config)
    ok (record {
      server = Server.new (push base_path (codes "ca.sock")) ca (codes "test-token-12345");
      disk = disk;
      temp_dir = base_path;
    })

  abbrev handled : TestServer → CaRequest K → Outcome (CaResponse K)
  handled t request = handle_request K (T.seen t.disk) F t.server.ca draw request

  -- The fields of a certificate that the tests look at.
  module _ (public_key_of : K.Certificate → K.KeyData) (key_id_of : K.Certificate → Str) where
    abbrev expect_certificate : K.PublicKey → Str → CaResponse K → Outcome (Unit {0})
    expect_certificate key label (signed_certificate cert) = do
      assert (K.same_data (public_key_of cert) (K.key_data key))
      assert (starts_with (key_id_of cert) label)
    expect_certificate key label (error e) = panic
    expect_certificate key label (key_found found) = panic

    unfoldable pub test_handle_request_sign_certificate : Outcome K.PrivateKey → Outcome (Unit {0})
    unfolding create_test_ca_server
    test_handle_request_sign_certificate drawn = do
      t ← create_test_ca_server
      user_key ← unwrap drawn
      let user_public_key = R.public_key user_key
      response ← expect_ok (handled t (sign_certificate (codes "testuser") user_public_key))
      expect_certificate user_public_key (codes "user-testuser-") response

    unfoldable pub test_handle_request_sign_host_certificate :
        Outcome K.PrivateKey → Outcome (Unit {0})
    unfolding create_test_ca_server
    test_handle_request_sign_host_certificate drawn = do
      t ← create_test_ca_server
      host_key ← unwrap drawn
      let host_public_key = R.public_key host_key
      host_public_key_str ← unwrap (K.to_openssh host_public_key)
      disk ← unwrap (
          T.write t.disk (push (push t.temp_dir (codes "hosts")) (codes "testhost.toml"))
            (as_bytes (host_text host_public_key_str)))
      response ← expect_ok (
          handled (record t { disk = disk })
            (sign_host_certificate (codes "testhost") host_public_key))
      expect_certificate host_public_key (codes "host-testhost-") response

  abbrev expect_no_key : CaResponse K → Outcome (Unit {0})
  expect_no_key (key_found none) = ok tt
  expect_no_key (key_found (some host)) = panic
  expect_no_key (signed_certificate cert) = panic
  expect_no_key (error e) = panic

  unfoldable pub test_handle_request_check_public_key : Outcome K.PrivateKey → Outcome (Unit {0})
  unfolding create_test_ca_server
  test_handle_request_check_public_key drawn = do
    t ← create_test_ca_server
    test_key ← unwrap drawn
    response ← expect_ok (handled t (check_public_key (R.public_key test_key)))
    expect_no_key response

  unfoldable pub test_handle_request_sign_host_certificate_wrong_key :
      Outcome K.PrivateKey → Outcome K.PrivateKey → Outcome (Unit {0})
  unfolding create_test_ca_server
  test_handle_request_sign_host_certificate_wrong_key drawn drawn_after = do
    t ← create_test_ca_server
    config_key ← unwrap drawn
    config_public_key_str ← unwrap (K.to_openssh (R.public_key config_key))
    disk ← unwrap (
        T.write t.disk (push (push t.temp_dir (codes "hosts")) (codes "testhost.toml"))
          (as_bytes (host_text config_public_key_str)))
    different_key ← unwrap drawn_after
    expect_error (codes "wrong public key") (
        handled (record t { disk = disk })
          (sign_host_certificate (codes "testhost") (R.public_key different_key)))
