-- ===== src/Tests/Passing.antt =====
-- The unit tests of the CA server, run on the stand-ins.
use ssh_certificate_authorit.Common.{
  ℕ, ◌≡◌, refl, some, [], ◌∷◌, Str, ok, panic, if◌then◌else◌, ◌==◌,
}
use ssh_certificate_authorit.Text.{codes, str_eq}
use ssh_certificate_authorit.Text.Utf8.{from_utf8, as_bytes}
use ssh_certificate_authorit.Errors.{to_string}
use ssh_certificate_authorit.FilePath.{push, path_starts_with}
use ssh_certificate_authorit.Interfaces.{Formats, Draw, read_toml_file}
use ssh_certificate_authorit.Inventory.{read_host_config, find_config_by_public_key}
use ssh_certificate_authorit.UserTemplates.{read_user_defaults, lookup}
use ssh_certificate_authorit.Authority
use ssh_certificate_authorit.Ipc.Server
use ssh_certificate_authorit.Fuzz.{RandomKeys, set_up_in}
use ssh_certificate_authorit.UnitTests.AuthorityTests.{
  test_sign_certificate_principals, test_sign_certificate_validity,
}
use ssh_certificate_authorit.UnitTests.ServerTests.{
  test_handle_request_sign_certificate, test_handle_request_sign_host_certificate,
  test_handle_request_check_public_key, test_handle_request_sign_host_certificate_wrong_key,
}
use ssh_certificate_authorit.Tests.Toy.{keys, fields_of}
use ssh_certificate_authorit.Tests.World.{formats, web_config, draw}
use ssh_certificate_authorit.Tests.Harness.{temp_files}

-- The text after the first quote.
abbrev pub after_quote : Str → Str
after_quote [] = []
after_quote (c ∷ s) = let rest = after_quote s in if c == b'"' then s else rest

-- The key of a host's file stands in the first quotes of its text.
abbrev quoting : Formats
quoting = record formats {
  host_config_from_str = λ text. ok (record web_config { public_key = after_quote text });
}

abbrev first_or_zero : Str → ℕ
first_or_zero [] = 0
first_or_zero (c ∷ _) = c

abbrev pub drawn : RandomKeys keys
drawn = record {
  ca_key = ok (codes "secret");
  other_key = ok (codes "other");
  to_openssh = ok;
  public_key = first_or_zero;
}

signs_user :
    test_handle_request_sign_certificate keys temp_files drawn quoting draw
      (λ c. c.key)
      (λ c. c.key_id)
      (ok (codes "U"))
    ≡ ok tt
unfolding test_handle_request_sign_certificate set_up_in Authority.new str_eq push
    Server.handle_request Authority.sign_certificate read_user_defaults lookup read_toml_file
    Server.new from_utf8 as_bytes
signs_user = refl

signs_host :
    test_handle_request_sign_host_certificate keys temp_files drawn quoting draw
      (λ c. c.key)
      (λ c. c.key_id)
      (ok (codes "H"))
    ≡ ok tt
unfolding test_handle_request_sign_host_certificate set_up_in Authority.new str_eq push
    Server.handle_request Authority.sign_host_certificate read_host_config path_starts_with
    read_toml_file Server.new from_utf8 as_bytes
signs_host = refl

finds_none :
    test_handle_request_check_public_key keys temp_files drawn quoting draw (ok (codes "U")) ≡ ok tt
unfolding test_handle_request_check_public_key set_up_in Authority.new str_eq push
    Server.handle_request Authority.check_public_key find_config_by_public_key
finds_none = refl

refuses_other :
    test_handle_request_sign_host_certificate_wrong_key keys temp_files drawn quoting draw
      (ok (codes "C"))
      (ok (codes "D"))
    ≡ ok tt
unfolding test_handle_request_sign_host_certificate_wrong_key set_up_in Authority.new str_eq push
    Server.handle_request Authority.sign_host_certificate read_host_config path_starts_with
    to_string read_toml_file Server.new from_utf8 as_bytes
refuses_other = refl

-- Templates whose values are fixed.
abbrev fixed : ℕ → Formats
fixed days = record formats {
  user_defaults_from_str = λ _. ok (record {
    validity_in_days = days;
    principals = codes "testuser" ∷ codes "admin" ∷ [];
    extensions = codes "permit-pty" ∷ codes "permit-port-forwarding" ∷ [];
  });
}

-- The signing looks at the clock twice, at these times.
abbrev at_times : ℕ → ℕ → Draw keys
at_times first second = record draw { first_clock = some first; second_clock = some second }

names_principals :
    test_sign_certificate_principals keys temp_files drawn (fixed 1) draw fields_of (ok (codes "U"))
    ≡ ok tt
unfolding test_sign_certificate_principals Authority.new str_eq push Authority.sign_certificate
    read_user_defaults lookup read_toml_file from_utf8 as_bytes
names_principals = refl

-- Both looks in the same second.
lasts_a_week :
    test_sign_certificate_validity keys temp_files drawn
      (fixed 7)
      (at_times 1000 1000)
      fields_of
      (ok 1000)
      (ok 1000)
      (ok (codes "U"))
    ≡ ok tt
unfolding test_sign_certificate_validity Authority.new str_eq push Authority.sign_certificate
    read_user_defaults lookup read_toml_file from_utf8 as_bytes
lasts_a_week = refl

-- A second passes between the looks: the certificate lasts a second longer, and the test fails.
lasts_longer :
    test_sign_certificate_validity keys temp_files drawn
      (fixed 7)
      (at_times 1000 1001)
      fields_of
      (ok 1000)
      (ok 1001)
      (ok (codes "U"))
    ≡ panic
unfolding test_sign_certificate_validity Authority.new str_eq push Authority.sign_certificate
    read_user_defaults lookup read_toml_file from_utf8 as_bytes
lasts_longer = refl
