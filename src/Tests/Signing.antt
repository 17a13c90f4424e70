-- ===== src/Tests/Signing.antt =====
-- Witnesses about the CA: the inventory and the certificates.
use ssh_certificate_authorit.Common.{
  ℕ, ◌≡◌, refl, true, none, some, List, [], ◌∷◌, Outcome, ok, All, arith, if◌then◌else◌, ◌+◌, ◌*◌,
}
use ssh_certificate_authorit.Text.{codes, str_eq}
use ssh_certificate_authorit.Text.Utf8.{from_utf8, as_bytes}
use ssh_certificate_authorit.Text.Decimal.{decimal}
use ssh_certificate_authorit.FilePath.{FilePath, push, path_starts_with, file_stem}
use ssh_certificate_authorit.Records.{HostConfig, UserDefaults}
use ssh_certificate_authorit.Interfaces.{user, host, read_toml_file}
use ssh_certificate_authorit.Inventory.{
  toml_name, read_host_config, find_config_by_public_key, glob_pattern,
}
use ssh_certificate_authorit.Inventory.Confined.{IsWithin, read_host_config_confined}
use ssh_certificate_authorit.Inventory.Search.{
  IsFirst, IsPassed, find_config-IsFirst, find_config-none,
}
use ssh_certificate_authorit.UserTemplates.{read_user_defaults, lookup}
use ssh_certificate_authorit.Authority.{sign_certificate, sign_host_certificate, u64}
use ssh_certificate_authorit.Authority.Issue.{IsIssued}
use ssh_certificate_authorit.Authority.Certificates.{
  sign_certificate-IsIssued, sign_host_certificate-IsIssued, validity_exact,
}
use ssh_certificate_authorit.Tests.Toy.{keys, Fields, fields_of, key_laws}
use ssh_certificate_authorit.Tests.World.{
  files, formats, settings, authority, draw, web_config, hosts,
}

-- The certificate that web is given.
abbrev web_cert : Fields
web_cert = record {
  key = b'W';
  valid_after = 1000;
  valid_before = 2593001;
  serial = 6;
  key_id = codes "host-web-1000";
  cert_type = host;
  principals = codes "web.example.org" ∷ codes "web" ∷ [];
  comment = codes "me@home";
  extensions = λ _. none;
}

web_signed :
    sign_host_certificate keys files formats authority draw (codes "web") b'W' ≡ ok web_cert
unfolding sign_host_certificate read_host_config path_starts_with push read_toml_file from_utf8
    decimal
web_signed = refl

sign_host_certificate_example :
    (c : HostConfig) × (configured : ℕ) × (now : ℕ) × (later : ℕ) × (read_host_config files formats
        (codes "web")
        settings
      ≡ ok c)
    × (keys.from_openssh c.public_key ≡ ok configured)
    × (keys.same_data configured b'W' ≡ true)
    × (draw.first_clock ≡ some now)
    × (draw.second_clock ≡ some later)
    × IsIssued keys
        (fields_of web_cert)
        b'W'
        (codes "host")
        (codes "web")
        host
        c.validity_in_days
        c.hostnames
        c.extensions
        now
        later
sign_host_certificate_example =
    sign_host_certificate-IsIssued keys key_laws files formats authority draw (codes "web") b'W'
      web_signed

abbrev ann_cert : Fields
ann_cert = record {
  key = b'A';
  valid_after = 1000;
  valid_before = 87401;
  serial = 6;
  key_id = codes "user-ann-1000";
  cert_type = user;
  principals = codes "ann" ∷ [];
  comment = codes "me@home";
  extensions = λ k. if str_eq (codes "permit-pty") k then some [] else none;
}

ann_signed : sign_certificate keys files formats authority draw (codes "ann") b'A' ≡ ok ann_cert
unfolding sign_certificate read_user_defaults read_toml_file str_eq from_utf8 lookup as_bytes
    decimal
ann_signed = refl

sign_certificate_example :
    (d : UserDefaults) × (now : ℕ) × (later : ℕ) × (read_user_defaults files formats
        (codes "ann")
        settings
      ≡ ok d)
    × (draw.first_clock ≡ some now)
    × (draw.second_clock ≡ some later)
    × IsIssued keys
        (fields_of ann_cert)
        b'A'
        (codes "user")
        (codes "ann")
        user
        d.validity_in_days
        d.principals
        d.extensions
        now
        later
sign_certificate_example =
    sign_certificate-IsIssued keys key_laws files formats authority draw (codes "ann") b'A'
      ann_signed

validity_exact_example : u64 (1001 + u64 (30 * 86400)) ≡ 1001 + 30 * 86400
validity_exact_example = validity_exact 1001 30 (omega arith) (omega arith)

web_read : read_host_config files formats (codes "web") settings ≡ ok web_config
unfolding read_host_config path_starts_with push read_toml_file from_utf8
web_read = refl

read_host_config_example :
    (path : FilePath) × IsWithin files (push hosts (toml_name (codes "web"))) hosts path
    × (read_toml_file files formats.host_config_from_str path ≡ ok web_config)
read_host_config_example = read_host_config_confined files formats (codes "web") settings web_read

web_found :
    find_config_by_public_key keys files formats (codes "W") settings
    ≡ ok (some (codes "web", web_config))
unfolding find_config_by_public_key path_starts_with read_toml_file from_utf8 file_stem
web_found = refl

find_config_example :
    (key : ℕ) × (inventory : FilePath) × (found : List (Outcome FilePath)) × (keys.from_openssh
        (codes "W")
      ≡ ok key)
    × (files.canonicalize hosts ≡ ok inventory)
    × (files.glob (glob_pattern keys files formats inventory) ≡ ok found)
    × IsFirst keys files formats key inventory found (codes "web", web_config)
find_config_example = find_config-IsFirst keys files formats (codes "W") settings web_found

nobody_found : find_config_by_public_key keys files formats (codes "Z") settings ≡ ok none
unfolding find_config_by_public_key path_starts_with read_toml_file from_utf8
nobody_found = refl

find_config_none_example :
    (found : List (Outcome FilePath)) × (files.glob (glob_pattern keys files formats hosts)
      ≡ ok found)
    × All (IsPassed keys files formats b'Z' hosts) found
find_config_none_example =
    find_config-none keys files formats (codes "Z") settings b'Z' hosts nobody_found refl refl
