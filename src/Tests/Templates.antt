-- ===== src/Tests/Templates.antt =====
-- The unit tests of the readers, run on the stand-ins.
use ssh_certificate_authorit.Common.{
  ◌≡◌, refl, List, [], ◌∷◌, Str, ok, panic, if◌then◌else◌, ltb, length,
}
use ssh_certificate_authorit.Text.{codes, str_eq}
use ssh_certificate_authorit.Text.Utf8.{from_utf8, as_bytes}
use ssh_certificate_authorit.FilePath.{FilePath, push, parent}
use ssh_certificate_authorit.Records.{UserDefaults}
use ssh_certificate_authorit.Interfaces.{Formats, read_toml_file}
use ssh_certificate_authorit.UserTemplates.{read_user_defaults, lookup}
use ssh_certificate_authorit.UnitTests.DefaultsTests.{
  test_template_rendering_username_substitution, test_user_specific_template_override,
  test_relative_path_resolution, test_empty_extensions,
}
use ssh_certificate_authorit.Tests.Plain.{keys}
use ssh_certificate_authorit.Tests.World.{formats}
use ssh_certificate_authorit.Tests.Harness.{temp_files, random_keys}

-- A list of users that is longer than its heading has these users.
abbrev listing : List (Str × FilePath) → Formats → Formats
listing users F = record F {
  user_list_from_str = λ text. ok (record { users = if ltb 7 (length text) then users else [] });
}

abbrev short_defaults : UserDefaults
short_defaults = record {
  validity_in_days = 1;
  principals = codes "alice" ∷ codes "alice-admin" ∷ [];
  extensions = codes "permit-pty" ∷ [];
}

abbrev fixed : UserDefaults → Formats
fixed defaults = record formats { user_defaults_from_str = λ _. ok defaults }

-- A long text is the template of the admin.
abbrev by_length : Formats
by_length = record formats {
  user_defaults_from_str = λ text.
      if ltb 120 (length text)
      then ok (record {
        validity_in_days = 30;
        principals = codes "admin" ∷ codes "root" ∷ codes "admin" ∷ [];
        extensions = codes "a" ∷ codes "b" ∷ codes "c" ∷ [];
      })
      else ok (record short_defaults { principals = codes "regularuser" ∷ [] });
}

-- Only the file in the subdirectory has five days in it.
abbrev by_days : Formats
by_days = record formats {
  user_defaults_from_str = λ text.
      if str_eq text
        (codes "\nvalidity_in_days = 5\nprincipals = [\"{{ user_name }}\"]\nextensions = []\n")
      then ok (record short_defaults { validity_in_days = 5 })
      else ok short_defaults;
}

substitutes :
    test_template_rendering_username_substitution keys temp_files random_keys (fixed short_defaults)
    ≡ ok tt
unfolding test_template_rendering_username_substitution read_user_defaults lookup read_toml_file
    str_eq push from_utf8 as_bytes
substitutes = refl

overrides :
    test_user_specific_template_override keys temp_files random_keys
      (listing ((codes "admin", codes "admin_template.toml") ∷ []) by_length)
    ≡ ok tt
unfolding test_user_specific_template_override read_user_defaults lookup read_toml_file str_eq push
    parent from_utf8 as_bytes
overrides = refl

-- A list that names nobody: the admin gets the default template, and the test fails.
forgets :
    test_user_specific_template_override keys temp_files random_keys (listing [] by_length) ≡ panic
unfolding test_user_specific_template_override read_user_defaults lookup read_toml_file str_eq push
    parent from_utf8 as_bytes
forgets = refl

resolves :
    test_relative_path_resolution keys temp_files random_keys
      (listing ((codes "special", codes "templates/special.toml") ∷ []) by_days)
    ≡ ok tt
unfolding test_relative_path_resolution read_user_defaults lookup read_toml_file str_eq push parent
    from_utf8 as_bytes
resolves = refl

no_extensions :
    test_empty_extensions keys temp_files random_keys
      (fixed (record short_defaults { extensions = [] }))
    ≡ ok tt
unfolding test_empty_extensions read_user_defaults lookup read_toml_file str_eq push from_utf8
    as_bytes
no_extensions = refl
