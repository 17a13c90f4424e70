-- ===== src/Ssh/Names/Hostnames.antt =====
-- A host name that `validate_hostname` lets through names one file of the inventory.
use ssh_certificate_authorit.Common.{ℕ, ◌≡◌, refl, true, false, none, [], ◌∷◌, ◌++◌, Str, arith}
use ssh_certificate_authorit.Text.{codes, contains_char, str_eq}
use ssh_certificate_authorit.FilePath.{FilePath, components, push, is_named}
use ssh_certificate_authorit.FilePath.Child.{components-push}
use ssh_certificate_authorit.Inventory.{toml_name}
use ssh_certificate_authorit.Ssh.Names.{validate_hostname}

contains_char-append :
    (c : ℕ) (s t : Str)
    → contains_char c s ≡ false
    → contains_char c t ≡ false
    → contains_char c (s ++ t) ≡ false
contains_char-append c [] t h k = k
contains_char-append c (x ∷ s) t h k = ground (arith, contains_char-append c s t)

validate_hostname-no_slash :
    (host_name : Str) → validate_hostname host_name ≡ none → contains_char b'/' host_name ≡ false
unfolding validate_hostname
validate_hostname-no_slash host_name h = ground arith

toml_name-named : (host_name : Str) → is_named (toml_name host_name) ≡ true
unfolding str_eq
toml_name-named [] = refl
toml_name-named (c ∷ []) = ground arith
toml_name-named (c ∷ d ∷ s) = ground arith

-- The path that is built from a host name that was let through has the components of the inventory,
-- and then the one component `<host_name>.toml`.
pub components-push-toml_name :
    (inventory : FilePath) (host_name : Str)
    → validate_hostname host_name ≡ none
    → components (push inventory (toml_name host_name))
      ≡ components inventory ++ toml_name host_name ∷ []
components-push-toml_name inventory host_name h =
    components-push inventory (toml_name host_name) (record {
      no_slash =
          contains_char-append b'/' host_name (codes ".toml")
            (validate_hostname-no_slash host_name h) refl;
      named = toml_name-named host_name;
    })
