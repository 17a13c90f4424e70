-- ===== src/UserTemplates.antt =====
-- src/certificat_authority/user_defaults_reader.rs: which template a user has, and its reading.
pub mod Chosen
pub mod Steady
use ssh_certificate_authorit.Common.{
  ℕ, ◌*◌, Option, none, some, List, [], ◌∷◌, Str, Outcome, ok, err, panic, ◌>>=◌,
  template_too_large, if◌then◌else◌, ltb, length,
}
use ssh_certificate_authorit.Text.{str_eq}
use ssh_certificate_authorit.Text.Utf8.{as_bytes}
use ssh_certificate_authorit.FilePath.{FilePath, has_root, push, parent}
use ssh_certificate_authorit.Records.{Ca, UserDefaults, UserList}
use ssh_certificate_authorit.Interfaces.{Files, Formats, read_to_string, read_toml_file}

abbrev pub max_template_size : ℕ
max_template_size = 64 * 1024

-- `users.get(user)`
unfoldable pub lookup : Str → List (Str × FilePath) → Option FilePath
lookup k [] = none
lookup k ((j, path) ∷ users) = if str_eq j k then some path else lookup k users

unfoldable pub template_path : Str → UserList → Ca → Outcome FilePath
template_path user user_file_map config = elim (lookup user user_file_map.users) [
  | none ↦ ok config.default_user_template
  | some path ↦
      if has_root path
      then ok path
      else elim (parent config.user_list_file) [ none ↦ panic | some dir ↦ ok (push dir path) ]
]

module _ (fs : Files) (F : Formats) where
  unfoldable pub render_template : Str → Str → Outcome Str
  render_template user template_text = do
    jinja_env ← F.add_template F.new_environment user template_text
    user_template ← F.get_template jinja_env user
    F.render_user_name user_template user

  unfoldable pub read_user_defaults : Str → Ca → Outcome UserDefaults
  unfolding template_path render_template
  read_user_defaults user config = do
    user_file_map ← read_toml_file fs F.user_list_from_str config.user_list_file
    path ← template_path user user_file_map config
    template_text ← read_to_string fs path
    if ltb max_template_size (length (as_bytes template_text))
        then err (template_too_large (F.debug_path path))
        else do
          user_defaults ← render_template user template_text
          F.user_defaults_from_str user_defaults
