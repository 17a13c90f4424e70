-- ===== src/UserTemplates/Steady.antt =====
-- The reading of a user's template does not panic, under the hypotheses of Interfaces/Calmness.
use ssh_certificate_authorit.Common.{◌≡◌, some, Str, Calm, Calm->>=, Calm-if, ltb, length, arith}
use ssh_certificate_authorit.Text.Utf8.{as_bytes}
use ssh_certificate_authorit.FilePath.{FilePath, parent}
use ssh_certificate_authorit.Records.{Ca, UserList}
use ssh_certificate_authorit.Interfaces.{
  Files, Formats, CalmFiles, CalmFormats, read_to_string-Calm, read_toml_file-Calm,
}
use ssh_certificate_authorit.UserTemplates.{
  template_path, render_template, read_user_defaults, max_template_size,
}

module _ (config : Ca) {dir : FilePath} (has_parent : parent config.user_list_file ≡ some dir) where
  template_path-Calm : (user : Str) (l : UserList) → Calm (template_path user l config)
  unfolding template_path
  template_path-Calm user l = ground arith

module _ (fs : Files) (F : Formats) (cf : CalmFiles fs) (cF : CalmFormats F) where
  render_template-Calm : (user text : Str) → Calm (render_template fs F user text)
  unfolding render_template
  render_template-Calm user text =
      Calm->>= _ _ (cF.add_template F.new_environment user text)
        λ env. Calm->>= _ _ (cF.get_template env user) λ t. cF.render_user_name t user

  pub read_user_defaults-Calm :
      (user : Str) (config : Ca) {dir : FilePath}
      → parent config.user_list_file ≡ some dir
      → Calm (read_user_defaults fs F user config)
  unfolding read_user_defaults
  read_user_defaults-Calm user config p =
      Calm->>= _ _
        (read_toml_file-Calm fs cf F.user_list_from_str config.user_list_file cF.user_list_from_str)
        λ l. Calm->>= _ _ (template_path-Calm config p user l) λ path.
          Calm->>= _ _ (read_to_string-Calm fs cf path) λ text.
            Calm-if (ltb max_template_size (length (as_bytes text))) _ _ tt
              (Calm->>= _ _ (render_template-Calm user text) λ t. cF.user_defaults_from_str t)
