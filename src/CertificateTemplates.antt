-- ===== src/CertificateTemplates.antt =====
-- src/certificat_authority/certificat_template_reader.rs, which no module of the crate names: a
-- template of a certificate's configuration, rendered with fixed values.
use ssh_certificate_authorit.Common.{
  ℕ, ◌*◌, ◌≤◌, ◌≡◌, ◌↔◌, List, [], ◌∷◌, ◌++◌, Str, Outcome, ok, err, foreign, ◌>>=◌, >>=-eq-ok,
  if◌then◌else◌, ltb, length, arith, false,
}
use ssh_certificate_authorit.Text.{codes}
use ssh_certificate_authorit.Text.Utf8.{as_bytes}
use ssh_certificate_authorit.FilePath.{FilePath}
use ssh_certificate_authorit.Interfaces.{Files, Formats, read_to_string}

abbrev pub max_template_size : ℕ
max_template_size = 64 * 1024

-- `key_id` is a `u64` and `validity_span_h` a `u32`; a map is a list of its pairs.
pub record CertificateConfig : Type 0 where
  pub cert_type : Str
  pub key_id : ℕ
  pub principals : List Str
  pub extensions : List (Str × Str)
  pub critical_options : List (Str × Str)
  pub validity_span_h : ℕ

-- The variables of the template.
pub record ConfigContext : Type 0 where
  pub key_id : ℕ
  pub principals : List Str
  pub critical_options : List (Str × Str)
  pub validity_span : ℕ

abbrev pub fixed_context : ConfigContext
fixed_context = record {
  key_id = 200;
  principals = codes "test" ∷ codes "list" ∷ [];
  critical_options = (codes "test", codes "map") ∷ [];
  validity_span = 24 * 30;
}

-- minijinja at these variables, toml at the struct, and `{:?}` of a string.
module _ (fs : Files) (F : Formats) (render : F.Template → ConfigContext → Outcome Str)
    (certificate_config_from_str : Str → Outcome CertificateConfig) (debug_str : Str → Str) where
  unfoldable pub read_certificate_config : FilePath → Outcome CertificateConfig
  read_certificate_config file_path = do
    config ← read_to_string fs file_path
    if ltb max_template_size (length (as_bytes config))
        then err (
            foreign (
              codes "certificate config template "
              ++ debug_str file_path
              ++ codes " exceeds maximum allowed size of 65536 bytes"))
        else do
          env ← F.add_template F.new_environment (codes "config") config
          tmpl ← F.get_template env (codes "config")
          json ← render tmpl fixed_context
          certificate_config_from_str json

  -- A configuration is read exactly if the file is there with at most 64 KiB, and is a template
  -- whose rendered text is the configuration.
  pub read_certificate_config_iff :
      (file_path : FilePath) (c : CertificateConfig)
      → (read_certificate_config file_path ≡ ok c) ↔ (
          (config : Str) × (env : F.Environment) × (tmpl : F.Template) × (json : Str)
          × (read_to_string fs file_path ≡ ok config)
          × (length (as_bytes config) ≤ 65536)
          × (F.add_template F.new_environment (codes "config") config ≡ ok env)
          × (F.get_template env (codes "config") ≡ ok tmpl)
          × (render tmpl fixed_context ≡ ok json)
          × (certificate_config_from_str json ≡ ok c))
  unfolding read_certificate_config
  read_certificate_config_iff file_path c = (
    λ h.
        let (config, r, rest) = >>=-eq-ok (read_to_string fs file_path) _ h in
        let small : ltb max_template_size (length (as_bytes config)) ≡ false = ground arith in
        let chain = rw small at rest in
        let (env, a, rest') = >>=-eq-ok _ _ chain in
        let (tmpl, g, rest'') = >>=-eq-ok _ _ rest' in
        let (json, j, parsed) = >>=-eq-ok _ _ rest'' in
        (config, env, tmpl, json, r, ground arith, a, g, j, parsed),
    λ h. ground arith,
  )
