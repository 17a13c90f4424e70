-- ===== src/Inventory/Steady.antt =====
-- The inventory is read and searched without a panic, under the hypotheses of
-- Interfaces/Calmness, that of a well-formed pattern for the glob among them.
use ssh_certificate_authorit.Common.{
  ◌≡◌, ◌≢◌, refl, Option, none, List, [], ◌∷◌, Str, Outcome, ok, err, panic, All, Calm, Calm->>=,
  Calm-if, Calm-map_err, arith,
}
use ssh_certificate_authorit.FilePath.{FilePath, path_starts_with, file_stem, push}
use ssh_certificate_authorit.Records.{Ca, HostConfig}
use ssh_certificate_authorit.Interfaces.{
  Files, SshKey, Formats, CalmKeys, CalmFiles, CalmFormats, Listed, read_toml_file-Calm,
}
use ssh_certificate_authorit.Inventory.{
  ensure_path_within_directory, toml_name, read_host_config, matches_key, check_config, check_file,
  search_files, find_config_by_public_key,
}

-- An error is no match, and a value is looked at further.
or_none-Calm :
    {A B : Type 0} (m : Outcome A) (next : A → Outcome (Option B))
    → Calm m
    → ((a : A) → m ≡ ok a → Calm (next a))
    → Calm (elim m as (λ _. Outcome (Option B)) [ panic ↦ panic | err e ↦ ok none | ok a ↦ next a ])
or_none-Calm (ok a) next h k = k a refl
or_none-Calm (err e) next h k = tt
or_none-Calm panic next h k = h

module _ (fs : Files) (F : Formats) (cf : CalmFiles fs) (cF : CalmFormats F) where
  ensure_path-Calm :
      (candidate base : FilePath) → Calm (ensure_path_within_directory fs candidate base)
  unfolding ensure_path_within_directory
  ensure_path-Calm candidate base = Calm->>= _ _ (Calm-map_err _ _ (cf.canonicalize base)) λ b.
      Calm->>= _ _ (Calm-map_err _ _ (cf.canonicalize candidate))
        λ c. Calm-if (path_starts_with c b) _ _ tt tt

  pub read_host_config-Calm :
      (host_name : Str) (config : Ca) → Calm (read_host_config fs F host_name config)
  unfolding read_host_config
  read_host_config-Calm host_name config =
      Calm->>= _ _
        (ensure_path-Calm (push config.host_inventory (toml_name host_name)) config.host_inventory)
        λ path. read_toml_file-Calm fs cf F.host_config_from_str path cF.host_config_from_str

  module _ (K : SshKey) (ck : CalmKeys K) where
    matches_key-Calm : (k : K.KeyData) (c : HostConfig) → Calm (matches_key K fs F k c)
    unfolding matches_key
    matches_key-Calm k c = ground (arith, ck.from_openssh c.public_key)

    check_config-Calm :
        (k : K.KeyData) (file : FilePath) (c : HostConfig)
        → file_stem file ≢ none
        → Calm (check_config K fs F k file c)
    unfolding check_config
    check_config-Calm k file c n = Calm->>= _ _ (matches_key-Calm k c) λ found. ground arith

    check_file-Calm :
        (k : K.KeyData) (dir file : FilePath)
        → file_stem file ≢ none
        → Calm (check_file K fs F k dir file)
    unfolding check_file
    check_file-Calm k dir file n =
        or_none-Calm (fs.canonicalize file) _ (cf.canonicalize file) λ path e.
          Calm-if (path_starts_with path dir) _ _
            (or_none-Calm _ _
              (read_toml_file-Calm fs cf F.host_config_from_str file cF.host_config_from_str)
              (λ c e'. check_config-Calm k file c n))
            tt

    search_files-Calm :
        (k : K.KeyData) (dir : FilePath) (files : List (Outcome FilePath))
        → All Listed files
        → Calm (search_files K fs F k dir files)
    unfolding search_files
    search_files-Calm k dir [] h = tt
    search_files-Calm k dir (ok file ∷ files) h =
        ground (arith, check_file-Calm k dir file h.0, search_files-Calm k dir files h.1)
    search_files-Calm k dir (err e ∷ files) h = search_files-Calm k dir files h.1
    search_files-Calm k dir (panic ∷ files) h = absurd h.0

    pub find_config-Calm :
        (public_key : Str) (config : Ca) → Calm (find_config_by_public_key K fs F public_key config)
    unfolding find_config_by_public_key
    find_config-Calm public_key config =
        or_none-Calm (K.from_openssh public_key) _ (ck.from_openssh public_key) λ key e.
          or_none-Calm (fs.canonicalize config.host_inventory) _
            (cf.canonicalize config.host_inventory)
            λ dir e'.
              let (files, g, l) = cf.glob config.host_inventory dir e' in
              ground (arith, g, search_files-Calm (K.key_data key) dir files l)
