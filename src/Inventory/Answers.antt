-- ===== src/Inventory/Answers.antt =====
-- How the search of the inventory by a key can end.
use ssh_certificate_authorit.Common.{
  ◌≡◌, ◌≢◌, refl, ◌⊎◌, inl, inr, Option, none, some, List, [], ◌∷◌, Str, Outcome, ok, err, panic,
  arith, Calm, Error,
}
use ssh_certificate_authorit.FilePath.{FilePath}
use ssh_certificate_authorit.Records.{Ca, HostConfig}
use ssh_certificate_authorit.Interfaces.{Files, SshKey, Formats}
use ssh_certificate_authorit.Inventory.{
  matches_key, check_config, check_file, search_files, glob_pattern, find_config_by_public_key,
}

module _ (K : SshKey) (fs : Files) (F : Formats) where
  check_file-never_err :
      (d : K.KeyData) (inventory file : FilePath) (e : Error)
      → check_file K fs F d inventory file ≢ err e
  unfolding check_file check_config matches_key
  check_file-never_err d inventory file e h = ground arith

  search_files-never_err :
      (d : K.KeyData) (inventory : FilePath) (files : List (Outcome FilePath)) (e : Error)
      → search_files K fs F d inventory files ≢ err e
  unfolding search_files
  search_files-never_err d inventory [] e h = cc
  search_files-never_err d inventory (err x ∷ files) e h =
      search_files-never_err d inventory files e h
  search_files-never_err d inventory (panic ∷ files) e h = cc
  search_files-never_err d inventory (ok file ∷ files) e h =
      ground
        (arith, check_file-never_err d inventory file e, search_files-never_err d inventory files e)

  find_config-eq-err :
      (public_key : Str) (config : Ca) (e : Error)
      → find_config_by_public_key K fs F public_key config ≡ err e
      → (key : K.PublicKey) × (dir : FilePath) × (files : List (Outcome FilePath)) × (K.from_openssh
            public_key
          ≡ ok key)
        × (fs.canonicalize config.host_inventory ≡ ok dir)
        × (fs.glob (glob_pattern K fs F dir) ≡ ok files)
        × (search_files K fs F (K.key_data key) dir files ≡ err e)
  unfolding find_config_by_public_key
  find_config-eq-err public_key config e h = ground arith

  -- A search that does not panic finds something or nothing.
  pub found_or_none :
      (public_key : Str) (config : Ca)
      → Calm (find_config_by_public_key K fs F public_key config)
      → (find_config_by_public_key K fs F public_key config ≡ ok none)
        ⊎ ((r : Str × HostConfig) × (find_config_by_public_key K fs F public_key config
              ≡ ok (some r)))
  found_or_none public_key config h = of (find_config_by_public_key K fs F public_key config) refl h
    where
      of :
          (m : Outcome (Option (Str × HostConfig)))
          → find_config_by_public_key K fs F public_key config ≡ m
          → Calm m
          → (m ≡ ok none) ⊎ ((r : Str × HostConfig) × (m ≡ ok (some r)))
      of (ok none) e c = inl refl
      of (ok (some r)) e c = inr (r, refl)
      of panic e c = absurd c
      of (err x) e c =
          let (key, dir, files, _, _, _, f) = find_config-eq-err public_key config x e in
          absurd (search_files-never_err (K.key_data key) dir files x f)
