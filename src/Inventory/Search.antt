-- ===== src/Inventory/Search.antt =====
-- `find_config_by_public_key` finds the first usable configuration with the key, within the
-- inventory.
use ssh_certificate_authorit.Common.{
  ◌≡◌, refl, true, Option, none, some, List, [], ◌∷◌, ◌++◌, Str, Outcome, ok, err, panic, arith, ap,
  ◌∙◌, subst, All,
}
use ssh_certificate_authorit.FilePath.{FilePath, path_starts_with, file_stem}
use ssh_certificate_authorit.Records.{Ca, HostConfig}
use ssh_certificate_authorit.Interfaces.{Files, SshKey, Formats, read_toml_file}
use ssh_certificate_authorit.Inventory.{
  matches_key, check_config, check_file, search_files, glob_pattern, find_config_by_public_key,
}

module _ (K : SshKey) (fs : Files) (F : Formats) where
  open K use {KeyData}

  -- The configuration of `file` is usable and has the key, and `stem` is the file's name.
  pub record IsMatch (search_data : KeyData) (inventory file : FilePath) (stem : Str)
      (c : HostConfig) : Type 0 where
    pub canonical : FilePath
    pub file_canonical : fs.canonicalize file ≡ ok canonical
    pub inside : path_starts_with canonical inventory ≡ true
    pub read : read_toml_file fs F.host_config_from_str file ≡ ok c
    pub configured : K.PublicKey
    pub parsed : K.from_openssh c.public_key ≡ ok configured
    pub same_key : K.same_data (K.key_data configured) search_data ≡ true
    pub named : file_stem file ≡ some stem

  check_config-eq-some :
      (d : KeyData) (file : FilePath) (c : HostConfig) {r : Str × HostConfig}
      → check_config K fs F d file c ≡ ok (some r)
      → (k : K.PublicKey) × (K.from_openssh c.public_key ≡ ok k)
        × (K.same_data (K.key_data k) d ≡ true)
        × (file_stem file ≡ some r.0)
        × (c ≡ r.1)
  unfolding check_config matches_key
  check_config-eq-some d file c h = ground arith

  check_file-eq-some :
      (d : KeyData) (inventory file : FilePath) {r : Str × HostConfig}
      → check_file K fs F d inventory file ≡ ok (some r)
      → (p : FilePath) × (c : HostConfig) × (fs.canonicalize file ≡ ok p)
        × (path_starts_with p inventory ≡ true)
        × (read_toml_file fs F.host_config_from_str file ≡ ok c)
        × (check_config K fs F d file c ≡ ok (some r))
  unfolding check_file
  check_file-eq-some d inventory file h = ground arith

  check_file-IsMatch :
      (d : KeyData) (inventory file : FilePath) {r : Str × HostConfig}
      → check_file K fs F d inventory file ≡ ok (some r)
      → IsMatch d inventory file r.0 r.1
  check_file-IsMatch d inventory file h =
      let (p, c, canon, inside, read, found) = check_file-eq-some d inventory file h in
      let (k, parsed, same, named, e) = check_config-eq-some d file c found in
      record {
        canonical = p;
        file_canonical = canon;
        inside = inside;
        read = read ∙ ap ok e;
        configured = k;
        parsed = subst (λ (x : HostConfig). K.from_openssh x.public_key ≡ ok k) e parsed;
        same_key = same;
        named = named;
      }

  check_file-of_IsMatch :
      (d : KeyData) (inventory file : FilePath) (stem : Str) (c : HostConfig)
      → IsMatch d inventory file stem c
      → check_file K fs F d inventory file ≡ ok (some (stem, c))
  unfolding check_file check_config matches_key
  check_file-of_IsMatch d inventory file stem c m = ground arith

  -- No configuration that is usable and has the key is there.
  abbrev pub IsPassed : KeyData → FilePath → Outcome FilePath → Type 0
  IsPassed d inventory (ok file) =
      (stem : Str) (c : HostConfig) → IsMatch d inventory file stem c → ⊥
  IsPassed d inventory (err e) = Unit
  IsPassed d inventory panic = ⊥

  -- The first match at which the search stops.
  pub record IsFirst (d : KeyData) (inventory : FilePath) (files : List (Outcome FilePath))
      (r : Str × HostConfig) : Type 0 where
    pub before : List (Outcome FilePath)
    pub file : FilePath
    pub after : List (Outcome FilePath)
    pub parted : files ≡ before ++ ok file ∷ after
    pub passed : All (IsPassed d inventory) before
    pub is_match : IsMatch d inventory file r.0 r.1

  none-IsPassed :
      (d : KeyData) (inventory file : FilePath)
      → check_file K fs F d inventory file ≡ ok none
      → IsPassed d inventory (ok file)
  none-IsPassed d inventory file e stem c m =
      cc (e, check_file-of_IsMatch d inventory file stem c m)

  one_more :
      (d : KeyData) (inventory : FilePath) (o : Outcome FilePath) (files : List (Outcome FilePath))
      {r : Str × HostConfig}
      → IsPassed d inventory o
      → IsFirst d inventory files r
      → IsFirst d inventory (o ∷ files) r
  one_more d inventory o files p i = record {
    before = o ∷ i.before;
    file = i.file;
    after = i.after;
    parted = ap (λ l. o ∷ l) i.parted;
    passed = (p, i.passed);
    is_match = i.is_match;
  }

  -- What is found is the first match that is not passed over.
  search_files-IsFirst :
      (d : KeyData) (inventory : FilePath) (files : List (Outcome FilePath)) {r : Str × HostConfig}
      → search_files K fs F d inventory files ≡ ok (some r)
      → IsFirst d inventory files r
  unfolding search_files
  search_files-IsFirst d inventory [] h = cc
  search_files-IsFirst d inventory (err e ∷ files) h =
      one_more d inventory (err e) files tt (search_files-IsFirst d inventory files h)
  search_files-IsFirst d inventory (panic ∷ files) h = cc
  search_files-IsFirst d inventory (ok file ∷ files) {r} h =
      at_file (check_file K fs F d inventory file) refl h (search_files-IsFirst d inventory files)
    where
      at_file :
          (m : Outcome (Option (Str × HostConfig)))
          → check_file K fs F d inventory file ≡ m
          → (elim m [
            | panic ↦ panic
            | err e ↦ err e
            | ok (some found) ↦ ok (some found)
            | ok none ↦ search_files K fs F d inventory files
          ])
            ≡ ok (some r)
          → (search_files K fs F d inventory files ≡ ok (some r) → IsFirst d inventory files r)
          → IsFirst d inventory (ok file ∷ files) r
      at_file (ok none) e h ih =
          one_more d inventory (ok file) files (none-IsPassed d inventory file e) (ih h)
      at_file (ok (some x)) e h ih = record {
        before = [];
        file = file;
        after = files;
        parted = refl;
        passed = tt;
        is_match = check_file-IsMatch d inventory file (e ∙ h);
      }
      at_file (err x) e h ih = cc
      at_file panic e h ih = cc

  -- A host that is found by a key is named by the first file, in the order of the glob over the
  -- canonical inventory, that resolves to a path within the inventory, can be read, and has a key
  -- with the same key data; every file before it fails one of these or is an error of the glob.
  pub find_config-IsFirst :
      (public_key : Str) (config : Ca) {r : Str × HostConfig}
      → find_config_by_public_key K fs F public_key config ≡ ok (some r)
      → (key : K.PublicKey) × (inventory : FilePath) × (files : List (Outcome FilePath))
        × (K.from_openssh public_key ≡ ok key)
        × (fs.canonicalize config.host_inventory ≡ ok inventory)
        × (fs.glob (glob_pattern K fs F inventory) ≡ ok files)
        × IsFirst (K.key_data key) inventory files r
  unfolding find_config_by_public_key
  find_config-IsFirst public_key config {r} h =
      let (key, inventory, files, e1, e2, e3, s) = find-parts public_key config h in
      (key, inventory, files, e1, e2, e3, search_files-IsFirst (K.key_data key) inventory files s)
    where
      find-parts :
          (public_key : Str) (config : Ca)
          → find_config_by_public_key K fs F public_key config ≡ ok (some r)
          → (key : K.PublicKey) × (inventory : FilePath) × (files : List (Outcome FilePath))
            × (K.from_openssh public_key ≡ ok key)
            × (fs.canonicalize config.host_inventory ≡ ok inventory)
            × (fs.glob (glob_pattern K fs F inventory) ≡ ok files)
            × (search_files K fs F (K.key_data key) inventory files ≡ ok (some r))
      find-parts public_key config h = ground arith

  search_files-none :
      (d : KeyData) (inventory : FilePath) (files : List (Outcome FilePath))
      → search_files K fs F d inventory files ≡ ok none
      → All (IsPassed d inventory) files
  unfolding search_files
  search_files-none d inventory [] h = tt
  search_files-none d inventory (err e ∷ files) h = (tt, search_files-none d inventory files h)
  search_files-none d inventory (panic ∷ files) h = cc
  search_files-none d inventory (ok file ∷ files) h = (
    none-IsPassed d inventory file (ground arith),
    search_files-none d inventory files (ground arith),
  )

  -- When no host is found for a key that can be read, in an inventory that can be resolved, then
  -- the glob gives its files, and none of them resolves to a path within the inventory, can be
  -- read, has a key with the same key data, and has a file name.
  pub find_config-none :
      (public_key : Str) (config : Ca) (key : K.PublicKey) (inventory : FilePath)
      → find_config_by_public_key K fs F public_key config ≡ ok none
      → K.from_openssh public_key ≡ ok key
      → fs.canonicalize config.host_inventory ≡ ok inventory
      → (files : List (Outcome FilePath)) × (fs.glob (glob_pattern K fs F inventory) ≡ ok files)
        × All (IsPassed (K.key_data key) inventory) files
  unfolding find_config_by_public_key
  find_config-none public_key config key inventory h e1 e2 =
      let (files, e3, s) = find-files public_key config key inventory h e1 e2 in
      (files, e3, search_files-none (K.key_data key) inventory files s)
    where
      find-files :
          (public_key : Str) (config : Ca) (key : K.PublicKey) (inventory : FilePath)
          → find_config_by_public_key K fs F public_key config ≡ ok none
          → K.from_openssh public_key ≡ ok key
          → fs.canonicalize config.host_inventory ≡ ok inventory
          → (files : List (Outcome FilePath)) × (fs.glob (glob_pattern K fs F inventory) ≡ ok files)
            × (search_files K fs F (K.key_data key) inventory files ≡ ok none)
      find-files public_key config key inventory h e1 e2 = ground arith
