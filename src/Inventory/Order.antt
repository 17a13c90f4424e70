-- ===== src/Inventory/Order.antt =====
-- `find_config_by_public_key`, and the order of the glob.
use ssh_certificate_authorit.Common.{
  ◌≡◌, ◌≢◌, refl, sym, ap, ap₂, subst, ◌∙◌, inl, inr, ◌↔◌, none, some, List, [], ◌∷◌, ◌++◌, Str,
  Outcome, ok, All, Calm, Memᴰ,
}
use ssh_certificate_authorit.FilePath.{FilePath}
use ssh_certificate_authorit.Records.{Ca, HostConfig}
use ssh_certificate_authorit.Interfaces.{Files, SshKey, Formats, read_toml_file}
use ssh_certificate_authorit.Inventory.Answers.{found_or_none}
use ssh_certificate_authorit.Inventory.{glob_pattern, find_config_by_public_key}
use ssh_certificate_authorit.Inventory.Search.{
  IsMatch, IsPassed, find_config-IsFirst, find_config-none,
}

-- The file system with other results of glob.
abbrev pub relisted : Files → (Str → Outcome (List (Outcome FilePath))) → Files
relisted fs glob = record fs { glob = glob }

-- The two lists have the same members, whatever their order.
abbrev pub SameMembers : (xs ys : List (Outcome FilePath)) → Type 0
SameMembers xs ys = (o : Outcome FilePath) → Memᴰ o xs ↔ Memᴰ o ys

All-at {ℓ κ} : {A : Type ℓ} (P : A → Type κ) {x : A} (xs : List A) → All P xs → Memᴰ x xs → P x
All-at P [] h m = elim m [ ]
All-at P (y ∷ ys) h (Memᴰ.head e) = subst P (sym e) h.0
All-at P (y ∷ ys) h (Memᴰ.tail m) = All-at P ys h.1 m

Memᴰ-middle {ℓ} : {A : Type ℓ} {x : A} (xs ys : List A) → Memᴰ x (xs ++ x ∷ ys)
Memᴰ-middle [] ys = Memᴰ.head refl
Memᴰ-middle (z ∷ xs) ys = Memᴰ.tail (Memᴰ-middle xs ys)

module _ (K : SshKey) (fs : Files) (F : Formats) where
  -- The files of the list that are usable and have the key agree on the host and what it has.
  abbrev pub Unambiguous : K.KeyData → FilePath → List (Outcome FilePath) → Type 0
  Unambiguous d inventory files =
      (file file' : FilePath) (stem stem' : Str) (c c' : HostConfig)
      → Memᴰ (ok file) files
      → Memᴰ (ok file') files
      → IsMatch K fs F d inventory file stem c
      → IsMatch K fs F d inventory file' stem' c'
      → (stem ≡ stem') × (c ≡ c')

  -- What is found for the key in the files of the inventory.
  abbrev pub Held : Str → Ca → K.PublicKey → FilePath → List (Outcome FilePath) → Type 0
  Held public_key config key dir files =
      (K.from_openssh public_key ≡ ok key)
      × (fs.canonicalize config.host_inventory ≡ ok dir)
      × (fs.glob (glob_pattern K fs F dir) ≡ ok files)

  -- A file of the list is the match that was found.
  found_in_list :
      (public_key : Str) (config : Ca) {key : K.PublicKey} {dir : FilePath}
      {files : List (Outcome FilePath)} {r : Str × HostConfig}
      → Held public_key config key dir files
      → find_config_by_public_key K fs F public_key config ≡ ok (some r)
      → (file : FilePath) × Memᴰ (ok file) files × IsMatch K fs F (K.key_data key) dir file r.0 r.1
  found_in_list public_key config {key} {dir} {files} {r} (k, d, g) h =
      let (key', dir', files', k', d', g', i) = find_config-IsFirst K fs F public_key config h in
      let ek : key' ≡ key = cc (k, k') in
      let ed : dir' ≡ dir = cc (d, d') in
      let ef : i.before ++ ok i.file ∷ i.after ≡ files = cc (g, g', ed, i.parted) in
      (
        i.file,
        subst (Memᴰ (ok i.file)) ef (Memᴰ-middle i.before i.after),
        subst (λ x. IsMatch K fs F (K.key_data x) dir i.file r.0 r.1) ek
            (subst (λ x. IsMatch K fs F (K.key_data key') x i.file r.0 r.1) ed i.is_match),
      )

  -- No file of the list is a match.
  none_in_list :
      (public_key : Str) (config : Ca) {key : K.PublicKey} {dir : FilePath}
      {files : List (Outcome FilePath)} {file : FilePath} {stem : Str} {c : HostConfig}
      → Held public_key config key dir files
      → find_config_by_public_key K fs F public_key config ≡ ok none
      → Memᴰ (ok file) files
      → IsMatch K fs F (K.key_data key) dir file stem c
      → ⊥
  none_in_list public_key config {key} {dir} {files} {file} {stem} {c} (k, d, g) h m =
      let (files', g', p) = find_config-none K fs F public_key config key dir h k d in
      let ef : files ≡ files' = cc (g, g') in
      All-at (IsPassed K fs F (K.key_data key) dir) files' p (subst (Memᴰ (ok file)) ef m) stem c

module _ (K : SshKey) (F : Formats) where
  -- A match in one of two file systems that differ in their globs is a match in the other.
  IsMatch-relisted :
      (fs : Files) (glob : Str → Outcome (List (Outcome FilePath))) (d : K.KeyData)
      (dir file : FilePath) {stem : Str} {c : HostConfig}
      → IsMatch K fs F d dir file stem c
      → IsMatch K (relisted fs glob) F d dir file stem c
  unfolding read_toml_file
  IsMatch-relisted fs glob d dir file m = record {
    canonical = m.canonical;
    file_canonical = m.file_canonical;
    inside = m.inside;
    read = m.read;
    configured = m.configured;
    parsed = m.parsed;
    same_key = m.same_key;
    named = m.named;
  }

  -- What is found with the one is not missed with the other.
  found_and_missed :
      (fs : Files) (glob : Str → Outcome (List (Outcome FilePath))) (public_key : Str) (config : Ca)
      {key : K.PublicKey} {dir : FilePath} {files files' : List (Outcome FilePath)}
      {r : Str × HostConfig}
      → Held K fs F public_key config key dir files
      → Held K (relisted fs glob) F public_key config key dir files'
      → ((o : Outcome FilePath) → Memᴰ o files → Memᴰ o files')
      → find_config_by_public_key K fs F public_key config ≡ ok (some r)
      → find_config_by_public_key K (relisted fs glob) F public_key config ≢ ok none
  found_and_missed fs glob public_key config {key} {dir} held held' sub e e' =
      let (file, m, i) = found_in_list K fs F public_key config held e in
      none_in_list K (relisted fs glob) F public_key config held' e' (sub (ok file) m)
        (IsMatch-relisted fs glob (K.key_data key) dir file i)

  -- What is found with the one is what is found with the other.
  found_agrees :
      (fs : Files) (glob : Str → Outcome (List (Outcome FilePath))) (public_key : Str) (config : Ca)
      {key : K.PublicKey} {dir : FilePath} {files files' : List (Outcome FilePath)}
      {r r' : Str × HostConfig}
      → Held K fs F public_key config key dir files
      → Held K (relisted fs glob) F public_key config key dir files'
      → ((o : Outcome FilePath) → Memᴰ o files' → Memᴰ o files)
      → Unambiguous K fs F (K.key_data key) dir files
      → find_config_by_public_key K fs F public_key config ≡ ok (some r)
      → find_config_by_public_key K (relisted fs glob) F public_key config ≡ ok (some r')
      → r' ≡ r
  found_agrees fs glob public_key config {key} {dir} {r = r} {r' = r'} held held' sub one e e' =
      let (file, m, i) = found_in_list K fs F public_key config held e in
      let (file', m', i') = found_in_list K (relisted fs glob) F public_key config held' e' in
      let back = IsMatch-relisted (relisted fs glob) fs.glob (K.key_data key) dir file' i' in
      let (a, b) = one file' file r'.0 r.0 r'.1 r.1 (sub (ok file') m') m back i in
      ap₂ (λ x y. (x, y)) a b

  -- When the files of the inventory that are usable and have the key agree on the host and its
  -- configuration, then with a glob that gives the same entries in any other order the answer is
  -- the same, if neither search panics.
  pub find_config-relisted :
      (fs : Files) (glob : Str → Outcome (List (Outcome FilePath))) (public_key : Str) (config : Ca)
      {key : K.PublicKey} {dir : FilePath} {files files' : List (Outcome FilePath)}
      → Held K fs F public_key config key dir files
      → glob (glob_pattern K fs F dir) ≡ ok files'
      → SameMembers files files'
      → Unambiguous K fs F (K.key_data key) dir files
      → Calm (find_config_by_public_key K fs F public_key config)
      → Calm (find_config_by_public_key K (relisted fs glob) F public_key config)
      → find_config_by_public_key K (relisted fs glob) F public_key config
        ≡ find_config_by_public_key K fs F public_key config
  unfolding glob_pattern
  find_config-relisted fs glob public_key config {key} {dir} {files} {files'} held g same one calm
        calm' =
      let held' : Held K (relisted fs glob) F public_key config key dir files' =
        (held.0, held.1, g) in
      elim (found_or_none K fs F public_key config calm) [
        | inl e ↦ elim (found_or_none K (relisted fs glob) F public_key config calm') [
          | inl e' ↦ e' ∙ sym e
          | inr (r', e') ↦ absurd (
              found_and_missed (relisted fs glob) fs.glob public_key config held' held
                (λ o. (same o).1) e' e)
        ]
        | inr (r, e) ↦ elim (found_or_none K (relisted fs glob) F public_key config calm') [
          | inl e' ↦
              absurd (found_and_missed fs glob public_key config held held' (λ o. (same o).0) e e')
          | inr (r', e') ↦
              e'
              ∙ ap (λ x. ok (some x))
                  (found_agrees fs glob public_key config held held' (λ o. (same o).1) one e e')
              ∙ sym e
        ]
      ]
