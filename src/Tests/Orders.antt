-- ===== src/Tests/Orders.antt =====
-- A witness about the order of the glob: web is found whatever the order of the two hosts.
use ssh_certificate_authorit.Common.{
  true, ◌==◌, ◌≡◌, refl, subst, sym, ◌∙◌, some, List, [], ◌∷◌, Str, Outcome, ok, err, foreign, Memᴰ,
}
use ssh_certificate_authorit.Text.{codes, str_eq}
use ssh_certificate_authorit.Text.Utf8.{from_utf8}
use ssh_certificate_authorit.FilePath.{FilePath, file_stem, path_starts_with}
use ssh_certificate_authorit.Records.{HostConfig}
use ssh_certificate_authorit.Interfaces.{read_toml_file}
use ssh_certificate_authorit.Inventory.{find_config_by_public_key}
use ssh_certificate_authorit.Inventory.Search.{IsMatch}
use ssh_certificate_authorit.Inventory.Order.{
  relisted, SameMembers, Unambiguous, find_config-relisted,
}
use ssh_certificate_authorit.Tests.Toy.{keys}
use ssh_certificate_authorit.Tests.World.{
  files, formats, settings, hosts, web_file, db_file, web_config,
}

abbrev listed : List (Outcome FilePath)
listed = err (foreign (codes "unreadable")) ∷ ok db_file ∷ ok web_file ∷ []

abbrev reversed : List (Outcome FilePath)
reversed = ok web_file ∷ ok db_file ∷ err (foreign (codes "unreadable")) ∷ []

same_files : SameMembers listed reversed
same_files o = (there, back)
  where
    there : Memᴰ o listed → Memᴰ o reversed
    there (Memᴰ.head e) = Memᴰ.tail (Memᴰ.tail (Memᴰ.head e))
    there (Memᴰ.tail (Memᴰ.head e)) = Memᴰ.tail (Memᴰ.head e)
    there (Memᴰ.tail (Memᴰ.tail (Memᴰ.head e))) = Memᴰ.head e
    there (Memᴰ.tail (Memᴰ.tail (Memᴰ.tail m))) = elim m [ ]

    back : Memᴰ o reversed → Memᴰ o listed
    back (Memᴰ.head e) = Memᴰ.tail (Memᴰ.tail (Memᴰ.head e))
    back (Memᴰ.tail (Memᴰ.head e)) = Memᴰ.tail (Memᴰ.head e)
    back (Memᴰ.tail (Memᴰ.tail (Memᴰ.head e))) = Memᴰ.head e
    back (Memᴰ.tail (Memᴰ.tail (Memᴰ.tail m))) = elim m [ ]

the_file : {file file' : FilePath} → ok file ≡ ok file' → file ≡ file'
the_file e = cc

db_match : {stem : Str} {c : HostConfig} → IsMatch keys files formats b'W' hosts db_file stem c → ⊥
unfolding read_toml_file from_utf8 str_eq
db_match {c = c} m =
    let e : ok (record web_config { public_key = codes "D" }) ≡ ok c = m.read in
    let f : record web_config { public_key = codes "D" } ≡ c = cc in
    let p : ok b'D' ≡ ok m.configured =
      subst (λ (x : HostConfig). keys.from_openssh x.public_key ≡ ok m.configured) (sym f)
        m.parsed in
    let q : b'D' ≡ m.configured = cc in
    let t : (b'D' == b'W') ≡ true = subst (λ k. (k == b'W') ≡ true) (sym q) m.same_key in cc

web_match :
    {stem : Str} {c : HostConfig}
    → IsMatch keys files formats b'W' hosts web_file stem c
    → (codes "web" ≡ stem) × (web_config ≡ c)
unfolding read_toml_file from_utf8 str_eq file_stem
web_match {stem} {c} m =
    let n : some (codes "web") ≡ some stem = m.named in
    let e : ok web_config ≡ ok c = m.read in (cc, cc)

-- A match in the list is web's.
web_in_list :
    {file : FilePath} {stem : Str} {c : HostConfig}
    → Memᴰ (ok file) listed
    → IsMatch keys files formats b'W' hosts file stem c
    → (codes "web" ≡ stem) × (web_config ≡ c)
web_in_list {file} {stem} {c} (Memᴰ.head e) i = cc
web_in_list {file} {stem} {c} (Memᴰ.tail (Memᴰ.head e)) i =
    absurd (db_match (subst (λ f. IsMatch keys files formats b'W' hosts f stem c) (the_file e) i))
web_in_list {file} {stem} {c} (Memᴰ.tail (Memᴰ.tail (Memᴰ.head e))) i =
    web_match (subst (λ f. IsMatch keys files formats b'W' hosts f stem c) (the_file e) i)
web_in_list {file} {stem} {c} (Memᴰ.tail (Memᴰ.tail (Memᴰ.tail m))) i = elim m [ ]

hosts-Unambiguous : Unambiguous keys files formats b'W' hosts listed
hosts-Unambiguous file file' stem stem' c c' m m' i i' =
    let (a, b) = web_in_list m i in let (a', b') = web_in_list m' i' in (sym a ∙ a', sym b ∙ b')

find_config-relisted_example :
    find_config_by_public_key keys (relisted files (λ _. ok reversed)) formats (codes "W") settings
    ≡ find_config_by_public_key keys files formats (codes "W") settings
unfolding find_config_by_public_key path_starts_with read_toml_file from_utf8 file_stem
find_config-relisted_example =
    find_config-relisted keys formats files (λ _. ok reversed) (codes "W") settings
      (refl, refl, refl) refl same_files hosts-Unambiguous tt tt
