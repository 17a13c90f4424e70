-- ===== src/Config/Reading.antt =====
-- What a configuration that was read rests on.
use ssh_certificate_authorit.Common.{◌≡◌, sym, true, some, Str, ok, >>=-ok-then, arith, subst}
use ssh_certificate_authorit.FilePath.{FilePath, parent}
use ssh_certificate_authorit.Records.{Ca, Config}
use ssh_certificate_authorit.Interfaces.{Files, Formats, read_to_string}
use ssh_certificate_authorit.Config.{insert_config_path, check_paths, config_root_of, read_config}

module _ (fs : Files) (F : Formats) where
  config_root_of-eq-ok :
      (file_path : FilePath) {dir : FilePath}
      → config_root_of fs F file_path ≡ ok dir
      → (fs.path_exists file_path ≡ true) × (parent file_path ≡ some dir)
  unfolding config_root_of
  config_root_of-eq-ok file_path h = ground arith

  check_paths-eq-ok :
      (c : Ca) {u : Unit {0}} → check_paths fs F c ≡ ok u → fs.path_exists c.ca_key ≡ true
  unfolding check_paths
  check_paths-eq-ok c h = ground arith

  -- A configuration that is read is that of a file that exists and has a parent and whose text
  -- parses: the paths of its CA are resolved against that parent, the key of the CA is there, and
  -- the parts for the SSH server and the identity handlers are as they stand in the file.
  pub read_config-eq-ok :
      (file_path : FilePath) {c : Config}
      → read_config fs F file_path ≡ ok c
      → (config_root : FilePath) × (text : Str) × (parsed : Config) × (fs.path_exists file_path
          ≡ true)
        × (parent file_path ≡ some config_root)
        × (read_to_string fs file_path ≡ ok text)
        × (F.config_from_str text ≡ ok parsed)
        × (c ≡ record parsed { ca = insert_config_path config_root parsed.ca })
        × (fs.path_exists c.ca.ca_key ≡ true)
  unfolding read_config
  read_config-eq-ok file_path {c} h = >>=-ok-then (config_root_of fs F file_path) _ h λ dir hd k1.
      >>=-ok-then (read_to_string fs file_path) _ k1 λ text ht k2.
        >>=-ok-then (F.config_from_str text) _ k2 λ parsed hp k3.
          >>=-ok-then (check_paths fs F (insert_config_path dir parsed.ca)) _ k3 λ u hc k4.
            let (there, up) = config_root_of-eq-ok file_path hd in
            let made : record parsed { ca = insert_config_path dir parsed.ca } ≡ c = ground arith in
            (
              dir,
              text,
              parsed,
              there,
              up,
              ht,
              hp,
              sym made,
              subst (λ (x : Config). fs.path_exists x.ca.ca_key ≡ true) made
                  (check_paths-eq-ok (insert_config_path dir parsed.ca) hc),
            )
