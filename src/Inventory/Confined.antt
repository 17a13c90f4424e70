-- ===== src/Inventory/Confined.antt =====
-- Host configurations are read from within the inventory.
use ssh_certificate_authorit.Common.{
  ◌≡◌, refl, Bool, true, false, Str, Outcome, ok, err, panic, >>=-ok-then, map_err, Error,
  if◌then◌else◌, arith, ap, ◌∙◌, subst, inventory_unresolved, host_path_unresolved, path_traversal,
}
use ssh_certificate_authorit.Errors.{to_string}
use ssh_certificate_authorit.FilePath.{FilePath, path_starts_with, push}
use ssh_certificate_authorit.Records.{Ca, HostConfig}
use ssh_certificate_authorit.Interfaces.{Files, Formats, read_toml_file}
use ssh_certificate_authorit.Inventory.{ensure_path_within_directory, toml_name, read_host_config}

-- `path` is what `candidate` stands for, and lies in what `base_dir` stands for.
pub record IsWithin (fs : Files) (candidate base_dir path : FilePath) : Type 0 where
  pub base : FilePath
  pub base_canonical : fs.canonicalize base_dir ≡ ok base
  pub path_canonical : fs.canonicalize candidate ≡ ok path
  pub inside : path_starts_with path base ≡ true

pub map_err-eq-ok {ℓ} :
    {A : Type ℓ} (f : Error → Error) (m : Outcome A) {a : A} → map_err f m ≡ ok a → m ≡ ok a
map_err-eq-ok f (ok x) h = h
map_err-eq-ok f (err e) h = cc
map_err-eq-ok f panic h = h

if-eq-ok :
    (b : Bool) (p : FilePath) (e : Error) {q : FilePath}
    → (if b then ok p else err e) ≡ ok q
    → (b ≡ true) × (p ≡ q)
if-eq-ok true p e h = (refl, ground arith)
if-eq-ok false p e h = cc

-- A path that is let through is the canonical candidate, inside the canonical directory.
ensure-IsWithin :
    (fs : Files) (candidate base_dir : FilePath) {path : FilePath}
    → ensure_path_within_directory fs candidate base_dir ≡ ok path
    → IsWithin fs candidate base_dir path
unfolding ensure_path_within_directory
ensure-IsWithin fs candidate base_dir h =
    >>=-ok-then (map_err (λ e. inventory_unresolved (to_string e)) (fs.canonicalize base_dir)) _ h
      λ base h1 k1.
        >>=-ok-then (map_err (λ e. host_path_unresolved (to_string e)) (fs.canonicalize candidate))
          _ k1
          λ c h2 k2.
            let (inside, same) = if-eq-ok (path_starts_with c base) c path_traversal k2 in
            record {
              base = base;
              base_canonical = map_err-eq-ok _ (fs.canonicalize base_dir) h1;
              path_canonical = map_err-eq-ok _ (fs.canonicalize candidate) h2 ∙ ap ok same;
              inside = subst (λ p. path_starts_with p base ≡ true) same inside;
            }

-- A host configuration that is read is the text of a file whose path is the canonical one of
-- `<inventory>/<host_name>.toml` and lies within the canonical path of the inventory.
pub read_host_config_confined :
    (fs : Files) (F : Formats) (host_name : Str) (config : Ca) {c : HostConfig}
    → read_host_config fs F host_name config ≡ ok c
    → (path : FilePath) × IsWithin fs
        (push config.host_inventory (toml_name host_name))
        config.host_inventory
        path
      × (read_toml_file fs F.host_config_from_str path ≡ ok c)
unfolding read_host_config
read_host_config_confined fs F host_name config h =
    >>=-ok-then
      (ensure_path_within_directory fs (push config.host_inventory (toml_name host_name))
        config.host_inventory)
      _ h λ path inside read. (path, ensure-IsWithin fs _ config.host_inventory inside, read)
