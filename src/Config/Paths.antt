-- ===== src/Config/Paths.antt =====
-- The paths of the CA's configuration after `insert_config_path`.
use ssh_certificate_authorit.Common.{◌≡◌, refl, true, [], ◌∷◌, arith}
use ssh_certificate_authorit.FilePath.{FilePath, has_root, push}
use ssh_certificate_authorit.Records.{Ca}
use ssh_certificate_authorit.Config.{insert_root, insert_config_path}

pub push-has_root : (root path : FilePath) → has_root root ≡ true → has_root (push root path) ≡ true
unfolding push
push-has_root [] path h = cc
push-has_root (c ∷ root) path h = ground (arith)

insert_root-has_root :
    (root path : FilePath) → has_root root ≡ true → has_root (insert_root root path) ≡ true
insert_root-has_root root path h = ground (arith, push-has_root root path h)

insert_root-rooted : (root path : FilePath) → has_root path ≡ true → insert_root root path ≡ path
insert_root-rooted root path h = ground arith

-- Every path of the configuration has a root.
pub record IsRooted (c : Ca) : Type 0 where
  pub user_list_file : has_root c.user_list_file ≡ true
  pub default_user_template : has_root c.default_user_template ≡ true
  pub host_inventory : has_root c.host_inventory ≡ true
  pub ca_key : has_root c.ca_key ≡ true

insert_config_path-IsRooted :
    (root : FilePath) (c : Ca) → has_root root ≡ true → IsRooted (insert_config_path root c)
unfolding insert_config_path
insert_config_path-IsRooted root c h = record {
  user_list_file = insert_root-has_root root c.user_list_file h;
  default_user_template = insert_root-has_root root c.default_user_template h;
  host_inventory = insert_root-has_root root c.host_inventory h;
  ca_key = insert_root-has_root root c.ca_key h;
}

insert_config_path-of_IsRooted :
    (root : FilePath) (c : Ca) → IsRooted c → insert_config_path root c ≡ c
unfolding insert_config_path
insert_config_path-of_IsRooted root c r =
    rw
      (
        insert_root-rooted root c.user_list_file r.user_list_file,
        insert_root-rooted root c.default_user_template r.default_user_template,
        insert_root-rooted root c.host_inventory r.host_inventory,
        insert_root-rooted root c.ca_key r.ca_key,
      )
      refl

-- With a root that is absolute, every path of the CA's configuration is absolute afterwards, and
-- doing it again, with whatever root, changes nothing.
pub insert_config_path_lem :
    (root other : FilePath) (c : Ca)
    → has_root root ≡ true
    → IsRooted (insert_config_path root c)
      × (insert_config_path other (insert_config_path root c) ≡ insert_config_path root c)
insert_config_path_lem root other c h =
    let r = insert_config_path-IsRooted root c h in
    (r, insert_config_path-of_IsRooted other (insert_config_path root c) r)
