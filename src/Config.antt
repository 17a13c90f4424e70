-- ===== src/Config.antt =====
-- src/config/mod.rs, and InsertConfigRoot for the structs of src/certificat_authority/config.rs and
-- src/ssh_server/config.rs: the reading of the main configuration file.
pub mod Paths
pub mod Reading
pub mod Rooted
use ssh_certificate_authorit.Common.{
  Bool, Option, none, some, Str, Outcome, ok, err, panic, ◌>>=◌, config_missing, key_missing,
  if◌then◌else◌,
}
use ssh_certificate_authorit.FilePath.{FilePath, has_root, push, parent}
use ssh_certificate_authorit.Records.{Ca, SshServerConfig, Config}
use ssh_certificate_authorit.Interfaces.{Files, Formats, read_to_string}

-- A path of the configuration: it stays if it has a root.
abbrev pub insert_root : FilePath → FilePath → FilePath
insert_root config_root path = if has_root path then path else push config_root path

-- `insert_config_path` of `Ca`, which always gives `Ok(())`.
unfoldable pub insert_config_path : FilePath → Ca → Ca
insert_config_path config_root c = record {
  user_list_file = insert_root config_root c.user_list_file;
  default_user_template = insert_root config_root c.default_user_template;
  host_inventory = insert_root config_root c.host_inventory;
  ca_key = insert_root config_root c.ca_key;
}

-- `insert_config_path` of `SshServerConfig`
unfoldable pub insert_ssh_path : FilePath → SshServerConfig → SshServerConfig
insert_ssh_path config_root c = record c { private_key = insert_root config_root c.private_key }

module _ (fs : Files) where
  -- `check_paths` of `SshServerConfig`
  unfoldable pub check_ssh_paths : SshServerConfig → Outcome (Unit {0})
  check_ssh_paths c =
      if fs.path_exists c.private_key then ok tt else err (key_missing c.private_key)

module _ (fs : Files) (F : Formats) where
  -- `check_paths` of `Ca`
  unfoldable pub check_paths : Ca → Outcome (Unit {0})
  check_paths c =
      if fs.path_exists c.ca_key then ok tt else err (key_missing (F.debug_path c.ca_key))

  -- The directory of the file, or the error for a file that is not there.
  unfoldable pub config_root_of : FilePath → Outcome FilePath
  config_root_of file_path =
      if fs.path_exists file_path
      then elim (parent file_path) [ none ↦ panic | some dir ↦ ok dir ]
      else err (config_missing file_path)

  unfoldable pub read_config : FilePath → Outcome Config
  unfolding config_root_of insert_config_path check_paths
  read_config file_path = do
    config_root ← config_root_of file_path
    text ← read_to_string fs file_path
    config ← F.config_from_str text
    let config' : Config = record config { ca = insert_config_path config_root config.ca }
    _ ← check_paths config'.ca
    ok config'
