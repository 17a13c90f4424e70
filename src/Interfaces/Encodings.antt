-- ===== src/Interfaces/Encodings.antt =====
-- The crates toml and minijinja, and the `Debug` text of a path, which rests on Unicode tables.
use ssh_certificate_authorit.Common.{Str, Outcome}
use ssh_certificate_authorit.FilePath.{FilePath}
use ssh_certificate_authorit.Records.{HostConfig, UserDefaults, UserList, Config}

pub record Formats : Type 1 where
  -- `toml::from_str`, at each type that is read
  pub host_config_from_str : Str → Outcome HostConfig
  pub user_list_from_str : Str → Outcome UserList
  pub user_defaults_from_str : Str → Outcome UserDefaults
  pub config_from_str : Str → Outcome Config
  -- minijinja: an environment with one template, which is taken out again and rendered with
  -- `user_name` as its only variable
  pub Environment : Type 0
  pub Template : Type 0
  pub new_environment : Environment
  pub add_template : Environment → Str → Str → Outcome Environment
  pub get_template : Environment → Str → Outcome Template
  pub render_user_name : Template → Str → Outcome Str
  -- `{:?}`
  pub debug_path : FilePath → Str
