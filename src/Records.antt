-- ===== src/Records.antt =====
-- The structs that are read from configuration files: src/certificat_authority/config.rs,
-- host_config_reader.rs, user_defaults_reader.rs, src/ssh_server/config.rs,
-- src/identiy_handlers/mod.rs and src/config/mod.rs.
use ssh_certificate_authorit.Common.{ℕ, Option, List, Str}
use ssh_certificate_authorit.FilePath.{FilePath}

pub record Ca : Type 0 where
  pub user_list_file : FilePath
  pub default_user_template : FilePath
  pub host_inventory : FilePath
  pub ca_key : FilePath

-- `validity_in_days` is a `u16`.
pub record HostConfig : Type 0 where
  pub public_key : Str
  pub validity_in_days : ℕ
  pub hostnames : List Str
  pub extensions : List Str

pub record UserDefaults : Type 0 where
  pub validity_in_days : ℕ
  pub principals : List Str
  pub extensions : List Str

-- The map is a list of its pairs.
pub record UserList : Type 0 where
  pub users : List (Str × FilePath)

-- `port` is a `u16`.
pub record SshServerConfig : Type 0 where
  pub bind : Str
  pub port : ℕ
  pub private_key : FilePath
  pub certificate : Option FilePath

pub record IdentityHandlerConfig : Type 0 where
  pub user_authenticators : List Str

pub record Config : Type 0 where
  pub ssh : SshServerConfig
  pub ca : Ca
  pub identity_handlers : IdentityHandlerConfig
