-- ===== src/Interfaces.antt =====
-- What the program takes from elsewhere: the file system, the crates ssh-key, toml, minijinja and russh,
-- the clock and the random generator. Each is a record of operations, and the theorems that need
-- more of them than their types name it as a hypothesis.
mod Disk
mod SshKeys
mod Encodings
mod Transport
mod Calmness
pub use Disk.{Files}
unfoldable pub use Disk.{read_to_string, read_toml_file}
pub use SshKeys.{CertType, user, host, SshKey, CertFields, BuilderLaws, Draw}
pub use Encodings.{Formats}
pub use Transport.{Russh}
pub use Calmness.*
