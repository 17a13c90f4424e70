-- ===== src/Ssh/Names.antt =====
-- The checks on names, and the parsing of a command: `validate_username` and `parse_exec_command`
-- of src/ssh_server/mod.rs, and `validate_hostname` of host_key_signer.rs.
pub mod Usernames
pub mod Hostnames
pub mod Commands
pub mod Refused
use ssh_certificate_authorit.Common.{
  ℕ, Bool, true, false, not, ◌&&◌, ◌||◌, Option, none, some, List, [], ◌∷◌, Str, Bytes, Outcome, ok,
  err, if◌then◌else◌, leb, length, all, ◌==◌, ◌++◌,
}
use ssh_certificate_authorit.Text.{
  codes, is_empty, contains_char, contains_str, is_ascii_alphanumeric,
}
use ssh_certificate_authorit.Text.Utf8.{as_bytes, from_utf8_lossy}
use ssh_certificate_authorit.Text.Words.{split_whitespace}

unfoldable pub is_user_char : ℕ → Bool
is_user_char c = is_ascii_alphanumeric c || c == b'.' || c == b'_' || c == b'@' || c == b'-'

unfoldable pub validate_username : Str → Bool
unfolding is_user_char as_bytes
validate_username user =
    not (is_empty user) && leb (length (as_bytes user)) 64 && all is_user_char user

abbrev pub command_of : List Str → Str × List Str
command_of [] = ([], [])
command_of (command ∷ args) = (command, args)

unfoldable pub parse_exec_command : Bytes → Str × List Str
parse_exec_command data' = command_of (split_whitespace (from_utf8_lossy data'))

-- `none` is `Ok(())`; else the message.
unfoldable pub validate_hostname : Str → Option Str
validate_hostname host_name =
    if is_empty host_name
      || contains_char b'/' host_name
      || contains_char b'\\' host_name
      || contains_str (codes "..") host_name
      || contains_char 0 host_name
    then some (codes "invalid host name: '" ++ host_name ++ codes "'")
    else none
