-- ===== src/Ssh/Names/Commands.antt =====
-- `parse_exec_command` reads back the words of a command line.
use ssh_certificate_authorit.Common.{◌≡◌, ap, ◌∙◌, List, ◌∷◌, Str, All}
use ssh_certificate_authorit.Text.Utf8.{as_bytes, IsText, from_utf8_lossy-as_bytes}
use ssh_certificate_authorit.Text.Words.{split_whitespace, join, IsWord, split_whitespace-join}
use ssh_certificate_authorit.Ssh.Names.{parse_exec_command, command_of}

-- The bytes of words joined by single spaces, none of them empty or with white space in it, are
-- read as the first word and the list of the others, when the characters are those of a Rust
-- string.
pub parse_exec_command-join :
    (command : Str) (args : List Str)
    → All IsWord (command ∷ args)
    → IsText (join (command ∷ args))
    → parse_exec_command (as_bytes (join (command ∷ args))) ≡ (command, args)
unfolding parse_exec_command
parse_exec_command-join command args w t =
    ap (λ s. command_of (split_whitespace s)) (from_utf8_lossy-as_bytes (join (command ∷ args)) t)
    ∙ ap command_of (split_whitespace-join (command ∷ args) w)
