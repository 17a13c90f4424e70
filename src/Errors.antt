-- ===== src/Errors.antt =====
-- The text of an error, as `{}` shows it, and what a message is made of.
use ssh_certificate_authorit.Common.{
  Error, foreign, wrong_public_key, inventory_unresolved, host_path_unresolved, path_traversal,
  template_too_large, config_missing, key_missing, forbidden_user, counter_exhausted,
  request_too_large, response_too_large, not_utf8, invalid_utf8, short_read, Str, ◌++◌,
}
use ssh_certificate_authorit.Text.{codes}
use ssh_certificate_authorit.Text.Decimal.{decimal}

unfoldable pub to_string : Error → Str
to_string (foreign s) = s
to_string (wrong_public_key h) = codes "wrong public key for host: " ++ h
to_string (inventory_unresolved s) = codes "failed to resolve inventory directory: " ++ s
to_string (host_path_unresolved s) = codes "failed to resolve host config path: " ++ s
to_string path_traversal = codes "path traversal detected in host name"
to_string (template_too_large p) =
    codes "user template " ++ (p ++ codes " exceeds maximum allowed size of 65536 bytes")
to_string (config_missing p) = codes "Config file " ++ (p ++ codes " not found")
to_string (key_missing p) = codes "CA key file " ++ (p ++ codes " not found")
to_string (forbidden_user u) = codes "user " ++ (u ++ codes " is forbidden from logging in")
to_string counter_exhausted =
    codes "IPC counter exhausted: restart the CA process to restore service"
to_string (request_too_large n) =
    codes "Request size " ++ (decimal n ++ codes " exceeds maximum allowed 65536")
to_string (response_too_large n) =
    codes "Response size " ++ (decimal n ++ codes " exceeds maximum allowed 65536")
to_string not_utf8 = codes "stream did not contain valid UTF-8"
-- Rust's text goes on with the position.
to_string invalid_utf8 = codes "invalid utf-8 sequence"
to_string short_read = codes "early eof"
