-- ===== src/Tests/Settings.antt =====
-- Witnesses about the configuration, the templates and the hosts of the inventory.
use ssh_certificate_authorit.Common.{◌≡◌, refl, true, [], ◌∷◌, ok}
use ssh_certificate_authorit.Text.{codes, str_eq}
use ssh_certificate_authorit.Text.Utf8.{from_utf8, as_bytes}
use ssh_certificate_authorit.FilePath.{has_root, parent, push}
use ssh_certificate_authorit.Records.{UserList}
use ssh_certificate_authorit.Interfaces.{read_to_string, read_toml_file}
use ssh_certificate_authorit.Config.{read_config}
use ssh_certificate_authorit.Config.Paths.{IsRooted}
use ssh_certificate_authorit.Config.Rooted.{read_config-IsRooted}
use ssh_certificate_authorit.UserTemplates.{template_path, lookup, read_user_defaults}
use ssh_certificate_authorit.UserTemplates.Chosen.{IsRead, read_user_defaults-IsRead}
use ssh_certificate_authorit.Tests.World.{files, formats, settings, written, ann_defaults}

read_written :
    read_config files formats (codes "/ca/main.toml") ≡ ok (record written { ca = settings })
unfolding read_config parent read_to_string from_utf8 push
read_written = refl

abbrev ann_listed : UserList
ann_listed = record { users = (codes "ann", codes "ann.toml") ∷ [] }

ann_template : template_path (codes "ann") ann_listed settings ≡ ok (codes "/ca/ann.toml")
unfolding template_path lookup str_eq parent push
ann_template = refl

read_config_absolute_example : IsRooted settings × (has_root (codes "/ca/ann.toml") ≡ true)
read_config_absolute_example =
    read_config-IsRooted files formats (codes "/ca/main.toml") (codes "ann") ann_listed refl
      read_written ann_template

ann_read : read_user_defaults files formats (codes "ann") settings ≡ ok ann_defaults
unfolding read_user_defaults read_toml_file str_eq from_utf8 lookup as_bytes
ann_read = refl

read_user_defaults_example : IsRead files formats (codes "ann") settings ann_defaults
read_user_defaults_example = read_user_defaults-IsRead files formats (codes "ann") settings ann_read
