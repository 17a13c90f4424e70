-- ===== src/Config/Rooted.antt =====
-- Where the files of the CA are looked for, whatever directory the program is started in.
use ssh_certificate_authorit.Common.{◌≡◌, true, subst, sym, Str, ok}
use ssh_certificate_authorit.FilePath.{FilePath, has_root}
use ssh_certificate_authorit.FilePath.Parent.{parent-has_root}
use ssh_certificate_authorit.Records.{Config, UserList}
use ssh_certificate_authorit.Interfaces.{Files, Formats}
use ssh_certificate_authorit.Config.{read_config}
use ssh_certificate_authorit.Config.Paths.{IsRooted, insert_config_path_lem}
use ssh_certificate_authorit.Config.Reading.{read_config-eq-ok}
use ssh_certificate_authorit.UserTemplates.{template_path}
use ssh_certificate_authorit.UserTemplates.Chosen.{template_path-has_root}

-- When the main configuration file is given by an absolute path and is read, all the paths of the
-- CA are absolute, and so is that of the template of a user, whatever the file, and whatever the
-- list of the users, says.
pub read_config-IsRooted :
    (fs : Files) (F : Formats) (file_path : FilePath) (user : Str) (users : UserList) {c : Config}
    {path : FilePath}
    → has_root file_path ≡ true
    → read_config fs F file_path ≡ ok c
    → template_path user users c.ca ≡ ok path
    → IsRooted c.ca × (has_root path ≡ true)
read_config-IsRooted fs F file_path user users {c} r h t =
    let (config_root, text, parsed, there, up, read, parses, made, key) =
      read_config-eq-ok fs F file_path h in
    let root = parent-has_root file_path r up in
    let rooted : IsRooted c.ca =
      subst (λ (x : Config). IsRooted x.ca) (sym made)
        (insert_config_path_lem config_root config_root parsed.ca root).0 in
    (rooted, template_path-has_root user users c.ca rooted t)
