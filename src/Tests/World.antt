-- ===== src/Tests/World.antt =====
-- A small CA: its files, with two hosts of which one is called web, and what talks to it.
use ssh_certificate_authorit.Common.{
  ℕ, true, none, some, [], ◌∷◌, Str, ok, err, foreign, if◌then◌else◌,
}
use ssh_certificate_authorit.Text.{codes, str_eq}
use ssh_certificate_authorit.FilePath.{FilePath}
use ssh_certificate_authorit.Records.{Ca, HostConfig, UserDefaults, Config}
use ssh_certificate_authorit.Interfaces.{Files, Formats, Draw, Russh}
use ssh_certificate_authorit.Authority.{CertificateAuthority}
use ssh_certificate_authorit.Ipc.Client.{CaClient, Socket}
use ssh_certificate_authorit.Ipc.Server.{CaServer}
use ssh_certificate_authorit.Identity.{Accounts, pam_authenticator}
use ssh_certificate_authorit.Ssh.Handler.{SshCaServer, ConnectionHandler}
use ssh_certificate_authorit.Tests.Toy.{keys}

abbrev pub hosts : FilePath
hosts = codes "/ca/hosts"

abbrev pub web_file : FilePath
web_file = codes "/ca/hosts/web.toml"

abbrev pub db_file : FilePath
db_file = codes "/ca/hosts/db.toml"

-- The text of a host's file is its key: `W` for web, `D` for db.
abbrev pub files : Files
files = record {
  path_exists = λ _. true;
  read_to_end = λ path.
      if str_eq path web_file
      then ok (codes "W")
      else if str_eq path db_file
      then ok (codes "D")
      else ok (codes "x");
  canonicalize = ok;
  glob = λ _. ok (err (foreign (codes "unreadable")) ∷ ok db_file ∷ ok web_file ∷ []);
}

abbrev pub web_config : HostConfig
web_config = record {
  public_key = codes "W";
  validity_in_days = 30;
  hostnames = codes "web.example.org" ∷ codes "web" ∷ [];
  extensions = [];
}

abbrev pub ann_defaults : UserDefaults
ann_defaults = record {
  validity_in_days = 1;
  principals = codes "ann" ∷ [];
  extensions = codes "permit-pty" ∷ [];
}

-- A configuration with relative paths.
abbrev pub written : Config
written = record {
  ssh = record {
    bind = codes "127.0.0.1";
    port = 2222;
    private_key = codes "/etc/ssh/key";
    certificate = none;
  };
  ca = record {
    user_list_file = codes "users.toml";
    default_user_template = codes "user.toml";
    host_inventory = codes "hosts";
    ca_key = codes "key";
  };
  identity_handlers = record { user_authenticators = codes "pam" ∷ [] };
}

abbrev pub formats : Formats
formats = record {
  host_config_from_str = λ text. ok (record web_config { public_key = text });
  user_list_from_str = λ _. ok (record { users = [] });
  user_defaults_from_str = λ _. ok ann_defaults;
  config_from_str = λ _. ok written;
  Environment = Str;
  Template = Str;
  new_environment = [];
  add_template = λ _ _ text. ok text;
  get_template = λ env _. ok env;
  render_user_name = λ template _. ok template;
  debug_path = λ path. path;
}

abbrev pub settings : Ca
settings = record {
  user_list_file = codes "/ca/users.toml";
  default_user_template = codes "/ca/user.toml";
  host_inventory = hosts;
  ca_key = codes "/ca/key";
}

abbrev pub authority : CertificateAuthority keys
authority = record { private_key = codes "secret"; config = settings }

abbrev pub draw : Draw keys
draw = record { first_clock = some 1000; second_clock = some 1001; nonce = 5; serial = 6 }

abbrev pub server : CaServer keys
server = record {
  socket_path = codes "/run/ca";
  ca = authority;
  auth_token = codes "token";
  last_counter = 2;
}

abbrev pub client : CaClient
client = record { socket_path = codes "/run/ca"; auth_token = codes "token"; counter = 3 }

-- PAM knows ann, a system account called daemon, and the one password "open".
abbrev pub accounts : Accounts
accounts = record {
  from_name = λ name.
      if str_eq name (codes "ann")
      then ok (some 1000)
      else if str_eq name (codes "daemon")
      then ok (some 1)
      else ok none;
  login = λ _ pass.
      if str_eq pass (codes "open") then ok tt else err (foreign (codes "authentication failure"));
}

abbrev pub russh : Russh
russh = record { PublicKey = ℕ; to_openssh = λ k. ok (k ∷ []); ChannelId = ℕ; Handle = Unit }

abbrev pub ssh_server : SshCaServer russh
ssh_server = record {
  clients = [];
  client_ids = 4;
  ca_client = client;
  config = written.ssh;
  user_authenticators = pam_authenticator accounts ∷ [];
}

abbrev pub connected : ConnectionHandler russh
connected = record { id = 5; username = none; auth_method = none; public_key = none }

-- A CA process that cannot be reached.
abbrev pub dead_socket : Socket
dead_socket = record {
  connect = err (foreign (codes "connection refused"));
  write_all = λ _. ok tt;
  reply = λ _. [];
}
