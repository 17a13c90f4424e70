-- ===== src/Tests/Harness.antt =====
-- Witnesses about the fuzz targets, on a disk that is the list of its writes.
use ssh_certificate_authorit.Text.Decimal.{decimal}
use ssh_certificate_authorit.Common.{
  ◌≡◌, refl, true, List, [], ◌∷◌, Str, Bytes, Outcome, ok, err, foreign, Calm, if◌then◌else◌, arith,
}
use ssh_certificate_authorit.Text.{codes, str_eq}
use ssh_certificate_authorit.Text.Utf8.{as_bytes}
use ssh_certificate_authorit.FilePath.{push, FilePath}
use ssh_certificate_authorit.Records.{Ca}
use ssh_certificate_authorit.Interfaces.{Files, CalmFiles}
use ssh_certificate_authorit.Ipc.{AuthenticatedRequest, CaResponse, sign_host_certificate}
use ssh_certificate_authorit.Fuzz.{set_up_in, TempFiles, RandomKeys, set_up, escape_toml, safe_name}
use ssh_certificate_authorit.Fuzz.Parsers.{fuzz_hostname_validation, fuzz_exec_request_parser}
use ssh_certificate_authorit.Fuzz.Requests.{fuzz_token}
use ssh_certificate_authorit.Fuzz.HostCertificates.{FuzzInput, input_config_text}
use ssh_certificate_authorit.Fuzz.Sound.{assertions_hold}
use ssh_certificate_authorit.Fuzz.Steady.{Sane}
use ssh_certificate_authorit.Tests.Plain.{keys, draw}
use ssh_certificate_authorit.Tests.World.{formats}
use ssh_certificate_authorit.Tests.Calm.{calm_keys, calm_formats, calm_clock}

abbrev pub read_from : List (FilePath × Bytes) → FilePath → Outcome Bytes
read_from [] path = err (foreign (codes "not found"))
read_from ((name, bytes) ∷ disk) path = if str_eq name path then ok bytes else read_from disk path

read_from-Calm : (disk : List (FilePath × Bytes)) (path : FilePath) → Calm (read_from disk path)
read_from-Calm [] path = tt
read_from-Calm ((name, bytes) ∷ disk) path = ground (arith, read_from-Calm disk path)

abbrev pub seen : List (FilePath × Bytes) → Files
seen disk = record {
  path_exists = λ _. true;
  read_to_end = read_from disk;
  canonicalize = ok;
  glob = λ _. ok [];
}

abbrev pub temp_files : TempFiles
temp_files = record {
  Disk = List (FilePath × Bytes);
  temp_dir = ok (codes "/tmp/fuzz", []);
  write = λ disk path bytes. ok ((path, bytes) ∷ disk);
  create_dir = λ disk path. ok disk;
  seen = seen;
}

abbrev pub random_keys : RandomKeys keys
random_keys = record {
  ca_key = ok (codes "secret");
  other_key = ok (codes "other");
  to_openssh = ok;
  public_key = λ _. b'O';
}

seen_calm : (disk : List (FilePath × Bytes)) → CalmFiles (seen disk)
seen_calm disk = record {
  read_to_end = read_from-Calm disk;
  canonicalize = λ path. tt;
  glob = λ path dir e. ([], refl, tt);
}

sane : Sane keys temp_files random_keys formats draw
sane = record {
  keys = calm_keys;
  formats = calm_formats;
  files = seen_calm;
  write = λ disk path bytes. tt;
  clock = calm_clock;
  other_key = (codes "other", refl);
}

abbrev config : Ca
config = record {
  user_list_file = codes "/tmp/fuzz/user.toml";
  default_user_template = codes "/tmp/fuzz/user_default.toml";
  host_inventory = codes "/tmp/fuzz/hosts";
  ca_key = codes "/tmp/fuzz/ca_key";
}

abbrev disk_with : Str → List (FilePath × Bytes)
disk_with template =
    (config.default_user_template, as_bytes template)
    ∷ (config.user_list_file, as_bytes (codes "[users]\n"))
    ∷ (config.ca_key, as_bytes (codes "secret"))
    ∷ []

ready :
    (template : Str) → set_up keys temp_files random_keys template ≡ ok (config, disk_with template)
unfolding set_up set_up_in push
ready template = refl

-- Any bytes are read as a request for a name that is no component of a path.
abbrev any_request : Bytes → Outcome (AuthenticatedRequest keys)
any_request bytes =
    ok (record {
      token = fuzz_token;
      counter = 1;
      request = sign_host_certificate (codes "a/b") b'W';
    })

abbrev no_response : Bytes → Outcome (CaResponse keys)
no_response bytes = err (foreign (codes "not a response"))

abbrev input : FuzzInput keys
input = record {
  host_name = codes "web";
  public_key = b'W';
  config_public_key = b'"' ∷ b'W' ∷ [];
  validity_in_days = 5000;
  hostnames = codes "a" ∷ codes "b" ∷ [];
  extensions = [];
}

input_text :
    input_config_text input
    ≡ codes
        "public_key = \"\\\"W\"\nvalidity_in_days = 3650\nhostnames = [\"a\", \"b\"]\nextensions = []\n"
unfolding input_config_text escape_toml decimal
input_text = refl

safe_slashes : safe_name (codes "a/b\\c") ≡ codes "a_b_c"
unfolding safe_name
safe_slashes = refl

safe_dots : safe_name (codes "../x") ≡ codes "fuzz_host"
unfolding safe_name
safe_dots = refl

-- Two words with a tab between them, read as a name and as a command.
assertions_hold_example :
    (fuzz_hostname_validation (codes "sign_host_key\tnow") ≡ ok tt)
    × (fuzz_exec_request_parser (codes "sign_host_key\tnow") ≡ ok tt)
assertions_hold_example = assertions_hold (codes "sign_host_key\tnow")
