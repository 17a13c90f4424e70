-- ===== src/Tests/Calm.antt =====
-- The stand-ins do not panic.
use ssh_certificate_authorit.Common.{refl, none, some, [], ◌∷◌, Str, ok, Calm-if, Calm}
use ssh_certificate_authorit.Text.{str_eq}
use ssh_certificate_authorit.FilePath.{file_stem}
use ssh_certificate_authorit.Interfaces.{CalmKeys, CalmFiles, CalmFormats, CalmClock}
use ssh_certificate_authorit.Ipc.{CaResponse, Wire, signed_certificate, error, key_found}
use ssh_certificate_authorit.Ipc.Server.Steady.{CalmWire}
use ssh_certificate_authorit.Tests.Plain.{keys, wire, draw}
use ssh_certificate_authorit.Tests.World.{files, formats, web_file, db_file}

-- A wire that writes every response.
abbrev response_text : CaResponse keys → Str
response_text (signed_certificate c) = 3 ∷ c ∷ []
response_text (error s) = 0 ∷ s
response_text (key_found none) = 1 ∷ []
response_text (key_found (some h)) = 2 ∷ h

abbrev pub full_wire : Wire keys
full_wire = record wire { response_to_string = λ r. ok (response_text r) }

from_openssh-Calm : (s : Str) → Calm (keys.from_openssh s)
from_openssh-Calm [] = tt
from_openssh-Calm (c ∷ s) = tt

request_from_str-Calm : (s : Str) → Calm (full_wire.request_from_str s)
request_from_str-Calm [] = tt
request_from_str-Calm (_ ∷ []) = tt
request_from_str-Calm (_ ∷ _ ∷ []) = tt
request_from_str-Calm (_ ∷ _ ∷ _ ∷ []) = tt
request_from_str-Calm (_ ∷ _ ∷ _ ∷ _ ∷ s) = tt

pub calm_keys : CalmKeys keys
calm_keys = record {
  from_openssh = from_openssh-Calm;
  to_openssh = λ k. (k ∷ [], refl);
  private_from_openssh = λ b. tt;
  new_with_random_nonce = λ n k a b. tt;
  serial = λ b n. tt;
  key_id = λ b s. tt;
  cert_type = λ b t. tt;
  comment = λ b s. tt;
  extension = λ b name value. tt;
  sign = λ b k. tt;
}

calm_wire : CalmWire full_wire
calm_wire = record {
  request_from_str = request_from_str-Calm;
  response_to_string = λ r. (response_text r, refl);
}

pub calm_formats : CalmFormats formats
calm_formats = record {
  host_config_from_str = λ s. tt;
  user_list_from_str = λ s. tt;
  user_defaults_from_str = λ s. tt;
  add_template = λ env name text. tt;
  get_template = λ env name. tt;
  render_user_name = λ t user. tt;
}

pub calm_files : CalmFiles files
unfolding file_stem
calm_files = record {
  read_to_end =
      λ path. Calm-if (str_eq path web_file) _ _ tt (Calm-if (str_eq path db_file) _ _ tt tt);
  canonicalize = λ path. tt;
  glob = λ path dir e. (_, refl, (tt, ((λ n. cc), ((λ n. cc), tt))));
}

pub calm_clock : CalmClock draw
calm_clock = record { first = (1000, refl); second = (1001, refl) }
