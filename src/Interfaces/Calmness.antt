-- ===== src/Interfaces/Calmness.antt =====
-- When the program does not panic: the libraries return values or errors, and the calls whose
-- results it unwraps succeed.
use ssh_certificate_authorit.Common.{
  ℕ, ◌≡◌, ◌≢◌, none, some, List, Str, Bytes, Outcome, ok, err, panic, ◌++◌, All, Calm, Calm->>=,
  Option, not_utf8,
}
use ssh_certificate_authorit.Text.{codes}
use ssh_certificate_authorit.FilePath.{FilePath, file_stem}
use ssh_certificate_authorit.Text.Utf8.{from_utf8}
use ssh_certificate_authorit.Interfaces.Disk.{Files, read_to_string, read_toml_file}
use ssh_certificate_authorit.Interfaces.SshKeys.{SshKey, CertType, Draw}
use ssh_certificate_authorit.Interfaces.Encodings.{Formats}

-- ssh-key: the text of a public key can be made, as the program unwraps it.
pub record CalmKeys (K : SshKey) : Type 0 where
  pub from_openssh : (s : Str) → Calm (K.from_openssh s)
  pub to_openssh : (k : K.PublicKey) → (text : Str) × (K.to_openssh k ≡ ok text)
  pub private_from_openssh : (b : Bytes) → Calm (K.private_from_openssh b)
  pub new_with_random_nonce :
      (n : K.Nonce) (k : K.PublicKey) (a b : ℕ) → Calm (K.new_with_random_nonce n k a b)
  pub serial : (b : K.Builder) (n : ℕ) → Calm (K.serial b n)
  pub key_id : (b : K.Builder) (s : Str) → Calm (K.key_id b s)
  pub cert_type : (b : K.Builder) (t : CertType) → Calm (K.cert_type b t)
  pub comment : (b : K.Builder) (s : Str) → Calm (K.comment b s)
  pub extension : (b : K.Builder) (name value : Str) → Calm (K.extension b name value)
  pub sign : (b : K.Builder) (k : K.PrivateKey) → Calm (K.sign b k)

-- An entry of a listing: an error, or a path with a name.
abbrev pub Listed : Outcome FilePath → Type 0
Listed (ok path) = file_stem path ≢ none
Listed (err e) = Unit
Listed panic = ⊥

-- The file system, and glob, whose result the program unwraps: the path of a directory that exists
-- is well formed as a part of a pattern, which one with wildcards need not be.
pub record CalmFiles (fs : Files) : Type 0 where
  pub read_to_end : (path : FilePath) → Calm (fs.read_to_end path)
  pub canonicalize : (path : FilePath) → Calm (fs.canonicalize path)
  pub glob :
      (path dir : FilePath)
      → fs.canonicalize path ≡ ok dir
      → (files : List (Outcome FilePath)) × (fs.glob (dir ++ codes "/**/*.toml") ≡ ok files)
        × All Listed files

-- toml and minijinja.
pub record CalmFormats (F : Formats) : Type 0 where
  pub host_config_from_str : (s : Str) → Calm (F.host_config_from_str s)
  pub user_list_from_str : (s : Str) → Calm (F.user_list_from_str s)
  pub user_defaults_from_str : (s : Str) → Calm (F.user_defaults_from_str s)
  pub add_template : (env : F.Environment) (name text : Str) → Calm (F.add_template env name text)
  pub get_template : (env : F.Environment) (name : Str) → Calm (F.get_template env name)
  pub render_user_name : (t : F.Template) (user : Str) → Calm (F.render_user_name t user)

-- The clock is past the epoch at both looks.
pub record CalmClock {K : SshKey} (draw : Draw K) : Type 0 where
  pub first : (n : ℕ) × (draw.first_clock ≡ some n)
  pub second : (n : ℕ) × (draw.second_clock ≡ some n)

of_text-Calm :
    (t : Option Str)
    → Calm (elim t as (λ _. Outcome Str) [ none ↦ err not_utf8 | some text ↦ ok text ])
of_text-Calm none = tt
of_text-Calm (some text) = tt

module _ (fs : Files) (cf : CalmFiles fs) where
  pub read_to_string-Calm : (path : FilePath) → Calm (read_to_string fs path)
  unfolding read_to_string
  read_to_string-Calm path =
      Calm->>= _ _ (cf.read_to_end path) (λ bytes. of_text-Calm (from_utf8 bytes))

  pub read_toml_file-Calm {ℓ} :
      {T : Type ℓ} (from_str : Str → Outcome T) (path : FilePath)
      → ((s : Str) → Calm (from_str s))
      → Calm (read_toml_file fs from_str path)
  unfolding read_toml_file
  read_toml_file-Calm from_str path h = Calm->>= _ _ (read_to_string-Calm path) h
