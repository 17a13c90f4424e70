-- ===== src/Interfaces/SshKeys.antt =====
-- The crate ssh-key: public keys, certificates and the certificate builder.
use ssh_certificate_authorit.Common.{
  ℕ, ◌≡◌, Bool, Option, none, some, List, [], ◌∷◌, ◌++◌, Str, Bytes, Outcome, ok, if◌then◌else◌,
}
use ssh_certificate_authorit.Text.{str_eq}

pub data CertType : Type 0 where
  user host : CertType

pub record SshKey : Type 1 where
  pub PublicKey : Type 0
  pub KeyData : Type 0
  pub PrivateKey : Type 0
  pub Certificate : Type 0
  pub Builder : Type 0
  pub Nonce : Type 0
  pub from_openssh : Str → Outcome PublicKey
  pub to_openssh : PublicKey → Outcome Str
  pub key_data : PublicKey → KeyData
  -- `==` on key data
  pub same_data : KeyData → KeyData → Bool
  pub key_comment : PublicKey → Str
  pub private_from_openssh : Bytes → Outcome PrivateKey
  pub cert_to_openssh : Certificate → Outcome Str
  -- The builder's methods give the builder after the call, or the error.
  pub new_with_random_nonce : Nonce → PublicKey → ℕ → ℕ → Outcome Builder
  pub serial : Builder → ℕ → Outcome Builder
  pub key_id : Builder → Str → Outcome Builder
  pub cert_type : Builder → CertType → Outcome Builder
  pub comment : Builder → Str → Outcome Builder
  pub extension : Builder → Str → Str → Outcome Builder
  -- The builder after the call: its result is not looked at.
  pub valid_principal : Builder → Str → Builder
  pub sign : Builder → PrivateKey → Outcome Certificate

-- What one signing takes from the clock, read twice and `none` before the epoch, and from the
-- random generator.
pub record Draw (K : SshKey) : Type 0 where
  pub first_clock : Option ℕ
  pub second_clock : Option ℕ
  pub nonce : K.Nonce
  pub serial : ℕ

-- The fields of a certificate, or of one under way. Extensions are a map.
pub record CertFields (K : SshKey) : Type 0 where
  pub key : K.KeyData
  pub valid_after : ℕ
  pub valid_before : ℕ
  pub serial : ℕ
  pub key_id : Str
  pub cert_type : CertType
  pub principals : List Str
  pub comment : Str
  pub extensions : Str → Option Str

-- What ssh-key documents of the builder: each method sets its field and no other, and the signed
-- certificate has the fields of its builder. `builder_fields` and `cert_fields` read them.
pub record BuilderLaws (K : SshKey) : Type 0 where
  pub builder_fields : K.Builder → CertFields K
  pub cert_fields : K.Certificate → CertFields K
  pub new_fields :
      (n : K.Nonce) (pk : K.PublicKey) (a b : ℕ) {c : K.Builder}
      → K.new_with_random_nonce n pk a b ≡ ok c
      → builder_fields c ≡ record {
        key = K.key_data pk;
        valid_after = a;
        valid_before = b;
        serial = 0;
        key_id = [];
        cert_type = user;
        principals = [];
        comment = [];
        extensions = λ _. none;
      }
  pub serial_fields :
      (b : K.Builder) (n : ℕ) {c : K.Builder}
      → K.serial b n ≡ ok c
      → builder_fields c ≡ record (builder_fields b) { serial = n }
  pub key_id_fields :
      (b : K.Builder) (s : Str) {c : K.Builder}
      → K.key_id b s ≡ ok c
      → builder_fields c ≡ record (builder_fields b) { key_id = s }
  pub cert_type_fields :
      (b : K.Builder) (t : CertType) {c : K.Builder}
      → K.cert_type b t ≡ ok c
      → builder_fields c ≡ record (builder_fields b) { cert_type = t }
  pub comment_fields :
      (b : K.Builder) (s : Str) {c : K.Builder}
      → K.comment b s ≡ ok c
      → builder_fields c ≡ record (builder_fields b) { comment = s }
  pub extension_fields :
      (b : K.Builder) (name value : Str) {c : K.Builder}
      → K.extension b name value ≡ ok c
      → builder_fields c ≡ record (builder_fields b) {
        extensions = λ k. if str_eq name k then some value else (builder_fields b).extensions k;
      }
  pub valid_principal_fields :
      (b : K.Builder) (p : Str)
      → builder_fields (K.valid_principal b p)
        ≡ record (builder_fields b) { principals = (builder_fields b).principals ++ p ∷ [] }
  pub sign_fields :
      (b : K.Builder) (k : K.PrivateKey) {c : K.Certificate}
      → K.sign b k ≡ ok c
      → cert_fields c ≡ builder_fields b
