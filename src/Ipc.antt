-- ===== src/Ipc.antt =====
-- The messages between the SSH server and the CA process, of src/certificat_authority/mod.rs, and
-- the frames that carry them over the Unix socket.
pub mod Frame
pub mod Server
pub mod Client
pub mod Traffic
use ssh_certificate_authorit.Common.{ℕ, ◌≡◌, ◌↔◌, Bool, true, Option, Str, Bytes, Outcome, ok}
use ssh_certificate_authorit.Text.Utf8.{IsText}
use ssh_certificate_authorit.Interfaces.{SshKey}

abbrev pub max_message_size : ℕ
max_message_size = 65536

pub data CaRequest (K : SshKey) : Type 0 where
  sign_certificate : (user : Str) (public_key : K.PublicKey) → CaRequest K
  check_public_key : (public_key : K.PublicKey) → CaRequest K
  sign_host_certificate : (host_name : Str) (public_key : K.PublicKey) → CaRequest K

pub data CaResponse (K : SshKey) : Type 0 where
  signed_certificate : K.Certificate → CaResponse K
  error : Str → CaResponse K
  key_found : Option Str → CaResponse K

-- `counter` is a `u64`.
pub record AuthenticatedRequest (K : SshKey) : Type 0 where
  pub token : Str
  pub counter : ℕ
  pub request : CaRequest K

-- serde_json at the types of the messages, and the comparison of subtle.
pub record Wire (K : SshKey) : Type 0 where
  pub request_to_string : AuthenticatedRequest K → Outcome Str
  pub request_from_str : Str → Outcome (AuthenticatedRequest K)
  pub response_to_string : CaResponse K → Outcome Str
  pub response_from_str : Str → Outcome (CaResponse K)
  pub ct_eq : Bytes → Bytes → Bool

-- What serde_json documents: what it writes is a Rust string, and reads back as the value.
pub record JsonLaws {K : SshKey} (W : Wire K) : Type 0 where
  pub request_text :
      (r : AuthenticatedRequest K) {s : Str} → W.request_to_string r ≡ ok s → IsText s
  pub request_back :
      (r : AuthenticatedRequest K) {s : Str}
      → W.request_to_string r ≡ ok s
      → W.request_from_str s ≡ ok r
  pub response_text : (r : CaResponse K) {s : Str} → W.response_to_string r ≡ ok s → IsText s
  pub response_back :
      (r : CaResponse K) {s : Str} → W.response_to_string r ≡ ok s → W.response_from_str s ≡ ok r

-- What subtle documents: slices are equal when they have the same bytes.
abbrev pub ComparesBytes : {K : SshKey} → Wire K → Type 0
ComparesBytes W = (a b : Bytes) → (W.ct_eq a b ≡ true) ↔ (a ≡ b)
