-- ===== src/Interfaces/Transport.antt =====
-- The crate russh: its public keys, channels and handles.
use ssh_certificate_authorit.Common.{Str, Outcome}

pub record Russh : Type 1 where
  pub PublicKey : Type 0
  pub to_openssh : PublicKey → Outcome Str
  pub ChannelId : Type 0
  pub Handle : Type 0
