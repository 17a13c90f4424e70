-- ===== src/Ssh/Handler.antt =====
-- src/ssh_server/mod.rs: the server's state, the state of a connection, and authentication.
pub mod Login
pub mod KeyLogin
mod TestAuth
use ssh_certificate_authorit.Common.{
  ℕ, ◌+◌, ◌%◌, ◌^◌, Bool, true, false, not, Option, none, some, List, [], ◌∷◌, Str, Outcome, ok,
  err, panic, ◌>>=◌, Error, if◌then◌else◌, ◌==◌,
}
use ssh_certificate_authorit.Records.{SshServerConfig}
use ssh_certificate_authorit.Interfaces.{SshKey, Russh}
use ssh_certificate_authorit.Ipc.{
  CaRequest, CaResponse, Wire, check_public_key, signed_certificate, error, key_found,
}
use ssh_certificate_authorit.Ipc.Client.{CaClient, Socket, send_request}
use ssh_certificate_authorit.Identity.{Credential, password, UserAuthenticator}
use ssh_certificate_authorit.Ssh.Names.{validate_username}

pub data AuthMethod : Type 0 where
  by_password by_public_key : AuthMethod

-- What the connections share: the client's counter is in `ca_client`.
pub record SshCaServer (R : Russh) : Type 0 where
  pub clients : List (ℕ × (R.ChannelId × R.Handle))
  pub client_ids : ℕ
  pub ca_client : CaClient
  pub config : SshServerConfig
  pub user_authenticators : List UserAuthenticator

pub record ConnectionHandler (R : Russh) : Type 0 where
  pub id : ℕ
  pub username : Option Str
  pub auth_method : Option AuthMethod
  pub public_key : Option R.PublicKey

-- What a handler returns to russh: a value, `Err(RequestDenied)`, another error, or a panic.
pub data Returned (A : Type 0) : Type 0 where
  returned : A → Returned A
  request_denied : Returned A
  failed : Error → Returned A
  panicked : Returned A

-- `Auth::Accept`, and `Auth::Reject` with no partial success.
pub data Auth : Type 0 where
  accept reject : Auth

-- The calls on the session that the server makes, whose results it does not look at.
pub data Call (R : Russh) : Type 0 where
  disconnect : Str → Call R
  send_data : R.ChannelId → Str → Call R
  exit_status : R.ChannelId → ℕ → Call R
  eof : R.ChannelId → Call R
  close : R.ChannelId → Call R

-- What one call of a handler does: the state after it, the requests that it hands to the CA
-- client and the calls on the session, each in order, and what it returns.
pub record Turn (K : SshKey) (R : Russh) (A : Type 0) : Type 0 where
  pub handler : ConnectionHandler R
  pub server : SshCaServer R
  pub sent : List (CaRequest K)
  pub calls : List (Call R)
  pub result : Returned A

unfoldable pub new_server :
    {R : Russh} → SshServerConfig → CaClient → List UserAuthenticator → SshCaServer R
new_server config ca_client user_authenticators = record {
  clients = [];
  client_ids = 0;
  ca_client = ca_client;
  config = config;
  user_authenticators = user_authenticators;
}

-- `client_ids` is a `usize` of 64 bits.
unfoldable pub new_client : {R : Russh} → SshCaServer R → SshCaServer R × ConnectionHandler R
new_client s =
    let id = (s.client_ids + 1) % 2 ^ 64 in
    (
      record s { client_ids = id },
      record { id = id; username = none; auth_method = none; public_key = none },
    )

-- The loop over the authenticators: an error is passed over like a refusal.
unfoldable pub try_authenticators : List UserAuthenticator → Str → Str → Outcome Bool
try_authenticators [] user pass = ok false
try_authenticators (authenticate ∷ rest) user pass = elim (authenticate user (password pass)) [
  | ok true ↦ ok true
  | ok false ↦ try_authenticators rest user pass
  | err e ↦ try_authenticators rest user pass
  | panic ↦ panic
]

module _ (K : SshKey) (R : Russh) where
  abbrev turn : {A : Type 0} → ConnectionHandler R → SshCaServer R → Returned A → Turn K R A
  turn h s r = record { handler = h; server = s; sent = []; calls = []; result = r }

  unfoldable pub auth_password : ConnectionHandler R → SshCaServer R → Str → Str → Turn K R Auth
  unfolding try_authenticators
  auth_password h s user pass =
      if not (validate_username user)
      then turn h s (returned reject)
      else elim (try_authenticators s.user_authenticators user pass) [
        | ok true ↦
            turn (record h { username = some user; auth_method = some by_password }) s
              (returned accept)
        | ok false ↦ turn h s request_denied
        | err e ↦ turn h s (failed e)
        | panic ↦ turn h s panicked
      ]

  -- The host that the CA's answer names; any other answer but a certificate names none.
  unfoldable pub key_found_of : Outcome (CaResponse K) → Outcome (Option Str)
  key_found_of (ok (key_found found)) = ok found
  key_found_of (ok (error e)) = ok none
  key_found_of (ok (signed_certificate cert)) = panic
  key_found_of (err e) = ok none
  key_found_of panic = panic

  -- Both `unwrap`s on the way from russh's key to that of ssh-key.
  unfoldable pub convert_key : R.PublicKey → Option K.PublicKey
  convert_key public_key = elim (R.to_openssh public_key) [
    | ok text ↦ elim (K.from_openssh text) [ ok key ↦ some key | err e ↦ none | panic ↦ none ]
    | err e ↦ none
    | panic ↦ none
  ]

  -- What follows from the CA's answer.
  unfoldable pub decide_key :
      ConnectionHandler R
      → SshCaServer R
      → R.PublicKey
      → CaRequest K
      → Outcome (Option Str)
      → Turn K R Auth
  decide_key h s public_key request found =
      let without = λ (r : Returned Auth). record (turn h s r) { sent = request ∷ [] } in
      elim found [
        | ok (some host) ↦ record {
          handler = record h {
            username = some host;
            auth_method = some by_public_key;
            public_key = some public_key;
          };
          server = s;
          sent = request ∷ [];
          calls = [];
          result = returned accept;
        }
        | ok none ↦ without (returned reject)
        | err e ↦ without (failed e)
        | panic ↦ without panicked
      ]

  module _ (W : Wire K) (socket : Socket) where
    unfoldable pub auth_publickey :
        ConnectionHandler R → SshCaServer R → Str → R.PublicKey → Turn K R Auth
    unfolding key_found_of convert_key decide_key
    auth_publickey h s user public_key = elim (convert_key public_key) [
      | none ↦ turn h s panicked
      | some key ↦
          let request = check_public_key key in
          let (ca_client, answer) = send_request K W s.ca_client socket request in
          let s' = record s { ca_client = ca_client } in
          decide_key h s' public_key request (key_found_of answer)
    ]

-- `HashMap::remove`
abbrev pub without {ℓ} : {A : Type ℓ} → ℕ → List (ℕ × A) → List (ℕ × A)
without id [] = []
without id ((j, c) ∷ clients) =
    let rest = without id clients in if j == id then rest else (j, c) ∷ rest

module _ {R : Russh} where
  open R use {ChannelId, Handle}

  -- `channel_open_session`: the map holds one channel for each connection.
  unfoldable pub channel_open_session :
      ConnectionHandler R → SshCaServer R → ChannelId → Handle → SshCaServer R
  channel_open_session h s channel handle = record s {
    clients = (h.id, (channel, handle)) ∷ without h.id s.clients;
  }

  -- `drop`, once its task has run.
  unfoldable pub drop : ConnectionHandler R → SshCaServer R → SshCaServer R
  drop h s = record s { clients = without h.id s.clients }
