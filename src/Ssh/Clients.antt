-- ===== src/Ssh/Clients.antt =====
-- All the connections of a server: they come, are handled in any order, and end, and a task removes
-- what the server knows of them.
pub mod Numbers
pub mod Tidy
pub mod Logins
use ssh_certificate_authorit.Common.{
  ℕ, ◌+◌, ◌^◌, ◌<◌, ◌≡◌, Bool, true, false, List, [], ◌∷◌, ◌++◌, map,
}
use ssh_certificate_authorit.Records.{SshServerConfig}
use ssh_certificate_authorit.Identity.{UserAuthenticator}
use ssh_certificate_authorit.Ipc.Client.{CaClient}
use ssh_certificate_authorit.Interfaces.{SshKey, Russh}
use ssh_certificate_authorit.Ipc.{Wire}
use ssh_certificate_authorit.Ssh.Handler.{
  SshCaServer, ConnectionHandler, new_client, new_server, drop,
}
use ssh_certificate_authorit.Ssh.Session
use ssh_certificate_authorit.Ssh.Session.{Event}

-- A handler, until the task of its `drop` has run; `is_live` tells whether it has been dropped.
pub record Slot (R : Russh) : Type 0 where
  pub handler : ConnectionHandler R
  pub is_live : Bool

pub record Site (R : Russh) : Type 0 where
  pub server : SshCaServer R
  pub slots : List (Slot R)

abbrev pub ids_of : {R : Russh} → List (Slot R) → List ℕ
ids_of [] = []
ids_of (slot ∷ slots) = slot.handler.id ∷ ids_of slots

-- A server that was just made, with no connections.
abbrev pub opened : {R : Russh} → SshServerConfig → CaClient → List UserAuthenticator → Site R
opened config ca_client user_authenticators = record {
  server = new_server config ca_client user_authenticators;
  slots = [];
}

module _ (K : SshKey) (R : Russh) (W : Wire K) where
  pub data Step (t : Site R) : Site R → Type 0 where
    connect :
        t.server.client_ids + 1 < 2 ^ 64
        → Step t (record {
          server = (new_client t.server).0;
          slots = record { handler = (new_client t.server).1; is_live = true } ∷ t.slots;
        })
    handle :
        (h : ConnectionHandler R) (e : Event R) (before after : List (Slot R))
        → t.slots ≡ before ++ record { handler = h; is_live = true } ∷ after
        → Step t (record {
          server = (Session.step K R W h t.server e).server;
          slots =
              before
              ++ record { handler = (Session.step K R W h t.server e).handler; is_live = true }
                ∷ after;
        })
    leave :
        (h : ConnectionHandler R) (before after : List (Slot R))
        → t.slots ≡ before ++ record { handler = h; is_live = true } ∷ after
        → Step t (record t { slots = before ++ record { handler = h; is_live = false } ∷ after })
    remove :
        (h : ConnectionHandler R) (before after : List (Slot R))
        → t.slots ≡ before ++ record { handler = h; is_live = false } ∷ after
        → Step t (record { server = drop h t.server; slots = before ++ after })

  pub data Reach (s : Site R) : Site R → Type 0 where
    here : Reach s s
    next : {t u : Site R} → Reach s t → Step t u → Reach s u

  -- The call that a step makes, with the number of its connection, and all that were made.
  abbrev pub handled : {t u : Site R} → Step t u → List (ℕ × Event R)
  handled (connect room) = []
  handled (handle h e before after q) = (h.id, e) ∷ []
  handled (leave h before after q) = []
  handled (remove h before after q) = []

  unfoldable pub history : {s t : Site R} → Reach s t → List (ℕ × Event R)
  history here = []
  history (next r st) = handled st ++ history r
