-- ===== src/Ipc/Traffic.antt =====
-- The requests that are under way at one time. Tasks of the SSH server share one client: each
-- connects, draws its number and writes, and these may come between one another; the server takes
-- the connections in the order in which they were made, and waits for the request of each.
pub mod Ordered
pub mod Overtaken
use ssh_certificate_authorit.Common.{
  ℕ, ◌≡◌, Bool, true, false, Option, none, some, List, [], ◌∷◌, ◌++◌,
}
use ssh_certificate_authorit.Interfaces.{SshKey, Formats}
use ssh_certificate_authorit.Ipc.{CaRequest, AuthenticatedRequest, Wire}
use ssh_certificate_authorit.Ipc.Client.{CaClient, fetch_add, checked_add_one}
use ssh_certificate_authorit.Ipc.Server.{CaServer, admit}

-- `queue` has the connections that wait, with the request of each that has drawn its number; `log`
-- has the requests that were read, the last one first, and whether they were let through.
pub record Traffic (K : SshKey) : Type 0 where
  pub client : CaClient
  pub server : CaServer K
  pub queue : List (Option (AuthenticatedRequest K))
  pub log : List (AuthenticatedRequest K × Bool)

abbrev pub numbered : {K : SshKey} → CaClient → ℕ → CaRequest K → AuthenticatedRequest K
numbered c counter request = record { token = c.auth_token; counter = counter; request = request }

module _ (K : SshKey) (W : Wire K) (F : Formats) (server_uid : ℕ) where
  -- A request that was read, by what `admit` says of it.
  abbrev pub served :
      Traffic K
      → AuthenticatedRequest K
      → List (Option (AuthenticatedRequest K))
      → Option (CaServer K)
      → Traffic K
  served t r rest none = record t { queue = rest; log = (r, false) ∷ t.log }
  served t r rest (some s) = record t { server = s; queue = rest; log = (r, true) ∷ t.log }

  -- `P` restricts which connection may draw the next number, by those in front of it.
  pub data Step (P : List (Option (AuthenticatedRequest K)) → Type 0) (t : Traffic K)
      : Traffic K → Type 0 where
    connect : Step P t (record t { queue = t.queue ++ none ∷ [] })
    number :
        (request : CaRequest K) (before after : List (Option (AuthenticatedRequest K))) {n : ℕ}
        → P before
        → t.queue ≡ before ++ none ∷ after
        → checked_add_one (fetch_add t.client).0 ≡ some n
        → Step P t (record t {
          client = (fetch_add t.client).1;
          queue = before ++ some (numbered t.client n request) ∷ after;
        })
    serve :
        (r : AuthenticatedRequest K) (rest : List (Option (AuthenticatedRequest K)))
        → t.queue ≡ some r ∷ rest
        → Step P t (served t r rest (admit K W F server_uid t.server r))

  pub data Reach (P : List (Option (AuthenticatedRequest K)) → Type 0) (s : Traffic K)
      : Traffic K → Type 0 where
    here : Reach P s s
    next : {t u : Traffic K} → Reach P s t → Step P t u → Reach P s u

-- A client and a server that were started with the same token, and nothing under way.
pub record IsFresh {K : SshKey} (t : Traffic K) : Type 0 where
  pub token : t.client.auth_token ≡ t.server.auth_token
  pub counters : t.server.last_counter ≡ t.client.counter
  pub no_queue : t.queue ≡ []
  pub no_log : t.log ≡ []
