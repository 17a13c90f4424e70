-- ===== src/Ipc/Client/Counter.antt =====
-- The counter of a client.
use ssh_certificate_authorit.Common.{ℕ, zero, suc, ◌+◌, ◌≡◌, Option, none, some, List, [], ◌∷◌, Str}
use ssh_certificate_authorit.Interfaces.{SshKey, Formats}
use ssh_certificate_authorit.Ipc.{CaRequest, Wire}
use ssh_certificate_authorit.Ipc.Server.{CaServer, admit}
use ssh_certificate_authorit.Ipc.Client.{CaClient, fetch_add, checked_add_one}

-- The numbers that the next `n` requests of a client that connect are sent with.
pub numbers : ℕ → CaClient → List (Option ℕ)
numbers zero c = []
numbers (suc n) c = let (prev, c') = fetch_add c in checked_add_one prev ∷ numbers n c'

-- n, n + 1, …
abbrev pub count_from : ℕ → ℕ → List (Option ℕ)
count_from n zero = []
count_from n (suc k) = some n ∷ count_from (n + 1) k

module _ (K : SshKey) (W : Wire K) (F : Formats) (server_uid : ℕ) where
  -- The server refuses a request with this token and number, whatever it asks for.
  abbrev pub IsRefused : CaServer K → Str → Option ℕ → Type 0
  IsRefused s token none = ⊥
  IsRefused s token (some n) =
      (request : CaRequest K)
      → admit K W F server_uid s (record { token = token; counter = n; request = request }) ≡ none
