-- ===== src/EndToEnd/Login.antt =====
-- A login by key, from the SSH server through the CA to the inventory.
use ssh_certificate_authorit.Common.{
  ℕ, ◌+◌, ◌≡◌, ◌≢◌, ◌↔◌, ◌⊎◌, inl, inr, refl, sym, ap, ◌∙◌, subst, Option, none, some, [], ◌∷◌, Str,
  Outcome, ok, err, panic, arith, ◌>>=◌,
}
use ssh_certificate_authorit.Records.{HostConfig}
use ssh_certificate_authorit.Interfaces.{Files, SshKey, Formats, Draw, Russh}
use ssh_certificate_authorit.Inventory.{find_config_by_public_key}
use ssh_certificate_authorit.Authority
use ssh_certificate_authorit.Ipc.{
  CaResponse, Wire, JsonLaws, ComparesBytes, check_public_key, key_found, error, signed_certificate,
}
use ssh_certificate_authorit.Ipc.Client.{CaClient}
use ssh_certificate_authorit.Ipc.Client.Exchange.{server_socket}
use ssh_certificate_authorit.Ipc.Server.{CaServer, handle_request, or_error}
use ssh_certificate_authorit.Ssh.Handler.{
  SshCaServer, ConnectionHandler, returned, accept, auth_publickey, convert_key, decide_key,
  key_found_of, Turn, Auth, by_public_key,
}
use ssh_certificate_authorit.Ssh.Handler.KeyLogin.{auth_publickey-some}
use ssh_certificate_authorit.EndToEnd.{Carries, send_request-Carries}

module _ (K : SshKey) (R : Russh) (W : Wire K) (F : Formats) (server_uid : ℕ) where
  -- The inventory has a usable file with the key, and the first one is named after the host.
  abbrev pub IsKnown : Files → CaServer K → K.PublicKey → Str → Type 0
  IsKnown fs ca key host =
      (text : Str) × (c : HostConfig) × (K.to_openssh key ≡ ok text)
      × (find_config_by_public_key K fs F text ca.ca.config ≡ ok (some (host, c)))

  -- The host is known and logged in by its name and its key, or no host is and nobody is.
  abbrev pub Decided :
      ConnectionHandler R
      → SshCaServer R
      → R.PublicKey
      → K.PublicKey
      → Files
      → CaServer K
      → Turn K R Auth
      → Type 0
  Decided h s public_key key fs ca t =
      ((host : Str) × IsKnown fs ca key host
        × (t ≡ record {
          handler = record h {
            username = some host;
            auth_method = some by_public_key;
            public_key = some public_key;
          };
          server = s;
          sent = check_public_key key ∷ [];
          calls = [];
          result = returned accept;
        }))
      ⊎ (((host : Str) → IsKnown fs ca key host → ⊥)
          × (t.handler ≡ h)
          × (t.server ≡ s)
          × (t.result ≢ returned accept))

  named :
      (m : Outcome (Option (Str × HostConfig))) (host : Str)
      → (m >>= λ found. elim found [ some (name, _) ↦ ok (some name) | none ↦ ok none ])
        ≡ ok (some host)
      → (c : HostConfig) × (m ≡ ok (some (host, c)))
  named (ok (some (name, c))) host h = (c, ground arith)
  named (ok none) host h = cc
  named (err e) host h = cc
  named panic host h = cc

  looked_up :
      (fs : Files) (draw : Draw K) (ca : CaServer K) (key : K.PublicKey) (host : Str)
      → or_error (handle_request K fs F ca.ca draw (check_public_key key))
        ≡ ok (key_found (some host))
      → (text : Str) × (K.to_openssh key ≡ ok text)
        × (Authority.check_public_key K fs F ca.ca text ≡ ok (some host))
  unfolding handle_request
  looked_up fs draw ca key host h = ground arith

  pub IsKnown-iff :
      (fs : Files) (draw : Draw K) (ca : CaServer K) (key : K.PublicKey) (host : Str)
      → (or_error (handle_request K fs F ca.ca draw (check_public_key key))
          ≡ ok (key_found (some host)))
        ↔ IsKnown fs ca key host
  unfolding handle_request Authority.check_public_key
  IsKnown-iff fs draw ca key host = (
    λ h.
        let (text, t, found) = looked_up fs draw ca key host h in
        let (c, e) = named (find_config_by_public_key K fs F text ca.ca.config) host found in
        (text, c, t, e),
    λ k. ground arith,
  )

  -- The decision on an answer that came.
  decided :
      (h : ConnectionHandler R) (s : SshCaServer R) (public_key : R.PublicKey) (key : K.PublicKey)
      (resp : CaResponse K) (fs : Files) (draw : Draw K) (ca : CaServer K)
      → or_error (handle_request K fs F ca.ca draw (check_public_key key)) ≡ ok resp
      → Decided h s public_key key fs ca
          (decide_key K R h s public_key (check_public_key key) (key_found_of K R (ok resp)))
  unfolding decide_key key_found_of
  decided h s public_key key (key_found (some host)) fs draw ca a =
      inl (host, (IsKnown-iff fs draw ca key host).0 a, refl)
  decided h s public_key key (key_found none) fs draw ca a =
      inr (λ host k. cc (a, (IsKnown-iff fs draw ca key host).1 k), refl, refl, λ e. cc)
  decided h s public_key key (error m) fs draw ca a =
      inr (λ host k. cc (a, (IsKnown-iff fs draw ca key host).1 k), refl, refl, λ e. cc)
  decided h s public_key key (signed_certificate cert) fs draw ca a =
      inr (λ host k. cc (a, (IsKnown-iff fs draw ca key host).1 k), refl, refl, λ e. cc)

  -- When the request for a key goes through to a CA of the same user, the login by that key does
  -- what a search of the inventory of the CA says: it is accepted for the host that the search
  -- finds, with its name and its key, and it is not accepted, and changes nothing of the
  -- connection, when the search finds none.
  pub auth_publickey-Decided :
      (fs : Files) (draw : Draw K) (ca : CaServer K) (h : ConnectionHandler R) (s : SshCaServer R)
      (user : Str) (public_key : R.PublicKey) (key : K.PublicKey) (resp : CaResponse K)
      → JsonLaws W
      → ComparesBytes W
      → convert_key K R public_key ≡ some key
      → Carries K W F server_uid fs draw ca s.ca_client (check_public_key key) resp
      → Decided h
          (record s { ca_client = record s.ca_client { counter = s.ca_client.counter + 1 } })
          public_key
          key
          fs
          ca
          (auth_publickey K R W (server_socket K W F server_uid fs draw ca) h s user public_key)
  auth_publickey-Decided fs draw ca h s user public_key key resp laws cmp e k =
      let socket = server_socket K W F server_uid fs draw ca in
      let sent =
        send_request-Carries K W F server_uid fs draw ca s.ca_client (check_public_key key) resp
          laws cmp k in
      subst (Decided h _ public_key key fs ca)
        (sym (
          auth_publickey-some K R W socket h s user public_key key e
          ∙ ap
              (λ (x : CaClient × Outcome (CaResponse K)).
                decide_key K R h (record s { ca_client = x.0 }) public_key (check_public_key key)
                  (key_found_of K R x.1))
              sent))
        (decided h _ public_key key resp fs draw ca k.answered)
