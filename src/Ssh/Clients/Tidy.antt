-- ===== src/Ssh/Clients/Tidy.antt =====
-- The map of clients has one entry at most for each connection, and none for any other.
use ssh_certificate_authorit.Common.{
  ℕ, ◌+◌, ◌^◌, ◌≤◌, ◌≡◌, refl, sym, ap, ◌∙◌, subst, Bool, true, false, List, [], ◌∷◌, ◌++◌, All,
  arith, Str, Bytes, ◌⊎◌, inl, inr, ◌%◌,
}
use ssh_certificate_authorit.Interfaces.{SshKey, Russh}
use ssh_certificate_authorit.Ipc.{Wire}
use ssh_certificate_authorit.Records.{SshServerConfig}
use ssh_certificate_authorit.Identity.{UserAuthenticator}
use ssh_certificate_authorit.Ipc.Client.{CaClient, Socket, send_request}
use ssh_certificate_authorit.Ssh.Signing.{handler_sign_user_key, exec_request}
use ssh_certificate_authorit.Ssh.Handler.{
  SshCaServer, ConnectionHandler, new_client, new_server, drop, without, Turn, auth_password,
  auth_publickey, channel_open_session, decide_key,
}
use ssh_certificate_authorit.Ssh.Session
use ssh_certificate_authorit.Ssh.Session.{
  Event, password_offered, key_offered, session_opened, data_received, exec_requested,
}
use ssh_certificate_authorit.Ssh.Clients.Numbers.{
  Distinct, keys_of, Known, has-without_self, Distinct-without, Known-without, has-mid,
  has-drop_mid, Distinct-drop_mid, All-drop_mid, has-above, All-suc, Known-cons,
}
use ssh_certificate_authorit.Ssh.Clients.{
  Slot, Site, ids_of, opened, Step, connect, handle, leave, remove, Reach, here, next,
}

ids_of-append :
    {R : Russh} (before after : List (Slot R))
    → ids_of (before ++ after) ≡ ids_of before ++ ids_of after
ids_of-append [] after = refl
ids_of-append (s ∷ before) after = ap (λ l. s.handler.id ∷ l) (ids_of-append before after)

module _ (K : SshKey) (R : Russh) (W : Wire K) where
  -- A call keeps the number of its connection and the counter of the server, and changes the map at
  -- its own number only.
  abbrev pub Keeps : {A : Type 0} → ConnectionHandler R → SshCaServer R → Turn K R A → Type 0
  Keeps h s t =
      (t.handler.id ≡ h.id) × (t.server.client_ids ≡ s.client_ids) × (t.server.clients ≡ s.clients)

  auth_password-Keeps :
      (h : ConnectionHandler R) (s : SshCaServer R) (user pass : Str)
      → Keeps h s (auth_password K R h s user pass)
  unfolding auth_password
  auth_password-Keeps h s user pass = ground arith

  auth_publickey-Keeps :
      (h : ConnectionHandler R) (s : SshCaServer R) (socket : Socket) (user : Str)
      (key : R.PublicKey)
      → Keeps h s (auth_publickey K R W socket h s user key)
  unfolding auth_publickey decide_key send_request
  auth_publickey-Keeps h s socket user key = ground arith

  data-Keeps :
      (h : ConnectionHandler R) (s : SshCaServer R) (socket : Socket) (channel : R.ChannelId)
      (bytes : Bytes)
      → Keeps h s (handler_sign_user_key K R W socket h s channel bytes)
  unfolding handler_sign_user_key
  data-Keeps h s socket channel bytes = ground arith

  exec-Keeps :
      (h : ConnectionHandler R) (s : SshCaServer R) (socket : Socket) (channel : R.ChannelId)
      (bytes : Bytes)
      → Keeps h s (exec_request K R W socket h s channel bytes)
  unfolding exec_request
  exec-Keeps h s socket channel bytes = ground arith

  -- What the map is after a call: the same, or with an entry of the connection in front.
  pub step-Keeps :
      (h : ConnectionHandler R) (s : SshCaServer R) (e : Event R)
      → ((Session.step K R W h s e).handler.id ≡ h.id)
        × ((Session.step K R W h s e).server.client_ids ≡ s.client_ids)
        × (((Session.step K R W h s e).server.clients ≡ s.clients)
            ⊎ ((entry : R.ChannelId × R.Handle) × ((Session.step K R W h s e).server.clients
                  ≡ (h.id, entry) ∷ without h.id s.clients)))
  unfolding Session.step channel_open_session
  step-Keeps h s (password_offered user pass) =
      let (i, c, m) = auth_password-Keeps h s user pass in (i, c, inl m)
  step-Keeps h s (key_offered socket user key) =
      let (i, c, m) = auth_publickey-Keeps h s socket user key in (i, c, inl m)
  step-Keeps h s (session_opened channel x) = (refl, refl, inr ((channel, x), refl))
  step-Keeps h s (data_received socket channel bytes) =
      let (i, c, m) = data-Keeps h s socket channel bytes in (i, c, inl m)
  step-Keeps h s (exec_requested socket channel bytes) =
      let (i, c, m) = exec-Keeps h s socket channel bytes in (i, c, inl m)

  -- The invariant, of the numbers of the connections, the counter and the map.
  abbrev TidyAt : List ℕ → ℕ → List (ℕ × (R.ChannelId × R.Handle)) → Type 0
  TidyAt ids n clients =
      All (λ x. x ≤ n) ids × Distinct ids × Known ids clients × Distinct (keys_of clients)

  abbrev pub IsTidy : Site R → Type 0
  IsTidy t = TidyAt (ids_of t.slots) t.server.client_ids t.server.clients

  TidyAt-open :
      (before after : List ℕ) (id n : ℕ) (entry : R.ChannelId × R.Handle)
      (clients : List (ℕ × (R.ChannelId × R.Handle)))
      → TidyAt (before ++ id ∷ after) n clients
      → TidyAt (before ++ id ∷ after) n ((id, entry) ∷ without id clients)
  TidyAt-open before after id n entry clients h = (
    h.0,
    h.1,
    (
      has-mid id before after,
      Known-without id (before ++ id ∷ after) (before ++ id ∷ after) clients (λ j e k. k) h.2,
    ),
    (has-without_self id clients, Distinct-without id clients h.3),
  )

  TidyAt-remove :
      (before after : List ℕ) (id n : ℕ) (clients : List (ℕ × (R.ChannelId × R.Handle)))
      → TidyAt (before ++ id ∷ after) n clients
      → TidyAt (before ++ after) n (without id clients)
  TidyAt-remove before after id n clients h = (
    All-drop_mid n id before after h.0,
    Distinct-drop_mid id before after h.1,
    Known-without id (before ++ id ∷ after) (before ++ after) clients (has-drop_mid id before after)
        h.2,
    Distinct-without id clients h.3,
  )

  TidyAt-step :
      (before after : List ℕ) (id n : ℕ) (clients : List (ℕ × (R.ChannelId × R.Handle))) {n' : ℕ}
      {clients' : List (ℕ × (R.ChannelId × R.Handle))}
      → n' ≡ n
      → (clients' ≡ clients)
        ⊎ ((entry : R.ChannelId × R.Handle) × (clients' ≡ (id, entry) ∷ without id clients))
      → TidyAt (before ++ id ∷ after) n clients
      → TidyAt (before ++ id ∷ after) n' clients'
  TidyAt-step before after id n clients e (inl m) h =
      subst (λ (p : ℕ × List (ℕ × (R.ChannelId × R.Handle))). TidyAt (before ++ id ∷ after) p.0 p.1)
        (λ i. (sym e i, sym m i)) h
  TidyAt-step before after id n clients e (inr (entry, m)) h =
      subst (λ (p : ℕ × List (ℕ × (R.ChannelId × R.Handle))). TidyAt (before ++ id ∷ after) p.0 p.1)
        (λ i. (sym e i, sym m i)) (TidyAt-open before after id n entry clients h)

  ids_of-mid :
      (before after : List (Slot R)) (h : ConnectionHandler R) (live : Bool)
      → ids_of (before ++ record { handler = h; is_live = live } ∷ after)
        ≡ ids_of before ++ h.id ∷ ids_of after
  ids_of-mid before after h live =
      ids_of-append before (record { handler = h; is_live = live } ∷ after)

  Step-IsTidy : {t u : Site R} → Step K R W t u → IsTidy t → IsTidy u
  unfolding new_client drop
  Step-IsTidy {t} (connect room) h =
      let n = t.server.client_ids in
      let e : (n + 1) % 2 ^ 64 ≡ n + 1 = omega arith in
      subst (λ m. TidyAt (m ∷ ids_of t.slots) m t.server.clients) (sym e)
        (
          (omega arith, All-suc n (ids_of t.slots) h.0),
          (has-above n (ids_of t.slots) h.0, h.1),
          Known-cons (n + 1) (ids_of t.slots) t.server.clients h.2,
          h.3,
        )
  Step-IsTidy {t} (handle c e before after q) h =
      let k = step-Keeps c t.server e in
      let at =
        subst (λ ids. TidyAt ids t.server.client_ids t.server.clients)
          (ap ids_of q ∙ ids_of-mid before after c true) h in
      let ids =
        ids_of-mid before after (Session.step K R W c t.server e).handler true
        ∙ ap (λ id. ids_of before ++ id ∷ ids_of after) k.0 in
      subst
        (λ l.
          TidyAt l (Session.step K R W c t.server e).server.client_ids
            (Session.step K R W c t.server e).server.clients)
        (sym ids)
        (TidyAt-step (ids_of before) (ids_of after) c.id t.server.client_ids t.server.clients k.1
          k.2 at)
  Step-IsTidy {t} (leave c before after q) h =
      subst (λ ids. TidyAt ids t.server.client_ids t.server.clients)
        (ap ids_of q ∙ ids_of-mid before after c true ∙ sym (ids_of-mid before after c false)) h
  Step-IsTidy {t} (remove c before after q) h =
      subst (λ ids. TidyAt ids t.server.client_ids (without c.id t.server.clients))
        (sym (ids_of-append before after))
        (TidyAt-remove (ids_of before) (ids_of after) c.id t.server.client_ids t.server.clients (
          subst (λ ids. TidyAt ids t.server.client_ids t.server.clients)
            (ap ids_of q ∙ ids_of-mid before after c false) h))

  Reach-Tidy : {s t : Site R} → Reach K R W s t → IsTidy s → IsTidy t
  Reach-Tidy here h = h
  Reach-Tidy (next r st) h = Step-IsTidy st (Reach-Tidy r h)

  -- From a new server on, however connections come, are handled and end, and as long as fewer than
  -- 2 ^ 64 have come: no two connections have the same number, the map of clients has at most one
  -- entry for a number, and each entry is that of a connection whose removal has not run yet.
  pub Reach-IsTidy :
      (config : SshServerConfig) (ca_client : CaClient)
      (user_authenticators : List UserAuthenticator) {t : Site R}
      → Reach K R W (opened config ca_client user_authenticators) t
      → Distinct (ids_of t.slots)
        × Known (ids_of t.slots) t.server.clients
        × Distinct (keys_of t.server.clients)
  unfolding new_server
  Reach-IsTidy config ca_client user_authenticators r =
      let h = Reach-Tidy r (tt, tt, tt, tt) in (h.1, h.2, h.3)
