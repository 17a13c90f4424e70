-- ===== src/Ssh/Clients/Logins.antt =====
-- Whom the connections of a server belong to, whatever the others do.
use ssh_certificate_authorit.Common.{
  ℕ, ◌%◌, ◌^◌, ◌+◌, ◌≡◌, refl, sym, subst, true, false, List, ◌∷◌, ◌++◌, All, All-append, All-split,
}
use ssh_certificate_authorit.Interfaces.{SshKey, Russh}
use ssh_certificate_authorit.Ipc.{Wire}
use ssh_certificate_authorit.Records.{SshServerConfig}
use ssh_certificate_authorit.Identity.{UserAuthenticator}
use ssh_certificate_authorit.Ipc.Client.{CaClient}
use ssh_certificate_authorit.Ssh.Handler.{new_client, new_server, drop}
use ssh_certificate_authorit.Ssh.Session
use ssh_certificate_authorit.Ssh.Session.{Event}
use ssh_certificate_authorit.Ssh.Session.Legit.{IsSound}
use ssh_certificate_authorit.Ssh.Session.Requests.{step-Keeps, new_client-IsSound}
use ssh_certificate_authorit.Ssh.Clients.Tidy
use ssh_certificate_authorit.Ssh.Clients.{
  Slot, Site, opened, Step, connect, handle, leave, remove, handled, Reach, here, next, history,
}

module _ (K : SshKey) (R : Russh) (W : Wire K) (auths : List UserAuthenticator)
    (P : ℕ → Event R → Type 0) where
  -- The login of a connection comes from a call on that connection.
  abbrev pub OwnLogin : Slot R → Type 0
  OwnLogin slot = IsSound K R W auths (P slot.handler.id) slot.handler

  pub record HasLogins (t : Site R) : Type 0 where
    pub authenticators : t.server.user_authenticators ≡ auths
    pub logins : All OwnLogin t.slots

  pub mid-OwnLogin :
      {t : Site R} (slot : Slot R) (before after : List (Slot R))
      → t.slots ≡ before ++ slot ∷ after
      → HasLogins t
      → All OwnLogin before × OwnLogin slot × All OwnLogin after
  mid-OwnLogin slot before after q h =
      let (b, a) = All-split OwnLogin before (slot ∷ after) (subst (All OwnLogin) q h.logins) in
      (b, a.0, a.1)

  Step-HasLogins :
      {t u : Site R} (st : Step K R W t u)
      → All (λ (x : ℕ × Event R). P x.0 x.1) (handled K R W st)
      → HasLogins t
      → HasLogins u
  unfolding new_client drop
  Step-HasLogins {t} (connect room) p h = record {
    authenticators = h.authenticators;
    logins = (
      new_client-IsSound K R W auths (P ((t.server.client_ids + 1) % 2 ^ 64)) t.server,
      h.logins,
    );
  }
  Step-HasLogins {t} (handle c e before after q) p h =
      let (b, own, a) = mid-OwnLogin (record { handler = c; is_live = true }) before after q h in
      let k = step-Keeps K R W auths (P c.id) c t.server e h.authenticators own p.0 in
      let same = (Tidy.step-Keeps K R W c t.server e).0 in
      record {
        authenticators = k.authenticators;
        logins = All-append OwnLogin before _ b (
          subst (λ id. IsSound K R W auths (P id) (Session.step K R W c t.server e).handler)
              (sym same) k.sound,
          a,
        );
      }
  Step-HasLogins (leave c before after q) p h =
      let (b, own, a) = mid-OwnLogin (record { handler = c; is_live = true }) before after q h in
      record { authenticators = h.authenticators; logins = All-append OwnLogin before _ b (own, a) }
  Step-HasLogins (remove c before after q) p h =
      let (b, own, a) = mid-OwnLogin (record { handler = c; is_live = false }) before after q h in
      record { authenticators = h.authenticators; logins = All-append OwnLogin before after b a }

  Reach-HasLogins :
      {s t : Site R} (r : Reach K R W s t)
      → All (λ (x : ℕ × Event R). P x.0 x.1) (history K R W r)
      → HasLogins s
      → HasLogins t
  unfolding history
  Reach-HasLogins here p h = h
  Reach-HasLogins (next r st) p h =
      let (now, before) =
        All-split (λ (x : ℕ × Event R). P x.0 x.1) (handled K R W st) (history K R W r) p in
      Step-HasLogins st now (Reach-HasLogins r before h)

  pub opened-HasLogins :
      (config : SshServerConfig) (ca_client : CaClient) {t : Site R}
      (r : Reach K R W (opened config ca_client auths) t)
      → All (λ (x : ℕ × Event R). P x.0 x.1) (history K R W r)
      → HasLogins t
  unfolding new_server
  opened-HasLogins config ca_client r p =
      Reach-HasLogins r p (record { authenticators = refl; logins = tt })
