-- ===== src/Tests/Visits.antt =====
-- Witnesses about the connections of a server, and about its start.
use ssh_certificate_authorit.Common.{Str, refl, false, none, [], ◌∷◌, ok, arith}
use ssh_certificate_authorit.Ssh.Handler.{SshCaServer, ConnectionHandler, new_server, new_client}
use ssh_certificate_authorit.Ssh.Listening
use ssh_certificate_authorit.Ssh.Listening.{Listener, Served}
use ssh_certificate_authorit.Ssh.Session
use ssh_certificate_authorit.Ssh.Session.{session_opened}
use ssh_certificate_authorit.Ssh.Clients.{
  Site, ids_of, opened, connect, handle, leave, Reach, here, next,
}
use ssh_certificate_authorit.Ssh.Clients.Numbers.{Distinct, Known, keys_of}
use ssh_certificate_authorit.Ssh.Clients.Tidy.{Reach-IsTidy}
use ssh_certificate_authorit.Tests.Toy.{keys, wire}
use ssh_certificate_authorit.Tests.World.{written, client, russh}

abbrev empty : Site russh
empty = opened written.ssh client []

-- The first visitor.
abbrev first : ConnectionHandler russh
first = record { id = 1; username = none; auth_method = none; public_key = none }

abbrev came : SshCaServer russh
came = record empty.server { client_ids = 1 }

-- The first visitor has opened a channel and left, and its entry is still there.
abbrev visited : Site russh
visited = record {
  server = (Session.step keys russh wire first came (session_opened 1 tt)).server;
  slots = record { handler = first; is_live = false } ∷ [];
}

visited_reached : Reach keys russh wire empty visited
unfolding new_client new_server Session.step
visited_reached =
    next (next (next here (connect (omega arith))) (handle first (session_opened 1 tt) [] [] refl))
      (leave first [] [] refl)

Reach-IsTidy_example :
    Distinct (ids_of visited.slots)
    × Known (ids_of visited.slots) visited.server.clients
    × Distinct (keys_of visited.server.clients)
Reach-IsTidy_example = Reach-IsTidy keys russh wire written.ssh client [] visited_reached

-- A key and a certificate are their paths.
abbrev listener : Listener
listener = record {
  PrivateKey = Str;
  Certificate = Str;
  load_secret_key = ok;
  load_openssh_certificate = ok;
  defaults = record {
    inactivity_timeout = none;
    auth_rejection_time = 1;
    auth_rejection_time_initial = none;
    max_auth_attempts = 10;
    methods = [];
    keys = [];
    certificates = [];
  };
  run_on_address = λ _ _. ok tt;
}

run-Served_example : Served listener came (Listening.run listener came)
run-Served_example = Listening.run-Served listener came
