-- ===== src/EndToEnd/Conversation.antt =====
-- The client of the SSH server and the CA server over many requests, from the start of both on.
use ssh_certificate_authorit.Common.{
  ℕ, ◌+◌, ◌^◌, ◌<◌, ◌≤◌, ◌≡◌, refl, ap, ◌∙◌, false, true, Option, none, some, List, [], ◌∷◌, map,
  Str, Bytes, Outcome, ok, err, panic, arith, length, lt→ltb,
}
use ssh_certificate_authorit.FilePath.{FilePath}
use ssh_certificate_authorit.Startup.{CliArgs, System, child_args, run_server, with_token_extension}
use ssh_certificate_authorit.Startup.Sharing.{
  ssh_started, ca_spawned, ca_started, token_written, run_server-shared,
}
use ssh_certificate_authorit.Ipc.Client
use ssh_certificate_authorit.Ipc.Server
use ssh_certificate_authorit.Interfaces.{Files, SshKey, Formats, Draw}
use ssh_certificate_authorit.Authority.{CertificateAuthority}
use ssh_certificate_authorit.Ipc.{CaRequest, CaResponse, Wire, JsonLaws, ComparesBytes}
use ssh_certificate_authorit.Ipc.Client.{CaClient, frame, checked_add_one, send_request}
use ssh_certificate_authorit.Ipc.Client.Exchange.{
  FitsMessage, message, connection, server_socket, next_request, frame-message, send_request-serve,
}
use ssh_certificate_authorit.Ipc.Server.{CaServer, handle_request, or_error, serve}

-- A request, with the files and the random values that the CA meets when it serves it.
pub record Job (K : SshKey) : Type 0 where
  pub fs : Files
  pub draw : Draw K
  pub request : CaRequest K

module _ (K : SshKey) (W : Wire K) (F : Formats) (server_uid : ℕ) where
  -- The CA answers the request, sent with this token and number, and both texts fit a message.
  pub record IsAnswered (ca : CertificateAuthority K) (token : Str) (n : ℕ) (job : Job K)
      (resp : CaResponse K) : Type 0 where
    pub request_json : Str
    pub request_text :
        W.request_to_string (record { token = token; counter = n; request = job.request })
        ≡ ok request_json
    pub request_fits : FitsMessage request_json
    pub answered : or_error (handle_request K job.fs F ca job.draw job.request) ≡ ok resp
    pub response_json : Str
    pub response_text : W.response_to_string resp ≡ ok response_json
    pub response_fits : FitsMessage response_json

  -- The same for requests that are numbered in turn.
  abbrev pub AreAnswered :
      CertificateAuthority K → Str → ℕ → List (Job K) → List (CaResponse K) → Type 0
  AreAnswered ca token n [] [] = Unit
  AreAnswered ca token n [] (resp ∷ resps) = ⊥
  AreAnswered ca token n (job ∷ jobs) [] = ⊥
  AreAnswered ca token n (job ∷ jobs) (resp ∷ resps) =
      IsAnswered ca token n job resp × AreAnswered ca token (n + 1) jobs resps

  abbrev state_after : CaServer K → Outcome (CaServer K × List Bytes) → CaServer K
  state_after s (ok out) = out.0
  state_after s (err e) = s
  state_after s panic = s

  -- What is written: nothing, if there is an error.
  abbrev written : Outcome Bytes → Bytes
  written (ok bytes) = bytes
  written (err e) = []
  written panic = []

  -- The bytes of the next request; nothing, if it has no number.
  abbrev framed : CaClient → CaRequest K → Option ℕ → Bytes
  framed c request none = []
  framed c request (some n) =
      written (frame K W (record { token = c.auth_token; counter = n; request = request }))

  -- The server after the connection with these bytes.
  abbrev served : Files → Draw K → CaServer K → Bytes → CaServer K
  served fs draw s bytes =
      state_after s (serve K W F server_uid fs draw s (connection K W F server_uid bytes))

  -- The client sends its requests one after the other, and the server serves each.
  pub exchange : CaClient → CaServer K → List (Job K) → List (Outcome (CaResponse K))
  exchange c s [] = []
  exchange c s (job ∷ jobs) =
      let (c', out) =
        send_request K W c (server_socket K W F server_uid job.fs job.draw s) job.request in
      let s' = served job.fs job.draw s (framed c job.request (checked_add_one c.counter)) in
      out ∷ exchange c' s' jobs

  framed-message :
      (c : CaClient) (request : CaRequest K) (text : Str)
      → c.counter + 1 < 2 ^ 64
      → W.request_to_string (next_request K W F server_uid c request) ≡ ok text
      → FitsMessage text
      → framed c request (checked_add_one c.counter) ≡ message text
  unfolding checked_add_one
  framed-message c request text u e f = rw (lt→ltb (c.counter + 1) (2 ^ 64) u) (
      ap written
        (frame-message K W F server_uid (next_request K W F server_uid c request) text e f))

  -- When serde_json and subtle do what they document, a client with the token of the server, and a
  -- counter that is not behind and has room for all requests, gets for each of its requests in turn
  -- the answer of the CA, if the CA answers each and all the texts fit a message.
  pub exchange-AreAnswered :
      (c : CaClient) (s : CaServer K) (jobs : List (Job K)) (resps : List (CaResponse K))
      → JsonLaws W
      → ComparesBytes W
      → c.auth_token ≡ s.auth_token
      → s.last_counter ≤ c.counter
      → c.counter + length jobs < 2 ^ 64
      → AreAnswered s.ca c.auth_token (c.counter + 1) jobs resps
      → exchange c s jobs ≡ map ok resps
  unfolding exchange
  exchange-AreAnswered c s [] [] laws cmp t n u h = refl
  exchange-AreAnswered c s [] (resp ∷ resps) laws cmp t n u h = absurd h
  exchange-AreAnswered c s (job ∷ jobs) [] laws cmp t n u h = absurd h
  exchange-AreAnswered c s (job ∷ jobs) (resp ∷ resps) laws cmp t n u (a, h) =
      let room : c.counter + 1 < 2 ^ 64 = omega arith in
      let (sent, done) =
        send_request-serve K W F server_uid job.fs job.draw s c job.request resp a.request_json
          a.response_json laws cmp t n room a.request_text a.request_fits a.answered a.response_text
          a.response_fits in
      let bytes = framed-message c job.request a.request_json room a.request_text a.request_fits in
      let s' = served job.fs job.draw s (framed c job.request (checked_add_one c.counter)) in
      let after : s' ≡ record s { last_counter = c.counter + 1 } =
        ap (served job.fs job.draw s) bytes ∙ ap (state_after s) done in
      let rest =
        exchange-AreAnswered (record c { counter = c.counter + 1 })
          (record s { last_counter = c.counter + 1 }) jobs resps laws cmp t (omega arith)
          (omega arith) h in
      ap (λ p. p.1 ∷ exchange p.0 s' jobs) sent
      ∙ ap (λ l. ok resp ∷ l)
          (ap (λ x. exchange (record c { counter = c.counter + 1 }) x jobs) after ∙ rest)

  -- When the SSH server is started by a run that is to spawn the CA, then a child whose
  -- configuration and key can be read, that reads from a file the token written to it and can
  -- delete it, starts the CA, and the new client of the one gets from the new server of the other,
  -- for each of less than 2 ^ 64 requests sent in turn, the answer of the CA, if the CA answers each
  -- and all the texts fit a message, serde_json and subtle doing what they document.
  pub run_server-answers :
      (sys child : System) (args : CliArgs) (socket : FilePath) (token : Str)
      (ca : CertificateAuthority K) (jobs : List (Job K)) (resps : List (CaResponse K))
      → args.disable_ca ≡ false
      → ssh_started (run_server sys args).0 ≡ some (socket, token)
      → child.config ≡ ok tt
      → ((path : FilePath) (t : Str)
          → token_written (run_server sys args).0 ≡ some (path, t)
          → (child.read_to_string path ≡ ok t) × (child.remove_file path ≡ true))
      → child.authority ≡ ok tt
      → JsonLaws W
      → ComparesBytes W
      → length jobs < 2 ^ 64
      → AreAnswered ca token 1 jobs resps
      → (path : FilePath) × (ca_token : Str) × (ca_spawned (run_server sys args).0
          ≡ some (socket, path))
        × (ca_started (run_server child (child_args args.config_file socket path)).0
            ≡ some (socket, ca_token))
        × (exchange (Client.new socket token) (Server.new socket ca ca_token) jobs ≡ map ok resps)
  unfolding Client.new Server.new
  run_server-answers sys child args socket token ca jobs resps a h c f k laws cmp u answers =
      let (spawned, started) = run_server-shared sys child args socket token a h c f k in
      (
        with_token_extension socket,
        token,
        spawned,
        ap ca_started started,
        exchange-AreAnswered (Client.new socket token) (Server.new socket ca token) jobs resps laws
            cmp refl (omega arith) (omega arith) answers,
      )
