-- ===== src/Lib.antt =====
-- The SSH certificate authority (src/): a model of the program and the theorems about it.
--
-- The program is two processes. The SSH server (src/ssh_server) authenticates users by password and
-- hosts by key, and turns what they send into requests. The CA process (src/certificat_authority)
-- has the private key; it takes the requests over a Unix socket, reads the configuration of the
-- user or the host, and signs a certificate. Each request has a token that both processes know and
-- a counter that must grow.
--
-- Files and code:
-- - Ssh: src/ssh_server. Ssh/Names has validate_username, parse_exec_command and validate_hostname;
--   Ssh/Handler the state of a connection and of the server, and auth_password, auth_publickey,
--   channel_open_session and drop; Ssh/Signing send_cert_and_close, handle_sign_host_key,
--   handler_sign_user_key and exec_request; Ssh/Session the calls that russh makes on one handler,
--   in any order; Ssh/Clients all connections of a server and the map that it keeps of them;
--   Ssh/Listening the run of SshCaServer.
-- - Identity: src/identiy_handlers, the PAM authenticator and what sets it up.
-- - Ipc: the messages of src/certificat_authority/mod.rs and their frames. Ipc/Client is
--   ca_client.rs: send_request, in the parts fetch_add, checked_add_one, frame and read_response.
--   Ipc/Server is ca_server.rs: handle_request, and the loop of run, in the parts read_message,
--   authenticate, respond and writes_of; Ipc/Server/Binding is the start of run. Ipc/Traffic has the
--   requests that are under way at one time: connections that wait, numbers that are drawn, and
--   requests that are read.
-- - EndToEnd: the SSH server, the client, the CA server and the CA together; EndToEnd/Vouched follows
--   what a client is sent back to the login and the certificate it comes from, EndToEnd/Visits a
--   whole visit, and EndToEnd/Conversation the requests of a client from the startup on.
-- - Authority: CertificateAuthority of src/certificat_authority/mod.rs.
-- - Inventory: host_config_reader.rs. UserTemplates: user_defaults_reader.rs.
--   CertificateTemplates: certificat_template_reader.rs, which is not compiled. Records: the structs
--   that are read from files.
-- - Config: src/config/mod.rs, read_config and the resolution of relative paths.
-- - Startup: run_server of src/lib.rs, as the list of what it does; Startup/Main is src/main.rs. The
--   feature test_auth is in Startup/Main and Ssh/Handler/TestAuth.
-- - Fuzz: fuzz/fuzz_targets, the nine targets as functions of what the fuzzer makes.
-- - UnitTests: the unit tests in the sources, as functions that panic where an assertion fails.
-- - Interfaces: what the program takes from the crates ssh-key, russh, toml, minijinja, glob,
--   serde_json and subtle, and from the file system and the clock. They are parameters. What is
--   relied on of them is in BuilderLaws, JsonLaws, ShortTexts and ComparesBytes, and where a lemma
--   is about panics, in CalmKeys, CalmFiles, CalmFormats, CalmClock and CalmWire.
-- - Common, Text, FilePath, Errors: results, strings and their UTF-8, Unix paths as std::path reads
--   them, and the texts of errors.
-- - Tests: stand-ins for the parameters, and runs of the model on them.
--
-- Conventions. A fallible function gives an Outcome: a value, an error, or a panic. A string is the
-- list of its characters, a path its text. Integers are natural numbers with the wrap-around of
-- their width written out. A handler of the SSH server gives a Turn: the new state, the requests it
-- sent, the calls on the session, and its result. Loops are recursive on the list they go through;
-- the decimal digits of a number are computed on a fuel of 20, which a number below 2 ^ 64 does not
-- use up.
--
-- Not modelled: logging; the parsing of the arguments of the command line; the
-- integration tests, scripts and packaging. A call on a handler, with the request that it sends,
-- is one step; how requests interleave on the way is in Ipc/Traffic, for the numbers and the checks
-- on them only. A path is a text, so the panics of to_str().unwrap() on a path that is not UTF-8 are
-- left out. A connection to the CA server is what its peer sends before it closes: one that neither
-- sends nor closes, for which the server waits without end, is not an event. Arithmetic wraps
-- around, as in a release build.
pub mod Common
pub mod Text
pub mod Errors
pub mod FilePath
pub mod Records
pub mod Interfaces
pub mod Config
pub mod Inventory
pub mod UserTemplates
pub mod CertificateTemplates
pub mod Authority
pub mod Ipc
pub mod Identity
pub mod Ssh
pub mod EndToEnd
pub mod Fuzz
pub mod Startup
pub mod UnitTests
pub mod Tests
