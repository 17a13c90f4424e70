-- ===== src/Ssh.antt =====
-- src/ssh_server: the SSH server, its connections and its start.
pub mod Names
pub mod Handler
pub mod Listening
pub mod Clients
pub mod Signing
pub mod Session
