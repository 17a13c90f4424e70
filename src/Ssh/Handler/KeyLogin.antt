-- ===== src/Ssh/Handler/KeyLogin.antt =====
-- Who is logged in by a key.
use ssh_certificate_authorit.Common.{◌≡◌, none, some, [], Str}
use ssh_certificate_authorit.Interfaces.{SshKey, Russh}
use ssh_certificate_authorit.Ipc.{Wire, check_public_key}
use ssh_certificate_authorit.Ipc.Client.{Socket, send_request}
use ssh_certificate_authorit.Ssh.Handler.{
  SshCaServer, ConnectionHandler, panicked, auth_publickey, convert_key, key_found_of, decide_key,
}

pub auth_publickey-none :
    (K : SshKey) (R : Russh) (W : Wire K) (socket : Socket) (h : ConnectionHandler R)
    (s : SshCaServer R) (user : Str) (public_key : R.PublicKey)
    → convert_key K R public_key ≡ none
    → auth_publickey K R W socket h s user public_key
      ≡ record { handler = h; server = s; sent = []; calls = []; result = panicked }
unfolding auth_publickey
auth_publickey-none K R W socket h s user public_key e = rw (e, auth_publickey)

pub auth_publickey-some :
    (K : SshKey) (R : Russh) (W : Wire K) (socket : Socket) (h : ConnectionHandler R)
    (s : SshCaServer R) (user : Str) (public_key : R.PublicKey) (key : K.PublicKey)
    → convert_key K R public_key ≡ some key
    → auth_publickey K R W socket h s user public_key ≡ (
        let (ca_client, answer) = send_request K W s.ca_client socket (check_public_key key) in
        decide_key K R h
          (record s { ca_client = ca_client })
          public_key
          (check_public_key key)
          (key_found_of K R answer))
unfolding auth_publickey
auth_publickey-some K R W socket h s user public_key key e = rw (e, auth_publickey)
