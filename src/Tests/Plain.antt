-- ===== src/Tests/Plain.antt =====
-- A second stand-in for the key library, in which a certificate is the number of its key, so that
-- all messages have a text: a tag, the number, and the name with its length.
use ssh_certificate_authorit.Common.{
  ℕ, ◌≡◌, refl, sym, ap, ◌∙◌, none, some, [], ◌∷◌, ◌++◌, Str, Outcome, ok, err, foreign,
  if◌then◌else◌, ◌==◌, arith, length, take, drop, take-append, drop-append,
}
use ssh_certificate_authorit.Text.{codes, str_eq, str_eq_iff}
use ssh_certificate_authorit.Text.Utf8.{IsText}
use ssh_certificate_authorit.Interfaces.{SshKey, Draw}
use ssh_certificate_authorit.Authority.{CertificateAuthority}
use ssh_certificate_authorit.Ipc.{
  CaRequest, CaResponse, AuthenticatedRequest, Wire, JsonLaws, ComparesBytes, sign_certificate,
  check_public_key, sign_host_certificate, signed_certificate, error, key_found,
}
use ssh_certificate_authorit.Ipc.Server.{CaServer}
use ssh_certificate_authorit.Tests.Toy
use ssh_certificate_authorit.Tests.Toy.{low_text, low_text-ok}
use ssh_certificate_authorit.Tests.World

abbrev pub keys : SshKey
keys = record Toy.keys {
  Certificate = ℕ;
  Builder = ℕ;
  cert_to_openssh = λ c. ok (c ∷ []);
  new_with_random_nonce = λ n k a b. ok k;
  serial = λ b n. ok b;
  key_id = λ b s. ok b;
  cert_type = λ b t. ok b;
  comment = λ b s. ok b;
  extension = λ b name value. ok b;
  valid_principal = λ b p. b;
  sign = λ b _. ok b;
}

abbrev request_text : AuthenticatedRequest keys → Outcome Str
request_text r = elim r.request [
  | check_public_key k ↦ low_text (r.counter ∷ 0 ∷ k ∷ 0 ∷ r.token)
  | sign_certificate u k ↦ low_text (r.counter ∷ 1 ∷ k ∷ length u ∷ u ++ r.token)
  | sign_host_certificate h k ↦ low_text (r.counter ∷ 2 ∷ k ∷ length h ∷ h ++ r.token)
]

abbrev tagged : ℕ → ℕ → Str → CaRequest keys
tagged tag key name =
    if tag == 0
    then check_public_key key
    else if tag == 1
    then sign_certificate name key
    else sign_host_certificate name key

abbrev request_of : Str → Outcome (AuthenticatedRequest keys)
request_of (counter ∷ tag ∷ key ∷ n ∷ rest) =
    ok (record { token = drop n rest; counter = counter; request = tagged tag key (take n rest) })
request_of _ = err (foreign (codes "not a request"))

abbrev response_text : CaResponse keys → Outcome Str
response_text (signed_certificate c) = low_text (3 ∷ c ∷ [])
response_text (error s) = low_text (0 ∷ s)
response_text (key_found none) = low_text (1 ∷ [])
response_text (key_found (some h)) = low_text (2 ∷ h)

abbrev first_or_zero : Str → ℕ
first_or_zero [] = 0
first_or_zero (c ∷ _) = c

abbrev response_of : Str → Outcome (CaResponse keys)
response_of [] = err (foreign (codes "not a response"))
response_of (tag ∷ s) =
    if tag == 0
    then ok (error s)
    else if tag == 1
    then ok (key_found none)
    else if tag == 2
    then ok (key_found (some s))
    else ok (signed_certificate (first_or_zero s))

abbrev pub wire : Wire keys
wire = record {
  request_to_string = request_text;
  request_from_str = request_of;
  response_to_string = response_text;
  response_from_str = response_of;
  ct_eq = str_eq;
}

-- A name in front of a token is taken off it.
named_back :
    (counter key : ℕ) (name token : Str) (request : ℕ → Str → CaRequest keys)
    → ◌≡◌ {A = AuthenticatedRequest keys}
        (record {
          token = drop (length name) (name ++ token);
          counter = counter;
          request = request key (take (length name) (name ++ token));
        })
        (record { token = token; counter = counter; request = request key name })
named_back counter key name token request = λ i. record {
  token = drop-append name token i;
  counter = counter;
  request = request key (take-append name token i);
}

request_both :
    (r : AuthenticatedRequest keys) {s : Str}
    → request_text r ≡ ok s
    → IsText s × (request_of s ≡ ok r)
request_both r {s} h = of r.request refl
  where
    of : (q : CaRequest keys) → r.request ≡ q → IsText s × (request_of s ≡ ok r)
    of (check_public_key k) e =
        let (same, t) = low_text-ok (r.counter ∷ 0 ∷ k ∷ 0 ∷ r.token) (ground arith) in
        (t, ap request_of same ∙ ap (λ q. ok (record r { request = q })) (sym e))
    of (sign_certificate u k) e =
        let (same, t) = low_text-ok (r.counter ∷ 1 ∷ k ∷ length u ∷ u ++ r.token) (ground arith) in
        (
          t,
          ap request_of same
              ∙ ap ok (named_back r.counter k u r.token (λ key name. sign_certificate name key))
              ∙ ap (λ q. ok (record r { request = q })) (sym e),
        )
    of (sign_host_certificate u k) e =
        let (same, t) = low_text-ok (r.counter ∷ 2 ∷ k ∷ length u ∷ u ++ r.token) (ground arith) in
        (
          t,
          ap request_of same
              ∙ ap ok
                  (named_back r.counter k u r.token (λ key name. sign_host_certificate name key))
              ∙ ap (λ q. ok (record r { request = q })) (sym e),
        )

response_both :
    (r : CaResponse keys) {s : Str} → response_text r ≡ ok s → IsText s × (response_of s ≡ ok r)
response_both (signed_certificate c) h =
    let (same, t) = low_text-ok (3 ∷ c ∷ []) h in (t, ap response_of same)
response_both (error m) h = let (same, t) = low_text-ok (0 ∷ m) h in (t, ap response_of same)
response_both (key_found none) h =
    let (same, t) = low_text-ok (1 ∷ []) h in (t, ap response_of same)
response_both (key_found (some m)) h =
    let (same, t) = low_text-ok (2 ∷ m) h in (t, ap response_of same)

pub wire_laws : JsonLaws wire
wire_laws = record {
  request_text = λ r h. (request_both r h).0;
  request_back = λ r h. (request_both r h).1;
  response_text = λ r h. (response_both r h).0;
  response_back = λ r h. (response_both r h).1;
}

pub wire_compares : ComparesBytes wire
wire_compares = str_eq_iff

abbrev pub authority : CertificateAuthority keys
authority = record { private_key = codes "secret"; config = World.settings }

abbrev pub draw : Draw keys
draw = record { first_clock = some 1000; second_clock = some 1001; nonce = 5; serial = 6 }

abbrev pub server : CaServer keys
server = record {
  socket_path = codes "/run/ca";
  ca = authority;
  auth_token = codes "token";
  last_counter = 2;
}
