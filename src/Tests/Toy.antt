-- ===== src/Tests/Toy.antt =====
-- Small stand-ins for the libraries, at which the model runs: a key is a number, a text of a key is
-- its number as a character, and a certificate is the record of its fields.
use ssh_certificate_authorit.Common.{
  ℕ, ◌≡◌, refl, sym, ap, Bool, true, Option, none, some, List, [], ◌∷◌, ◌++◌, Str, Bytes, Outcome,
  ok, err, panic, foreign, if◌then◌else◌, ltb, all, arith, ◌==◌, ◌∙◌,
}
use ssh_certificate_authorit.Text.{codes, str_eq, str_eq_iff}
use ssh_certificate_authorit.Text.Utf8.{IsText}
use ssh_certificate_authorit.Interfaces.{SshKey, CertType, user, CertFields, BuilderLaws}
use ssh_certificate_authorit.Ipc.{
  CaRequest, CaResponse, AuthenticatedRequest, Wire, JsonLaws, ComparesBytes, sign_certificate,
  check_public_key, sign_host_certificate, signed_certificate, error, key_found,
}

pub record Fields : Type 0 where
  pub key : ℕ
  pub valid_after : ℕ
  pub valid_before : ℕ
  pub serial : ℕ
  pub key_id : Str
  pub cert_type : CertType
  pub principals : List Str
  pub comment : Str
  pub extensions : Str → Option Str

abbrev first_char : Str → Outcome ℕ
first_char [] = err (foreign (codes "empty"))
first_char (c ∷ _) = ok c

abbrev pub keys : SshKey
keys = record {
  PublicKey = ℕ;
  KeyData = ℕ;
  PrivateKey = Bytes;
  Certificate = Fields;
  Builder = Fields;
  Nonce = ℕ;
  from_openssh = first_char;
  to_openssh = λ k. ok (k ∷ []);
  key_data = λ k. k;
  same_data = λ a b. a == b;
  key_comment = λ _. codes "me@home";
  private_from_openssh = ok;
  cert_to_openssh = λ c. ok (c.key ∷ []);
  new_with_random_nonce = λ n k a b. ok (record {
    key = k;
    valid_after = a;
    valid_before = b;
    serial = 0;
    key_id = [];
    cert_type = user;
    principals = [];
    comment = [];
    extensions = λ _. none;
  });
  serial = λ b n. ok (record b { serial = n });
  key_id = λ b s. ok (record b { key_id = s });
  cert_type = λ b t. ok (record b { cert_type = t });
  comment = λ b s. ok (record b { comment = s });
  extension = λ b name value.
      ok (record b { extensions = λ k. if str_eq name k then some value else b.extensions k });
  valid_principal = λ b p. record b { principals = b.principals ++ p ∷ [] };
  sign = λ b _. ok b;
}

abbrev pub fields_of : Fields → CertFields keys
fields_of f = record {
  key = f.key;
  valid_after = f.valid_after;
  valid_before = f.valid_before;
  serial = f.serial;
  key_id = f.key_id;
  cert_type = f.cert_type;
  principals = f.principals;
  comment = f.comment;
  extensions = f.extensions;
}

pub fields_of-ok : {a c : Fields} → ok a ≡ ok c → fields_of c ≡ fields_of a
fields_of-ok {a} {c} h =
    ap (λ o. elim o [ ok f ↦ fields_of f | err _ ↦ fields_of a | panic ↦ fields_of a ]) (sym h)

abbrev pub key_laws : BuilderLaws keys
key_laws = record {
  builder_fields = fields_of;
  cert_fields = fields_of;
  new_fields = λ n pk a b h. fields_of-ok h;
  serial_fields = λ b n h. fields_of-ok h;
  key_id_fields = λ b s h. fields_of-ok h;
  cert_type_fields = λ b t h. fields_of-ok h;
  comment_fields = λ b s h. fields_of-ok h;
  extension_fields = λ b name value h. fields_of-ok h;
  valid_principal_fields = λ b p. refl;
  sign_fields = λ b k h. fields_of-ok h;
}

-- Messages, as far as they are used: key lookups whose characters are all below the surrogates.
abbrev pub low : Str → Bool
low s = all (λ c. ltb c 0xD800) s

pub low-IsText : (s : Str) → low s ≡ true → IsText s
low-IsText [] h = tt
low-IsText (c ∷ s) h = ground (arith, low-IsText s)

abbrev pub low_text : Str → Outcome Str
low_text s = if low s then ok s else err (foreign (codes "not supported"))

abbrev request_text : AuthenticatedRequest keys → Outcome Str
request_text r = elim r.request [
  | check_public_key k ↦ low_text (r.counter ∷ k ∷ r.token)
  | sign_certificate u k ↦ err (foreign (codes "not supported"))
  | sign_host_certificate h k ↦ err (foreign (codes "not supported"))
]

abbrev request_of : Str → Outcome (AuthenticatedRequest keys)
request_of (counter ∷ key ∷ token) =
    ok (record { token = token; counter = counter; request = check_public_key key })
request_of _ = err (foreign (codes "not a request"))

abbrev response_text : CaResponse keys → Outcome Str
response_text (signed_certificate c) = err (foreign (codes "not supported"))
response_text (error s) = low_text (0 ∷ s)
response_text (key_found none) = low_text (1 ∷ [])
response_text (key_found (some h)) = low_text (2 ∷ h)

abbrev response_of : Str → Outcome (CaResponse keys)
response_of [] = err (foreign (codes "not a response"))
response_of (tag ∷ s) =
    if tag == 0
    then ok (error s)
    else if tag == 1
    then ok (key_found none)
    else ok (key_found (some s))

abbrev pub wire : Wire keys
wire = record {
  request_to_string = request_text;
  request_from_str = request_of;
  response_to_string = response_text;
  response_from_str = response_of;
  ct_eq = str_eq;
}

pub low_text-ok : (s : Str) {t : Str} → low_text s ≡ ok t → (t ≡ s) × IsText t
low_text-ok s h = ground (arith, low-IsText s)

request_both :
    (r : AuthenticatedRequest keys) {s : Str}
    → request_text r ≡ ok s
    → IsText s × (request_of s ≡ ok r)
request_both r {s} h = of (r.request) refl
  where
    of : (q : CaRequest keys) → r.request ≡ q → IsText s × (request_of s ≡ ok r)
    of (check_public_key k) e =
        let (same, t) = low_text-ok (r.counter ∷ k ∷ r.token) (ground arith) in
        (t, ap request_of same ∙ ap (λ q. ok (record r { request = q })) (sym e))
    of (sign_certificate u k) e = ground arith
    of (sign_host_certificate u k) e = ground arith

response_both :
    (r : CaResponse keys) {s : Str} → response_text r ≡ ok s → IsText s × (response_of s ≡ ok r)
response_both (signed_certificate c) h = cc
response_both (error m) h = let (same, t) = low_text-ok (0 ∷ m) h in (t, ap response_of same)
response_both (key_found none) h =
    let (same, t) = low_text-ok (1 ∷ []) h in (t, ap response_of same)
response_both (key_found (some m)) h =
    let (same, t) = low_text-ok (2 ∷ m) h in (t, ap response_of same)

pub wire_laws : JsonLaws wire
wire_laws = record {
  request_text = λ r h. (request_both r h).0;
  request_back = λ r h. (request_both r h).1;
  response_text = λ r h. (response_both r h).0;
  response_back = λ r h. (response_both r h).1;
}

pub wire_compares : ComparesBytes wire
wire_compares = str_eq_iff
