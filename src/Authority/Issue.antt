-- ===== src/Authority/Issue.antt =====
-- What an issued certificate says, given what ssh-key documents of its builder.
use ssh_certificate_authorit.Common.{
  ℕ, ◌+◌, ◌*◌, ◌≡◌, refl, sym, ap, ◌∙◌, Option, none, some, List, [], ◌∷◌, ◌++◌, Str, ok, >>=-eq-ok,
  >>=-ok-then, if◌then◌else◌, any, append-nil, append_assoc, arith,
}
use ssh_certificate_authorit.Text.{codes, str_eq}
use ssh_certificate_authorit.Text.Decimal.{decimal}
use ssh_certificate_authorit.Interfaces.{SshKey, Draw, CertType, CertFields, BuilderLaws}
use ssh_certificate_authorit.Authority.{u64, as_secs, add_principals, add_extensions, issue}

-- The fields of a certificate issued at the readings `now` and `later` of the clock.
pub record IsIssued (K : SshKey) (f : CertFields K) (public_key : K.PublicKey) (label name : Str)
    (tag : CertType) (days : ℕ) (principals extensions : List Str) (now later : ℕ) : Type 0 where
  pub key : f.key ≡ K.key_data public_key
  pub valid_after : f.valid_after ≡ now
  pub valid_before : f.valid_before ≡ u64 (later + u64 (days * 86400))
  pub key_id : f.key_id ≡ label ++ codes "-" ++ name ++ codes "-" ++ decimal now
  pub cert_type : f.cert_type ≡ tag
  pub principals_all : f.principals ≡ principals
  pub comment : f.comment ≡ K.key_comment public_key
  pub extensions_all :
      (k : Str) → f.extensions k ≡ (if any (λ e. str_eq e k) extensions then some [] else none)

abbrev extend : (Str → Option Str) → List Str → Str → Option Str
extend m [] = m
extend m (e ∷ es) = extend (λ k. if str_eq e k then some [] else m k) es

extend_lem :
    (m : Str → Option Str) (es : List Str) (k : Str)
    → extend m es k ≡ (if any (λ e. str_eq e k) es then some [] else m k)
extend_lem m [] k = refl
extend_lem m (e ∷ es) k = ground (arith, extend_lem (λ k. if str_eq e k then some [] else m k) es k)

module _ (K : SshKey) where
  abbrev with_principals : CertFields K → List Str → CertFields K
  with_principals f ps = record f { principals = f.principals ++ ps }

  abbrev with_extensions : CertFields K → List Str → CertFields K
  with_extensions f es = record f { extensions = extend f.extensions es }

module _ (K : SshKey) (L : BuilderLaws K) where
  open K use {PublicKey, PrivateKey, Certificate, Builder}
  open L use {builder_fields, cert_fields}

  add_principals-fields :
      (b : Builder) (ps : List Str)
      → builder_fields (add_principals K b ps) ≡ with_principals K (builder_fields b) ps
  unfolding add_principals
  add_principals-fields b [] =
      ap (λ (l : List Str). record (builder_fields b) { principals = l })
        (sym (append-nil (builder_fields b).principals))
  add_principals-fields b (p ∷ ps) =
      add_principals-fields (K.valid_principal b p) ps
      ∙ ap (λ f. with_principals K f ps) (L.valid_principal_fields b p)
      ∙ ap (λ (l : List Str). record (builder_fields b) { principals = l })
          (append_assoc (builder_fields b).principals (p ∷ []) ps)

  add_extensions-fields :
      (b : Builder) (es : List Str) {c : Builder}
      → add_extensions K b es ≡ ok c
      → builder_fields c ≡ with_extensions K (builder_fields b) es
  unfolding add_extensions
  add_extensions-fields b [] h = cc
  add_extensions-fields b (e ∷ es) h =
      let (b', p, q) = >>=-eq-ok (K.extension b e []) (λ b'. add_extensions K b' es) h in
      add_extensions-fields b' es q ∙ ap (λ f. with_extensions K f es) (L.extension_fields b e [] p)

  as_secs-eq-ok : (o : Option ℕ) {n : ℕ} → as_secs o ≡ ok n → o ≡ some n
  as_secs-eq-ok none h = cc
  as_secs-eq-ok (some m) h = cc

  -- The label, the name and the time of a certificate.
  abbrev key_id_of : Str → Str → ℕ → Str
  key_id_of label name now = label ++ codes "-" ++ name ++ codes "-" ++ decimal now

  issued :
      (pk : PublicKey) (label name : Str) (tag : CertType) (days : ℕ) (ps es : List Str)
      (now later : ℕ) {n : ℕ} {f : CertFields K}
      → f ≡ record {
        key = K.key_data pk;
        valid_after = now;
        valid_before = u64 (later + u64 (days * 86400));
        serial = n;
        key_id = key_id_of label name now;
        cert_type = tag;
        principals = ps;
        comment = K.key_comment pk;
        extensions = extend (λ _. none) es;
      }
      → IsIssued K f pk label name tag days ps es now later
  issued pk label name tag days ps es now later e = record {
    key = ap (λ (f : CertFields K). f.key) e;
    valid_after = ap (λ (f : CertFields K). f.valid_after) e;
    valid_before = ap (λ (f : CertFields K). f.valid_before) e;
    key_id = ap (λ (f : CertFields K). f.key_id) e;
    cert_type = ap (λ (f : CertFields K). f.cert_type) e;
    principals_all = ap (λ (f : CertFields K). f.principals) e;
    comment = ap (λ (f : CertFields K). f.comment) e;
    extensions_all = λ k. ap (λ (f : CertFields K). f.extensions k) e ∙ extend_lem (λ _. none) es k;
  }

  configured :
      (draw : Draw K) (pk : PublicKey) (a b : ℕ) (id : Str) (tag : CertType) (ps : List Str)
      (b0 b1 b2 b3 b5 : Builder)
      → K.new_with_random_nonce draw.nonce pk a b ≡ ok b0
      → K.serial b0 draw.serial ≡ ok b1
      → K.key_id b1 id ≡ ok b2
      → K.cert_type b2 tag ≡ ok b3
      → K.comment (add_principals K b3 ps) (K.key_comment pk) ≡ ok b5
      → builder_fields b5 ≡ record {
        key = K.key_data pk;
        valid_after = a;
        valid_before = b;
        serial = draw.serial;
        key_id = id;
        cert_type = tag;
        principals = ps;
        comment = K.key_comment pk;
        extensions = λ _. none;
      }
  configured draw pk a b id tag ps b0 b1 b2 b3 b5 h0 h1 h2 h3 h5 =
      rw
        (
          L.comment_fields (add_principals K b3 ps) (K.key_comment pk) h5,
          add_principals-fields b3 ps,
          L.cert_type_fields b2 tag h3,
          L.key_id_fields b1 id h2,
          L.serial_fields b0 draw.serial h1,
          L.new_fields draw.nonce pk a b h0,
        )
        refl

  -- A certificate that is issued has the values that it was asked for.
  pub issue-fields :
      (draw : Draw K) (sk : PrivateKey) (pk : PublicKey) (label name : Str) (tag : CertType)
      (days : ℕ) (ps es : List Str) {c : Certificate}
      → issue K draw sk pk label name tag days ps es ≡ ok c
      → (now : ℕ) × (later : ℕ) × (draw.first_clock ≡ some now)
        × (draw.second_clock ≡ some later)
        × IsIssued K (cert_fields c) pk label name tag days ps es now later
  unfolding issue
  issue-fields draw sk pk label name tag days ps es h =
      >>=-ok-then (as_secs draw.first_clock) _ h λ now h1 k1.
        >>=-ok-then (as_secs draw.second_clock) _ k1 λ later h2 k2.
          >>=-ok-then (K.new_with_random_nonce draw.nonce pk now _) _ k2 λ b0 h3 k3.
            >>=-ok-then (K.serial b0 draw.serial) _ k3 λ b1 h4 k4.
              >>=-ok-then (K.key_id b1 (key_id_of label name now)) _ k4 λ b2 h5 k5.
                >>=-ok-then (K.cert_type b2 tag) _ k5 λ b3 h6 k6.
                  >>=-ok-then (K.comment (add_principals K b3 ps) (K.key_comment pk)) _ k6
                    λ b5 h7 k7. >>=-ok-then (add_extensions K b5 es) _ k7 λ b6 h8 k8. (
                      now,
                      later,
                      as_secs-eq-ok draw.first_clock h1,
                      as_secs-eq-ok draw.second_clock h2,
                      issued pk label name tag days ps es now later (
                          L.sign_fields b6 sk k8
                          ∙ add_extensions-fields b5 es h8
                          ∙ ap (λ f. with_extensions K f es)
                              (configured draw pk now _ (key_id_of label name now) tag ps b0 b1 b2
                                b3 b5 h3 h4 h5 h6 h7)),
                    )
