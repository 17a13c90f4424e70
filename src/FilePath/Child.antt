-- ===== src/FilePath/Child.antt =====
-- Pushing a plain file name adds one component.
use ssh_certificate_authorit.Common.{
  ℕ, ◌≡◌, refl, Bool, true, false, none, some, List, [], ◌∷◌, ◌++◌, Str, ◌==◌, arith, get_last?,
  keep, keep-append, ap, ◌∙◌, append_assoc, append-nil, Bool-cases, inl, inr, Option-cases, ==_iff,
}
use ssh_certificate_authorit.Text.{str_eq, contains_char}
use ssh_certificate_authorit.FilePath.{
  FilePath, has_root, split_slash, is_named, prefix_of, components, push, push_head,
}

-- A piece with no separator in it.
split-plain : (n : Str) → contains_char b'/' n ≡ false → split_slash n ≡ n ∷ []
unfolding split_slash
split-plain [] h = refl
split-plain (c ∷ n) h = ground (arith, split-plain n)

split-cons : (p : FilePath) → (w : Str) × (ws : List Str) × (split_slash p ≡ w ∷ ws)
unfolding split_slash
split-cons [] = ([], [], refl)
split-cons (c ∷ p) =
    let (w, ws, e) = split-cons p in
    elim (Bool-cases (c == b'/')) [
      | inl q ↦ ([], split_slash p, rw q)
      | inr q ↦ (c ∷ w, ws, rw q (rw e))
    ]

push_head-append :
    (c : ℕ) (xs ys : List Str) {w : Str} {ws : List Str}
    → xs ≡ w ∷ ws
    → push_head c (xs ++ ys) ≡ push_head c xs ++ ys
push_head-append c [] ys e = cc
push_head-append c (x ∷ xs) ys e = refl

-- A separator parts the pieces.
split-slash : (p n : FilePath) → split_slash (p ++ b'/' ∷ n) ≡ split_slash p ++ split_slash n
unfolding split_slash
split-slash [] n = refl
split-slash (c ∷ p) n =
    let (w, ws, e) = split-cons p in
    ground (arith, split-slash p n, push_head-append c (split_slash p) (split_slash n) e)

prefix_of-append :
    (b : Bool) (xs ys : List Str) {w : Str} {ws : List Str}
    → xs ≡ w ∷ ws
    → prefix_of b (xs ++ ys) ≡ prefix_of b xs
prefix_of-append true xs ys e = refl
prefix_of-append false [] ys e = cc
prefix_of-append false (x ∷ xs) ys e = refl

has_root-slash : (p n m : FilePath) → has_root (p ++ b'/' ∷ n) ≡ has_root (p ++ b'/' ∷ m)
has_root-slash [] n m = refl
has_root-slash (c ∷ p) n m = refl

components-slash :
    (p n : FilePath)
    → components (p ++ b'/' ∷ n)
      ≡ prefix_of (has_root (p ++ b'/' ∷ [])) (split_slash p)
        ++ (keep is_named (split_slash p) ++ keep is_named (split_slash n))
unfolding components
components-slash p n =
    let (w, ws, e) = split-cons p in
    rw
      (split-slash p n, has_root-slash p n [], prefix_of-append _ (split_slash p) (split_slash n) e)
      (rw (keep-append is_named))

-- A name that makes one component of its own.
pub record IsPlain (n : Str) : Type 0 where
  pub no_slash : contains_char b'/' n ≡ false
  pub named : is_named n ≡ true

keep-named : (n : Str) → IsPlain n → keep is_named (n ∷ []) ≡ n ∷ []
keep-named n h = ground (arith, h.named)

components-child :
    (p n : FilePath)
    → IsPlain n
    → components (p ++ b'/' ∷ n) ≡ components (p ++ b'/' ∷ []) ++ n ∷ []
components-child p n h =
    rw (components-slash p n, components-slash p [], split-plain n h.no_slash)
      (rw (keep-named n h) (unfold split_slash in simp (append_assoc, append-nil)))

components-closed :
    (base p : FilePath) (n : Str)
    → IsPlain n
    → base ≡ p ++ b'/' ∷ []
    → components (base ++ n) ≡ components base ++ n ∷ []
components-closed base p n h e = rw e (rw append_assoc (components-child p n h))

-- A separator at the end says nothing.
components-trailing :
    (c : ℕ) (p : FilePath) → components ((c ∷ p) ++ b'/' ∷ []) ≡ components (c ∷ p)
components-trailing c p =
    rw (components-slash (c ∷ p) []) (unfold split_slash components in simp append-nil)

components-plain : (n : Str) → IsPlain n → components n ≡ n ∷ []
unfolding components
components-plain n h = rw (split-plain n h.no_slash) (rw (keep-named n h) (plain_prefix n h))
  where
    plain_prefix : (n : Str) → IsPlain n → prefix_of (has_root n) (n ∷ []) ++ n ∷ [] ≡ n ∷ []
    plain_prefix [] h = cc h.named
    plain_prefix (c ∷ n) h = ground (arith, h.no_slash, h.named)

-- A path that ends with a separator.
last_slash : (p : FilePath) → get_last? p ≡ some b'/' → (q : FilePath) × (p ≡ q ++ b'/' ∷ [])
last_slash [] e = cc
last_slash (c ∷ []) e = ([], ground arith)
last_slash (c ∷ d ∷ p) e = let (q, h) = last_slash (d ∷ p) e in (c ∷ q, ap (λ l. c ∷ l) h)

has_root-plain : (n : Str) → IsPlain n → has_root n ≡ false
has_root-plain [] h = refl
has_root-plain (c ∷ n) h = ground (arith, h.no_slash)

push-closed :
    (base : FilePath) (n : Str)
    → has_root n ≡ false
    → get_last? base ≡ some b'/'
    → push base n ≡ base ++ n
unfolding push
push-closed base n r e = ground arith

push-open :
    (base : FilePath) (n : Str) (d : ℕ)
    → has_root n ≡ false
    → get_last? base ≡ some d
    → (d == b'/') ≡ false
    → push base n ≡ base ++ b'/' ∷ n
unfolding push
push-open base n d r e q = ground arith

last-cons : (c : ℕ) (p : FilePath) → get_last? (c ∷ p) ≡ none → ⊥
last-cons c [] e = cc
last-cons c (d ∷ p) e = last-cons d p e

-- Pushing a plain name adds it as the last component, whatever the base.
pub components-push :
    (base : FilePath) (n : Str) → IsPlain n → components (push base n) ≡ components base ++ n ∷ []
components-push [] n h =
    unfold push components split_slash str_eq in
    rw (has_root-plain n h) (unfold components in components-plain n h)
components-push (c ∷ p) n h = elim (Option-cases (get_last? (c ∷ p))) [
  | inl e ↦ absurd (last-cons c p e)
  | inr (d, e) ↦ elim (Bool-cases (d == b'/')) [
    | inl q ↦
        let e' = e ∙ ap some ((==_iff d b'/').0 q) in
        let (base, b) = last_slash (c ∷ p) e' in
        push_then (c ∷ p) (push-closed (c ∷ p) n (has_root-plain n h) e')
          (components-closed (c ∷ p) base n h b)
    | inr q ↦ push_then (c ∷ p) (push-open (c ∷ p) n d (has_root-plain n h) e q) (
        components-child (c ∷ p) n h ∙ ap (λ (l : List Str). l ++ n ∷ []) (components-trailing c p))
  ]
]
  where
    push_then :
        (base : FilePath) {r : FilePath}
        → push base n ≡ r
        → components r ≡ components base ++ n ∷ []
        → components (push base n) ≡ components base ++ n ∷ []
    push_then base e k = ap components e ∙ k
