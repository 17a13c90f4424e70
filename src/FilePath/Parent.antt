-- ===== src/FilePath/Parent.antt =====
-- The parent of an absolute path is absolute, and a file in a directory has a parent.
use ssh_certificate_authorit.Common.{
  ◌≡◌, refl, true, false, some, get_last?, drop_last, List, [], ◌∷◌, ◌++◌, Str, arith, keep, subst,
}
use ssh_certificate_authorit.Text.{str_eq, contains_char}
use ssh_certificate_authorit.FilePath.Child.{IsPlain, components-push}
use ssh_certificate_authorit.FilePath.{
  FilePath, has_root, root_dir, prefix_of, components, parent_of, from_components, parent,
  split_slash, is_named, push,
}

parent_of-has_root :
    (cs : List Str) {q : FilePath} → parent_of (root_dir ∷ cs) ≡ some q → has_root q ≡ true
unfolding parent_of from_components str_eq
parent_of-has_root [] h = cc
parent_of-has_root (c ∷ cs) h = ground arith

pub parent-has_root :
    (p : FilePath) {q : FilePath} → has_root p ≡ true → parent p ≡ some q → has_root q ≡ true
unfolding parent components
parent-has_root p {q} r h = parent_of-has_root (keep is_named (split_slash p)) {q = q} (
    subst (λ b. parent_of (prefix_of b (split_slash p) ++ keep is_named (split_slash p)) ≡ some q) r
      h)

get_last?-snoc : (cs : List Str) (n : Str) → get_last? (cs ++ n ∷ []) ≡ some n
get_last?-snoc [] n = refl
get_last?-snoc (c ∷ []) n = refl
get_last?-snoc (c ∷ d ∷ cs) n = get_last?-snoc (d ∷ cs) n

not_root : (n : Str) → contains_char b'/' n ≡ false → str_eq n root_dir ≡ false
unfolding str_eq
not_root [] h = refl
not_root (c ∷ []) h = ground arith
not_root (c ∷ d ∷ n) h = ground arith

pub parent-push :
    (base : FilePath) (n : Str) → IsPlain n → (dir : FilePath) × (parent (push base n) ≡ some dir)
unfolding parent parent_of
parent-push base n h = (
  from_components (drop_last (components base ++ n ∷ [])),
  ground
      (arith, components-push base n h, get_last?-snoc (components base) n, not_root n h.no_slash),
)
