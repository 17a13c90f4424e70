-- ===== src/UserTemplates/Chosen.antt =====
-- Which template is read for a user, and what its defaults rest on.
use ssh_certificate_authorit.Common.{
  ℕ, ◌≤◌, ◌≡◌, ◌≢◌, ◌⊎◌, inl, inr, List, [], ◌∷◌, refl, Bool, true, false, Option, none, some, Str,
  Outcome, ok, err, panic, >>=-ok-then, if◌then◌else◌, ltb, length, arith, template_too_large,
}
use ssh_certificate_authorit.Text.{str_eq_iff}
use ssh_certificate_authorit.Text.Utf8.{as_bytes}
use ssh_certificate_authorit.FilePath.{FilePath, has_root, push, parent}
use ssh_certificate_authorit.FilePath.Parent.{parent-has_root}
use ssh_certificate_authorit.Records.{Ca, UserDefaults, UserList}
use ssh_certificate_authorit.Interfaces.{Files, Formats, read_to_string, read_toml_file}
use ssh_certificate_authorit.Config.Paths.{IsRooted, push-has_root}
use ssh_certificate_authorit.UserTemplates.{
  max_template_size, lookup, template_path, render_template, read_user_defaults,
}

-- When every path of the configuration is absolute, so is that of the template of a user, whatever
-- the list of the users says.
pub template_path-has_root :
    (user : Str) (users : UserList) (config : Ca) {path : FilePath}
    → IsRooted config
    → template_path user users config ≡ ok path
    → has_root path ≡ true
unfolding template_path
template_path-has_root user users config {path} r h = by_entry (lookup user users.users) h
  where
    in_dir :
        (p : FilePath) (dir : Option FilePath)
        → parent config.user_list_file ≡ dir
        → (elim dir [ none ↦ panic | some d ↦ ok (push d p) ]) ≡ ok path
        → has_root path ≡ true
    in_dir p none e k = cc
    in_dir p (some d) e k =
        let up = parent-has_root config.user_list_file r.user_list_file e in
        ground (arith, push-has_root d p up)

    by_path :
        (p : FilePath) (b : Bool)
        → has_root p ≡ b
        → (if b
            then ok p
            else elim (parent config.user_list_file) [ none ↦ panic | some dir ↦ ok (push dir p) ])
          ≡ ok path
        → has_root path ≡ true
    by_path p true e k = ground arith
    by_path p false e k = in_dir p (parent config.user_list_file) refl k

    by_entry :
        (o : Option FilePath)
        → (elim o [
          | none ↦ ok config.default_user_template
          | some p ↦
              if has_root p
              then ok p
              else elim (parent config.user_list_file) [ none ↦ panic | some dir ↦ ok (push dir p) ]
        ])
          ≡ ok path
        → has_root path ≡ true
    by_entry none k = ground (arith, r.default_user_template)
    by_entry (some p) k = by_path p (has_root p) refl k

-- The first entry for the user, if there is one.
abbrev pub IsEntry : Str → List (Str × FilePath) → Option FilePath → Type 0
IsEntry user [] none = Unit
IsEntry user [] (some p) = ⊥
IsEntry user ((name, path) ∷ users) entry =
    ((name ≡ user) × (entry ≡ some path)) ⊎ ((name ≢ user) × IsEntry user users entry)

-- The path of the template: the default one for a user without an entry, else the path of the
-- entry, which is taken from the directory of the list of users unless it is absolute.
abbrev pub IsTemplateOf : Ca → Option FilePath → FilePath → Type 0
IsTemplateOf config none path = path ≡ config.default_user_template
IsTemplateOf config (some p) path =
    ((has_root p ≡ true) × (path ≡ p))
    ⊎ ((has_root p ≡ false)
        × (dir : FilePath) × (parent config.user_list_file ≡ some dir)
        × (path ≡ push dir p))

lookup-IsEntry :
    (user : Str) (users : List (Str × FilePath)) → IsEntry user users (lookup user users)
unfolding lookup
lookup-IsEntry user [] = tt
lookup-IsEntry user ((name, path) ∷ users) =
    ground (arith, str_eq_iff name user, lookup-IsEntry user users)

template_path-IsTemplateOf :
    (user : Str) (users : UserList) (config : Ca) {path : FilePath}
    → template_path user users config ≡ ok path
    → IsTemplateOf config (lookup user users.users) path
unfolding template_path
template_path-IsTemplateOf user users config {path} h = of (lookup user users.users) h
  where
    of_entry :
        (p : FilePath) (b : Bool) (dir : Option FilePath)
        → has_root p ≡ b
        → parent config.user_list_file ≡ dir
        → (if b then ok p else elim dir [ none ↦ panic | some d ↦ ok (push d p) ]) ≡ ok path
        → IsTemplateOf config (some p) path
    of_entry p true dir r e k = inl (r, cc)
    of_entry p false none r e k = cc
    of_entry p false (some d) r e k = inr (r, d, e, cc)

    of :
        (o : Option FilePath)
        → (elim o as (λ _. Outcome FilePath) [
          | none ↦ ok config.default_user_template
          | some p ↦
              if has_root p
              then ok p
              else elim (parent config.user_list_file) [ none ↦ panic | some dir ↦ ok (push dir p) ]
        ])
          ≡ ok path
        → IsTemplateOf config o path
    of none k = cc
    of (some p) k = of_entry p (has_root p) (parent config.user_list_file) refl refl k

module _ (fs : Files) (F : Formats) where
  -- The template, under the name of the user, is rendered with the name of the user.
  abbrev pub IsRendered : Str → Str → Str → Type 0
  IsRendered user text rendered =
      (env : F.Environment) × (template : F.Template) × (F.add_template F.new_environment user text
        ≡ ok env)
      × (F.get_template env user ≡ ok template)
      × (F.render_user_name template user ≡ ok rendered)

  -- What the defaults of a user rest on.
  pub record IsRead (user : Str) (config : Ca) (d : UserDefaults) : Type 0 where
    pub users : UserList
    pub users_read : read_toml_file fs F.user_list_from_str config.user_list_file ≡ ok users
    pub entry : Option FilePath
    pub found : IsEntry user users.users entry
    pub path : FilePath
    pub chosen : IsTemplateOf config entry path
    pub text : Str
    pub text_read : read_to_string fs path ≡ ok text
    pub size : length (as_bytes text) ≤ max_template_size
    pub rendered : Str
    pub text_rendered : IsRendered user text rendered
    pub parsed : F.user_defaults_from_str rendered ≡ ok d

  render_template-IsRendered :
      (user text : Str) {rendered : Str}
      → render_template fs F user text ≡ ok rendered
      → IsRendered user text rendered
  unfolding render_template
  render_template-IsRendered user text h =
      >>=-ok-then (F.add_template F.new_environment user text) _ h λ env he k1.
        >>=-ok-then (F.get_template env user) _ k1 λ template ht k2. (env, template, he, ht, k2)

  small_enough :
      (n : ℕ) (e : Outcome UserDefaults) (p : Str) {d : UserDefaults}
      → (if ltb max_template_size n then err (template_too_large p) else e) ≡ ok d
      → (n ≤ max_template_size) × (e ≡ ok d)
  small_enough n e p h = ground arith

  -- The defaults of a user are parsed from a template of at most 64 KiB, rendered with the name of
  -- the user: the default template if the list of users has no entry for the user, else that of the
  -- first entry, in the directory of the list unless its path is absolute.
  pub read_user_defaults-IsRead :
      (user : Str) (config : Ca) {d : UserDefaults}
      → read_user_defaults fs F user config ≡ ok d
      → IsRead user config d
  unfolding read_user_defaults
  read_user_defaults-IsRead user config h =
      >>=-ok-then (read_toml_file fs F.user_list_from_str config.user_list_file) _ h λ users hu k1.
        >>=-ok-then (template_path user users config) _ k1 λ path hp k2.
          >>=-ok-then (read_to_string fs path) _ k2 λ text ht k3.
            let (size, k4) = small_enough (length (as_bytes text)) _ (F.debug_path path) k3 in
            >>=-ok-then (render_template fs F user text) _ k4 λ rendered hr k5. record {
              users = users;
              users_read = hu;
              entry = lookup user users.users;
              found = lookup-IsEntry user users.users;
              path = path;
              chosen = template_path-IsTemplateOf user users config hp;
              text = text;
              text_read = ht;
              size = size;
              rendered = rendered;
              text_rendered = render_template-IsRendered user text hr;
              parsed = k5;
            }
