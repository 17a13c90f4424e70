-- ===== src/FilePath.antt =====
-- `std::path` on Unix, as far as the program uses it. A path is its text; `components` is what
-- Rust's `Path` compares by: separators in a row, and a `.` that is not in front, say nothing.
pub mod Child
pub mod Parent
use ssh_certificate_authorit.Common.{
  ℕ, ◌≡◌, refl, Bool, true, false, not, ◌&&◌, ◌||◌, Option, none, some, List, [], ◌∷◌, ◌++◌, Str,
  ◌==◌, if◌then◌else◌, get_last?, drop_last, keep,
}
use ssh_certificate_authorit.Text.{codes, str_eq, is_empty}

abbrev pub FilePath : Type 0
FilePath = Str

abbrev pub root_dir : Str
root_dir = codes "/"

abbrev pub cur_dir : Str
cur_dir = codes "."

abbrev pub parent_dir : Str
parent_dir = codes ".."

-- `Path::has_root`; on Unix also `is_absolute`.
abbrev pub has_root : FilePath → Bool
has_root [] = false
has_root (c ∷ p) = c == b'/'

abbrev pub push_head : ℕ → List Str → List Str
push_head c [] = (c ∷ []) ∷ []
push_head c (w ∷ ws) = (c ∷ w) ∷ ws

-- The pieces between separators, the empty ones included.
unfoldable pub split_slash : FilePath → List Str
split_slash [] = [] ∷ []
split_slash (c ∷ p) = let rest = split_slash p in if c == b'/' then [] ∷ rest else push_head c rest

abbrev pub is_named : Str → Bool
is_named w = not (is_empty w || str_eq w cur_dir)

-- What stands in front: the root, or a leading `.`.
abbrev pub prefix_of : Bool → List Str → List Str
prefix_of true ws = root_dir ∷ []
prefix_of false [] = []
prefix_of false (w ∷ ws) = if str_eq w cur_dir then cur_dir ∷ [] else []

-- `Path::components`
unfoldable pub components : FilePath → List Str
unfolding split_slash
components p = prefix_of (has_root p) (split_slash p) ++ keep is_named (split_slash p)

-- `Path::starts_with`
unfoldable pub comps_start_with : List Str → List Str → Bool
comps_start_with cs [] = true
comps_start_with [] (b ∷ bs) = false
comps_start_with (c ∷ cs) (b ∷ bs) = str_eq c b && comps_start_with cs bs

unfoldable pub path_starts_with : FilePath → FilePath → Bool
unfolding components comps_start_with str_eq
path_starts_with p base = comps_start_with (components p) (components base)

abbrev ends_open : Option ℕ → Bool
ends_open none = false
ends_open (some c) = not (c == b'/')

-- `PathBuf::push` and `Path::join`: a path with a root replaces the whole.
unfoldable pub push : FilePath → FilePath → FilePath
push base p =
    if has_root p then p else if ends_open (get_last? base) then base ++ b'/' ∷ p else base ++ p

-- The text of a list of components.
join_slash : List Str → FilePath
join_slash [] = []
join_slash (c ∷ []) = c
join_slash (c ∷ d ∷ cs) = c ++ b'/' ∷ join_slash (d ∷ cs)

from_components : List Str → FilePath
unfolding join_slash
from_components [] = []
from_components (c ∷ cs) = if str_eq c root_dir then b'/' ∷ join_slash cs else join_slash (c ∷ cs)

parent_of : List Str → Option FilePath
unfolding from_components
parent_of cs = elim (get_last? cs) [
  | none ↦ none
  | some c ↦ if str_eq c root_dir then none else some (from_components (drop_last cs))
]

-- `Path::parent`, up to the separators that the components do not show.
unfoldable pub parent : FilePath → Option FilePath
unfolding components parent_of str_eq
parent p = parent_of (components p)

-- The text before the last dot, if there is a dot.
before_dot : Str → Option Str
before_dot [] = none
before_dot (c ∷ s) = elim (before_dot s) [
  | some t ↦ some (c ∷ t)
  | none ↦ if c == b'.' then some [] else none
]

-- A name that begins with its only dot, or has none, is its own stem.
stem_of : Str → Str
unfolding before_dot
stem_of name = elim (before_dot name) [ none ↦ name | some [] ↦ name | some (c ∷ s) ↦ c ∷ s ]

-- `Path::file_stem`
unfoldable pub file_stem : FilePath → Option Str
unfolding components stem_of str_eq
file_stem p = elim (get_last? (components p)) [
  | none ↦ none
  | some c ↦
      if str_eq c root_dir || str_eq c cur_dir || str_eq c parent_dir
      then none
      else some (stem_of c)
]

toml_extension_stem : file_stem (codes "/inv/sub/web.example.toml") ≡ some (codes "web.example")
unfolding file_stem
toml_extension_stem = refl
