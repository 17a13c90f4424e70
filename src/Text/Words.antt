-- ===== src/Text/Words.antt =====
-- `str::split_whitespace`, and `join` with one space.
use ssh_certificate_authorit.Common.{
  ℕ, ◌≡◌, refl, Bool, false, ◌||◌, ◌&&◌, List, [], ◌∷◌, ◌++◌, Str, ◌==◌, leb, if◌then◌else◌, arith,
  All, any, ap, ◌∙◌, append-nil,
}

-- `char::is_whitespace`: the Unicode property White_Space.
unfoldable pub is_whitespace : ℕ → Bool
is_whitespace c =
    leb 0x09 c && leb c 0x0D
    || c == 0x20
    || c == 0x85
    || c == 0xA0
    || c == 0x1680
    || leb 0x2000 c && leb c 0x200A
    || c == 0x2028
    || c == 0x2029
    || c == 0x202F
    || c == 0x205F
    || c == 0x3000

-- Put a word that has been read before the others, unless it is empty.
abbrev flush : Str → List Str → List Str
flush [] ws = ws
flush (c ∷ w) ws = (c ∷ w) ∷ ws

-- The word under way, and the words after it.
split_at_whitespace : Str → Str × List Str
split_at_whitespace [] = ([], [])
split_at_whitespace (c ∷ s) =
    let (w, ws) = split_at_whitespace s in if is_whitespace c then ([], flush w ws) else (c ∷ w, ws)

unfoldable pub split_whitespace : Str → List Str
unfolding split_at_whitespace
split_whitespace s = let (w, ws) = split_at_whitespace s in flush w ws

-- `words.join(" ")`
unfoldable pub join : List Str → Str
join [] = []
join (w ∷ []) = w
join (w ∷ v ∷ ws) = w ++ 0x20 ∷ join (v ∷ ws)

-- A word is not empty and has no white space in it.
pub record IsWord (w : Str) : Type 0 where
  pub not_empty : (w ≡ []) → ⊥
  pub solid : any is_whitespace w ≡ false

split-solid :
    (w s : Str)
    → any is_whitespace w ≡ false
    → split_at_whitespace (w ++ s) ≡ (w ++ (split_at_whitespace s).0, (split_at_whitespace s).1)
unfolding split_at_whitespace
split-solid [] s h = refl
split-solid (c ∷ w) s h = ground (arith, split-solid w s)

flush-IsWord : (w : Str) (ws : List Str) → IsWord w → flush w ws ≡ w ∷ ws
flush-IsWord [] ws h = absurd (h.not_empty refl)
flush-IsWord (c ∷ w) ws h = refl

split-word : (w : Str) → IsWord w → split_whitespace w ≡ w ∷ []
unfolding split_whitespace
split-word w h =
    let e = split-solid w [] h.solid in
    let e' : split_at_whitespace w ≡ (w, []) = rw append-nil at e in rw e' (flush-IsWord w [] h)

split-word_space :
    (w s : Str) → IsWord w → split_whitespace (w ++ 0x20 ∷ s) ≡ w ∷ split_whitespace s
unfolding split_whitespace is_whitespace
split-word_space w s h = rw (split-solid w (0x20 ∷ s) h.solid) (rw append-nil (flush-IsWord w _ h))

-- Splitting undoes joining.
pub split_whitespace-join : (ws : List Str) → All IsWord ws → split_whitespace (join ws) ≡ ws
unfolding join
split_whitespace-join [] h = unfold split_whitespace in refl
split_whitespace-join (w ∷ []) h = split-word w h.0
split_whitespace-join (w ∷ v ∷ ws) h =
    split-word_space w (join (v ∷ ws)) h.0 ∙ ap (λ l. w ∷ l) (split_whitespace-join (v ∷ ws) h.1)

-- The word under way has no white space, and the others are words.
flush-All :
    (w : Str) (ws : List Str)
    → any is_whitespace w ≡ false
    → All IsWord ws
    → All IsWord (flush w ws)
flush-All [] ws h k = k
flush-All (c ∷ w) ws h k = (record { not_empty = λ e. cc; solid = h }, k)

split-words :
    (s : Str)
    → (any is_whitespace (split_at_whitespace s).0 ≡ false) × All IsWord (split_at_whitespace s).1
unfolding split_at_whitespace
split-words [] = (refl, tt)
split-words (c ∷ s) =
    let (solid, words) = split-words s in
    ground (arith, flush-All (split_at_whitespace s).0 (split_at_whitespace s).1 solid words)

-- Whatever is split, the parts are words.
pub split_whitespace-IsWord : (s : Str) → All IsWord (split_whitespace s)
unfolding split_whitespace
split_whitespace-IsWord s = let (solid, words) = split-words s in flush-All _ _ solid words
