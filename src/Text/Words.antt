-- ===== src/Text/Words.antt =====
-- Words between spaces, as Python's `split` finds them, and texts as keys.
use lf_benchmarks.Common.{
  ℕ, ◌≡◌, refl, ap, ◌∙◌, sym, Bool, true, false, not, ◌&&◌, ◌||◌, List, [], ◌∷◌, ◌++◌, All, leb,
  ◌==◌, if◌then◌else◌, arith,
}
use mathlib.Core.List.{append-nil}
use lf_benchmarks.Text.{both_true}

-- `\s` on a byte.
abbrev pub is_space : ℕ → Bool
is_space c = c == b' ' || (leb 9 c && leb c 13) || (leb 28 c && leb c 31)

-- A word in front of the others, if there is one.
abbrev pub word_then : List ℕ → List (List ℕ) → List (List ℕ)
word_then [] ws = ws
word_then (c ∷ w) ws = (c ∷ w) ∷ ws

-- The word that a text begins with, which is empty before a space, and the words behind it.
abbrev pub first_word : List ℕ → List ℕ × List (List ℕ)
first_word [] = ([], [])
first_word (c ∷ s) =
    let (w, ws) = first_word s in if is_space c then ([], word_then w ws) else (c ∷ w, ws)

-- `split`
unfoldable pub words : List ℕ → List (List ℕ)
words s = let (w, ws) = first_word s in word_then w ws

-- `==` on texts.
unfoldable pub text_eq : List ℕ → List ℕ → Bool
text_eq [] [] = true
text_eq (a ∷ s) (b ∷ t) = a == b && text_eq s t
text_eq _ _ = false

pub text_eq_refl : (s : List ℕ) → text_eq s s ≡ true
unfolding text_eq
text_eq_refl [] = refl
text_eq_refl (a ∷ s) = ground (arith, text_eq_refl s)

-- No byte of a text is a space.
abbrev pub spaceless : List ℕ → Bool
spaceless [] = true
spaceless (c ∷ s) = not (is_space c) && spaceless s

-- A text that is a word.
abbrev pub is_word : List ℕ → Bool
is_word [] = false
is_word (c ∷ s) = spaceless (c ∷ s)

-- Words with a space between them.
abbrev pub join : List (List ℕ) → List ℕ
join [] = []
join (w ∷ []) = w
join (w ∷ v ∷ ws) = w ++ (b' ' ∷ join (v ∷ ws))

first_word-append :
    (w s : List ℕ)
    → spaceless w ≡ true
    → first_word (w ++ s) ≡ (w ++ (first_word s).0, (first_word s).1)
first_word-append [] s h = refl
first_word-append (c ∷ w) s h =
    let (here, rest) = both_true (not (is_space c)) (spaceless w) h in
    let other : is_space c ≡ false = ground (arith, here) in
    simp (other, first_word-append w s rest) refl

word_then-word : (w : List ℕ) (ws : List (List ℕ)) → is_word w ≡ true → word_then w ws ≡ w ∷ ws
word_then-word [] ws h = absurd cc
word_then-word (c ∷ w) ws h = refl

is_word-spaceless : (w : List ℕ) → is_word w ≡ true → spaceless w ≡ true
is_word-spaceless [] h = refl
is_word-spaceless (c ∷ w) h = h

words-append :
    (w s : List ℕ) (ws : List (List ℕ))
    → is_word w ≡ true
    → first_word s ≡ ([], ws)
    → words (w ++ s) ≡ w ∷ ws
unfolding words
words-append w s ws h e =
    ap (λ x. word_then x.0 x.1)
      (first_word-append w s (is_word-spaceless w h) ∙ ap (λ x. (w ++ x.0, x.1)) e)
    ∙ (ap (λ x. word_then x ws) (append-nil w) ∙ word_then-word w ws h)

-- Words are found again.
pub words-join : (ws : List (List ℕ)) → All (λ w. is_word w ≡ true) ws → words (join ws) ≡ ws
unfolding words
words-join [] h = refl
words-join (w ∷ []) (h, _) = ap words (sym (append-nil w)) ∙ words-append w [] [] h refl
words-join (w ∷ v ∷ ws) (h, hs) =
    words-append w (b' ' ∷ join (v ∷ ws)) (v ∷ ws) h (ap (λ x. ([], x)) (words-join (v ∷ ws) hs))
