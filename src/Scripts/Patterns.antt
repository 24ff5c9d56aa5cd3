-- ===== src/Scripts/Patterns.antt =====
-- The part of Python's `re` that fbw-lf/scripts/check_e2e_faults.py uses: characters, `\s*`, a choice
-- of characters, and `\b`.
use lf_benchmarks.Common.{
  ℕ, ◌≡◌, refl, Bool, true, false, not, ◌&&◌, ◌||◌, Bool-cases, inl, inr, Option, none, some, List,
  [], ◌∷◌, map, leb, ◌==◌, arith,
}
use lf_benchmarks.Text.{lacks, both_true}
use lf_benchmarks.Text.Words.{is_space}
use lf_benchmarks.Fbw.Nav.{Line}

pub data Piece : Type 0 where
  char : ℕ → Piece
  spaces : Piece
  choice : List ℕ → Piece
  boundary : Piece

abbrev pub Pattern : Type 0
Pattern = List Piece

-- `\w` on a byte.
abbrev is_word : ℕ → Bool
is_word c =
    (leb b'0' c && leb c b'9')
    || (leb b'A' c && leb c b'Z')
    || (leb b'a' c && leb c b'z')
    || c == b'_'

abbrev is_one_of : List ℕ → ℕ → Bool
is_one_of [] c = false
is_one_of (x ∷ xs) c = x == c || is_one_of xs c

-- Whether a word character stands before a place, or behind it.
abbrev word_before : Option ℕ → Bool
word_before none = false
word_before (some c) = is_word c

abbrev word_behind : Line → Bool
word_behind [] = false
word_behind (c ∷ s) = is_word c

abbrev differ : Bool → Bool → Bool
differ true b = not b
differ false b = b

-- What is to follow, after any number of spaces.
abbrev after_spaces : (Option ℕ → Line → Bool) → Option ℕ → Line → Bool
after_spaces next before [] = next before []
after_spaces next before (c ∷ s) =
    next before (c ∷ s) || (is_space c && after_spaces next (some c) s)

-- Whether the pattern matches at a place, with the byte before it.
unfoldable pub matches_at : Pattern → Option ℕ → Line → Bool
matches_at [] before s = true
matches_at (Piece.char x ∷ p) before [] = false
matches_at (Piece.char x ∷ p) before (c ∷ s) = x == c && matches_at p (some c) s
matches_at (Piece.spaces ∷ p) before s = after_spaces (matches_at p) before s
matches_at (Piece.choice xs ∷ p) before [] = false
matches_at (Piece.choice xs ∷ p) before (c ∷ s) = is_one_of xs c && matches_at p (some c) s
matches_at (Piece.boundary ∷ p) before s =
    differ (word_before before) (word_behind s) && matches_at p before s

abbrev search_from : Pattern → Option ℕ → Line → Bool
search_from p before [] = matches_at p before []
search_from p before (c ∷ s) = matches_at p before (c ∷ s) || search_from p (some c) s

-- `re.search`
unfoldable pub search : Pattern → Line → Bool
unfolding matches_at
search p s = search_from p none s

-- A text as a pattern, in which no character is special.
abbrev pub plain : List ℕ → Pattern
plain = map Piece.char

-- Whether every match has to contain a byte.
abbrev pub needs : ℕ → Pattern → Bool
needs c [] = false
needs c (Piece.char x ∷ p) = x == c || needs c p
needs c (_ ∷ p) = needs c p

after_spaces_none :
    (c : ℕ) (next : Option ℕ → Line → Bool)
    → ((before : Option ℕ) (s : Line) → lacks c s ≡ true → next before s ≡ false)
    → (before : Option ℕ) (s : Line) → lacks c s ≡ true
    → after_spaces next before s ≡ false
after_spaces_none c next h before [] l = h before [] l
after_spaces_none c next h before (x ∷ s) l =
    let (_, rest) = both_true (not (x == c)) (lacks c s) l in
    simp (h before (x ∷ s) l, after_spaces_none c next h (some x) s rest) (ground arith)

needs_rest :
    (c x y : ℕ) (b : Bool) → (x == y) ≡ true → not (y == c) ≡ true → (x == c) || b ≡ true → b ≡ true
needs_rest c x y b e f n = ground arith

matches_at_none :
    (c : ℕ) (p : Pattern)
    → needs c p ≡ true
    → (before : Option ℕ) (s : Line) → lacks c s ≡ true
    → matches_at p before s ≡ false
unfolding matches_at
matches_at_none c [] n before s l = absurd cc
matches_at_none c (Piece.char x ∷ p) n before [] l = refl
matches_at_none c (Piece.char x ∷ p) n before (y ∷ s) l =
    let (other, rest) = both_true (not (y == c)) (lacks c s) l in
    elim (Bool-cases (x == y)) [
      | inl e ↦
          simp (e, matches_at_none c p (needs_rest c x y (needs c p) e other n) (some y) s rest)
            refl
      | inr e ↦ simp e refl
    ]
matches_at_none c (Piece.spaces ∷ p) n before s l =
    after_spaces_none c (matches_at p) (matches_at_none c p n) before s l
matches_at_none c (Piece.choice xs ∷ p) n before [] l = refl
matches_at_none c (Piece.choice xs ∷ p) n before (y ∷ s) l =
    let (_, rest) = both_true (not (y == c)) (lacks c s) l in
    simp (matches_at_none c p n (some y) s rest) (ground arith)
matches_at_none c (Piece.boundary ∷ p) n before s l =
    simp (matches_at_none c p n before s l) (ground arith)

search_from_none :
    (c : ℕ) (p : Pattern)
    → needs c p ≡ true
    → (before : Option ℕ) (s : Line) → lacks c s ≡ true
    → search_from p before s ≡ false
search_from_none c p n before [] l = matches_at_none c p n before [] l
search_from_none c p n before (x ∷ s) l =
    let (_, rest) = both_true (not (x == c)) (lacks c s) l in
    simp (matches_at_none c p n before (x ∷ s) l, search_from_none c p n (some x) s rest) refl

-- A pattern that needs a byte is not found in a text that lacks it.
pub search_none :
    (c : ℕ) (p : Pattern) (s : Line) → needs c p ≡ true → lacks c s ≡ true → search p s ≡ false
unfolding search
search_none c p s n l = search_from_none c p n none s l
