-- ===== src/Shell/Line.antt =====
-- Command lines of words and blanks, for the parser of user/sh.c.
use testcode.Base.{
  ℕ, suc, ◌+◌, ◌-◌, ◌<◌, ◌≡◌, ◌≢◌, ◌⊎◌, inl, inr, refl, ap, ◌∙◌, true, false, List, [], ◌∷◌, ◌++◌,
  length, length-append, arith, All,
}
use mathlib.Core.Path.{subst}
use testcode.Str.{Bytes}
use testcode.Str.Text.{IsString}
use testcode.Shell.{is_blank, is_plain, stop_symbols, skip_to, token_at, gettoken, peek}
use testcode.Shell.Scanner.{Segment, skip-Segment}

-- A word and the blanks behind it.
pub record Piece : Type 0 where
  pub word : List ℕ
  pub gap : List ℕ

abbrev pub text : List Piece → List ℕ
text [] = []
text (p ∷ ps) = p.word ++ (p.gap ++ text ps)

abbrev pub IsPlain : ℕ → Type 0
IsPlain c = (is_plain c ≡ true) × (c ≢ 0)

abbrev pub IsBlank : ℕ → Type 0
IsBlank c = is_blank c ≡ true

-- Words are not empty, and blanks stand between two words.
abbrev pub IsLine : List Piece → Type 0
IsLine [] = Unit
IsLine (p ∷ ps) =
    (0 < length p.word)
    × All IsPlain p.word
    × All IsBlank p.gap
    × ((ps ≡ []) ⊎ (0 < length p.gap))
    × IsLine ps

pub Segment-append :
    (m : Bytes) (a : ℕ) (xs ys : List ℕ)
    → Segment m a (xs ++ ys)
    → Segment m a xs × Segment m (a + length xs) ys
Segment-append m a [] ys h =
    (tt, let e : a ≡ a + 0 = omega arith in subst (λ b. Segment m b ys) e h)
Segment-append m a (x ∷ xs) ys h =
    let (first, later) = Segment-append m (a + 1) xs ys h.1 in
    let e : a + 1 + length xs ≡ a + suc (length xs) = omega arith in
    ((h.0, first), subst (λ b. Segment m b ys) e later)

pub Segment-IsString :
    (m : Bytes) (a : ℕ) (xs : List ℕ) → IsString m a xs → Segment m a xs × (m (a + length xs) ≡ 0)
Segment-IsString m a [] h = (tt, let e : a + 0 ≡ a = omega arith in rw e h)
Segment-IsString m a (x ∷ xs) h =
    let (seg, end) = Segment-IsString m (a + 1) xs h.2 in
    let e : a + suc (length xs) ≡ a + 1 + length xs = omega arith in ((h.0, seg), rw e end)

plain_tests : (w : List ℕ) → All IsPlain w → All (λ c. is_plain c ≡ true) w
plain_tests [] a = tt
plain_tests (x ∷ xs) a = (a.0.0, plain_tests xs a.1)

-- The byte behind a word is no byte of a word, or the line is over.
module _ (m : Bytes) (a es : ℕ) (p : Piece) (ps : List Piece) (seg : Segment m a (text (p ∷ ps)))
    (line : IsLine (p ∷ ps)) (end : m es ≡ 0) (size : a + length (text (p ∷ ps)) ≡ es) where
  pub word_seg : Segment m a p.word
  word_seg = (Segment-append m a p.word (p.gap ++ text ps) seg).0

  gap_seg : Segment m (a + length p.word) p.gap
  gap_seg =
      (Segment-append m (a + length p.word) p.gap (text ps)
        (Segment-append m a p.word (p.gap ++ text ps) seg).1).0

  pub rest_seg : Segment m (a + length p.word + length p.gap) (text ps)
  rest_seg =
      (Segment-append m (a + length p.word) p.gap (text ps)
        (Segment-append m a p.word (p.gap ++ text ps) seg).1).1

  pub size_parts : a + length p.word + length p.gap + length (text ps) ≡ es
  size_parts =
      omega (
        arith,
        size,
        length-append {0} p.word (p.gap ++ text ps),
        length-append {0} p.gap (text ps),
      )

  first_plain : (m a ≢ 0) × (is_plain (m a) ≡ true)
  first_plain = by_word p.word word_seg line.0 line.1
    where
      by_word :
          (w : List ℕ)
          → Segment m a w
          → 0 < length w
          → All IsPlain w
          → (m a ≢ 0) × (is_plain (m a) ≡ true)
      by_word [] s l h = absurd (omega arith)
      by_word (x ∷ xs) s l h = rw s.0 (h.0.1, h.0.0)

  word_ends : (es - a ≡ length p.word) ⊎ (is_plain (m (a + length p.word)) ≡ false)
  word_ends = by_gap p.gap gap_seg line.2 line.3 size_parts
    where
      by_gap :
          (g : List ℕ)
          → Segment m (a + length p.word) g
          → All IsBlank g
          → (ps ≡ []) ⊎ (0 < length g)
          → a + length p.word + length g + length (text ps) ≡ es
          → (es - a ≡ length p.word) ⊎ (is_plain (m (a + length p.word)) ≡ false)
      by_gap [] s h (inl e) total =
          let none_left : length (text ps) ≡ 0 = ap (λ l. length (text l)) e in
          inl (omega (arith, total, none_left))
      by_gap [] s h (inr l) total = absurd (omega (arith, l))
      by_gap (x ∷ xs) s h l total = inr (rw s.0 (ground (arith, h.0)))

  pub plain_head : is_blank (m a) ≡ false
  plain_head = ground (arith, first_plain.1)

module _ (m : Bytes) (a es : ℕ) (p : Piece) (ps : List Piece) (seg : Segment m a (text (p ∷ ps)))
    (line : IsLine (p ∷ ps)) (end : m es ≡ 0) (size : a + length (text (p ∷ ps)) ≡ es) where
  gap_ends :
      (es - (a + length p.word) ≡ length p.gap)
      ⊎ (is_blank (m (a + length p.word + length p.gap)) ≡ false)
  gap_ends =
      by_rest ps (rest_seg m a es p ps seg line end size) line.4
        (size_parts m a es p ps seg line end size)
    where
      by_rest :
          (qs : List Piece)
          → Segment m (a + length p.word + length p.gap) (text qs)
          → IsLine qs
          → a + length p.word + length p.gap + length (text qs) ≡ es
          → (es - (a + length p.word) ≡ length p.gap)
            ⊎ (is_blank (m (a + length p.word + length p.gap)) ≡ false)
      by_rest [] s l total = inl (omega (arith, total))
      by_rest (q ∷ qs) s l total =
          inr (plain_head m (a + length p.word + length p.gap) es q qs s l end total)

  stays : skip_to is_blank es m a ≡ a
  stays =
      skip-Segment is_blank (es - a) m a [] tt tt (omega arith)
        (inr (let e : a + 0 ≡ a = omega arith in rw e (plain_head m a es p ps seg line end size)))
      ∙ omega arith

  word_skipped : skip_to is_plain es m a ≡ a + length p.word
  word_skipped =
      skip-Segment is_plain (es - a) m a p.word (word_seg m a es p ps seg line end size)
        (plain_tests p.word line.1) (omega (arith, size_parts m a es p ps seg line end size))
        (word_ends m a es p ps seg line end size)

  gap_skipped : skip_to is_blank es m (a + length p.word) ≡ a + length p.word + length p.gap
  gap_skipped =
      skip-Segment is_blank (es - (a + length p.word)) m (a + length p.word) p.gap
        (gap_seg m a es p ps seg line end size) line.2
        (omega (arith, size_parts m a es p ps seg line end size)) gap_ends

  token_of_word : token_at es m a ≡ (b'a', a + length p.word)
  unfolding token_at
  token_of_word =
      let (ne, plain) = first_plain m a es p ps seg line end size in
      ground (arith, ne, plain, word_skipped)

  pub gettoken-piece : gettoken es m a ≡ record {
    ret = b'a';
    q = a;
    eq = a + length p.word;
    next = a + length p.word + length p.gap;
  }
  unfolding gettoken
  gettoken-piece = rw (stays, token_of_word, gap_skipped) refl

  pub peek-piece : peek es m a stop_symbols ≡ (false, a)
  unfolding peek
  peek-piece =
      let (ne, plain) = first_plain m a es p ps seg line end size in
      rw stays (ground (arith, ne, plain))
