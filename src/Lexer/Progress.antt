-- ===== src/Lexer/Progress.antt =====
-- Where the scanning loops stand when they end.
use ern_os.Base.{
  ℕ, zero, suc, ◌+◌, ◌≤◌, ◌<◌, ◌≡◌, inl, inr, Bool, true, ◌&&◌, ◌||◌, not, List, [], ◌∷◌, arith,
  ltb, ◌==◌, ltb→lt, lt→ltb, ◌%◌, Bool-cases, length,
}
use ern_os.Bytes.{Bytes}
use ern_os.Lexer.{ch, from_chars, is_digit, is_letter, is_id_start, is_id_part}
use ern_os.Lexer.Words.{Phrase}
use ern_os.Lexer.Match.{skip_blanks, same_at, match_next_word, match_words}
use ern_os.Lexer.Scan.{Margin, margin, comment_end, digits_end, id_end, Word, try_phrases}

pub skip_blanks-le : (f : ℕ) (s : Bytes) (p : ℕ) → p ≤ skip_blanks f s p
unfolding skip_blanks
skip_blanks-le zero s p = omega arith
skip_blanks-le (suc f) s p = elim (Bool-cases (ltb p (length s) && (ch s p == 32 || ch s p == 9))) [
  | inl e ↦ rw (e, skip_blanks) (omega (arith, skip_blanks-le f s (p + 1)))
  | inr e ↦ rw (e, skip_blanks) (omega arith)
]

-- A word that is found ends behind the start.
pub match_next_word-le :
    (s : Bytes) (p : ℕ) (w : Bytes) → 0 < match_next_word s p w → p ≤ match_next_word s p w
unfolding match_next_word
match_next_word-le s p w h =
    let q = skip_blanks (length s) s p in
    let front = skip_blanks-le (length s) s p in
    elim (Bool-cases (ltb (length s) (q + length w))) [
      | inl e ↦ absurd (let z : 0 < 0 = rw e at h in omega arith)
      | inr e ↦
          let h' = rw e at h in
          elim (Bool-cases (same_at s q w && not (is_id_part (ch s (q + length w))))) [
            | inl g ↦ rw (e, g) (omega arith)
            | inr g ↦ absurd (let z : 0 < 0 = rw g at h' in omega arith)
          ]
    ]

pub match_words-le :
    (s : Bytes) (p : ℕ) (ws : List Bytes) → 0 < match_words s p ws → p ≤ match_words s p ws
unfolding match_words
match_words-le s p [] h = omega arith
match_words-le s p (w ∷ ws) h = elim (Bool-cases (match_next_word s p w == 0)) [
  | inl e ↦ absurd (let z : 0 < 0 = rw e at h in omega arith)
  | inr e ↦
      let q = match_next_word s p w in
      let found : 0 < q = ground (arith, e) in
      let front = match_next_word-le s p w found in
      rw e (omega (arith, match_words-le s q ws (rw e at h)))
]

pub comment_end-le : (f : ℕ) (s : Bytes) (p : ℕ) → p ≤ comment_end f s p
unfolding comment_end
comment_end-le zero s p = omega arith
comment_end-le (suc f) s p =
    elim (Bool-cases (ltb p (length s) && (not (ch s p == 10) && not (ch s p == 13)))) [
      | inl e ↦ rw (e, comment_end) (omega (arith, comment_end-le f s (p + 1)))
      | inr e ↦ rw (e, comment_end) (omega arith)
    ]

pub digits_end-le : (f : ℕ) (s : Bytes) (p : ℕ) → p ≤ digits_end f s p
unfolding digits_end
digits_end-le zero s p = omega arith
digits_end-le (suc f) s p = elim (Bool-cases (ltb p (length s) && is_digit (ch s p))) [
  | inl e ↦ rw (e, digits_end) (omega (arith, digits_end-le f s (p + 1)))
  | inr e ↦ rw (e, digits_end) (omega arith)
]

-- A number and an identifier are not empty.
pub digits_end-lt :
    (f : ℕ) (s : Bytes) (p : ℕ)
    → 0 < f
    → p < length s
    → is_digit (ch s p) ≡ true
    → p < digits_end f s p
unfolding digits_end
digits_end-lt zero s p h l e = elim h [ ]
digits_end-lt (suc f) s p h l e =
    rw (lt→ltb p (length s) l, e) (omega (arith, digits_end-le f s (p + 1)))

pub id_end-le : (f : ℕ) (s : Bytes) (p : ℕ) → p ≤ id_end f s p
unfolding id_end
id_end-le zero s p = omega arith
id_end-le (suc f) s p = elim (Bool-cases (ltb p (length s) && is_id_part (ch s p))) [
  | inl e ↦ rw (e, id_end) (omega (arith, id_end-le f s (p + 1)))
  | inr e ↦ rw (e, id_end) (omega arith)
]

is_id_start-is_id_part : (c : ℕ) → is_id_start c ≡ true → is_id_part c ≡ true
unfolding is_id_start is_id_part
is_id_start-is_id_part c h = or_left (is_letter c) (is_digit c) (c == 95) h
  where
    or_left : (a b d : Bool) → (a || d) ≡ true → ((a || b) || d) ≡ true
    or_left a b d h = ground arith

pub id_end-lt :
    (f : ℕ) (s : Bytes) (p : ℕ)
    → 0 < f
    → p < length s
    → is_id_start (ch s p) ≡ true
    → p < id_end f s p
unfolding id_end
id_end-lt zero s p h l e = elim h [ ]
id_end-lt (suc f) s p h l e =
    rw (lt→ltb p (length s) l, is_id_start-is_id_part (ch s p) e)
      (omega (arith, id_end-le f s (p + 1)))

pub margin-le : (f : ℕ) (s : Bytes) (m : Margin) → m.at ≤ (margin f s m).at
unfolding margin
margin-le zero s m = omega arith
margin-le (suc f) s m = elim (Bool-cases (not (ltb m.at (length s)))) [
  | inl e ↦ rw (e, margin) (omega arith)
  | inr e ↦ elim (Bool-cases (ch s m.at == 32)) [
    | inl g ↦
        rw (e, g, margin)
          (omega (
            arith,
            margin-le f s (record { spaces = m.spaces + 1; at = m.at + 1; col = m.col + 1 }),
          ))
    | inr g ↦ elim (Bool-cases (ch s m.at == 9)) [
      | inl k ↦
          rw (e, g, k, margin)
            (omega (
              arith,
              margin-le f s (record { spaces = m.spaces + 4; at = m.at + 1; col = m.col + 4 }),
            ))
      | inr k ↦ rw (e, g, k, margin) (omega arith)
    ]
  ]
]

-- No phrase takes the lexer back.
pub try_phrases-le : (s : Bytes) (ps : List Phrase) (w : Word) → w.at ≤ (try_phrases s ps w).at
unfolding try_phrases
try_phrases-le s [] w = omega arith
try_phrases-le s (p ∷ ps) w = elim (Bool-cases (ltb 0 (match_words s w.at p.words))) [
  | inl e ↦ rw e (match_words-le s w.at p.words (ltb→lt _ _ e))
  | inr e ↦ rw e (try_phrases-le s ps w)
]

-- The list of characters makes no longer text.
pub length-from_chars : (cs : List ℕ) → length (from_chars cs) ≤ length cs
unfolding from_chars
length-from_chars [] = omega arith
length-from_chars (c ∷ cs) = elim (Bool-cases (c % 256 == 0)) [
  | inl e ↦ rw e (omega arith)
  | inr e ↦ rw e (omega (arith, length-from_chars cs))
]
