-- ===== src/Lexer/Phrases.antt =====
-- What match_next_word finds.
use ern_os.Base.{
  ℕ, zero, suc, ◌+◌, ◌≤◌, ◌<◌, ◌≡◌, refl, sym, ◌∙◌, ap, inl, inr, Bool, true, false, ◌&&◌, ◌||◌,
  not, [], ◌∷◌, arith, ltb, ltb→ge, ◌==◌, Bool-cases, length, get_or, subst, lt→ltb,
}
use Prim.{yes, no}
use native.Mathlib.Decide.{dec_lt}
use ern_os.Bytes.{Bytes}
use ern_os.Lexer.{ch, is_id_part}
use ern_os.Lexer.Match.{skip_blanks, same_at, match_next_word}

abbrev pub IsBlank : ℕ → Type 0
IsBlank c = (c == 32 || c == 9) ≡ true

-- The blanks of a text from one position up to another, where they end.
pub record Gap (s : Bytes) (p q : ℕ) : Type 0 where
  pub front : p ≤ q
  pub blank : (i : ℕ) → p ≤ i → i < q → IsBlank (ch s i)

-- A word stands in the text behind blanks, and no identifier goes on behind it.
pub record Found (s : Bytes) (p : ℕ) (word : Bytes) (r : ℕ) : Type 0 where
  pub from : ℕ
  pub gap : Gap s p from
  pub ends : r ≡ from + length word
  pub inside : r ≤ length s
  pub same : (i : ℕ) → i < length word → ch s (from + i) ≡ get_or word i 0
  pub whole : is_id_part (ch s r) ≡ false

-- A gap that is one blank longer at its front.
longer : {s : Bytes} {p q : ℕ} → IsBlank (ch s p) → Gap s (p + 1) q → Gap s p q
longer {s} {p} {q} b g = record {
  front = omega (arith, g.front);
  blank = λ i h l. elim (dec_lt p i) [
    | yes k ↦ g.blank i (omega arith) l
    | no k ↦ subst (λ j. IsBlank (ch s j)) (let z : p ≡ i = omega arith in z) b
  ];
}

skip_blanks-Gap : (f : ℕ) (s : Bytes) (p : ℕ) → Gap s p (skip_blanks f s p)
unfolding skip_blanks
skip_blanks-Gap zero s p = record { front = omega arith; blank = λ i h l. absurd (omega arith) }
skip_blanks-Gap (suc f) s p =
    elim (Bool-cases (ltb p (length s) && (ch s p == 32 || ch s p == 9))) [
      | inl e ↦
          rw (e, skip_blanks)
            (longer (and-right (ltb p (length s)) _ e) (skip_blanks-Gap f s (p + 1)))
      | inr e ↦
          rw (e, skip_blanks)
            (record { front = omega arith; blank = λ i h l. absurd (omega arith) })
    ]
  where
    and-right : (a b : Bool) → (a && b) ≡ true → b ≡ true
    and-right a b h = ground arith

-- The blanks are passed over as far as they go.
skip_blanks-stops :
    (f : ℕ) (s : Bytes) (p : ℕ)
    → length s ≤ p + f
    → skip_blanks f s p < length s
    → ¬ IsBlank (ch s (skip_blanks f s p))
unfolding skip_blanks
skip_blanks-stops zero s p h l b = absurd (omega arith)
skip_blanks-stops (suc f) s p h l b =
    elim (Bool-cases (ltb p (length s) && (ch s p == 32 || ch s p == 9))) [
      | inl e ↦
          skip_blanks-stops f s (p + 1) (omega arith) (rw (e, skip_blanks) at l)
            (rw (e, skip_blanks) at b)
      | inr e ↦ here (rw (e, skip_blanks) at l) (rw (e, skip_blanks) at b) e
    ]
  where
    here :
        p < length s
        → IsBlank (ch s p)
        → (ltb p (length s) && (ch s p == 32 || ch s p == 9)) ≡ false
        → ⊥
    here l b e = let z : true ≡ false = rw (lt→ltb p (length s) l, b) at e in cc

-- The comparison of a word with the text.
same_at-same :
    (s : Bytes) (p : ℕ) (w : Bytes)
    → same_at s p w ≡ true
    → (i : ℕ) → i < length w
    → ch s (p + i) ≡ get_or w i 0
unfolding same_at
same_at-same s p [] h i l = elim l [ ]
same_at-same s p (c ∷ w) h i l = elim (Bool-cases (ch s p == c)) [
  | inl e ↦
      go i l (let z : ch s p ≡ c = ground (arith, e) in z) (same_at-same s (suc p) w (rw e at h))
  | inr e ↦ absurd (let z : false ≡ true = rw e at h in cc)
]
  where
    go :
        (i : ℕ)
        → i < suc (length w)
        → ch s p ≡ c
        → ((j : ℕ) → j < length w → ch s (suc p + j) ≡ get_or w j 0)
        → ch s (p + i) ≡ get_or (c ∷ w) i 0
    go zero l e h = ap (ch s) (let z : p + 0 ≡ p = omega arith in z) ∙ e
    go (suc i) l e h =
        ap (ch s) (let z : p + suc i ≡ suc p + i = omega arith in z) ∙ h i (omega arith)

same-same_at :
    (s : Bytes) (p : ℕ) (w : Bytes)
    → ((i : ℕ) → i < length w → ch s (p + i) ≡ get_or w i 0)
    → same_at s p w ≡ true
unfolding same_at
same-same_at s p [] h = refl
same-same_at s p (c ∷ w) h =
    let first : ch s p ≡ c = ap (ch s) (let z : p ≡ p + 0 = omega arith in z) ∙ h 0 (omega arith) in
    let rest : same_at s (suc p) w ≡ true = same-same_at s (suc p) w λ i l.
      ap (ch s) (let z : suc p + i ≡ p + suc i = omega arith in z) ∙ h (suc i) (omega arith) in
    let e : (ch s p == c) ≡ true = ground (arith, first) in rw (e, rest)

-- A word that is found stands behind the blanks.
found :
    (s : Bytes) (p : ℕ) (w : Bytes)
    → 0 < match_next_word s p w
    → Found s p w (match_next_word s p w)
unfolding match_next_word
found s p w h =
    let q = skip_blanks (length s) s p in
    elim (Bool-cases (ltb (length s) (q + length w))) [
      | inl e ↦ absurd (let z : 0 < 0 = rw e at h in omega arith)
      | inr e ↦ elim (Bool-cases (same_at s q w && not (is_id_part (ch s (q + length w))))) [
        | inl g ↦
            rw (e, g)
              (record {
                from = q;
                gap = skip_blanks-Gap (length s) s p;
                ends = refl;
                inside = omega (arith, ltb→ge _ _ e);
                same = same_at-same s q w (both _ _ g).0;
                whole = (both _ _ g).1;
              })
        | inr g ↦ absurd (let z : 0 < 0 = rw (e, g) at h in omega arith)
      ]
    ]
  where
    both : (a b : Bool) → (a && not b) ≡ true → (a ≡ true) × (b ≡ false)
    both a b h = (ground arith, ground arith)

-- The word's place is where the blanks end.
place :
    (s : Bytes) (p r : ℕ) (w : Bytes)
    → 0 < length w
    → ¬ IsBlank (get_or w 0 0)
    → (y : Found s p w r) → skip_blanks (length s) s p ≡ y.from
place s p r w l nb y =
    let q = skip_blanks (length s) s p in
    let g = skip_blanks-Gap (length s) s p in
    let first : ch s y.from ≡ get_or w 0 0 =
      ap (ch s) (let z : y.from ≡ y.from + 0 = omega arith in z) ∙ y.same 0 l in
    let after : ¬ (q < y.from) = λ k.
      skip_blanks-stops (length s) s p (omega arith) (omega (arith, y.ends, y.inside))
        (y.gap.blank q g.front k) in
    let before : ¬ (y.from < q) = λ k. nb (subst IsBlank first (g.blank y.from y.gap.front k)) in
    omega arith

-- `match_next_word` gives the end of the word exactly where the word stands behind blanks, inside
-- the source, with no character of an identifier behind it; for a word that is not empty and begins with
-- no blank.
pub match_next_word-Answers :
    (s : Bytes) (p : ℕ) (w : Bytes)
    → 0 < length w
    → ¬ IsBlank (get_or w 0 0)
    → (0 < match_next_word s p w → Found s p w (match_next_word s p w))
      × ((r : ℕ) → Found s p w r → match_next_word s p w ≡ r)
unfolding match_next_word
match_next_word-Answers s p w l nb = (found s p w, finds)
  where
    finds : (r : ℕ) → Found s p w r → match_next_word s p w ≡ r
    finds r y =
        let e = place s p r w l nb y in
        let here : y.from + length w ≡ r = sym y.ends in
        let short : ltb (length s) r ≡ false = ground (arith, y.inside) in
        rw (e, here, short, same-same_at s y.from w y.same, y.whole)
