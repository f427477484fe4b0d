-- ===== src/Escape/Reads.antt =====
-- The lexer reads a literal that escape_string wrote.
use ern_os.Base.{
  ℕ, zero, suc, ◌+◌, ◌<◌, ◌≡◌, ◌⊎◌, refl, sym, ◌∙◌, ap, ap₂, inl, inr, Bool, true, false, ◌&&◌,
  ◌||◌, List, [], ◌∷◌, ◌++◌, append-nil, append_assoc, arith, ltb, leb, ◌==◌, Bool-cases,
  if◌then◌else◌, length, length-append, get_or, get_or-append_right, subst,
}
use ern_os.Bytes.{Bytes, IsText}
use ern_os.Bytes.Text.{append-IsText, string_from_list-map}
use ern_os.Lexer.{Token, create_token, Outcome, ok, ◌>>=◌, ch, from_chars}
use ern_os.Lexer.Literal.{escape, Body, body, lex_string_body}
use ern_os.Escape.{escape_char, escape_chars, escape_string}

ch-append : (pre rest : Bytes) (c : ℕ) → ch (pre ++ c ∷ rest) (length pre) ≡ c
unfolding ch
ch-append pre rest c =
    let inside : leb (length (pre ++ c ∷ rest)) (length pre) ≡ false =
      ground (arith, length-append pre (c ∷ rest)) in
    let at : length pre ≡ length pre + 0 = omega arith in
    rw inside (ap (λ i. get_or (pre ++ c ∷ rest) i 0) at ∙ get_or-append_right pre (c ∷ rest) 0 0)

ch-second : (pre rest : Bytes) (c at : ℕ) → at ≡ length pre → ch (pre ++ 92 ∷ c ∷ rest) (at + 1) ≡ c
ch-second pre rest c at h =
    let split : pre ++ 92 ∷ c ∷ rest ≡ (pre ++ 92 ∷ []) ++ c ∷ rest =
      sym (append_assoc pre (92 ∷ []) (c ∷ rest)) in
    let place : at + 1 ≡ length (pre ++ 92 ∷ []) = omega (arith, h, length-append pre (92 ∷ [])) in
    ap₂ ch split place ∙ ch-append (pre ++ 92 ∷ []) rest c

module _ (sub : Bytes → Outcome (List Token)) (line : ℕ) where
  -- A round of the loop for a character that stands escaped.
  step_escaped :
      (pre rest : Bytes) (c : ℕ) (f : ℕ) (b : Body)
      → b.at ≡ length pre
      → body sub (pre ++ 92 ∷ c ∷ rest) line false (suc f) b
        ≡ body sub
            (pre ++ 92 ∷ c ∷ rest)
            line
            false
            f
            (record b { chars = b.chars ++ escape c; at = b.at + 2; col = b.col + 2 })
  unfolding body
  step_escaped pre rest c f b h =
      let src = pre ++ 92 ∷ c ∷ rest in
      let long = length-append pre (92 ∷ c ∷ rest) in
      let inside : ltb b.at (length src) ≡ true = ground (arith, long, h) in
      let more : ltb (b.at + 1) (length src) ≡ true = ground (arith, long, h) in
      let now : ch src b.at ≡ 92 = ap (ch src) h ∙ ch-append pre (c ∷ rest) 92 in
      let next : ch src (b.at + 1) ≡ c = ch-second pre rest c b.at h in
      rw (inside, now, more, next) refl

  step_plain :
      (pre rest : Bytes) (c : ℕ) (f : ℕ) (b : Body)
      → b.at ≡ length pre
      → (c == 34) ≡ false
      → (c == 92) ≡ false
      → (c == 10 || c == 13) ≡ false
      → body sub (pre ++ c ∷ rest) line false (suc f) b
        ≡ body sub
            (pre ++ c ∷ rest)
            line
            false
            f
            (record b { chars = b.chars ++ c ∷ []; at = b.at + 1; col = b.col + 1 })
  unfolding body
  step_plain pre rest c f b h x y z =
      let src = pre ++ c ∷ rest in
      let long = length-append pre (c ∷ rest) in
      let inside : ltb b.at (length src) ≡ true = ground (arith, long, h) in
      let now : ch src b.at ≡ c = ap (ch src) h ∙ ch-append pre rest c in
      let brace : (c == 123 && false) ≡ false = ground arith in
      rw (inside, now, x, brace, y, z) refl

step_close :
    (sub : Bytes → Outcome (List Token)) (line : ℕ) (pre post : Bytes) (f : ℕ) (b : Body)
    → b.at ≡ length pre
    → body sub (pre ++ 34 ∷ post) line false (suc f) b
      ≡ ok (record b { at = b.at + 1; col = b.col + 1 })
unfolding body
step_close sub line pre post f b h =
    let src = pre ++ 34 ∷ post in
    let inside : ltb b.at (length src) ≡ true = ground (arith, length-append pre (34 ∷ post), h) in
    let now : ch src b.at ≡ 34 = ap (ch src) h ∙ ch-append pre post 34 in rw (inside, now) refl

-- How a character is written: behind a backslash, from which the lexer reads it back, or as it is.
abbrev Written : ℕ → Type 0
Written c =
    ((k : ℕ) × (escape_char c ≡ 92 ∷ k ∷ []) × (escape k ≡ c ∷ []))
    ⊎ ((escape_char c ≡ c ∷ [])
        × ((c == 34) ≡ false)
        × ((c == 92) ≡ false)
        × ((c == 10 || c == 13) ≡ false))

escape_char-Written : (c : ℕ) → Written c
unfolding escape_char escape
escape_char-Written c = elim (Bool-cases (c == 92)) [
  | inl e ↦ inl (92, rw e refl, same 92 e)
  | inr e ↦ elim (Bool-cases (c == 34)) [
    | inl g ↦ inl (34, rw (e, g) refl, same 34 g)
    | inr g ↦ elim (Bool-cases (c == 10)) [
      | inl k ↦ inl (110, rw (e, g, k) refl, same 10 k)
      | inr k ↦ elim (Bool-cases (c == 9)) [
        | inl l ↦ inl (116, rw (e, g, k, l) refl, same 9 l)
        | inr l ↦ elim (Bool-cases (c == 13)) [
          | inl m ↦ inl (114, rw (e, g, k, l, m) refl, same 13 m)
          | inr m ↦ inr (rw (e, g, k, l, m) refl, g, e, rw (k, m) refl)
        ]
      ]
    ]
  ]
]
  where
    same : (k : ℕ) → (c == k) ≡ true → k ∷ [] ≡ c ∷ []
    same k h = ap (λ x. x ∷ []) (let z : k ≡ c = ground (arith, h) in z)

-- The loop has read a text: it has its characters and stands behind the closing quote.
pub record HasRead (b : Body) (s : Bytes) (n : ℕ) (b' : Body) : Type 0 where
  pub toks : b'.toks ≡ b.toks
  pub chars : b'.chars ≡ b.chars ++ s
  pub at : b'.at ≡ b.at + n + 1

module _ (sub : Bytes → Outcome (List Token)) (line : ℕ) where
  body-HasRead :
      (s src pre post : Bytes) (f : ℕ) (b : Body)
      → src ≡ pre ++ (escape_chars s ++ 34 ∷ post)
      → b.at ≡ length pre
      → length (escape_chars s) < f
      → (b' : Body) × (body sub src line false f b ≡ ok b')
        × HasRead b s (length (escape_chars s)) b'
  unfolding escape_chars
  body-HasRead s src pre post zero b e h l = absurd (omega arith)
  body-HasRead [] src pre post (suc f) b e h l = (
    record b { at = b.at + 1; col = b.col + 1 },
    ap (λ t. body sub t line false (suc f) b) e ∙ step_close sub line pre post f b h,
    record { toks = refl; chars = sym (append-nil b.chars); at = omega arith },
  )
  body-HasRead (c ∷ s) src pre post (suc f) b e h l = elim (escape_char-Written c) [
    | inl (k, w, r) ↦
        let rest = escape_chars s ++ 34 ∷ post in
        let e' : src ≡ pre ++ 92 ∷ k ∷ rest =
          e ∙ ap (λ x. pre ++ ((x ++ escape_chars s) ++ 34 ∷ post)) w in
        let n : length (escape_char c ++ escape_chars s) ≡ 2 + length (escape_chars s) =
          ap (λ x. length (x ++ escape_chars s)) w ∙ omega arith in
        let next =
          λ (t : List ℕ). record b { chars = b.chars ++ t; at = b.at + 2; col = b.col + 2 } in
        let step : body sub src line false (suc f) b ≡ body sub src line false f (next (escape k)) =
          subst (λ t. body sub t line false (suc f) b ≡ body sub t line false f (next (escape k)))
            (sym e') (step_escaped sub line pre rest k f b h) in
        let (b', g, read) =
          body-HasRead s src (pre ++ 92 ∷ k ∷ []) post f (next (c ∷ []))
            (e' ∙ sym (append_assoc pre (92 ∷ k ∷ []) rest))
            (omega (arith, h, length-append pre (92 ∷ k ∷ []))) (omega (arith, l, n)) in
        (
          b',
          step ∙ ap (λ t. body sub src line false f (next t)) r ∙ g,
          record {
            toks = read.toks;
            chars = read.chars ∙ append_assoc b.chars (c ∷ []) s;
            at = omega (arith, read.at, n);
          },
        )
    | inr (w, x, y, z) ↦
        let rest = escape_chars s ++ 34 ∷ post in
        let e' : src ≡ pre ++ c ∷ rest =
          e ∙ ap (λ t. pre ++ ((t ++ escape_chars s) ++ 34 ∷ post)) w in
        let n : length (escape_char c ++ escape_chars s) ≡ 1 + length (escape_chars s) =
          ap (λ t. length (t ++ escape_chars s)) w ∙ omega arith in
        let next = record b { chars = b.chars ++ c ∷ []; at = b.at + 1; col = b.col + 1 } in
        let step : body sub src line false (suc f) b ≡ body sub src line false f next =
          subst (λ t. body sub t line false (suc f) b ≡ body sub t line false f next) (sym e')
            (step_plain sub line pre rest c f b h x y z) in
        let (b', g, read) =
          body-HasRead s src (pre ++ c ∷ []) post f next (e' ∙ sym (append_assoc pre (c ∷ []) rest))
            (omega (arith, h, length-append pre (c ∷ []))) (omega (arith, l, n)) in
        (
          b',
          step ∙ g,
          record {
            toks = read.toks;
            chars = read.chars ∙ append_assoc b.chars (c ∷ []) s;
            at = omega (arith, read.at, n);
          },
        )
  ]

-- Texts stay texts, and a text is what its characters make.
from_chars-IsText : (s : Bytes) → IsText s → from_chars s ≡ s
unfolding from_chars
from_chars-IsText s h = string_from_list-map s h

escape_chars-IsText : (s : Bytes) → IsText s → IsText (escape_chars s)
unfolding escape_chars
escape_chars-IsText [] h = tt
escape_chars-IsText (c ∷ s) h =
    append-IsText (escape_char c) (escape_chars s) (one c h.0 h.1) (escape_chars-IsText s h.2)
  where
    pick : (b : Bool) (x y : Bytes) → IsText x → IsText y → IsText (if b then x else y)
    pick true x y h k = h
    pick false x y h k = k

    two : {k : ℕ} → 0 < k → k < 256 → IsText (92 ∷ k ∷ [])
    two p q = (omega arith, omega arith, (p, q, tt))

    one : (c : ℕ) → 0 < c → c < 256 → IsText (escape_char c)
    one c p q = pick (c == 92) _ _ (two (omega arith) (omega arith)) (
        pick (c == 34) _ _ (two (omega arith) (omega arith)) (
          pick (c == 10) _ _ (two (omega arith) (omega arith)) (
            pick (c == 9) _ _ (two (omega arith) (omega arith))
              (pick (c == 13) _ _ (two (omega arith) (omega arith)) (p, q, tt)))))

-- `lex_string_body` reads what `escape_string` wrote between two quotes, for a C string: it adds
-- one literal token with the string itself, and goes on behind the closing quote.
pub lex_string_body-escape_string :
    (sub : Bytes → Outcome (List Token)) (s pre post : Bytes) (toks : List Token) (line col : ℕ)
    → IsText s
    → let src = pre ++ 34 ∷ (escape_string s ++ 34 ∷ post) in
      (b : Body) × (lex_string_body sub src line false toks (length pre) col ≡ ok b)
      × (b.toks ≡ toks ++ create_token 26 s line col ∷ [])
      × (b.at ≡ length pre + length (escape_string s) + 2)
unfolding escape_string lex_string_body
lex_string_body-escape_string sub s pre post toks line col h =
    let written : escape_string s ≡ escape_chars s =
      from_chars-IsText (escape_chars s) (escape_chars-IsText s h) in
    let tail = escape_chars s ++ 34 ∷ post in
    let src = pre ++ 34 ∷ (escape_string s ++ 34 ∷ post) in
    let same : src ≡ (pre ++ 34 ∷ []) ++ tail =
      ap (λ t. pre ++ 34 ∷ (t ++ 34 ∷ post)) written ∙ sym (append_assoc pre (34 ∷ []) tail) in
    let long : length src ≡ length pre + 1 + (length (escape_chars s) + suc (length post)) =
      ap length same
      ∙ omega (
        arith,
        length-append (pre ++ 34 ∷ []) tail,
        length-append pre (34 ∷ []),
        length-append (escape_chars s) (34 ∷ post),
      ) in
    let (b', g, read) =
      body-HasRead sub line s src (pre ++ 34 ∷ []) post (length src + 1)
        (record { toks = toks; chars = []; opens = 0; at = length pre + 1; col = col + 1 }) same
        (omega (arith, length-append pre (34 ∷ []))) (omega (arith, long)) in
    let close : Body → Outcome Body =
      λ b. ok (record b { toks = b.toks ++ create_token 26 (from_chars b.chars) line col ∷ [] }) in
    (
      record b' { toks = b'.toks ++ create_token 26 (from_chars b'.chars) line col ∷ [] },
      ap (λ o. o >>= close) g,
      ap₂ (λ t v. t ++ create_token 26 v line col ∷ []) read.toks
          (ap from_chars read.chars ∙ from_chars-IsText s h),
      omega (arith, read.at, ap length written),
    )
