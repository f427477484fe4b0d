-- ===== src/Lexer/LiteralLaws.antt =====
-- The body of a literal: it ends, it goes forward, and what it appends opens and closes no block.
use ern_os.Base.{
  ℕ, zero, suc, ◌+◌, ◌-◌, ◌≤◌, ◌<◌, ◌≡◌, refl, sym, ◌∙◌, ap, inl, inr, Bool, true, false, ◌&&◌,
  ◌||◌, not, List, [], ◌∷◌, ◌++◌, append-nil, append_assoc, arith, ltb, ltb→lt, ◌==◌, Bool-cases,
  if◌then◌else◌, length, length-append, replicate,
}
use ern_os.Bytes.{Bytes, codes}
use ern_os.Lexer.{Token, create_token, Outcome, ch, from_chars}
use ern_os.Lexer.Ensures.{Ensures, done, failed, Ensures-if, Ensures-bind, Ensures-map}
use ern_os.Lexer.Progress.{length-from_chars}
use ern_os.Lexer.Balance.{
  AreNeutral, append-AreNeutral, replicate-AreNeutral, inner_tokens-AreNeutral,
}
use ern_os.Lexer.Literal.{
  Part, take_char, quoted, expression, escape, Body, open_part, inner_tokens, close_part,
  interpolate, body, lex_string_body,
}

-- A part at a position of the text from `n` on, with no more characters than the positions
-- passed since `k`.
pub record Further (s : Bytes) (n k : ℕ) (y : Part) : Type 0 where
  pub front : n ≤ y.at
  pub few : length y.chars + k ≤ y.at
  pub inside : y.at ≤ length s

take_char-Further :
    {s : Bytes} {n k : ℕ} (x : Part) (c : ℕ)
    → Further s n k x
    → x.at < length s
    → Further s (suc n) k (take_char x c)
unfolding take_char
take_char-Further x c h l = record {
  front = omega (arith, h.front);
  few = omega (arith, length-append x.chars (c ∷ []), h.few);
  inside = omega (arith, l);
}

weaken : {s : Bytes} {n m k : ℕ} {y : Part} → m ≤ n → Further s n k y → Further s m k y
weaken l h = record { front = omega (arith, h.front); few = h.few; inside = h.inside }

take_char-at : (x : Part) (c : ℕ) → (take_char x c).at ≡ x.at + 1
unfolding take_char
take_char-at x c = refl

-- A backslash takes the character behind it, if there is one.
escaped-Further :
    (s : Bytes) (n k : ℕ) (y : Part) (c : ℕ)
    → Further s n k y
    → Further s n k (if ltb y.at (length s) then take_char y c else y)
      × (y.at ≤ (if ltb y.at (length s) then take_char y c else y).at)
escaped-Further s n k y c h = elim (Bool-cases (ltb y.at (length s))) [
  | inl e ↦ rw e (
    weaken (omega arith) (take_char-Further y c h (ltb→lt _ _ e)),
    omega (arith, take_char-at y c),
  )
  | inr e ↦ rw e (h, omega arith)
]

not-false : (b : Bool) → not b ≡ false → b ≡ true
not-false true h = refl
not-false false h = cc

quoted-Further :
    (f : ℕ) (s : Bytes) (n k : ℕ) (x : Part)
    → length s < x.at + f
    → Further s n k x
    → Ensures (Further s n k) (quoted f s x)
unfolding quoted
quoted-Further zero s n k x e h = absurd (omega (arith, h.inside))
quoted-Further (suc f) s n k x e h =
    let c = ch s x.at in
    let y = take_char x c in
    let at = take_char-at x c in
    Ensures-if (not (ltb x.at (length s))) (λ _. done h)
      λ g.
        let hy = take_char-Further x c h (ltb→lt _ _ (not-false _ g)) in
        let hz = escaped-Further s (suc n) k y (ch s y.at) hy in
        Ensures-if (c == 34) (λ _. done (weaken (omega arith) hy))
          λ _.
            Ensures-if (c == 92)
              (λ _. quoted-Further f s n k _ (omega (arith, at, hz.1)) (weaken (omega arith) hz.0))
              (λ _. quoted-Further f s n k y (omega (arith, at)) (weaken (omega arith) hy))

-- The expression ends behind a brace inside the text, which is not among its characters.
pub record Closed (s : Bytes) (n k : ℕ) (y : Part) : Type 0 where
  pub front : n < y.at
  pub few : length y.chars + k < y.at
  pub inside : y.at ≤ length s

expression-Closed :
    (f : ℕ) (s : Bytes) (n k depth : ℕ) (x : Part)
    → length s < x.at + f
    → Further s n k x
    → Ensures (Closed s n k) (expression f s depth x)
unfolding expression
expression-Closed zero s n k depth x e h = absurd (omega (arith, h.inside))
expression-Closed (suc f) s n k depth x e h =
    let c = ch s x.at in
    let y = take_char x c in
    let at = take_char-at x c in
    Ensures-if (not (ltb x.at (length s))) (λ _. failed)
      λ g.
        let l = ltb→lt _ _ (not-false _ g) in
        let hy = take_char-Further x c h l in
        let here : Further s (suc x.at) k y = record {
          front = omega (arith, at);
          few = hy.few;
          inside = hy.inside;
        } in
        let next =
          λ (d : ℕ). expression-Closed f s n k d y (omega (arith, at)) (weaken (omega arith) hy) in
        Ensures-if (c == 34)
          (λ _.
            Ensures-bind (quoted-Further (suc f) s (suc x.at) k y (omega (arith, at)) here) λ z hz.
              expression-Closed f s n k depth z (omega (arith, hz.front)) (record {
                front = omega (arith, h.front, hz.front);
                few = hz.few;
                inside = hz.inside;
              }))
          λ _.
            Ensures-if (c == 125)
              (λ _.
                Ensures-if (depth == 1)
                  (λ _. done (record {
                    front = omega (arith, h.front);
                    few = omega (arith, h.few);
                    inside = omega (arith, l);
                  }))
                  (λ _. next (depth - 1)))
              λ _. Ensures-if (c == 123) (λ _. next (depth + 1)) (λ _. next depth)

-- Tokens with neutral ones behind them.
abbrev pub Extends : List Token → List Token → Type 0
Extends a b = (n : List Token) × (b ≡ a ++ n) × AreNeutral n

pub Extends-refl : (a : List Token) → Extends a a
Extends-refl a = ([], sym (append-nil a), tt)

pub Extends-trans : (a b c : List Token) → Extends a b → Extends b c → Extends a c
Extends-trans a b c (n, e, h) (m, g, k) =
    (n ++ m, g ∙ ap (λ t. t ++ m) e ∙ append_assoc a n m, append-AreNeutral n m h k)

-- The loop's state further on, with neutral tokens more.
pub record Reads (s : Bytes) (n : ℕ) (a : List Token) (r : Body) : Type 0 where
  pub front : n < r.at
  pub inside : r.at ≤ length s
  pub toks : Extends a r.toks

open_part-Extends : (line : ℕ) (b : Body) → Extends b.toks (open_part line b).toks
unfolding open_part create_token
open_part-Extends line b = elim (Bool-cases (length (from_chars b.chars) == 0)) [
  | inl e ↦ rw e (_, refl, (refl, (refl, (refl, (refl, tt)))))
  | inr e ↦ rw e (_, refl, (refl, (refl, (refl, (refl, (refl, (refl, (refl, (refl, tt)))))))))
]

open_part-at : (line : ℕ) (b : Body) → (open_part line b).at ≡ b.at + 1
unfolding open_part
open_part-at line b = refl

close_part-Extends :
    (line : ℕ) (b : Body) (x : Part) (ts : List Token)
    → Extends b.toks (close_part line b x ts).toks × ((close_part line b x ts).at ≡ x.at)
unfolding close_part create_token
close_part-Extends line b x ts = (
  (_, refl, append-AreNeutral (inner_tokens ts) _ (inner_tokens-AreNeutral ts) (refl, (refl, tt))),
  refl,
)

-- A call of the lexer on a shorter text ends.
abbrev pub Serves : (Bytes → Outcome (List Token)) → Bytes → Type 0
Serves sub s = (e : Bytes) → length e < length s → Ensures (λ _. Unit {0}) (sub e)

module _ (sub : Bytes → Outcome (List Token)) (s : Bytes) (line : ℕ) (is_fstring : Bool)
    (serves : Serves sub s) where
  interpolate-Reads :
      (f : ℕ) (b : Body)
      → length s < b.at + suc f
      → b.at < length s
      → Ensures (Reads s b.at b.toks) (interpolate sub s line is_fstring f b)
  unfolding interpolate
  interpolate-Reads f b e l =
      let b' = open_part line b in
      let at = open_part-at line b in
      Ensures-bind
        (expression-Closed f s b'.at b'.at 1 (record { chars = []; at = b'.at; col = b'.col })
          (omega (arith, at))
          (record { front = omega arith; few = omega arith; inside = omega (arith, at) }))
        λ x hx.
          Ensures-bind
            (serves (from_chars x.chars)
              (omega (arith, length-from_chars x.chars, hx.few, hx.inside)))
            λ ts _.
              let close = close_part-Extends line b' x ts in
              done (record {
                front = omega (arith, close.1, hx.front, at);
                inside = omega (arith, close.1, hx.inside);
                toks = Extends-trans _ _ _ (open_part-Extends line b) close.0;
              })

  -- With fuel for every position that is left, the loop ends behind the closing quote.
  body-Reads :
      (f : ℕ) (b : Body)
      → length s < b.at + f
      → b.at ≤ length s
      → Ensures (Reads s b.at b.toks) (body sub s line is_fstring f b)
  unfolding body
  body-Reads zero b e l = absurd (omega arith)
  body-Reads (suc f) b e l =
      let c = ch s b.at in
      Ensures-if (not (ltb b.at (length s))) (λ _. failed)
        λ g.
          let p = ltb→lt _ _ (not-false _ g) in
          let one_on =
            body-Reads f (record b { chars = b.chars ++ c ∷ []; at = b.at + 1; col = b.col + 1 })
              (omega arith) (omega arith) in
          Ensures-if (c == 34)
            (λ _.
              done
                (record { front = omega arith; inside = omega arith; toks = Extends-refl b.toks }))
            λ _.
              Ensures-if (c == 123 && is_fstring)
                (λ _. Ensures-bind (interpolate-Reads f b (omega arith) p) λ r hr.
                  Ensures-map (body-Reads f r (omega (arith, hr.front)) hr.inside) λ q hq. record {
                    front = omega (arith, hr.front, hq.front);
                    inside = hq.inside;
                    toks = Extends-trans _ _ _ hr.toks hq.toks;
                  })
                λ _.
                  Ensures-if (c == 92)
                    (λ _.
                      Ensures-if (ltb (b.at + 1) (length s))
                        (λ k.
                          let more = ltb→lt _ _ k in
                          Ensures-map
                            (body-Reads f
                              (record b {
                                chars = b.chars ++ escape (ch s (b.at + 1));
                                at = b.at + 2;
                                col = b.col + 2;
                              })
                              (omega arith) (omega arith))
                            λ q hq. record {
                              front = omega (arith, hq.front);
                              inside = hq.inside;
                              toks = hq.toks;
                            })
                        (λ _. failed))
                    λ _.
                      Ensures-if (c == 10 || c == 13) (λ _. failed)
                        λ _. Ensures-map one_on λ q hq. record {
                          front = omega (arith, hq.front);
                          inside = hq.inside;
                          toks = hq.toks;
                        }

  pub lex_string_body-Reads :
      (toks : List Token) (pos0 col : ℕ)
      → pos0 < length s
      → Ensures (Reads s pos0 toks) (lex_string_body sub s line is_fstring toks pos0 col)
  unfolding lex_string_body create_token
  lex_string_body-Reads toks pos0 col l =
      Ensures-bind
        (body-Reads (length s + 1)
          (record { toks = toks; chars = []; opens = 0; at = pos0 + 1; col = col + 1 })
          (omega arith) (omega arith))
        λ b hb. done (record {
          front = omega (arith, hb.front);
          inside = hb.inside;
          toks =
              Extends-trans _ _ _ hb.toks
                (_, refl, (refl, closing-AreNeutral is_fstring b.opens b.col));
        })
    where
      closing-AreNeutral :
          (c : Bool) (n k : ℕ)
          → AreNeutral (if c then replicate n (create_token 24 (codes ")") line k) else [])
      closing-AreNeutral true n k = replicate-AreNeutral n _ refl
      closing-AreNeutral false n k = tt
