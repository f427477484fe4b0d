-- ===== src/Lexer/Succeeds.antt =====
-- A source without a quote is lexed without an error.
use ern_os.Base.{
  ℕ, zero, suc, ◌<◌, ◌≡◌, refl, inl, inr, Bool, true, false, ◌||◌, List, arith, ltb, ◌==◌,
  Bool-cases, if◌then◌else◌, length,
}
use ern_os.Bytes.{Bytes}
use ern_os.Lexer.{Token, Outcome, ok, err, stuck, ◌>>=◌, ch, is_digit, is_id_start}
use ern_os.Lexer.Ensures.{Ensures, done}
use ern_os.Lexer.Scan.{
  Lex, start_line, punctuation, literal, token_at, round, rounds, start, tokenize_source,
}
use ern_os.Lexer.Total.{WellFormed, tokenize_source-WellFormed}

-- A part that does not report an error.
data Fine {A : Type 0} : Outcome A → Type 0 where
  given : {a : A} → Fine (ok a)
  unfinished : Fine stuck

Fine-if :
    {A : Type 0} (c : Bool) {x y : Outcome A}
    → Fine x
    → (c ≡ false → Fine y)
    → Fine (if c then x else y)
Fine-if true h k = h
Fine-if false h k = k refl

Fine-bind :
    {A B : Type 0} {m : Outcome A} (f : A → Outcome B)
    → Fine m
    → ((a : A) → Fine (f a))
    → Fine (m >>= f)
Fine-bind f (given {a}) k = k a
Fine-bind f unfinished k = unfinished

module _ (sub : Bytes → Outcome (List Token)) (s : Bytes)
    (unquoted : (p : ℕ) → ¬ (ch s p ≡ 34)) where
  token_at-Fine : (x : Lex) → Fine (token_at sub s x)
  unfolding token_at
  token_at-Fine x =
      let c = ch s x.at in
      Fine-if (c == 32 || c == 9) given λ _. Fine-if (c == 10 || c == 13) given λ _.
        Fine-if (c == 35) given λ _.
          Fine-if (is_digit c) given
            λ _. Fine-if (is_id_start c) given λ _. no_quote (unquoted x.at)
    where
      no_quote :
          ¬ (ch s x.at ≡ 34)
          → Fine (if ch s x.at == 34 then literal sub s x else ok (punctuation s x))
      no_quote h = elim (Bool-cases (ch s x.at == 34)) [
        | inl e ↦ absurd (h (let z : ch s x.at ≡ 34 = ground (arith, e) in z))
        | inr e ↦ rw e given
      ]

  rounds-Fine : (f : ℕ) (x : Lex) → Fine (rounds sub s f x)
  unfolding rounds round
  rounds-Fine zero x = Fine-if (ltb x.at (length s)) unfinished λ _. given
  rounds-Fine (suc f) x =
      let y = if x.line_start then start_line s x else x in
      Fine-if (ltb x.at (length s))
        (Fine-bind (rounds sub s f) (Fine-if (ltb y.at (length s)) (token_at-Fine y) λ _. given)
          (rounds-Fine f))
        λ _. given

-- With more levels of nesting allowed than the text is long, a source without a quote is never
-- refused: its tokens end in their only EOF, and their INDENTs and DEDENTs pair up.
pub tokenize_source-succeeds :
    (d : ℕ) (s : Bytes)
    → length s < d
    → ((p : ℕ) → ¬ (ch s p ≡ 34))
    → (ts : List Token) × (tokenize_source d s ≡ ok ts) × WellFormed ts
unfolding tokenize_source
tokenize_source-succeeds d s h unquoted =
    yields (tokenize_source d s) (tokenize_source-WellFormed d s h) (fine d h)
  where
    fine : (d : ℕ) → length s < d → Fine (tokenize_source d s)
    fine zero l = absurd (omega arith)
    fine (suc d) l =
        Fine-bind _ (rounds-Fine (tokenize_source d) s unquoted (length s) start) λ _. given

    yields :
        (m : Outcome (List Token))
        → Ensures WellFormed m
        → Fine m
        → (ts : List Token) × (m ≡ ok ts) × WellFormed ts
    yields (ok ts) (done w) f = (ts, refl, w)
    yields stuck h f = elim h [ ]
    yields err h f = elim f [ ]
