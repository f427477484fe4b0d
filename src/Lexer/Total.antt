-- ===== src/Lexer/Total.antt =====
-- The main loop of tokenize_source always ends, and its tokens are well formed.
use ern_os.Base.{
  ℕ, zero, suc, ◌+◌, ◌-◌, ◌≤◌, ◌<◌, ◌≡◌, refl, sym, ◌∙◌, Bool, true, false, ◌&&◌, ◌||◌, some, List,
  [], ◌∷◌, ◌++◌, append_assoc, arith, ltb, ltb→lt, ltb→ge, ◌==◌, if◌then◌else◌, length,
}
use ern_os.Base.Int.{pos}
use ern_os.Bytes.{Bytes, substring}
use ern_os.Lexer.{Token, create_token, get_token_type, Outcome, ch, is_digit, is_id_start}
use ern_os.Lexer.Ensures.{Ensures, done, Ensures-if, Ensures-bind, Ensures-map}
use ern_os.Lexer.Progress.{comment_end-le, digits_end-lt, digits_end-le, id_end-lt}
use ern_os.Lexer.Balance.{walk, neutral, walk-append}
use ern_os.Lexer.Kinds.{classify-Onward, symbol_at-Sound}
use ern_os.Lexer.LiteralLaws.{Serves, lex_string_body-Reads}
use ern_os.Lexer.Indents.{
  Inv, open_blocks, push-Inv, Extends-Inv, start_line-Inv, f_prefix-blocks, close_all-closes,
}
use ern_os.Lexer.Scan.{
  Lex, push, start_line, wants_newline, newline, digits_end, id_end, number, identifier, f_prefix,
  symbol_at, punctuation, literal, token_at, round, rounds, close_all, start, finish,
  tokenize_source,
}

-- The loop's state further on than another, with the invariant.
pub record Moved (x y : Lex) : Type 0 where
  pub inv : Inv y
  pub front : x.at < y.at

-- A choice that leads further on either way.
if_lt : (b : Bool) {a p q : ℕ} → a < p → a < q → a < (if b then p else q)
if_lt true h k = h
if_lt false h k = k

if_Inv : (b : Bool) {y z : Lex} → Inv y → Inv z → Inv (if b then y else z)
if_Inv true h k = h
if_Inv false h k = k

newline-Moved : (s : Bytes) (x : Lex) → Inv x → Moved x (newline s x)
unfolding newline create_token
newline-Moved s x v =
    let t = create_token 28 (10 ∷ []) x.line x.col in
    let i = if_Inv (wants_newline x.toks) (push-Inv x t refl v) v in
    record {
      inv = record { grows = i.grows; blocks = i.blocks };
      front = if_lt (ch s x.at == 13 && ch s (x.at + 1) == 10) (omega arith) (omega arith);
    }

number-Moved :
    (s : Bytes) (x : Lex)
    → x.at < length s
    → is_digit (ch s x.at) ≡ true
    → Inv x
    → Moved x (number s x)
unfolding number create_token push
number-Moved s x l d v =
    let n = length s in
    let p = digits_end n s x.at in
    let further : x.at < p = digits_end-lt n s x.at (omega arith) l d in
    let fraction = ltb (p + 1) n && (ch s p == 46 && is_digit (ch s (p + 1))) in
    record {
      inv = Extends-Inv x _ refl (_ ∷ [], refl, (plain fraction, tt)) v;
      front = if_lt fraction (omega (arith, digits_end-le n s (p + 1))) further;
    }
  where
    plain : (b : Bool) → neutral (if b then 70 else 25) ≡ true
    plain true = refl
    plain false = refl

identifier-Moved :
    (s : Bytes) (x : Lex)
    → x.at < length s
    → is_id_start (ch s x.at) ≡ true
    → Inv x
    → Moved x (identifier s x)
unfolding identifier create_token push
identifier-Moved s x l d v =
    let e = id_end (length s) s x.at in
    let text = substring (some s) (pos x.at) (pos (e - x.at)) in
    let o =
      classify-Onward e s (record { kind = 27; text = text; at = e; done = false })
        (record { plain = refl; front = omega arith }) in
    record {
      inv = Extends-Inv x _ refl (_ ∷ [], refl, (o.plain, tt)) v;
      front = omega (arith, o.front, id_end-lt (length s) s x.at (omega arith) l d);
    }

punctuation-Moved : (s : Bytes) (x : Lex) → Inv x → Moved x (punctuation s x)
unfolding punctuation create_token push
punctuation-Moved s x v =
    let y = symbol_at (ch s x.at) (ch s (x.at + 1)) in
    let o = symbol_at-Sound (ch s x.at) (ch s (x.at + 1)) in
    pick (ltb 0 y.kind)
      (record {
        inv = Extends-Inv x _ refl (_ ∷ [], refl, (o.plain, tt)) v;
        front = omega (arith, o.long);
      })
      (record { inv = record { grows = v.grows; blocks = v.blocks }; front = omega arith })
  where
    pick : (b : Bool) {y z : Lex} → Moved x y → Moved x z → Moved x (if b then y else z)
    pick true h k = h
    pick false h k = k

module _ (sub : Bytes → Outcome (List Token)) (s : Bytes) (serves : Serves sub s) where
  literal-Moved : (x : Lex) → x.at < length s → Inv x → Ensures (Moved x) (literal sub s x)
  unfolding literal
  literal-Moved x l v =
      let p = f_prefix x.toks in
      Ensures-bind (lex_string_body-Reads sub s x.line p.1 serves p.0 x.at x.col l) λ b hb.
        done (record {
          inv =
              Extends-Inv (record x { toks = p.0 }) _ refl hb.toks
                (record { grows = v.grows; blocks = f_prefix-blocks x.toks _ v.blocks });
          front = hb.front;
        })

  token_at-Moved : (x : Lex) → x.at < length s → Inv x → Ensures (Moved x) (token_at sub s x)
  unfolding token_at
  token_at-Moved x l v =
      let c = ch s x.at in
      Ensures-if (c == 32 || c == 9)
        (λ _.
          done
            (record { inv = record { grows = v.grows; blocks = v.blocks }; front = omega arith }))
        λ _.
          Ensures-if (c == 10 || c == 13) (λ _. done (newline-Moved s x v))
            λ _.
              Ensures-if (c == 35)
                (λ _. done (record {
                  inv = record { grows = v.grows; blocks = v.blocks };
                  front = omega (arith, comment_end-le (length s) s (x.at + 1));
                }))
                λ _.
                  Ensures-if (is_digit c) (λ d. done (number-Moved s x l d v))
                    λ _.
                      Ensures-if (is_id_start c) (λ d. done (identifier-Moved s x l d v))
                        λ _.
                          Ensures-if (c == 34) (λ _. literal-Moved x l v)
                            λ _. done (punctuation-Moved s x v)

  round-Moved : (x : Lex) → x.at < length s → Inv x → Ensures (Moved x) (round sub s x)
  unfolding round
  round-Moved x l v =
      let y = if x.line_start then start_line s x else x in
      let h = begun x.line_start in
      Ensures-if (ltb y.at (length s))
        (λ e.
          Ensures-map (token_at-Moved y (ltb→lt _ _ e) h.0)
            λ r hr. record { inv = hr.inv; front = omega (arith, hr.front, h.1) })
        λ e. done (record { inv = h.0; front = omega (arith, ltb→ge y.at (length s) e) })
    where
      begun : (b : Bool) → let y = if b then start_line s x else x in Inv y × (x.at ≤ y.at)
      begun true = start_line-Inv s x v
      begun false = (v, omega arith)

  -- A round for each position that is left is enough.
  rounds-Inv : (f : ℕ) (x : Lex) → length s ≤ x.at + f → Inv x → Ensures Inv (rounds sub s f x)
  unfolding rounds
  rounds-Inv zero x h v =
      Ensures-if (ltb x.at (length s)) (λ e. absurd (let l = ltb→lt _ _ e in omega arith))
        λ _. done v
  rounds-Inv (suc f) x h v =
      Ensures-if (ltb x.at (length s))
        (λ e.
          Ensures-bind (round-Moved x (ltb→lt _ _ e) v)
            λ y hy. rounds-Inv f y (omega (arith, hy.front)) hy.inv)
        λ _. done v

-- Tokens that end in their only EOF, and whose INDENTs and DEDENTs pair up before it.
abbrev pub WellFormed : List Token → Type 0
WellFormed ts =
    (us : List Token) × (t : Token) × (ts ≡ us ++ t ∷ [])
    × (get_token_type t ≡ 31)
    × (walk 0 us ≡ some 0)

finish-WellFormed : (x : Lex) → Inv x → WellFormed (finish x)
unfolding finish create_token get_token_type
finish-WellFormed x v = (
  x.toks ++ close_all x.line x.col x.indents,
  _,
  sym (append_assoc x.toks (close_all x.line x.col x.indents) _),
  refl,
  walk-append 0 (open_blocks x.indents) x.toks _ v.blocks ∙ close_all-closes x.line x.col x.indents,
)

-- With more levels of nesting allowed than the text is long, `tokenize_source` never runs out of
-- fuel: it reports an error, or it gives tokens that end in their only EOF and whose INDENTs and
-- DEDENTs pair up.
pub tokenize_source-WellFormed :
    (d : ℕ) (s : Bytes) → length s < d → Ensures WellFormed (tokenize_source d s)
unfolding tokenize_source
tokenize_source-WellFormed zero s h = absurd (omega arith)
tokenize_source-WellFormed (suc d) s h =
    let serves : Serves (tokenize_source d) s =
      λ e l. Ensures-map (tokenize_source-WellFormed d e (omega arith)) λ _ _. tt in
    Ensures-bind
      (rounds-Inv (tokenize_source d) s serves (length s) start (omega arith)
        (record { grows = refl; blocks = refl }))
      λ x v. done (finish-WellFormed x v)
