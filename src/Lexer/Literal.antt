-- ===== src/Lexer/Literal.antt =====
-- lex_string_body: the body of a string literal, and of an f-string with its interpolations.
-- `sub` is the call of tokenize_source on an interpolated expression.
use ern_os.Base.{
  ℕ, zero, suc, ◌+◌, ◌-◌, Bool, ◌&&◌, ◌||◌, not, List, [], ◌∷◌, ◌++◌, replicate, ltb, ◌==◌,
  if◌then◌else◌, length,
}
use ern_os.Bytes.{Bytes, codes}
use ern_os.Lexer.{Token, create_token, Outcome, ok, err, stuck, ◌>>=◌, ch, from_chars}

-- The characters of an interpolated expression so far, and where the scan stands.
pub record Part : Type 0 where
  pub chars : List ℕ
  pub at : ℕ
  pub col : ℕ

-- `append_list(expr_chars, c); pos = pos + 1; col = col + 1`
unfoldable pub take_char : Part → ℕ → Part
take_char x c = record { chars = x.chars ++ c ∷ []; at = x.at + 1; col = x.col + 1 }

-- The inner loop over a quoted text inside an expression, from behind its opening quote.
unfoldable pub quoted : ℕ → Bytes → Part → Outcome Part
unfolding take_char ch
quoted zero s x = stuck
quoted (suc f) s x =
    let c = ch s x.at in
    let y = take_char x c in
    let escaped = quoted f s (if ltb y.at (length s) then take_char y (ch s y.at) else y) in
    let plain = quoted f s y in
    if not (ltb x.at (length s))
    then ok x
    else if c == 34
    then ok y
    else if c == 92
    then escaped
    else plain

-- The loop over an interpolated expression: braces nest, and it ends behind the brace that
-- closes it. Without one it is an error.
unfoldable pub expression : ℕ → Bytes → ℕ → Part → Outcome Part
unfolding take_char quoted ch
expression zero s depth x = stuck
expression (suc f) s depth x =
    let c = ch s x.at in
    let y = take_char x c in
    let inside = quoted (suc f) s y >>= expression f s depth in
    let down = expression f s (depth - 1) y in
    let up = expression f s (depth + 1) y in
    let other = expression f s depth y in
    if not (ltb x.at (length s))
    then err
    else if c == 34
    then inside
    else if c == 125
    then (if depth == 1 then ok (record x { at = x.at + 1; col = x.col + 1 }) else down)
    else if c == 123
    then up
    else other

-- What stands for the character behind a backslash.
unfoldable pub escape : ℕ → List ℕ
escape c =
    if c == 110
    then 10 ∷ []
    else if c == 116
    then 9 ∷ []
    else if c == 114
    then 13 ∷ []
    else if c == 34
    then 34 ∷ []
    else if c == 92
    then 92 ∷ []
    else if c == 123
    then 123 ∷ []
    else if c == 125
    then 125 ∷ []
    else 92 ∷ c ∷ []

-- The variables of the loop over the literal.
pub record Body : Type 0 where
  pub toks : List Token
  pub chars : List ℕ
  pub opens : ℕ
  pub at : ℕ
  pub col : ℕ

-- What the loop pushes before an interpolated expression, from the text that it has read.
unfoldable pub open_part : ℕ → Body → Body
unfolding create_token from_chars
open_part line b =
    let col = b.col + 1 in
    let lit = from_chars b.chars in
    let empty = length lit == 0 in
    let before =
      if empty
      then []
      else create_token 27 (codes "concat") line col
        ∷ create_token 23 (codes "(") line col
        ∷ create_token 26 lit line col
        ∷ create_token 11 (codes "and") line col
        ∷ [] in
    record {
      toks =
          b.toks
          ++ (before
              ++ (create_token 27 (codes "concat") line col
                  ∷ create_token 23 (codes "(") line col
                  ∷ create_token 27 (codes "ep_auto_to_string") line col
                  ∷ create_token 23 (codes "(") line col
                  ∷ []));
      chars = [];
      opens = if empty then b.opens else b.opens + 1;
      at = b.at + 1;
      col = col;
    }

-- The tokens of an expression but its line and block tokens and its end.
unfoldable pub inner_tokens : List Token → List Token
inner_tokens [] = []
inner_tokens (t ∷ ts) =
    if t.kind == 28 || (t.kind == 29 || (t.kind == 30 || t.kind == 31))
    then inner_tokens ts
    else t ∷ inner_tokens ts

-- What the loop pushes for an expression and behind it.
unfoldable pub close_part : ℕ → Body → Part → List Token → Body
unfolding inner_tokens create_token
close_part line b x ts = record b {
  toks =
      b.toks
      ++ (inner_tokens ts
          ++ (create_token 24 (codes ")") line x.col
              ∷ create_token 11 (codes "and") line x.col
              ∷ []));
  opens = b.opens + 1;
  at = x.at;
  col = x.col;
}

module _ (sub : Bytes → Outcome (List Token)) (s : Bytes) (line : ℕ) (is_fstring : Bool) where
  -- An interpolation, from its opening brace on.
  unfoldable pub interpolate : ℕ → Body → Outcome Body
  unfolding open_part expression close_part from_chars
  interpolate f b = do
    let b' = open_part line b
    x ← expression f s 1 (record { chars = []; at = b'.at; col = b'.col })
    ts ← sub (from_chars x.chars)
    ok (close_part line b' x ts)

  -- The loop, up to the closing quote.
  unfoldable pub body : ℕ → Body → Outcome Body
  unfolding interpolate escape ch
  body zero b = stuck
  body (suc f) b =
      let c = ch s b.at in
      let part = interpolate f b >>= body f in
      let escaped = body f (record b {
        chars = b.chars ++ escape (ch s (b.at + 1));
        at = b.at + 2;
        col = b.col + 2;
      }) in
      let plain = body f (record b { chars = b.chars ++ c ∷ []; at = b.at + 1; col = b.col + 1 }) in
      if not (ltb b.at (length s))
      then err
      else if c == 34
      then ok (record b { at = b.at + 1; col = b.col + 1 })
      else if c == 123 && is_fstring
      then part
      else if c == 92
      then (if ltb (b.at + 1) (length s) then escaped else err)
      else if c == 10 || c == 13
      then err
      else plain

  -- The tokens, the position and the column behind a literal whose quote stands at `pos0`.
  unfoldable pub lex_string_body : List Token → ℕ → ℕ → Outcome Body
  unfolding body create_token from_chars
  lex_string_body toks pos0 start_col = do
    b ←
        body (length s + 1)
          (record { toks = toks; chars = []; opens = 0; at = pos0 + 1; col = start_col + 1 })
    let closing =
        if is_fstring then replicate b.opens (create_token 24 (codes ")") line b.col) else []
    ok (record b {
      toks = b.toks ++ (create_token 26 (from_chars b.chars) line start_col ∷ closing);
    })
