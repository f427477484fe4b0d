-- ===== src/Lexer/Scan.antt =====
-- tokenize_source: its main loop, one function for each case of it. The top of `indent_stack` is
-- the head of `indents`.
use ern_os.Base.{
  ℕ, zero, suc, ◌+◌, ◌-◌, Bool, true, false, ◌&&◌, ◌||◌, not, Option, none, some, List, [], ◌∷◌,
  ◌++◌, ltb, ◌==◌, if◌then◌else◌, length,
}
use ern_os.Base.Int.{pos}
use ern_os.Bytes.{Bytes, codes, substring}
use ern_os.Bytes.Compare.{same_text}
use ern_os.Lexer.{
  Token, create_token, get_token_type, get_token_value, Outcome, ok, stuck, ◌>>=◌, ch, is_digit,
  is_id_start, is_id_part,
}
use ern_os.Lexer.Words.{
  Keyword, keywords, Phrase, is_phrases, does_phrases, multiplied_phrases, divided_phrases,
  and_phrases, give_phrases, or_phrases,
}
use ern_os.Lexer.Match.{match_words}
use ern_os.Lexer.Literal.{lex_string_body}

-- The variables of the main loop.
pub record Lex : Type 0 where
  pub at : ℕ
  pub line : ℕ
  pub col : ℕ
  pub indents : List ℕ
  pub toks : List Token
  pub line_start : Bool

unfoldable pub push : Lex → Token → Lex
push x t = record x { toks = x.toks ++ t ∷ [] }

-- The spaces at the start of a line, of which a tab makes four, and what stands behind them.
pub record Margin : Type 0 where
  pub spaces : ℕ
  pub at : ℕ
  pub col : ℕ

unfoldable pub margin : ℕ → Bytes → Margin → Margin
unfolding ch
margin zero s m = m
margin (suc f) s m =
    let blank = margin f s (record { spaces = m.spaces + 1; at = m.at + 1; col = m.col + 1 }) in
    let tab = margin f s (record { spaces = m.spaces + 4; at = m.at + 1; col = m.col + 4 }) in
    let c = ch s m.at in
    if not (ltb m.at (length s)) then m else if c == 32 then blank else if c == 9 then tab else m

-- The loop that pops what is deeper than the line, with a DEDENT for each.
unfoldable pub dedent : ℕ → ℕ → ℕ → List ℕ → List Token → List ℕ × List Token
unfolding create_token
dedent spaces line col [] toks = ([], toks)
dedent spaces line col (top ∷ rest) toks =
    let popped =
      dedent spaces line col rest (toks ++ create_token 30 (codes "DEDENT") line col ∷ []) in
    if ltb spaces top then popped else (top ∷ rest, toks)

-- `get_list(indent_stack, stack_len - 1)`
unfoldable pub last_indent : List ℕ → ℕ
last_indent [] = 0
last_indent (top ∷ rest) = top

-- INDENT and DEDENT for the first token of a line.
unfoldable pub indentation : ℕ → Lex → Lex
unfolding push create_token dedent last_indent
indentation spaces x =
    if ltb (last_indent x.indents) spaces
    then push (record x { indents = spaces ∷ x.indents })
        (create_token 29 (codes "INDENT") x.line x.col)
    else (let (stack, toks) = dedent spaces x.line x.col x.indents x.toks in
        record x { indents = stack; toks = toks })

-- What the loop does at the start of a line; a blank line or a comment has no indentation.
unfoldable pub start_line : Bytes → Lex → Lex
unfolding margin indentation ch
start_line s x =
    let m = margin (length s) s (record { spaces = 0; at = x.at; col = x.col }) in
    let y = record x { at = m.at; col = m.col; line_start = false } in
    let c = ch s m.at in
    if not (c == 10) && (not (c == 13) && (not (c == 35) && ltb m.at (length s)))
    then indentation m.spaces y
    else y

abbrev pub unsnoc : List Token → Option (List Token × Token)
unsnoc [] = none
unsnoc (t ∷ ts) = elim (unsnoc ts) [ none ↦ some ([], t) | some (us, u) ↦ some (t ∷ us, u) ]

-- No NEWLINE stands at the start or behind another one.
unfoldable pub wants_newline : List Token → Bool
unfolding get_token_type
wants_newline toks = elim (unsnoc toks) [
  | none ↦ false
  | some (us, t) ↦ not (get_token_type t == 28)
]

unfoldable pub newline : Bytes → Lex → Lex
unfolding wants_newline push create_token ch
newline s x =
    let crlf = ch s x.at == 13 && ch s (x.at + 1) == 10 in
    let y = if wants_newline x.toks then push x (create_token 28 (10 ∷ []) x.line x.col) else x in
    record y {
      at = if crlf then x.at + 2 else x.at + 1;
      line = x.line + 1;
      col = 1;
      line_start = true;
    }

-- Where a comment ends.
unfoldable pub comment_end : ℕ → Bytes → ℕ → ℕ
unfolding ch
comment_end zero s p = p
comment_end (suc f) s p =
    let rest = comment_end f s (p + 1) in
    if ltb p (length s) && (not (ch s p == 10) && not (ch s p == 13)) then rest else p

-- Where a run of digits ends, and where an identifier does.
unfoldable pub digits_end : ℕ → Bytes → ℕ → ℕ
unfolding ch is_digit
digits_end zero s p = p
digits_end (suc f) s p =
    let rest = digits_end f s (p + 1) in if ltb p (length s) && is_digit (ch s p) then rest else p

unfoldable pub id_end : ℕ → Bytes → ℕ → ℕ
unfolding ch is_id_part
id_end zero s p = p
id_end (suc f) s p =
    let rest = id_end f s (p + 1) in if ltb p (length s) && is_id_part (ch s p) then rest else p

-- A number, with a fraction where a digit follows the point. The column moves with the position.
unfoldable pub number : Bytes → Lex → Lex
unfolding digits_end is_digit push create_token ch substring
number s x =
    let n = length s in
    let p = digits_end n s x.at in
    let fraction = ltb (p + 1) n && (ch s p == 46 && is_digit (ch s (p + 1))) in
    let q = if fraction then digits_end n s (p + 1) else p in
    let text = substring (some s) (pos x.at) (pos (q - x.at)) in
    let kind = if fraction then 70 else 25 in
    push (record x { at = q; col = x.col + (q - x.at) }) (create_token kind text x.line x.col)

-- An identifier's kind, text and end; `done` is `is_multi_phrase`.
pub record Word : Type 0 where
  pub kind : ℕ
  pub text : Bytes
  pub at : ℕ
  pub done : Bool

-- The first phrase that follows, if one does.
unfoldable pub try_phrases : Bytes → List Phrase → Word → Word
unfolding match_words
try_phrases s [] w = w
try_phrases s (p ∷ ps) w =
    let q = match_words s w.at p.words in
    if ltb 0 q
    then record { kind = p.kind; text = p.text; at = q; done = true }
    else try_phrases s ps w

-- A test of the identifier against the first word of some phrases.
unfoldable pub on_word : Bytes → Bytes → List Phrase → Word → Word
unfolding same_text try_phrases
on_word s first ps w = if not w.done && same_text first w.text then try_phrases s ps w else w

-- `is` with no phrase behind it is a token of its own.
unfoldable pub on_is : Bytes → Word → Word
unfolding on_word same_text is_phrases
on_is s w =
    let v = on_word s (codes "is") is_phrases w in
    if not w.done && (same_text (codes "is") w.text && not v.done)
    then record v { kind = 72; done = true }
    else v

-- The tests against the keywords, of which the last one that fits decides.
unfoldable pub keyword_kind : List Keyword → Bytes → ℕ → ℕ
unfolding same_text
keyword_kind [] text kind = kind
keyword_kind ((w, k) ∷ ws) text kind = keyword_kind ws text (if same_text w text then k else kind)

unfoldable pub classify : Bytes → Word → Word
unfolding on_word on_is keyword_kind keywords does_phrases multiplied_phrases divided_phrases
    and_phrases give_phrases or_phrases
classify s w₀ =
    let w₁ = on_word s (codes "multiplied") multiplied_phrases w₀ in
    let w₂ = on_word s (codes "divided") divided_phrases w₁ in
    let w₃ = on_is s w₂ in
    let w₄ = on_word s (codes "does") does_phrases w₃ in
    let w₅ = on_word s (codes "and") and_phrases w₄ in
    let w₆ = on_word s (codes "give") give_phrases w₅ in
    let w₇ = on_word s (codes "or") or_phrases w₆ in
    if w₇.done then w₇ else record w₇ { kind = keyword_kind keywords w₇.text w₇.kind }

unfoldable pub identifier : Bytes → Lex → Lex
unfolding id_end classify push create_token substring
identifier s x =
    let e = id_end (length s) s x.at in
    let len = e - x.at in
    let text = substring (some s) (pos x.at) (pos len) in
    let w = classify s (record { kind = 27; text = text; at = e; done = false }) in
    let col = x.col + len + (w.at - e) in
    push (record x { at = w.at; col = col }) (create_token w.kind w.text x.line (col - len))

-- An `f` before the quote makes an f-string, and is taken off the tokens.
unfoldable pub f_prefix : List Token → List Token × Bool
unfolding get_token_type get_token_value same_text
f_prefix toks = elim (unsnoc toks) [
  | none ↦ (toks, false)
  | some (us, t) ↦
      if get_token_type t == 27 && same_text (codes "f") (get_token_value t)
      then (us, true)
      else (toks, false)
]

-- Kind, text and length of a symbol; kind 0 where there is none.
pub record Symbol : Type 0 where
  pub kind : ℕ
  pub text : Bytes
  pub len : ℕ

abbrev pub single : ℕ → Bytes → Symbol
single k t = record { kind = k; text = t; len = 1 }

abbrev pub double : ℕ → Bytes → Symbol
double k t = record { kind = k; text = t; len = 2 }

unfoldable pub single_symbol : ℕ → Symbol
single_symbol c =
    if c == 58
    then single 22 (codes ":")
    else if c == 40
    then single 23 (codes "(")
    else if c == 41
    then single 24 (codes ")")
    else if c == 43
    then single 12 (codes "+")
    else if c == 45
    then single 13 (codes "-")
    else if c == 42
    then single 14 (codes "*")
    else if c == 47
    then single 15 (codes "/")
    else if c == 60
    then single 16 (codes "<")
    else if c == 62
    then single 17 (codes ">")
    else if c == 46
    then single 40 (codes ".")
    else if c == 37
    then single 41 (codes "%")
    else if c == 91
    then single 69 (codes "[")
    else if c == 93
    then single 70 (codes "]")
    else if c == 44
    then single 71 (codes ",")
    else single 0 []

unfoldable pub symbol_at : ℕ → ℕ → Symbol
unfolding single_symbol
symbol_at c d =
    if c == 61 && d == 61
    then double 18 (codes "==")
    else if c == 33 && d == 61
    then double 19 (codes "!=")
    else if c == 38 && d == 38
    then double 20 (codes "&&")
    else if c == 124 && d == 124
    then double 21 (codes "||")
    else if c == 60 && d == 61
    then double 67 (codes "<=")
    else if c == 62 && d == 61
    then double 68 (codes ">=")
    else single_symbol c

-- A symbol, or a character that is none and is passed over.
unfoldable pub punctuation : Bytes → Lex → Lex
unfolding symbol_at push create_token ch
punctuation s x =
    let y = symbol_at (ch s x.at) (ch s (x.at + 1)) in
    if ltb 0 y.kind
    then push (record x { at = x.at + y.len; col = x.col + y.len })
        (create_token y.kind y.text x.line x.col)
    else record x { at = x.at + 1; col = x.col + 1 }

module _ (sub : Bytes → Outcome (List Token)) (s : Bytes) where
  unfoldable pub literal : Lex → Outcome Lex
  unfolding f_prefix lex_string_body
  literal x =
      let (toks, is_f) = f_prefix x.toks in
      lex_string_body sub s x.line is_f toks x.at x.col >>= λ b.
      ok (record x { toks = b.toks; at = b.at; col = b.col })

  -- The token at a position inside the source.
  unfoldable pub token_at : Lex → Outcome Lex
  unfolding newline comment_end number identifier literal punctuation ch is_digit is_id_start
  token_at x =
      let c = ch s x.at in
      if c == 32 || c == 9
      then ok (record x { at = x.at + 1; col = x.col + 1 })
      else if c == 10 || c == 13
      then ok (newline s x)
      else if c == 35
      then ok (record x { at = comment_end (length s) s (x.at + 1) })
      else if is_digit c
      then ok (number s x)
      else if is_id_start c
      then ok (identifier s x)
      else if c == 34
      then literal x
      else ok (punctuation s x)

  -- A round of the main loop.
  unfoldable pub round : Lex → Outcome Lex
  unfolding start_line token_at
  round x =
      let y = if x.line_start then start_line s x else x in
      if ltb y.at (length s) then token_at y else ok y

  -- `while (pos < source_len)`
  unfoldable pub rounds : ℕ → Lex → Outcome Lex
  unfolding round
  rounds zero x = if ltb x.at (length s) then stuck else ok x
  rounds (suc f) x = let rest = round x >>= rounds f in if ltb x.at (length s) then rest else ok x

-- The DEDENTs for what is still open at the end.
unfoldable pub close_all : ℕ → ℕ → List ℕ → List Token
unfolding create_token
close_all line col [] = []
close_all line col (i ∷ []) = []
close_all line col (i ∷ j ∷ is) =
    create_token 30 (codes "DEDENT") line col ∷ close_all line col (j ∷ is)

abbrev pub start : Lex
start = record { at = 0; line = 1; col = 1; indents = 0 ∷ []; toks = []; line_start = true }

unfoldable pub finish : Lex → List Token
unfolding close_all create_token
finish x =
    x.toks ++ (close_all x.line x.col x.indents ++ create_token 31 (codes "EOF") x.line x.col ∷ [])

-- The first argument bounds how deep interpolations nest.
unfoldable pub tokenize_source : ℕ → Bytes → Outcome (List Token)
unfolding rounds finish
tokenize_source zero s = stuck
tokenize_source (suc d) s = rounds (tokenize_source d) s (length s) start >>= λ x. ok (finish x)
