-- ===== src/Parser/State.antt =====
-- The parser's state and the functions that read and move it: create_parser_state to
-- is_uppercase_start of toolchain/epc_bootstrap.c.
use ern_os.Base.{
  ℕ, ◌+◌, Bool, true, false, ◌&&◌, ◌||◌, some, List, ltb, ◌==◌, if◌then◌else◌, length, get_or,
}
use ern_os.Base.Int.{ℤ, pos, ◌+ℤ◌, ◌-ℤ◌}
use ern_os.Bytes.{Bytes, codes, get_character}
use ern_os.Lexer.{Token, create_token, get_token_type}
use ern_os.Parser.{ParserState, done, Parse, return, ◌>>=◌, ◌>>◌, loop}

unfoldable pub create_parser_state : List Token → ParserState
create_parser_state tokens = record {
  tokens = tokens;
  pos = 0;
  parser_error = 0;
  in_condition = 0;
  call_depth = pos 0;
}

unfoldable pub get_in_condition : Parse ℕ
get_in_condition s = done s.in_condition s

unfoldable pub set_in_condition : ℕ → Parse ℕ
set_in_condition value s = done value (record s { in_condition = value })

unfoldable pub get_call_depth : Parse ℤ
get_call_depth s = done s.call_depth s

unfoldable pub enter_call_args : Parse ℤ
enter_call_args s =
    let depth = s.call_depth +ℤ pos 1 in done depth (record s { call_depth = depth })

unfoldable pub leave_call_args : Parse ℤ
leave_call_args s =
    let depth = s.call_depth -ℤ pos 1 in done depth (record s { call_depth = depth })

unfoldable pub set_parser_error : Parse ℕ
set_parser_error s = done 0 (record s { parser_error = 1 })

unfoldable pub get_parser_error : ParserState → ℕ
get_parser_error s = s.parser_error

unfoldable pub get_eof_token : Token
unfolding create_token
get_eof_token = create_token 31 (codes "EOF") 1 1

-- The token at an offset of the position; both bounds are those of the list.
unfoldable pub token_after : ParserState → ℕ → Token
unfolding get_eof_token
token_after s offset =
    let at = s.pos + offset in
    if ltb at (length s.tokens) then get_or s.tokens at get_eof_token else get_eof_token

unfoldable pub peek_token : Parse Token
unfolding token_after
peek_token s = done (token_after s 0) s

unfoldable pub peek_token_at : ℕ → Parse Token
unfolding token_after
peek_token_at offset s = done (token_after s offset) s

unfoldable pub advance_token : Parse Token
unfolding token_after
advance_token s =
    done (token_after s 0) (if ltb s.pos (length s.tokens) then record s { pos = s.pos + 1 } else s)

-- A token of another type is consumed, and an error.
unfoldable pub expect_token_type : ℕ → Parse ℕ
expect_token_type expected_type = do
  tok ← advance_token
  if get_token_type tok == expected_type then return 1 else set_parser_error

unfoldable pub get_token_precedence : Token → ℕ
unfolding get_token_type
get_token_precedence tok =
    let t = get_token_type tok in
    if t == 21
    then 1
    else if t == 20
    then 2
    else if t == 16 || (t == 17 || (t == 18 || (t == 19 || (t == 67 || t == 68))))
    then 3
    else if t == 12 || t == 13
    then 4
    else if t == 14 || (t == 15 || t == 41)
    then 5
    else if t == 23
    then 6
    else if t == 40
    then 7
    else 0

-- `if (get_token_type(peek_token(state)) == kind) advance_token(state)`, and whether it was.
unfoldable pub accept : ℕ → Parse Bool
accept kind = do
  tok ← peek_token
  if get_token_type tok == kind then (advance_token >> return true) else return false

unfoldable pub skip_newlines : ℕ → Parse ℕ
skip_newlines n =
    loop {A = ℕ} n
      (λ again on. do
        tok ← peek_token
        if get_token_type tok == 28 then (advance_token >> again on) else return 0)
      1

unfoldable pub is_uppercase_start : Bytes → Bool
unfolding get_character
is_uppercase_start name = let ch = get_character (some name) (pos 0) in ltb 64 ch && ltb ch 91
