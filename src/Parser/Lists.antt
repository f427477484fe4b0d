-- ===== src/Parser/Lists.antt =====
-- The lists of names and types behind `with`: parse_param_list of toolchain/epc_bootstrap.c, and
-- the loops of parse_enum_def, parse_match_statement and parse_closure that read the like.
use ern_os.Base.{ℕ, ◌||◌, ◌==◌, if◌then◌else◌}
use ern_os.Base.Int.{pos}
use ern_os.Bytes.{Bytes, codes}
use ern_os.Lexer.{get_token_type, get_token_value}
use ern_os.Ast.{Value, num, str, create_list, append_list}
use ern_os.Parser.{Parse, return, ◌>>=◌, ◌>>◌, loop}
use ern_os.Parser.State.{peek_token, advance_token, accept}

-- The text of the next token.
unfoldable pub parse_name : Parse Value
parse_name = do tok ← advance_token; return (str (get_token_value tok))

-- A text behind a token of the kind, where that is next; otherwise a default.
unfoldable pub parse_name_after : ℕ → Bytes → Parse Value
parse_name_after kind default = do
  present ← accept kind
  if present then parse_name else return (str default)

-- `borrow`, a name, and `as` with a type.
unfoldable pub parse_param : Parse Value
parse_param = do
  is_borrow ← accept 39
  param_name ← parse_name
  ptype ← parse_name_after 42 (codes "")
  return (
      append_list
        (append_list (append_list create_list param_name)
          (num (if is_borrow then pos 1 else pos 0)))
        ptype)

-- What follows the first item of a list: `and` and an item, as long as there is one.
unfoldable pub parse_and_list : ℕ → Parse Value → Value → Parse Value
parse_and_list n item first =
    loop n
      (λ again items. do
        present ← accept 11
        if present then (do next ← item; again (append_list items next)) else return items)
      (append_list create_list first)

-- `with`, an item, and the others.
unfoldable pub parse_with_list : ℕ → Parse Value → Parse Value
parse_with_list n item = do
  present ← accept 10
  if present then (do first ← item; parse_and_list n item first) else return create_list

unfoldable pub parse_param_list : ℕ → Parse Value
parse_param_list n = parse_with_list n parse_param

-- A field of a variant: its name, and its type, which is Int where none is given.
unfoldable pub parse_variant_field : Parse Value
parse_variant_field = do
  vf_name ← parse_name
  vf_type ← parse_name_after 42 (codes "Int")
  return (append_list (append_list create_list vf_name) vf_type)

-- A parameter of a closure.
unfoldable pub parse_closure_param : Parse Value
parse_closure_param = do
  p_name ← parse_name
  return (append_list (append_list create_list p_name) (num (pos 0)))

-- The lines of a block, up to where the indentation ends: `line` reads one, from what was read
-- and the type of its first token.
unfoldable pub parse_lines : ℕ → (Value → ℕ → Parse Value) → Parse Value
parse_lines n line = do
  found ←
      loop n
        (λ again items. do
          tok ← peek_token
          let t = get_token_type tok
          if t == 30 || t == 31
              then return items
              else if t == 28
              then (advance_token >> again items)
              else (line items t >>= again))
        create_list
  accept 30
  return found
