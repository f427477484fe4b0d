-- ===== src/Parser/Expr.antt =====
-- Expressions: parse_prefix and parse_expr of toolchain/epc_bootstrap.c.
use ern_os.Base.{ℕ, zero, suc, Bool, true, false, ◌&&◌, List, [], ◌∷◌, ltb, ◌==◌, if◌then◌else◌}
use ern_os.Base.Int.{ℤ, pos, negsuc}
use ern_os.Bytes.{Bytes, codes}
use ern_os.Bytes.Digits.{parse_int}
use ern_os.Lexer.{Token, get_token_type, get_token_value}
use ern_os.Ast.{
  Value, num, str, create_list, append_list, get_list, make_node_int, make_node_str,
  make_node_ident, make_node_binary, make_node_comp, make_node_call, make_node_channel,
  make_node_receive, make_node_borrow, make_node_await, make_node_logical, make_node_field_access,
  make_node_method_call, make_node_enum_create, make_node_bool, make_node_unary_not, make_node_try,
}
use ern_os.Parser.{Parse, return, ◌>>=◌, ◌>>◌, loop}
use ern_os.Parser.State.{
  peek_token, advance_token, expect_token_type, set_parser_error, get_in_condition, get_call_depth,
  get_token_precedence, is_uppercase_start,
}
use ern_os.Parser.Lists.{parse_name}
use ern_os.Parser.Calls.{
  Calls, member_of, in_call_args, parse_more, parse_call_args, parse_closure, parse_struct_create,
  parse_list_literal,
}

abbrev pub is_zero : ℤ → Bool
is_zero (pos zero) = true
is_zero (pos (suc n)) = false
is_zero (negsuc n) = false

unfoldable pub math_op : ℕ → ℕ
math_op t =
    if t == 12
    then 1
    else if t == 13
    then 2
    else if t == 14
    then 3
    else if t == 15
    then 4
    else if t == 41
    then 5
    else 0

unfoldable pub comp_op : ℕ → ℕ
comp_op t =
    if t == 16
    then 1
    else if t == 17
    then 2
    else if t == 18
    then 3
    else if t == 19
    then 4
    else if t == 67
    then 5
    else if t == 68
    then 6
    else 0

-- The node of a float, a list of 42 and its text.
unfoldable pub float_node : Bytes → Value
float_node text = append_list (append_list create_list (num (pos 42))) (str text)

-- The keywords that stand for a name in an expression.
abbrev pub name_kinds : List ℕ
name_kinds = 1 ∷ 7 ∷ 8 ∷ 43 ∷ 44 ∷ 45 ∷ 47 ∷ 48 ∷ 49 ∷ 54 ∷ 57 ∷ 58 ∷ 60 ∷ 61 ∷ 62 ∷ []

abbrev pub is_cell : Value → ℕ → Bool
is_cell (num (pos k)) t = k == t
is_cell (num (negsuc k)) t = false
is_cell (str s) t = false
is_cell Value.nil t = false
is_cell (Value.cons x xs) t = false

-- The precedence of the next token; in a condition, and outside arguments, `and` has that of
-- the logical one.
unfoldable pub next_precedence : Token → Parse ℕ
next_precedence next_tok = do
  in_condition ← get_in_condition
  depth ← get_call_depth
  return (
      if get_token_type next_tok == 11 && (in_condition == 1 && is_zero depth)
      then 2
      else get_token_precedence next_tok)

module _ (n : ℕ) (c : Calls) where
  -- A name: a call, the value of a variant, or a variable.
  unfoldable pub parse_named : Bytes → Parse Value
  parse_named name = do
    next ← peek_token
    if get_token_type next == 23
        then (do advance_token; args ← parse_call_args n c; return (make_node_call (str name) args))
        else if is_uppercase_start name && get_token_type next == 10
        then (do
          advance_token
          vargs ← in_call_args (c.expr 0 >>= parse_more n c (11 ∷ []))
          return (make_node_enum_create (str name) vargs))
        else return (make_node_ident (str name))

  -- What a token begins that is no literal; a keyword may stand for a name.
  unfoldable pub parse_operand : ℕ → Bytes → Parse Value
  parse_operand t value =
      if t == 27
      then parse_named value
      else if t == 23
      then (do expr ← c.expr 0; expect_token_type 24; return expr)
      else if t == 60
      then (do
        expect_token_type 23
        start_expr ← c.expr 0
        expect_token_type 71
        end_expr ← c.expr 0
        expect_token_type 24
        return (
            make_node_call (str (codes "range"))
              (append_list (append_list create_list start_expr) end_expr)))
      else (set_parser_error >> return (make_node_int (num (pos 0))))

  -- What a token begins.
  unfoldable pub prefix_of : ℕ → Bytes → Parse Value
  prefix_of t value =
      if t == 25
      then return (make_node_int (num (parse_int value)))
      else if t == 70
      then return (float_node value)
      else if t == 26
      then return (make_node_str (str value))
      else if t == 34
      then return make_node_channel
      else if t == 36
      then (do expect_token_type 37; chan ← c.expr 0; return (make_node_receive chan))
      else if t == 39
      then (c.expr 0 >>= λ target. return (make_node_borrow target))
      else if t == 66
      then (c.expr 0 >>= λ target. return (make_node_await target))
      else if t == 63
      then return (make_node_bool (num (pos 1)))
      else if t == 64
      then return (make_node_bool (num (pos 0)))
      else if t == 52
      then (c.expr 6 >>= λ operand. return (make_node_unary_not operand))
      else if t == 51
      then (c.expr 0 >>= λ try_expr. return (make_node_try try_expr))
      else if t == 13
      then (c.expr 6 >>= λ operand.
          return (make_node_binary (make_node_int (num (pos 0))) (num (pos 2)) operand))
      else if t == 50
      then parse_closure n c
      else if t == 46
      then parse_struct_create n c
      else if t == 69
      then parse_list_literal n c
      else parse_operand (if member_of t name_kinds then 27 else t) value

  unfoldable pub parse_prefix : Parse Value
  parse_prefix = do tok ← advance_token; prefix_of (get_token_type tok) (get_token_value tok)

  -- What stands behind a dot: a call of a method, or a field.
  unfoldable pub parse_member : Value → Parse Value
  parse_member left = do
    member_name ← parse_name
    next2 ← peek_token
    if get_token_type next2 == 23
        then (do
          advance_token
          args ← parse_call_args n c
          return (make_node_method_call left member_name args))
        else return (make_node_field_access left member_name)

  -- What stands behind an operator; a call of what is no name leaves it as it is.
  unfoldable pub parse_operator : Value → Token → Parse Value
  parse_operator left op_tok =
      let t = get_token_type op_tok in
      if member_of t (12 ∷ 13 ∷ 14 ∷ 15 ∷ 41 ∷ [])
      then (c.expr (get_token_precedence op_tok) >>= λ right.
          return (make_node_binary left (num (pos (math_op t))) right))
      else if member_of t (16 ∷ 17 ∷ 18 ∷ 19 ∷ 67 ∷ 68 ∷ [])
      then (c.expr (get_token_precedence op_tok) >>= λ right.
          return (make_node_comp left (num (pos (comp_op t))) right))
      else if member_of t (20 ∷ 21 ∷ 11 ∷ [])
      then (c.expr (if t == 21 then 1 else 2) >>= λ right.
          return (make_node_logical left (num (pos (if t == 21 then 2 else 1))) right))
      else if t == 23
      then (do
        args ← parse_call_args n c
        return
            (if is_cell (get_list left 0) 3 then make_node_call (get_list left 1) args else left))
      else return left

  -- A round of `while (climbing == 1)`.
  unfoldable pub climb : ℕ → (Value → Parse Value) → Value → Parse Value
  climb precedence again left = do
    next_tok ← peek_token
    next_prec ← next_precedence next_tok
    if get_token_type next_tok == 40 && ltb precedence 7
        then (do advance_token; parse_member left >>= again)
        else if ltb precedence next_prec
        then (do op_tok ← advance_token; parse_operator left op_tok >>= again)
        else return left

  unfoldable pub parse_expr : ℕ → Parse Value
  parse_expr precedence = parse_prefix >>= loop n (climb precedence)
