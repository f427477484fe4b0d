-- ===== src/Parser/Statement.antt =====
-- Statements: parse_block, parse_statement, parse_if_statement, parse_match_statement and
-- parse_for_each_statement of toolchain/epc_bootstrap.c, and the parser's functions together.
use ern_os.Base.{ℕ, zero, suc, true, false, ◌||◌, [], ◌∷◌, ◌==◌, if◌then◌else◌}
use ern_os.Base.Int.{pos}
use ern_os.Lexer.{get_token_type, get_token_value}
use ern_os.Ast.{
  Value, num, str, create_list, append_list, make_node_ident, make_node_set, make_node_return,
  make_node_display, make_node_if, make_node_repeat_while, make_node_spawn, make_node_send,
  make_node_field_set, make_node_match, make_node_for_each, make_node_break, make_node_continue,
  make_node_expr_stmt,
}
use ern_os.Parser.{Parse, return, out_of_fuel, ◌>>=◌, ◌>>◌}
use ern_os.Parser.State.{
  peek_token, advance_token, expect_token_type, accept, skip_newlines, get_in_condition,
  set_in_condition,
}
use ern_os.Parser.Lists.{parse_name, parse_with_list, parse_lines}
use ern_os.Parser.Calls.{Calls, parse_arguments}
use ern_os.Parser.Expr.{parse_expr}

-- An expression read as a condition, in which `and` is the logical one.
unfoldable pub as_condition : Parse Value → Parse Value
as_condition m = do
  was_cond ← get_in_condition
  set_in_condition 1
  cond ← m
  set_in_condition was_cond
  return cond

module _ (n : ℕ) (c : Calls) where
  unfoldable pub parse_if_statement : Parse Value
  parse_if_statement = do
    advance_token
    cond ← as_condition (c.expr 0)
    expect_token_type 22
    skip_newlines n
    then_branch ← c.block
    has_else ← accept 5
    else_branch ←
        if has_else
        then (do
          next2 ← peek_token
          if get_token_type next2 == 4
              then (c.if_statement >>= λ chained_if. return (append_list create_list chained_if))
              else (do expect_token_type 22; skip_newlines n; c.block))
        else return (num (pos 0))
    return (make_node_if cond then_branch else_branch)

  -- An arm of a match, or a token that begins none.
  unfoldable pub parse_arm : Value → ℕ → Parse Value
  parse_arm arms t = do
    advance_token
    if t == 4
        then (do
          variant_tok ← advance_token
          bindings ← parse_with_list n parse_name
          expect_token_type 22
          skip_newlines n
          arm_body ← c.block
          return (
              append_list arms (
                append_list
                  (append_list
                    (append_list (append_list create_list (str (get_token_value variant_tok)))
                      bindings)
                    arm_body)
                  (num (pos (get_token_type variant_tok))))))
        else return arms

  unfoldable pub parse_match_statement : Parse Value
  parse_match_statement = do
    advance_token
    expr ← c.expr 0
    expect_token_type 22
    skip_newlines n
    expect_token_type 29
    arms ← parse_lines n parse_arm
    return (make_node_match expr arms)

  unfoldable pub parse_for_each_statement : Parse Value
  parse_for_each_statement = do
    advance_token
    expect_token_type 54
    var_name ← parse_name
    expect_token_type 55
    iter_expr ← c.expr 0
    expect_token_type 22
    skip_newlines n
    body ← c.block
    return (make_node_for_each var_name iter_expr body)

  -- `set`: a field of a variable, or a variable, whose type is read and dropped.
  unfoldable pub parse_set : Parse Value
  parse_set = do
    advance_token
    var_name ← parse_name
    field ← accept 40
    if field
        then (do
          field_name ← parse_name
          expect_token_type 3
          val ← c.expr 0
          skip_newlines n
          return (make_node_field_set (make_node_ident var_name) field_name val))
        else (do
          expect_token_type 3
          expr ← c.expr 0
          typed ← accept 42
          if typed then (advance_token >> return true) else return false
          skip_newlines n
          return (make_node_set var_name expr))

  unfoldable pub parse_repeat : ℕ → Parse Value
  parse_repeat t = do
    advance_token
    if t == 8 then expect_token_type 9 else return 0
    cond ← as_condition (c.expr 0)
    expect_token_type 22
    skip_newlines n
    body ← c.block
    return (make_node_repeat_while cond body)

  -- A keyword, an expression, and the node of it.
  unfoldable pub parse_simple : (Value → Value) → Parse Value
  parse_simple node = do advance_token; expr ← c.expr 0; skip_newlines n; return (node expr)

  unfoldable pub parse_spawn : Parse Value
  parse_spawn = do
    advance_token
    func_name ← parse_name
    expect_token_type 23
    args ← parse_arguments n c 24 (11 ∷ [])
    expect_token_type 24
    skip_newlines n
    return (make_node_spawn func_name args)

  unfoldable pub parse_send : Parse Value
  parse_send = do
    advance_token
    val ← c.expr 0
    expect_token_type 3
    chan ← c.expr 0
    skip_newlines n
    return (make_node_send chan val)

  -- A keyword that is a statement.
  unfoldable pub parse_word : Value → Parse Value
  parse_word node = do advance_token; skip_newlines n; return node

  unfoldable pub parse_expr_statement : Parse Value
  parse_expr_statement = do
    expr ← parse_expr n c 0
    skip_newlines n
    return (make_node_expr_stmt expr)

  -- The statement that begins with a token of the type.
  unfoldable pub statement_of : ℕ → Parse Value
  statement_of t =
      if t == 2
      then parse_set
      else if t == 4
      then parse_if_statement
      else if t == 8 || t == 9
      then parse_repeat t
      else if t == 6
      then parse_simple make_node_return
      else if t == 7
      then parse_simple make_node_display
      else if t == 33
      then parse_spawn
      else if t == 35
      then parse_send
      else if t == 49
      then parse_match_statement
      else if t == 53
      then parse_for_each_statement
      else if t == 61
      then parse_word make_node_break
      else if t == 62
      then parse_word make_node_continue
      else parse_expr_statement

  unfoldable pub parse_statement : Parse Value
  parse_statement = do tok ← peek_token; statement_of (get_token_type tok)

  unfoldable pub parse_block : Parse Value
  parse_block = do
    expect_token_type 29
    parse_lines n (λ statements _. do stmt ← parse_statement; return (append_list statements stmt))

-- The functions that are called again, to a depth.
unfoldable pub calls : ℕ → Calls
calls zero = record {
  expr = λ precedence. out_of_fuel;
  block = out_of_fuel;
  statement = out_of_fuel;
  if_statement = out_of_fuel;
}
calls (suc n) = record {
  expr = parse_expr (suc n) (calls n);
  block = parse_block (suc n) (calls n);
  statement = parse_statement (suc n) (calls n);
  if_statement = parse_if_statement (suc n) (calls n);
}
