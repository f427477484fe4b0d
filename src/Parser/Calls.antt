-- ===== src/Parser/Calls.antt =====
-- Lists of expressions: the arguments that parse_expr and parse_prefix read, parse_closure,
-- parse_struct_create and parse_list_literal of toolchain/epc_bootstrap.c. A function is given the
-- ones it calls again behind a token it has consumed, `c`, and fuel for its loops, `n`.
use ern_os.Base.{ℕ, Bool, false, ◌||◌, not, List, [], ◌∷◌, ◌==◌, if◌then◌else◌}
use ern_os.Lexer.{get_token_type}
use ern_os.Ast.{
  Value, create_list, append_list, make_node_struct_create, make_node_closure, make_node_list_lit,
}
use ern_os.Parser.{Parse, return, ◌>>=◌, ◌>>◌, loop}
use ern_os.Parser.State.{
  peek_token, advance_token, expect_token_type, skip_newlines, enter_call_args, leave_call_args,
}
use ern_os.Parser.Lists.{parse_name, parse_and_list, parse_closure_param, parse_lines}

-- The functions of the parser that are called again.
pub record Calls : Type 0 where
  pub expr : ℕ → Parse Value
  pub block : Parse Value
  pub statement : Parse Value
  pub if_statement : Parse Value

abbrev pub member_of : ℕ → List ℕ → Bool
member_of t [] = false
member_of t (k ∷ ks) = t == k || member_of t ks

-- enter_call_args, a list of arguments, leave_call_args.
unfoldable pub in_call_args : Parse Value → Parse Value
in_call_args m = do enter_call_args; args ← m; leave_call_args; return args

module _ (n : ℕ) (c : Calls) where
  -- The expressions behind one that is there, each behind one of the separators.
  unfoldable pub parse_more : List ℕ → Value → Parse Value
  parse_more separators first =
      loop n
        (λ again args. do
          next ← peek_token
          if member_of (get_token_type next) separators
              then (do advance_token; arg ← c.expr 0; again (append_list args arg))
              else return args)
        (append_list create_list first)

  -- The expressions in front of a closing token.
  unfoldable pub parse_arguments : ℕ → List ℕ → Parse Value
  parse_arguments closing separators = do
    next ← peek_token
    if not (get_token_type next == closing)
        then (do arg ← c.expr 0; parse_more separators arg)
        else return create_list

  -- Arguments in parentheses, the first of which is consumed.
  unfoldable pub parse_call_args : Parse Value
  parse_call_args = do
    args ← in_call_args (parse_arguments 24 (11 ∷ 71 ∷ []))
    expect_token_type 24
    return args

  unfoldable pub parse_closure : Parse Value
  parse_closure = do
    next ← peek_token
    params ←
        if not (get_token_type next == 22)
        then (parse_closure_param >>= parse_and_list n parse_closure_param)
        else return create_list
    expect_token_type 22
    skip_newlines n
    next' ← peek_token
    body ←
        if get_token_type next' == 29
        then c.block
        else (c.statement >>= λ single. return (append_list create_list single))
    return (make_node_closure params body)

  unfoldable pub parse_struct_create : Parse Value
  parse_struct_create = do
    struct_name ← parse_name
    expect_token_type 22
    skip_newlines n
    next ← peek_token
    fields ←
        if get_token_type next == 29
        then (do
          expect_token_type 29
          parse_lines n (λ found _. do
            fname ← parse_name
            expect_token_type 72
            fval ← c.expr 0
            return (append_list found (append_list (append_list create_list fname) fval))))
        else return create_list
    return (make_node_struct_create struct_name fields)

  unfoldable pub parse_list_literal : Parse Value
  parse_list_literal = do
    elements ← in_call_args (parse_arguments 70 (71 ∷ 11 ∷ []))
    expect_token_type 70
    return (make_node_list_lit elements)
