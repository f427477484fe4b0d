-- ===== src/Parser/ExprEnds.antt =====
-- parse_expr ends, where the functions that are called again do.
use ern_os.Base.{ℕ, suc, ◌≤◌, ◌≡◌, refl, false, ◌&&◌, [], ◌∷◌, ◌==◌, arith, ltb, if◌then◌else◌}
use ern_os.Bytes.{Bytes}
use ern_os.Lexer.{Token, get_token_type, get_token_value}
use ern_os.Ast.{Value}
use ern_os.Parser.{Parse, return, ◌>>=◌, continue_with, loop}
use ern_os.Parser.State.{get_in_condition, get_call_depth, get_token_precedence, is_uppercase_start}
use ern_os.Parser.Ends.{
  Ends, Ends-return, Ends_weaken, Ends-if, Ends-bind, Ends-eat, Ends-loop, Ends-peek, Ends-look,
}
use ern_os.Parser.Steps.{advance_token-Ends, advance_token-Eats, Ends_relax, Ends-advance, ends}
use ern_os.Parser.Serves.{
  Serves, in_call_args-Ends, parse_more-Ends, parse_call_args-Ends, parse_list_literal-Ends,
  parse_closure-Ends, parse_struct_create-Ends,
}
use ern_os.Parser.Calls.{Calls}
use ern_os.Parser.Expr.{
  parse_named, parse_operand, prefix_of, parse_prefix, parse_member, parse_operator,
  next_precedence, climb, parse_expr,
}

ltb_zero : (p : ℕ) → ltb p 0 ≡ false
ltb_zero p = ground arith

module _ {k n : ℕ} (le : k ≤ n) {c : Calls} (good : Serves k c) where
  parse_named-Ends : (name : Bytes) → Ends 0 0 k (parse_named n c name)
  unfolding parse_named
  parse_named-Ends name = Ends-look λ next.
      Ends-if (get_token_type next == 23)
        (Ends-bind advance_token-Ends
          λ _. Ends-bind (parse_call_args-Ends le good) λ args. Ends-return _)
        (Ends-if (is_uppercase_start name && get_token_type next == 10)
          (Ends-bind advance_token-Ends λ _.
            Ends-bind
              (in_call_args-Ends
                (Ends-bind (good.expr 0) λ arg. parse_more-Ends le good (11 ∷ []) arg refl))
              λ vargs. Ends-return _)
          (Ends-return _))

  parse_operand-Ends : (t : ℕ) (value : Bytes) → Ends 0 0 k (parse_operand n c t value)
  unfolding parse_operand
  parse_operand-Ends t value = search (ends, parse_named-Ends, good.expr) depth 40

  prefix_of-Ends : (t : ℕ) (value : Bytes) → Ends 0 0 k (prefix_of n c t value)
  unfolding prefix_of
  prefix_of-Ends t value =
      search
        (
          ends, good.expr, parse_closure-Ends, parse_struct_create-Ends, parse_list_literal-Ends,
          parse_operand-Ends,
        )
        depth 40

  parse_member-Ends : (left : Value) → Ends 0 0 k (parse_member n c left)
  unfolding parse_member
  parse_member-Ends left = search (ends, Ends-look, parse_call_args-Ends) depth 40

  parse_operator-Ends :
      (left : Value) (op_tok : Token) → Ends 0 0 k (parse_operator n c left op_tok)
  unfolding parse_operator
  parse_operator-Ends left op_tok = search (ends, good.expr, parse_call_args-Ends) depth 40

-- The end begins no expression, and goes on with none.
prefix_of-end : (n k : ℕ) (c : Calls) (value : Bytes) → Ends 0 0 k (prefix_of n c 31 value)
unfolding prefix_of parse_operand
prefix_of-end n k c value = search ends

-- What is done with the precedence of the next token.
Ends-next_precedence :
    {l e n : ℕ} (tok : Token) {f : ℕ → Parse Value}
    → ((p : ℕ) → Ends l e n (f p))
    → Ends l e n (next_precedence tok >>= f)
unfolding next_precedence get_in_condition get_call_depth ◌>>=◌ continue_with return
Ends-next_precedence tok h = record { run = λ s low high. (h _).run s low high }

-- The end has no precedence.
climb-end :
    {n : ℕ} (precedence : ℕ) (tok : Token) (left : Value) (x y : Parse Value)
    → get_token_type tok ≡ 31
    → Ends 0 0 n (
        next_precedence tok >>= λ p.
        if get_token_type tok == 40 && ltb precedence 7
        then x
        else if ltb precedence p
        then y
        else return left)
unfolding next_precedence get_in_condition get_call_depth get_token_precedence ◌>>=◌ continue_with
    return
climb-end precedence tok left x y e = record {
  run = λ s low high. rw (e, ltb_zero precedence) ((Ends-return left).run s low high);
}

module _ {k n : ℕ} (le : suc k ≤ n) {c : Calls} (good : Serves k c) where
  parse_prefix-Eats : Ends 1 1 (suc k) (parse_prefix n c)
  unfolding parse_prefix
  parse_prefix-Eats =
      Ends-eat advance_token-Eats λ tok. prefix_of-Ends (omega arith) good (get_token_type tok) _

  parse_prefix-Ends : Ends 0 0 (suc k) (parse_prefix n c)
  unfolding parse_prefix
  parse_prefix-Ends =
      Ends-advance (λ tok. prefix_of-Ends (omega arith) good (get_token_type tok) _)
        (λ tok e. rw (e) (prefix_of-end n (suc k) c (get_token_value tok)))

  climbing-Ends :
      (precedence : ℕ) (left : Value) → Ends 0 0 (suc k) (loop n (climb n c precedence) left)
  unfolding climb
  climbing-Ends precedence =
      Ends-loop (suc k) n
        (λ j again less on left.
          Ends-peek
            (λ tok. Ends-next_precedence tok λ p.
              Ends-if (get_token_type tok == 40 && ltb precedence 7)
                (Ends_relax (
                  Ends-eat advance_token-Eats λ _.
                    Ends-bind
                      (Ends_weaken (parse_member-Ends (omega arith) good left) (omega arith)
                        (omega arith) (omega arith))
                      on))
                (Ends-if (ltb precedence p)
                  (Ends_relax (
                    Ends-eat advance_token-Eats λ op_tok.
                      Ends-bind
                        (Ends_weaken (parse_operator-Ends (omega arith) good left op_tok)
                          (omega arith) (omega arith) (omega arith))
                        on))
                  (Ends-return left)))
            (λ tok e. climb-end precedence tok left _ _ e))
        le

  pub parse_expr-Eats : (precedence : ℕ) → Ends 1 1 (suc k) (parse_expr n c precedence)
  unfolding parse_expr
  parse_expr-Eats precedence = Ends-bind parse_prefix-Eats (climbing-Ends precedence)

  pub parse_expr-Ends : (precedence : ℕ) → Ends 0 0 (suc k) (parse_expr n c precedence)
  unfolding parse_expr
  parse_expr-Ends precedence = Ends-bind parse_prefix-Ends (climbing-Ends precedence)
