-- ===== src/Parser/Serves.antt =====
-- The lists of expressions end, where the functions that are called again do.
use ern_os.Base.{ℕ, zero, suc, ◌≤◌, ◌≡◌, refl, ap, ◌∙◌, false, not, List, ◌==◌, arith}
use ern_os.Base.Int.{ℤ, pos, negsuc, ◌+ℤ◌, ◌-ℤ◌}
use ern_os.Lexer.{get_token_type}
use ern_os.Ast.{Value, create_list, append_list}
use ern_os.Parser.{ParserState, Result, Parse, return, ◌>>=◌, ◌>>◌, continue_with}
use ern_os.Parser.State.{enter_call_args, leave_call_args}
use ern_os.Parser.Ends.{
  remaining, Ended, ended, Ends, Ends-return, Ends_weaken, Ends-if, Ends-bind, Ends-eat, Ends-loop,
  Ends-peek, Ends-look,
}
use ern_os.Parser.Steps.{
  advance_token-Eats, Ends_relax, expect_token_type-Ends, parse_name-Ends, parse_name-Eats,
  skip_newlines-Ends, parse_and_list-Ends, parse_lines-Ends, ends, parse_closure_param-Ends,
}
use ern_os.Parser.Calls.{
  Calls, member_of, in_call_args, parse_more, parse_arguments, parse_call_args, parse_closure,
  parse_struct_create, parse_list_literal,
}

-- The functions that are called again end with less than `k` tokens left; the one for a chained
-- `if` is called where a token is.
pub record Serves (k : ℕ) (c : Calls) : Type 0 where
  pub expr : (precedence : ℕ) → Ends 0 0 k (c.expr precedence)
  pub block : Ends 0 0 k c.block
  pub statement : Ends 0 0 k c.statement
  pub if_statement : Ends 1 1 k c.if_statement

pub Serves-weaken : {j k : ℕ} {c : Calls} → Serves k c → j ≤ k → Serves j c
Serves-weaken h le = record {
  expr = λ precedence. Ends_weaken (h.expr precedence) (omega arith) (omega arith) le;
  block = Ends_weaken h.block (omega arith) (omega arith) le;
  statement = Ends_weaken h.statement (omega arith) (omega arith) le;
  if_statement = Ends_weaken h.if_statement (omega arith) (omega arith) le;
}

-- One more and one less leave the depth.
depth_again : (d : ℤ) → d +ℤ pos 1 -ℤ pos 1 ≡ d
unfolding ◌+ℤ◌ ◌-ℤ◌
depth_again (pos n) = ground arith
depth_again (negsuc zero) = refl
depth_again (negsuc (suc n)) = ground arith

pub in_call_args-Ends : {l e n : ℕ} {m : Parse Value} → Ends l e n m → Ends l e n (in_call_args m)
unfolding in_call_args enter_call_args leave_call_args ◌>>=◌ continue_with return remaining
in_call_args-Ends {e = e} {m = m} h = record {
  run = λ s low high. after s (h.run (record s { call_depth = s.call_depth +ℤ pos 1 }) low high);
}
  where
    after :
        (s : ParserState)
        → {r : Result Value} → Ended e (record s { call_depth = s.call_depth +ℤ pos 1 }) r
        → Ended e s (continue_with (λ args. leave_call_args >> return args) r)
    after s (ended {t = t} keeps eaten) =
        ended
          (record {
            tokens = keeps.tokens;
            forward = keeps.forward;
            within = keeps.within;
            error = keeps.error;
            condition = keeps.condition;
            depth = ap (λ d. d -ℤ pos 1) keeps.depth ∙ depth_again s.call_depth;
          })
          eaten

module _ {k n : ℕ} (le : k ≤ n) {c : Calls} (good : Serves k c) where
  expr-below : (j precedence : ℕ) → suc j ≤ k → Ends 0 0 j (c.expr precedence)
  expr-below j precedence less =
      Ends_weaken (good.expr precedence) (omega arith) (omega arith) (omega arith)

  pub parse_more-Ends :
      (separators : List ℕ) (first : Value)
      → member_of 31 separators ≡ false
      → Ends 0 0 k (parse_more n c separators first)
  unfolding parse_more
  parse_more-Ends separators first h =
      Ends-loop k n
        (λ j again less on a.
          Ends-peek
            (λ tok.
              Ends-if (member_of (get_token_type tok) separators)
                (Ends_relax
                  (Ends-eat advance_token-Eats λ _. Ends-bind (expr-below j 0 less) λ arg. on _))
                (Ends-return _))
            (λ tok e. rw (e, h) (Ends-return _)))
        le (append_list create_list first)

  pub parse_arguments-Ends :
      (closing : ℕ) (separators : List ℕ)
      → member_of 31 separators ≡ false
      → Ends 0 0 k (parse_arguments n c closing separators)
  unfolding parse_arguments
  parse_arguments-Ends closing separators h = Ends-look λ tok.
      Ends-if (not (get_token_type tok == closing))
        (Ends-bind (good.expr 0) λ arg. parse_more-Ends separators arg h) (Ends-return _)

  pub parse_call_args-Ends : Ends 0 0 k (parse_call_args n c)
  unfolding parse_call_args
  parse_call_args-Ends =
      Ends-bind (in_call_args-Ends (parse_arguments-Ends 24 _ refl)) λ args. search ends

  pub parse_list_literal-Ends : Ends 0 0 k (parse_list_literal n c)
  unfolding parse_list_literal
  parse_list_literal-Ends =
      Ends-bind (in_call_args-Ends (parse_arguments-Ends 70 _ refl)) λ args. search ends

  pub parse_closure-Ends : Ends 0 0 k (parse_closure n c)
  unfolding parse_closure
  parse_closure-Ends = Ends-look λ next.
      Ends-bind (search (ends, parse_and_list-Ends, parse_closure_param-Ends)) λ params.
        Ends-bind (expect_token_type-Ends 22) λ _. Ends-bind (skip_newlines-Ends le) λ _.
          Ends-look λ next'.
            Ends-bind
              (Ends-if (get_token_type next' == 29) good.block
                (Ends-bind good.statement λ single. Ends-return _))
              λ body. Ends-return _

  pub parse_struct_create-Ends : Ends 0 0 k (parse_struct_create n c)
  unfolding parse_struct_create
  parse_struct_create-Ends = Ends-bind parse_name-Ends λ struct_name.
      Ends-bind (expect_token_type-Ends 22) λ _. Ends-bind (skip_newlines-Ends le) λ _.
        Ends-look λ next.
          Ends-bind
            (Ends-if (get_token_type next == 29)
              (Ends-bind (expect_token_type-Ends 29) λ _. parse_lines-Ends le _ (λ j less items t.
                Ends-eat parse_name-Eats λ fname.
                  Ends-bind (expect_token_type-Ends 72)
                    λ _. Ends-bind (expr-below j 0 less) λ fval. Ends-return _))
              (Ends-return _))
            λ fields. Ends-return _
