-- ===== src/Parser/StatementEnds.antt =====
-- parse_statement and parse_block end, and so do the functions that are called again.
use ern_os.Base.{ℕ, zero, suc, ◌≤◌, ◌<◌, ◌≡◌, refl, [], ◌∷◌, ◌==◌, arith}
use ern_os.Lexer.{get_token_type}
use ern_os.Ast.{Value}
use ern_os.Parser.{ParserState, Result, done, Parse, return, ◌>>=◌, continue_with}
use ern_os.Parser.State.{expect_token_type, skip_newlines, get_in_condition, set_in_condition}
use ern_os.Parser.Ends.{
  remaining, Keeps, Ended, ended, Ends, Ends-return, Ends_weaken, Ends_zero, Ends-if, Ends-bind,
  Ends-eat, Ends-peek, Ends-look,
}
use ern_os.Parser.Steps.{
  advance_token-Ends, advance_token-Eats, Ends_relax, expect_token_type-Ends, accept-Ends,
  parse_name-Ends, skip_newlines-Ends, parse_with_list-Ends, parse_lines-Ends,
}
use ern_os.Parser.Serves.{Serves, Serves-weaken, parse_arguments-Ends}
use ern_os.Parser.ExprEnds.{parse_expr-Ends, parse_expr-Eats}
use ern_os.Parser.Lists.{parse_name}
use ern_os.Parser.Calls.{Calls}
use ern_os.Parser.Statement.{
  as_condition, parse_if_statement, parse_arm, parse_match_statement, parse_for_each_statement,
  parse_set, parse_repeat, parse_simple, parse_spawn, parse_send, parse_word, parse_expr_statement,
  statement_of, parse_statement, parse_block, calls,
}

as_condition-Ends : {l e n : ℕ} {m : Parse Value} → Ends l e n m → Ends l e n (as_condition m)
unfolding as_condition get_in_condition set_in_condition ◌>>=◌ continue_with return remaining
as_condition-Ends {e = e} {m = m} h = record {
  run = λ s low high. after s (h.run (record s { in_condition = 1 }) low high);
}
  where
    after :
        (s : ParserState) {r : Result Value}
        → Ended e (record s { in_condition = 1 }) r
        → Ended e s (continue_with (λ cond. set_in_condition s.in_condition >>= λ _. return cond) r)
    after s (ended keeps eaten) =
        ended
          (record {
            tokens = keeps.tokens;
            forward = keeps.forward;
            within = keeps.within;
            error = keeps.error;
            condition = refl;
            depth = keeps.depth;
          })
          eaten

module _ {k n : ℕ} (le : k ≤ n) {c : Calls} (good : Serves k c) where
  -- The end of a statement.
  closed : {A : Type 0} (a : A) → Ends 0 0 k (skip_newlines n >>= λ _. return a)
  closed a = Ends-bind (skip_newlines-Ends le) λ _. Ends-return a

  -- A colon and a block.
  indented :
      {A : Type 0} {f : Value → Parse A}
      → ((body : Value) → Ends 0 0 k (f body))
      → Ends 0 0 k (expect_token_type 22 >>= λ _. skip_newlines n >>= λ _. c.block >>= f)
  indented h =
      Ends-bind (expect_token_type-Ends 22)
        λ _. Ends-bind (skip_newlines-Ends le) λ _. Ends-bind good.block h

  -- The block of an `else`.
  otherwise : Ends 0 0 k (expect_token_type 22 >>= λ _. skip_newlines n >>= λ _. c.block)
  otherwise =
      Ends-bind (expect_token_type-Ends 22) λ _. Ends-bind (skip_newlines-Ends le) λ _. good.block

-- Statements that begin with a token of theirs, where what is called again ends behind it.
module _ {k n : ℕ} (le : suc k ≤ n) {c : Calls} (good : Serves k c) where
  pub parse_if_statement-Eats : Ends 1 1 (suc k) (parse_if_statement n c)
  unfolding parse_if_statement
  parse_if_statement-Eats = Ends-eat advance_token-Eats λ _.
      Ends-bind (as_condition-Ends (good.expr 0)) λ cond. indented (omega arith) good λ then_branch.
        Ends-bind (accept-Ends 5) λ has_else.
          Ends-bind
            (Ends-if has_else
              (Ends-peek
                (λ next2.
                  Ends-if (get_token_type next2 == 4)
                    (Ends_relax (Ends-bind good.if_statement λ chained_if. Ends-return _))
                    (Ends_weaken (otherwise (omega arith) good) (omega arith) (omega arith)
                      (omega arith)))
                (λ next2 e. rw (e) (otherwise (omega arith) good)))
              (Ends-return _))
            λ else_branch. Ends-return _

  parse_arm-Eats :
      (j : ℕ) → suc j ≤ k → (arms : Value) (t : ℕ) → Ends 1 1 (suc j) (parse_arm n c arms t)
  unfolding parse_arm
  parse_arm-Eats j less arms t = Ends-eat advance_token-Eats λ _.
      Ends-if (t == 4)
        (Ends_weaken {l = 0} {e = 0} {n = k}
          (Ends-bind advance_token-Ends λ variant_tok.
            Ends-bind
              (parse_with_list-Ends {k = k} {n = n} (omega arith) parse_name parse_name-Ends)
              λ bindings. indented (omega arith) good λ arm_body. Ends-return _)
          (omega arith) (omega arith) (omega arith))
        (Ends-return _)

  parse_match_statement-Eats : Ends 1 1 (suc k) (parse_match_statement n c)
  unfolding parse_match_statement
  parse_match_statement-Eats = Ends-eat advance_token-Eats λ _. Ends-bind (good.expr 0) λ expr.
      Ends-bind (expect_token_type-Ends 22) λ _.
        Ends-bind (skip_newlines-Ends {k = k} {n = n} (omega arith)) λ _.
          Ends-bind (expect_token_type-Ends 29)
            λ _. Ends-bind (parse_lines-Ends (omega arith) _ parse_arm-Eats) λ arms. Ends-return _

  parse_for_each_statement-Eats : Ends 1 1 (suc k) (parse_for_each_statement n c)
  unfolding parse_for_each_statement
  parse_for_each_statement-Eats = Ends-eat advance_token-Eats λ _.
      Ends-bind (expect_token_type-Ends 54) λ _. Ends-bind parse_name-Ends λ var_name.
        Ends-bind (expect_token_type-Ends 55) λ _.
          Ends-bind (good.expr 0) λ iter_expr. indented (omega arith) good λ body. Ends-return _

  parse_set-Eats : Ends 1 1 (suc k) (parse_set n c)
  unfolding parse_set
  parse_set-Eats = Ends-eat advance_token-Eats λ _. Ends-bind parse_name-Ends λ var_name.
      Ends-bind (accept-Ends 40) λ field.
        Ends-if field
          (Ends-bind parse_name-Ends λ field_name.
            Ends-bind (expect_token_type-Ends 3)
              λ _. Ends-bind (good.expr 0) λ val. closed (omega arith) good _)
          (Ends-bind (expect_token_type-Ends 3) λ _. Ends-bind (good.expr 0) λ expr.
            Ends-bind (accept-Ends 42) λ typed.
              Ends-bind
                (Ends-if typed (Ends-bind advance_token-Ends λ _. Ends-return _) (Ends-return _))
                λ _. closed (omega arith) good _)

  parse_repeat-Eats : (t : ℕ) → Ends 1 1 (suc k) (parse_repeat n c t)
  unfolding parse_repeat
  parse_repeat-Eats t = Ends-eat advance_token-Eats λ _.
      Ends-bind (Ends-if (t == 8) (expect_token_type-Ends 9) (Ends-return _)) λ _.
        Ends-bind (as_condition-Ends (good.expr 0))
          λ cond. indented (omega arith) good λ body. Ends-return _

  parse_simple-Eats : (node : Value → Value) → Ends 1 1 (suc k) (parse_simple n c node)
  unfolding parse_simple
  parse_simple-Eats node =
      Ends-eat advance_token-Eats λ _. Ends-bind (good.expr 0) λ expr. closed (omega arith) good _

  parse_spawn-Eats : Ends 1 1 (suc k) (parse_spawn n c)
  unfolding parse_spawn
  parse_spawn-Eats = Ends-eat advance_token-Eats λ _. Ends-bind parse_name-Ends λ func_name.
      Ends-bind (expect_token_type-Ends 23) λ _.
        Ends-bind (parse_arguments-Ends (omega arith) good 24 (11 ∷ []) refl)
          λ args. Ends-bind (expect_token_type-Ends 24) λ _. closed (omega arith) good _

  parse_send-Eats : Ends 1 1 (suc k) (parse_send n c)
  unfolding parse_send
  parse_send-Eats = Ends-eat advance_token-Eats λ _. Ends-bind (good.expr 0) λ val.
      Ends-bind (expect_token_type-Ends 3)
        λ _. Ends-bind (good.expr 0) λ chan. closed (omega arith) good _

  parse_word-Eats : (node : Value) → Ends 1 1 (suc k) (parse_word n c node)
  unfolding parse_word
  parse_word-Eats node = Ends-eat advance_token-Eats λ _. closed (omega arith) good _

  parse_expr_statement-Eats : Ends 1 1 (suc k) (parse_expr_statement n c)
  unfolding parse_expr_statement
  parse_expr_statement-Eats =
      Ends-bind (parse_expr-Eats le good 0)
        λ expr. Ends-bind (skip_newlines-Ends le) λ _. Ends-return _

  statement_of-Eats : (t : ℕ) → Ends 1 1 (suc k) (statement_of n c t)
  unfolding statement_of
  statement_of-Eats t =
      search
        (
          Ends-if, parse_set-Eats, parse_if_statement-Eats, parse_repeat-Eats, parse_simple-Eats,
          parse_spawn-Eats, parse_send-Eats, parse_match_statement-Eats,
          parse_for_each_statement-Eats, parse_word-Eats, parse_expr_statement-Eats,
        )
        depth 40

  pub parse_statement-Eats : Ends 1 1 (suc k) (parse_statement n c)
  unfolding parse_statement
  parse_statement-Eats = Ends-look λ tok. statement_of-Eats (get_token_type tok)

  -- At the end there is an expression of no token, an error.
  pub parse_statement-Ends : Ends 0 0 (suc k) (parse_statement n c)
  unfolding parse_statement statement_of parse_expr_statement
  parse_statement-Ends =
      Ends-peek (λ tok. Ends_relax (statement_of-Eats (get_token_type tok)))
        (λ tok e. rw (e) (
          Ends-bind (parse_expr-Ends le good 0)
            λ expr. Ends-bind (skip_newlines-Ends le) λ _. Ends-return _))

-- A block, whose lines are statements.
module _ {k n : ℕ} (le : suc k ≤ n) {c : Calls} (good : Serves k c) where
  pub parse_block-Ends : Ends 0 0 (suc k) (parse_block n c)
  unfolding parse_block
  parse_block-Ends = Ends-bind (expect_token_type-Ends 29) λ _.
      parse_lines-Ends {k = suc k} {n = n} le _ λ j less items t.
        Ends-bind
          (parse_statement-Eats {k = j} {n = n} (omega arith) (Serves-weaken good (omega arith)))
          λ stmt. Ends-return _

-- With enough fuel for the tokens, everything that is called again ends.
pub calls-Serves : (n : ℕ) → Serves n (calls n)
unfolding calls
calls-Serves zero = record {
  expr = λ precedence. Ends_zero;
  block = Ends_zero;
  statement = Ends_zero;
  if_statement = Ends_zero;
}
calls-Serves (suc n) =
    let good = calls-Serves n in
    let le : suc n ≤ suc n = omega arith in
    record {
      expr = parse_expr-Ends le good;
      block = parse_block-Ends le good;
      statement = parse_statement-Ends le good;
      if_statement = parse_if_statement-Eats le good;
    }

-- With calls of a depth of at least the number of tokens that are left, parse_statement ends: in
-- the same tokens, not further back and not past the end, with the error flag set if it was, and
-- in_condition and call_depth as they were; where a token is left, it consumes one.
pub parse_statement-Keeps :
    (n : ℕ) (s : ParserState)
    → remaining s ≤ n
    → (stmt : Value) × (t : ParserState) × (parse_statement (suc n) (calls n) s ≡ done stmt t)
      × Keeps s t
      × (1 ≤ remaining s → remaining t < remaining s)
parse_statement-Keeps n s enough =
    result ((parse_statement-Ends le good).run s (omega arith) (omega arith))
      (λ l. (parse_statement-Eats le good).run s l (omega arith))
  where
    good : Serves n (calls n)
    good = calls-Serves n

    le : suc n ≤ suc n
    le = omega arith

    eaten_by :
        {stmt : Value} {t : ParserState} → Ended 1 s (done stmt t) → remaining t < remaining s
    eaten_by (ended keeps eaten) = omega arith

    result :
        {r : Result Value}
        → Ended 0 s r
        → (1 ≤ remaining s → Ended 1 s r)
        → (stmt : Value) × (t : ParserState) × (r ≡ done stmt t)
          × Keeps s t
          × (1 ≤ remaining s → remaining t < remaining s)
    result (ended keeps eaten) eats = (_, _, refl, keeps, λ l. eaten_by (eats l))
