-- ===== src/Parser/ProgramEnds.antt =====
-- parse_program ends, in the order its tokens stand.
use ern_os.Base.{ℕ, suc, ◌≤◌, ◌≡◌, refl, subst, List, ◌==◌, arith, length}
use ern_os.Base.Int.{pos}
use ern_os.Lexer.{Token, get_token_type}
use ern_os.Ast.{Value}
use ern_os.Parser.{ParserState, Result, done, Parse, return, ◌>>=◌}
use ern_os.Parser.State.{create_parser_state, expect_token_type}
use ern_os.Parser.Ends.{
  remaining, Ended, ended, Ends, Ends-return, Ends-if, Ends-bind, Ends-eat, Ends-peek, Ends-peek_at,
  Ends-loop,
}
use ern_os.Parser.Steps.{
  advance_token-Ends, advance_token-Eats, Ends_relax, expect_token_type-Ends,
  expect_token_type-Eats, accept-Ends, parse_name-Ends, parse_name_after-Ends, skip_newlines-Ends,
  parse_with_list-Ends, parse_param_list-Ends, parse_variant_field-Ends, parse_lines-Ends,
  set_parser_error-Ends, ends,
}
use ern_os.Parser.Serves.{Serves, Serves-weaken}
use ern_os.Parser.StatementEnds.{parse_statement-Eats, calls-Serves}
use ern_os.Parser.Lists.{parse_name, parse_variant_field, parse_lines}
use ern_os.Parser.Calls.{Calls}
use ern_os.Parser.Program.{
  Program, no_declarations, open_lines, skip_return_type, parse_field, parse_struct_def,
  parse_variant, parse_enum_def, parse_method_def, parse_signature, parse_trait_def,
  parse_function_async, parse_method, parse_trait_impl, parse_import, parse_external,
  parse_definition, declaration_of, declaration, parse_program,
}

skip_return_type-Ends : {l n : ℕ} → Ends l 0 n skip_return_type
unfolding skip_return_type
skip_return_type-Ends = search ends

module _ {k n : ℕ} (le : suc k ≤ n) {c : Calls} (good : Serves k c) where
  open_lines-Ends : Ends 0 0 k (open_lines n)
  unfolding open_lines
  open_lines-Ends =
      Ends-bind (expect_token_type-Ends 22)
        λ _. Ends-bind (skip_newlines-Ends (omega arith)) λ _. expect_token_type-Ends 29

  parse_function_async-Eats : (is_async : ℕ) → Ends 1 1 (suc k) (parse_function_async n c is_async)
  unfolding parse_function_async
  parse_function_async-Eats is_async = Ends-eat (expect_token_type-Eats 1) λ _.
      Ends-bind parse_name-Ends λ name. Ends-bind (parse_param_list-Ends (omega arith)) λ params.
        Ends-bind (parse_name_after-Ends 43 _) λ ret_type.
          Ends-bind (expect_token_type-Ends 22)
            λ _. Ends-bind (accept-Ends 28) λ _. Ends-bind good.block λ body. Ends-return _

  parse_method_def-Eats : Ends 1 1 (suc k) (parse_method_def n c)
  unfolding parse_method_def
  parse_method_def-Eats = Ends-eat (expect_token_type-Eats 1) λ _.
      Ends-bind parse_name-Ends λ method_name. Ends-bind (expect_token_type-Ends 56) λ _.
        Ends-bind parse_name-Ends λ struct_name.
          Ends-bind (parse_param_list-Ends (omega arith)) λ params.
            Ends-bind skip_return_type-Ends λ _. Ends-bind (expect_token_type-Ends 22) λ _.
              Ends-bind (skip_newlines-Ends (omega arith))
                λ _. Ends-bind good.block λ body. Ends-return _

-- The lines of the declarations, each of which consumes a token.
module _ {k n : ℕ} (le : suc k ≤ n) {c : Calls} (good : Serves k c) where
  parse_field-Eats : (fields : Value) (t : ℕ) → Ends 1 1 (suc k) (parse_field n c fields t)
  unfolding parse_field
  parse_field-Eats fields t =
      Ends-eat advance_token-Eats λ _. search (ends, parse_name_after-Ends, good.expr) depth 40

  parse_variant-Eats : (variants : Value) (t : ℕ) → Ends 1 1 (suc k) (parse_variant n c variants t)
  unfolding parse_variant
  parse_variant-Eats variants t =
      let short : k ≤ n = omega arith in
      Ends-eat advance_token-Eats λ _.
        Ends-if (t == 48)
          (Ends-bind parse_name-Ends λ vname.
            Ends-bind (parse_with_list-Ends short parse_variant_field parse_variant_field-Ends)
              λ vfields. Ends-return _)
          (Ends-return _)

  parse_signature-Eats : (sigs : Value) (t : ℕ) → Ends 1 1 (suc k) (parse_signature n c sigs t)
  unfolding parse_signature
  parse_signature-Eats sigs t =
      let short : k ≤ n = omega arith in
      Ends-eat advance_token-Eats λ _.
        Ends-if (t == 1)
          (Ends-bind parse_name-Ends λ sig_name.
            Ends-bind (parse_param_list-Ends short) λ sig_params.
              Ends-bind skip_return_type-Ends λ _. Ends-bind (accept-Ends 22) λ _. Ends-return _)
          (Ends-return _)

  parse_method-Eats : (methods : Value) (t : ℕ) → Ends 1 1 (suc k) (parse_method n c methods t)
  unfolding parse_method
  parse_method-Eats methods t =
      Ends-if (t == 1) (Ends-bind (parse_function_async-Eats le good 0) λ method. Ends-return _)
        (Ends-eat advance_token-Eats λ _. Ends-return _)

module _ {k n : ℕ} (le : suc k ≤ n) {c : Calls} (good : Serves k c) where
  -- Lines that end, and then nothing.
  lined :
      (line : ℕ → Calls → Value → ℕ → Parse Value)
      → ((j : ℕ)
          → suc j ≤ n
          → Serves j c
          → (items : Value) (t : ℕ) → Ends 1 1 (suc j) (line n c items t))
      → (node : Value → Value)
      → Ends 0 0 k (parse_lines n (line n c) >>= λ found. return (node found))
  lined line h node =
      let short : k ≤ n = omega arith in
      Ends-bind
        (parse_lines-Ends short (line n c)
          λ j less items t. h j (omega arith) (Serves-weaken good (omega arith)) items t)
        λ found. Ends-return _

  headed :
      (a b : ℕ) {f : Value → Parse Value}
      → ((name : Value) → Ends 0 0 k (f name))
      → Ends 1 1 (suc k) (
          expect_token_type a >>= λ _.
          expect_token_type b >>= λ _. parse_name >>= λ name. open_lines n >>= λ _. f name)
  headed a b h = Ends-eat (expect_token_type-Eats a) λ _.
      Ends-bind (expect_token_type-Ends b)
        λ _. Ends-bind parse_name-Ends λ name. Ends-bind (open_lines-Ends le good) λ _. h name

  parse_struct_def-Eats : Ends 1 1 (suc k) (parse_struct_def n c)
  unfolding parse_struct_def
  parse_struct_def-Eats = headed 1 44 λ name. lined parse_field (λ j low. parse_field-Eats low) _

  parse_enum_def-Eats : Ends 1 1 (suc k) (parse_enum_def n c)
  unfolding parse_enum_def
  parse_enum_def-Eats = headed 1 47 λ name. lined parse_variant (λ j low. parse_variant-Eats low) _

  parse_trait_def-Eats : Ends 1 1 (suc k) (parse_trait_def n c)
  unfolding parse_trait_def
  parse_trait_def-Eats =
      headed 1 57 λ name. lined parse_signature (λ j low. parse_signature-Eats low) _

  parse_trait_impl-Eats : Ends 1 1 (suc k) (parse_trait_impl n c)
  unfolding parse_trait_impl
  parse_trait_impl-Eats = Ends-eat (expect_token_type-Eats 58) λ _.
      Ends-bind parse_name-Ends λ trait_name. Ends-bind (expect_token_type-Ends 53) λ _.
        Ends-bind parse_name-Ends λ type_name.
          Ends-bind (open_lines-Ends le good)
            λ _. lined parse_method (λ j low. parse_method-Eats low) _

  parse_external-Eats : Ends 1 1 (suc k) (parse_external n c)
  unfolding parse_external
  parse_external-Eats = Ends-eat advance_token-Eats λ _. Ends-bind (expect_token_type-Ends 1) λ _.
      Ends-bind parse_name-Ends λ name. Ends-bind (parse_param_list-Ends (omega arith)) λ params.
        Ends-bind (parse_name_after-Ends 43 _)
          λ ret_type. Ends-bind (accept-Ends 22) λ _. Ends-bind (accept-Ends 28) λ _. Ends-return _

  parse_definition-Eats : (p : Program) → Ends 1 1 (suc k) (parse_definition n c p)
  unfolding parse_definition
  parse_definition-Eats p = Ends-peek_at 1 λ tok2. Ends-peek_at 2 λ tok3.
      Ends-if (get_token_type tok2 == 44) (Ends-bind parse_struct_def-Eats λ d. Ends-return _) (
        Ends-if (get_token_type tok2 == 47) (Ends-bind parse_enum_def-Eats λ d. Ends-return _) (
          Ends-if (get_token_type tok2 == 57) (Ends-bind parse_trait_def-Eats λ d. Ends-return _) (
            Ends-if (get_token_type tok3 == 56)
              (Ends-bind (parse_method_def-Eats le good) λ d. Ends-return _)
              (Ends-bind (parse_function_async-Eats le good 0) λ d. Ends-return _))))

module _ {k n : ℕ} (le : k ≤ n) {c : Calls} (good : Serves k c) where
  parse_function_async-Ends : (is_async : ℕ) → Ends 0 0 k (parse_function_async n c is_async)
  unfolding parse_function_async
  parse_function_async-Ends is_async = Ends-bind (expect_token_type-Ends 1) λ _.
      Ends-bind parse_name-Ends λ name. Ends-bind (parse_param_list-Ends le) λ params.
        Ends-bind (parse_name_after-Ends 43 _) λ ret_type.
          Ends-bind (expect_token_type-Ends 22)
            λ _. Ends-bind (accept-Ends 28) λ _. Ends-bind good.block λ body. Ends-return _

module _ {j n : ℕ} (le : suc j ≤ n) {c : Calls} (good : Serves j c) where
  parse_import-Eats :
      (again : Program → Parse Program)
      → ((p : Program) → Ends 0 0 j (again p))
      → (p : Program) → Ends 1 1 (suc j) (parse_import n c again p)
  unfolding parse_import
  parse_import-Eats again on p = Ends-eat advance_token-Eats λ _.
      Ends-bind advance_token-Ends λ tok_path.
        Ends-if (get_token_type tok_path == 26)
          (Ends-bind (parse_name_after-Ends 42 _) λ alias_val. on _) (Ends-return p)

  declaration_of-Ends :
      (again : Program → Parse Program)
      → ((p : Program) → Ends 0 0 j (again p))
      → (p : Program) (t : ℕ) → Ends 1 0 (suc j) (declaration_of n c again p t)
  unfolding declaration_of
  declaration_of-Ends again on p t =
      let short : j ≤ n = omega arith in
      Ends-if (t == 31) (Ends-return p) (
        Ends-if (t == 28) (Ends_relax (Ends-eat advance_token-Eats λ _. on p)) (
          Ends-if (t == 32) (Ends_relax (parse_import-Eats again on p)) (
            Ends-if (t == 38) (Ends_relax (Ends-eat (parse_external-Eats le good) λ d. on _)) (
              Ends-if (t == 65)
                (Ends_relax (
                  Ends-eat advance_token-Eats
                    λ _. Ends-bind (parse_function_async-Ends short good 1) λ d. on _))
                (Ends-if (t == 1) (Ends_relax (Ends-eat (parse_definition-Eats le good p) on)) (
                  Ends-if (t == 58)
                    (Ends_relax (Ends-eat (parse_trait_impl-Eats le good) λ d. on _))
                    (Ends-if (t == 2)
                      (Ends_relax (Ends-eat (parse_statement-Eats le good) λ d. on _))
                      (Ends-bind set_parser_error-Ends λ _. Ends-return p))))))))

  declaration-Ends :
      (again : Program → Parse Program)
      → ((p : Program) → Ends 0 0 j (again p))
      → (p : Program) → Ends 0 0 (suc j) (declaration n c again p)
  unfolding declaration declaration_of
  declaration-Ends again on p =
      Ends-peek (λ tok. declaration_of-Ends again on p (get_token_type tok))
        (λ tok e. rw (e) (Ends-return p))

-- Calls of a depth above the number of tokens are enough.
pub parse_program-Ends : (n : ℕ) → Ends 0 0 (suc n) (parse_program n)
unfolding parse_program
parse_program-Ends n =
    Ends-bind
      (Ends-loop (suc n) (suc n)
        (λ j again less on p.
          declaration-Ends {n = suc n} less (Serves-weaken (calls-Serves n) (omega arith)) again on
            p)
        (omega arith) no_declarations)
      λ p. Ends-return _

-- A program that was parsed, and the state behind it.
pub record Parsed (tokens : List Token) (t : ParserState) : Type 0 where
  pub same : t.tokens ≡ tokens
  pub within : t.pos ≤ length tokens
  pub condition : t.in_condition ≡ 0
  pub depth : t.call_depth ≡ pos 0

-- With calls of a depth of at least the number of tokens, parse_program ends: with a program, in
-- the same tokens, at a position that is not past the end, outside a condition and arguments.
pub parse_program-Total :
    (tokens : List Token) (n : ℕ)
    → length tokens ≤ n
    → (prog : Value) × (t : ParserState) × (parse_program n (create_parser_state tokens)
        ≡ done prog t)
      × Parsed tokens t
unfolding create_parser_state remaining
parse_program-Total tokens n enough =
    result ((parse_program-Ends n).run (create_parser_state tokens) (omega arith) (omega arith))
  where
    result :
        {r : Result Value}
        → Ended 0 (create_parser_state tokens) r
        → (prog : Value) × (t : ParserState) × (r ≡ done prog t) × Parsed tokens t
    result (ended {a = prog} {t = t} keeps eaten) = (
      prog,
      t,
      refl,
      record {
        same = keeps.tokens;
        within = subst (λ ts. t.pos ≤ length ts) keeps.tokens (keeps.within (omega arith));
        condition = keeps.condition;
        depth = keeps.depth;
      },
    )
