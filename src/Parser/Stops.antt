-- ===== src/Parser/Stops.antt =====
-- Where parse_program stops.
use ern_os.Base.{
  ℕ, zero, suc, ◌≤◌, ◌≡◌, refl, subst, ◌∙◌, ◌≢◌, Bool, true, false, ◌==◌, ==_iff, ==→ne, List,
  length, if◌then◌else◌,
}
use ern_os.Lexer.{Token, get_token_type}
use ern_os.Ast.{Value}
use ern_os.Parser.{
  ParserState, Result, done, stuck, Parse, return, out_of_fuel, ◌>>=◌, ◌>>◌, continue_with, loop,
}
use ern_os.Parser.State.{
  create_parser_state, peek_token, advance_token, token_after, set_parser_error,
}
use ern_os.Parser.Calls.{Calls}
use ern_os.Parser.Statement.{calls}
use ern_os.Parser.Program.{
  Program, no_declarations, declaration_of, declaration, parse_import, program_node, parse_program,
}
use ern_os.Parser.ProgramEnds.{parse_program-Total}

-- The state behind an import and a token that is no string.
pub record NoPath (t : ParserState) : Type 0 where
  pub before : ParserState
  pub between : ParserState
  pub import : Token
  pub path : Token
  pub starts : get_token_type (token_after before 0) ≡ 32
  pub reads_import : advance_token before ≡ done import between
  pub reads_path : advance_token between ≡ done path t
  pub not_string : get_token_type path ≢ 26

-- What a state is in which the loop of parse_program stops.
pub data Stopped (t : ParserState) : Type 0 where
  at_end : get_token_type (token_after t 0) ≡ 31 → Stopped t
  failed : t.parser_error ≡ 1 → Stopped t
  no_path : NoPath t → Stopped t

-- A result whose state, if there is one, is one of those.
data Leaves {ℓ} {A : Type ℓ} : Result A → Type ℓ where
  leaves : {a : A} {t : ParserState} → Stopped t → Leaves (done a t)
  none_left : Leaves stuck

-- What is done from a state leaves one of those.
record Leads {ℓ} {A : Type ℓ} (s : ParserState) (m : Parse A) : Type ℓ where
  run : Leaves (m s)

Leads-if {ℓ} :
    {A : Type ℓ} (b : Bool) {x y : Parse A} {s : ParserState}
    → (b ≡ true → Leads s x)
    → (b ≡ false → Leads s y)
    → Leads s (if b then x else y)
Leads-if true h k = h refl
Leads-if false h k = k refl

module _ {ℓ κ} {A : Type ℓ} {B : Type κ} where
  Leads-bind :
      (m : Parse A) {f : A → Parse B} {s : ParserState}
      → ((a : A) (t : ParserState) → Leads t (f a))
      → Leads s (m >>= f)
  unfolding ◌>>=◌ continue_with
  Leads-bind m {f} {s} h = record { run = by_result (m s) }
    where
      by_result : (r : Result A) → Leaves (continue_with f r)
      by_result (done a t) = (h a t).run
      by_result stuck = none_left

  Leads-loop :
      {body : (A → Parse B) → A → Parse B}
      → ((again : A → Parse B)
          → ((a : A) (s : ParserState) → Leads s (again a))
          → (a : A) (s : ParserState) → Leads s (body again a))
      → (n : ℕ) (a : A) (s : ParserState) → Leads s (loop n body a)
  unfolding loop out_of_fuel
  Leads-loop h zero a s = record { run = none_left }
  Leads-loop {body} h (suc n) a s = h (loop n body) (Leads-loop h n) a s

-- An error is where the loop may stop.
error-Leads : (p : Program) (s : ParserState) → Leads s (set_parser_error >> return p)
unfolding set_parser_error ◌>>=◌ continue_with return
error-Leads p s = record { run = leaves (failed refl) }

return-Leads : (p : Program) {s : ParserState} → Stopped s → Leads s (return p)
unfolding return
return-Leads p h = record { run = leaves h }

-- A token is consumed whatever the state is.
advanced : (s : ParserState) → (tok : Token) × (t : ParserState) × (advance_token s ≡ done tok t)
unfolding advance_token
advanced s = (_, _, refl)

-- What follows a consumed token.
Leads-advance {ℓ} :
    {A : Type ℓ} {f : Token → Parse A} {s : ParserState}
    → ((tok : Token) (t : ParserState) → advance_token s ≡ done tok t → Leads t (f tok))
    → Leads s (advance_token >>= f)
unfolding advance_token ◌>>=◌ continue_with
Leads-advance h = record { run = (h _ _ refl).run }

module _ (n : ℕ) (c : Calls) (again : Program → Parse Program)
    (on : (p : Program) (s : ParserState) → Leads s (again p)) where
  parse_import-Leads :
      (p : Program) (s : ParserState)
      → get_token_type (token_after s 0) ≡ 32
      → Leads s (parse_import n c again p)
  unfolding parse_import
  parse_import-Leads p s e = Leads-advance λ import u reads_import.
      Leads-advance λ path t reads_path.
        Leads-if (get_token_type path == 26) (λ _. Leads-bind _ λ alias_val. on _)
          (λ ne. return-Leads p (
            no_path (record {
              before = s;
              between = u;
              import = import;
              path = path;
              starts = e;
              reads_import = reads_import;
              reads_path = reads_path;
              not_string = ==→ne (get_token_type path) 26 ne;
            })))

  declaration_of-Leads :
      (p : Program) (s : ParserState) (t : ℕ)
      → get_token_type (token_after s 0) ≡ t
      → Leads s (declaration_of n c again p t)
  unfolding declaration_of
  declaration_of-Leads p s t kind =
      Leads-if (t == 31) (λ e. return-Leads p (at_end (kind ∙ (==_iff t 31).0 e)))
        λ _.
          Leads-if (t == 28) (λ _. Leads-bind _ λ _. on p)
            λ _.
              Leads-if (t == 32) (λ e. parse_import-Leads p s (kind ∙ (==_iff t 32).0 e))
                λ _.
                  Leads-if (t == 38) (λ _. Leads-bind _ λ d. on _)
                    λ _.
                      Leads-if (t == 65) (λ _. Leads-bind _ λ _ u. Leads-bind _ λ d. on _)
                        λ _.
                          Leads-if (t == 1) (λ _. Leads-bind _ on)
                            λ _.
                              Leads-if (t == 58) (λ _. Leads-bind _ λ d. on _)
                                λ _.
                                  Leads-if (t == 2) (λ _. Leads-bind _ λ d. on _)
                                    λ _. error-Leads p s

  declaration-Leads : (p : Program) (s : ParserState) → Leads s (declaration n c again p)
  unfolding declaration peek_token ◌>>=◌ continue_with
  declaration-Leads p s = record {
    run = (declaration_of-Leads p s (get_token_type (token_after s 0)) refl).run;
  }

-- What a result of parse_program is left in is what its loop is left in.
program-Leads : (n : ℕ) (s : ParserState) → Leads s (parse_program n)
unfolding parse_program ◌>>=◌ continue_with return
program-Leads n s = record {
  run = named ((Leads-loop (declaration-Leads (suc n) (calls n)) (suc n) no_declarations s).run);
}
  where
    named :
        {r : Result Program} → Leaves r → Leaves (continue_with (λ p. return (program_node p)) r)
    named (leaves h) = leaves h
    named none_left = none_left

-- With calls of a depth of at least the number of tokens, parse_program ends, and the state it
-- leaves has the end as its next token, or the error flag set, or stands behind an import and a
-- token that is no string.
pub parse_program-Stopped :
    (tokens : List Token) (n : ℕ)
    → length tokens ≤ n
    → (prog : Value) × (t : ParserState) × (parse_program n (create_parser_state tokens)
        ≡ done prog t)
      × Stopped t
parse_program-Stopped tokens n enough =
    let s = create_parser_state tokens in
    let (prog, t, e, parsed) = parse_program-Total tokens n enough in
    (prog, t, e, left (subst Leaves e (program-Leads n s).run))
  where
    left : {prog : Value} {t : ParserState} → Leaves (done prog t) → Stopped t
    left (leaves h) = h
