-- ===== src/Parser/Steps.antt =====
-- The functions on the parser's state end, and so do the lists of names.
use ern_os.Base.{
  ℕ, suc, ◌+◌, ◌-◌, ◌≤◌, ◌<◌, ◌≡◌, refl, sym, subst, ◌∙◌, ◌≢◌, ◌⊎◌, Bool, true, false, ◌||◌, ◌==◌,
  arith, if◌then◌else◌, length, inl, inr, ltb, ltb→lt, ltb→ge, ==_iff, Bool-cases,
}
use ern_os.Bytes.{Bytes}
use ern_os.Lexer.{Token, get_token_type}
use ern_os.Ast.{Value, create_list, append_list}
use ern_os.Parser.{ParserState, done, Parse, return, ◌>>=◌, ◌>>◌, continue_with}
use ern_os.Parser.State.{
  peek_token, advance_token, token_after, expect_token_type, set_parser_error, accept,
  skip_newlines,
}
use ern_os.Parser.Ends.{
  remaining, Keeps, Keeps-refl, Ended, ended, Ended-lax, Ended_after, peeked, Ends, Ends-return,
  Ends_weaken, Ends-if, Ends-bind, Ends-eat, Ends-loop, Ends-peek, Ends-look,
}
use ern_os.Parser.Lists.{
  parse_name, parse_name_after, parse_param, parse_and_list, parse_with_list, parse_param_list,
  parse_variant_field, parse_closure_param, parse_lines,
}

-- Where the position is in the tokens, it moves, and otherwise it stays.
moves :
    (s : ParserState)
    → ltb s.pos (length s.tokens) ≡ true
    → Ended 1 s (done (token_after s 0) (record s { pos = s.pos + 1 }))
unfolding remaining
moves s e =
    let inside : s.pos < length s.tokens = ltb→lt s.pos (length s.tokens) e in
    ended
      (record {
        tokens = refl;
        forward = omega arith;
        within = λ w. omega arith;
        error = λ h. h;
        condition = refl;
        depth = refl;
      })
      (omega arith)

-- One token of those that are left is consumed.
pub advance_token-Eats : {n : ℕ} → Ends 1 1 n advance_token
unfolding advance_token remaining
advance_token-Eats = record {
  run = λ s low high. step s low (Bool-cases (ltb s.pos (length s.tokens)));
}
  where
    step :
        (s : ParserState)
        → 1 ≤ length s.tokens - s.pos
        → (ltb s.pos (length s.tokens) ≡ true) ⊎ (ltb s.pos (length s.tokens) ≡ false)
        → Ended 1 s (advance_token s)
    step s low (inl e) = rw (e) (moves s e)
    step s low (inr e) = absurd (omega (arith, ltb→ge s.pos (length s.tokens) e))

pub advance_token-Ends : {l n : ℕ} → Ends l 0 n advance_token
unfolding advance_token
advance_token-Ends = record {
  run = λ s low high. step s (Bool-cases (ltb s.pos (length s.tokens)));
}
  where
    step :
        (s : ParserState)
        → (ltb s.pos (length s.tokens) ≡ true) ⊎ (ltb s.pos (length s.tokens) ≡ false)
        → Ended 0 s (advance_token s)
    step s (inl e) = rw (e) (Ended-lax (moves s e) (omega arith))
    step s (inr e) = rw (e) (ended (Keeps-refl s) (omega arith))

-- A token that is consumed need not be.
pub Ends_relax {ℓ} : {A : Type ℓ} {n : ℕ} {m : Parse A} → Ends 1 1 n m → Ends 1 0 n m
Ends_relax h = Ends_weaken h (omega arith) (omega arith) (omega arith)

-- What follows a consumed token has one token less, or was given the end's.
pub Ends-advance {ℓ} :
    {A : Type ℓ} {n : ℕ} {f : Token → Parse A}
    → ((tok : Token) → Ends 0 0 n (f tok))
    → ((tok : Token) → get_token_type tok ≡ 31 → Ends 0 0 (suc n) (f tok))
    → Ends 0 0 (suc n) (advance_token >>= f)
unfolding advance_token ◌>>=◌ continue_with
Ends-advance {n = n} {f} h k = record {
  run = λ s low high. at s high (peeked s) (Bool-cases (ltb s.pos (length s.tokens)));
}
  where
    onward :
        (s : ParserState) {t : ParserState}
        → remaining s < suc n
        → get_token_type (token_after s 0) ≡ 31
        → Ended 1 s (done (token_after s 0) t)
        → Ended 0 s (f (token_after s 0) t)
    onward s high e (ended keeps eaten) =
        Ended_after keeps (omega arith) ((k (token_after s 0) e).run _ (omega arith) (omega arith))

    at :
        (s : ParserState)
        → remaining s < suc n
        → (get_token_type (token_after s 0) ≡ 31) ⊎ (1 ≤ remaining s)
        → (ltb s.pos (length s.tokens) ≡ true) ⊎ (ltb s.pos (length s.tokens) ≡ false)
        → Ended 0 s (continue_with f (advance_token s))
    at s high (inr l) c = (Ends_relax (Ends-eat advance_token-Eats h)).run s l high
    at s high (inl e) (inr c) = rw (c) ((k (token_after s 0) e).run s (omega arith) high)
    at s high (inl e) (inl c) = rw (c) (onward s high e (moves s c))

pub set_parser_error-Ends : {l n : ℕ} → Ends l 0 n set_parser_error
unfolding set_parser_error remaining
set_parser_error-Ends = record {
  run = λ s low high.
      ended
        (record {
          tokens = refl;
          forward = omega arith;
          within = λ w. w;
          error = λ h. refl;
          condition = refl;
          depth = refl;
        })
        (omega arith);
}

pub expect_token_type-Ends : {l n : ℕ} (t : ℕ) → Ends l 0 n (expect_token_type t)
unfolding expect_token_type
expect_token_type-Ends t =
    Ends-bind advance_token-Ends
      λ tok. Ends-if (get_token_type tok == t) (Ends-return _) set_parser_error-Ends

pub expect_token_type-Eats : {n : ℕ} (t : ℕ) → Ends 1 1 n (expect_token_type t)
unfolding expect_token_type
expect_token_type-Eats t =
    Ends-bind advance_token-Eats
      λ tok. Ends-if (get_token_type tok == t) (Ends-return _) set_parser_error-Ends

-- Only a token that is there has another type than that of the end.
Ends-consume {ℓ} :
    {A : Type ℓ} {n : ℕ} (t : ℕ) {x y : Parse A}
    → t ≢ 31
    → Ends 1 0 n x
    → Ends 0 0 n y
    → Ends 0 0 n (peek_token >>= λ tok. if get_token_type tok == t then x else y)
Ends-consume {n = n} t {x} {y} ne h k =
    Ends-peek
      (λ tok.
        Ends-if (get_token_type tok == t) h
          (Ends_weaken k (omega arith) (omega arith) (omega arith)))
      (λ tok e. other (get_token_type tok) e (Bool-cases (get_token_type tok == t)))
  where
    other :
        (u : ℕ)
        → u ≡ 31
        → ((u == t) ≡ true) ⊎ ((u == t) ≡ false)
        → Ends 0 0 n (if u == t then x else y)
    other u e (inl f) = absurd (ne (sym ((==_iff u t).0 f) ∙ e))
    other u e (inr f) = rw (f) k

accept-step {ℓ} :
    {A : Type ℓ} (t : ℕ) (f : Bool → Parse A) (s : ParserState)
    → (accept t >>= f) s
      ≡ (peek_token >>= λ tok.
            if get_token_type tok == t then (advance_token >>= λ _. f true) else f false)
          s
unfolding accept ◌>>=◌ continue_with peek_token advance_token return
accept-step t f s = by_test (get_token_type (token_after s 0) == t)
  where
    by_test :
        (b : Bool)
        → continue_with f ((if b then (advance_token >> return true) else return false) s)
          ≡ (if b then (advance_token >>= λ _. f true) else f false) s
    by_test true = refl
    by_test false = refl

-- What follows a token that is accepted has one token less.
pub Ends-accept {ℓ} :
    {A : Type ℓ} {n : ℕ} (t : ℕ) {x y : Parse A}
    → t ≢ 31
    → Ends 0 0 n x
    → Ends 0 0 (suc n) y
    → Ends 0 0 (suc n) (accept t >>= λ present. if present then x else y)
Ends-accept {n = n} t {x} {y} ne h k = record {
  run = λ s low high.
      subst (Ended 0 s) (sym (accept-step t (λ b. if b then x else y) s)) (taken.run s low high);
}
  where
    taken :
        Ends 0 0
          (suc n)
          (peek_token >>= λ tok. if get_token_type tok == t then (advance_token >>= λ _. x) else y)
    taken = Ends-consume t ne (Ends_relax (Ends-eat advance_token-Eats λ _. h)) k

pub accept-Ends : {l n : ℕ} (t : ℕ) → Ends l 0 n (accept t)
unfolding accept
accept-Ends t = Ends-look λ tok.
    Ends-if (get_token_type tok == t) (Ends-bind advance_token-Ends λ _. Ends-return _)
      (Ends-return _)

pub parse_name-Ends : {l n : ℕ} → Ends l 0 n parse_name
unfolding parse_name
parse_name-Ends = Ends-bind advance_token-Ends λ tok. Ends-return _

pub parse_name-Eats : {n : ℕ} → Ends 1 1 n parse_name
unfolding parse_name
parse_name-Eats = Ends-bind advance_token-Eats λ tok. Ends-return _

pub ruleset ends = (
  Ends-bind, Ends-if, Ends-return, advance_token-Ends, set_parser_error-Ends,
  expect_token_type-Ends, accept-Ends, parse_name-Ends,
)

pub parse_name_after-Ends :
    {l n : ℕ} (t : ℕ) (default : Bytes) → Ends l 0 n (parse_name_after t default)
unfolding parse_name_after
parse_name_after-Ends t default = search ends

pub parse_param-Ends : {l n : ℕ} → Ends l 0 n parse_param
unfolding parse_param
parse_param-Ends = search (ends, parse_name_after-Ends)

module _ {k n : ℕ} (le : k ≤ n) where
  pub skip_newlines-Ends : Ends 0 0 k (skip_newlines n)
  unfolding skip_newlines
  skip_newlines-Ends =
      Ends-loop k n
        (λ j again less on a.
          Ends-consume 28 (omega arith) (Ends_relax (Ends-eat advance_token-Eats λ _. on a))
            (Ends-return _))
        le 1

  -- A list behind a first item, each of whose items ends.
  pub parse_and_list-Ends :
      (item : Parse Value) (first : Value)
      → Ends 0 0 k item
      → Ends 0 0 k (parse_and_list n item first)
  unfolding parse_and_list
  parse_and_list-Ends item first h =
      Ends-loop k n
        (λ j again less on a.
          Ends-accept 11 (omega arith)
            (Ends-bind (Ends_weaken h (omega arith) (omega arith) (omega arith)) λ next. on _)
            (Ends-return _))
        le (append_list create_list first)

  pub parse_with_list-Ends :
      (item : Parse Value) → Ends 0 0 k item → Ends 0 0 k (parse_with_list n item)
  unfolding parse_with_list
  parse_with_list-Ends item h = search (ends, parse_and_list-Ends)

  pub parse_param_list-Ends : Ends 0 0 k (parse_param_list n)
  unfolding parse_param_list
  parse_param_list-Ends = parse_with_list-Ends parse_param parse_param-Ends

pub parse_closure_param-Ends : {l n : ℕ} → Ends l 0 n parse_closure_param
unfolding parse_closure_param
parse_closure_param-Ends = search ends

pub parse_variant_field-Ends : {l n : ℕ} → Ends l 0 n parse_variant_field
unfolding parse_variant_field
parse_variant_field-Ends = search (ends, parse_name_after-Ends)

-- Lines end where each of them does, and consumes a token.
pub parse_lines-Ends :
    {k n : ℕ}
    → k ≤ n
    → (line : Value → ℕ → Parse Value)
    → ((j : ℕ) → suc j ≤ k → (items : Value) (t : ℕ) → Ends 1 1 (suc j) (line items t))
    → Ends 0 0 k (parse_lines n line)
unfolding parse_lines
parse_lines-Ends {k} {n} le line h =
    Ends-bind
      (Ends-loop k n
        (λ j again less on a.
          Ends-peek
            (λ tok. Ends-if (get_token_type tok == 30 || get_token_type tok == 31) (Ends-return _) (
              Ends-if (get_token_type tok == 28)
                (Ends_relax (Ends-eat advance_token-Eats λ _. on a))
                (Ends_relax (Ends-eat (h j less a (get_token_type tok)) on))))
            (λ tok e. rw (e) (Ends-return _)))
        le create_list)
      (λ found. search ends)
