-- ===== src/Parser/Lines.antt =====
-- What the loop of parse_program reads of an import and of a constant.
use ern_os.Base.{
  ℕ, suc, ◌≤◌, ◌≡◌, refl, ◌∙◌, Bool, true, false, List, [], ◌∷◌, ◌++◌, arith, ◌==◌, length,
}
use ern_os.Base.Int.{pos}
use ern_os.Bytes.{Bytes}
use ern_os.Lexer.{Token, create_token, get_token_type, get_token_value}
use ern_os.Ast.{num, str, nil, cons, append_list, make_node_set}
use ern_os.Parser.{ParserState, Result, done, return, loop}
use ern_os.Parser.State.{get_token_precedence, accept, skip_newlines}
use ern_os.Parser.Lists.{parse_name, parse_name_after}
use ern_os.Parser.Statement.{calls, parse_set, statement_of, parse_statement}
use ern_os.Parser.Program.{Program, parse_import, declaration_of, declaration}
use ern_os.Parser.View.{View, ahead, View-ahead, peek-View, advance-View, expect-View, bind-done}
use ern_os.Parser.Print.{Tree, token, print, node_of}
use ern_os.Parser.Operators.{Follows}
use ern_os.Parser.Printed.{parse_expr-print}
use ern_os.Parser.Source.{Line, import, import_as, constant, print_line, source}

module _ (s : ParserState) (t : Token) (ts : List Token) (h : View s (t ∷ ts)) where
  accept-yes : (k : ℕ) → (get_token_type t == k) ≡ true → accept k s ≡ done true (ahead s 1)
  unfolding accept return
  accept-yes k e = peek-View s t ts h _ ∙ rw e (advance-View s t ts h _)

  accept-no : (k : ℕ) → (get_token_type t == k) ≡ false → accept k s ≡ done false s
  unfolding accept return
  accept-no k e = peek-View s t ts h _ ∙ rw e refl

  name-View : parse_name s ≡ done (str (get_token_value t)) (ahead s 1)
  unfolding parse_name return
  name-View = advance-View s t ts h _

  -- The state behind a token.
  pub behind : View (ahead s 1) ts
  behind = View-ahead s (t ∷ []) ts h

-- One end of a line is passed over, where another token follows.
skip-View :
    (n : ℕ) (s : ParserState) (t : Token) (ts : List Token)
    → View s (token 28 [] ∷ t ∷ ts)
    → (get_token_type t == 28) ≡ false
    → skip_newlines (suc (suc n)) s ≡ done 0 (ahead s 1)
unfolding skip_newlines loop return create_token get_token_type
skip-View n s t ts h e =
    peek-View s (token 28 []) (t ∷ ts) h _
    ∙ advance-View s (token 28 []) (t ∷ ts) h _
    ∙ peek-View (ahead s 1) t ts (behind s (token 28 []) (t ∷ ts) h) _
    ∙ rw e refl

-- Behind a line a line begins, or the end is reached.
pub source-first :
    (ls : List Line)
    → (t : Token) × (ts : List Token) × (source ls ≡ t ∷ ts) × ((get_token_type t == 28) ≡ false)
unfolding source print_line create_token get_token_type
source-first [] = (_, _, refl, refl)
source-first (import path ∷ ls) = (_, _, refl, refl)
source-first (import_as path alias ∷ ls) = (_, _, refl, refl)
source-first (constant x e ∷ ls) = (_, _, refl, refl)

module _ (n : ℕ) where
  -- The loop of parse_program, with calls as deep as the declarations need.
  abbrev pub again : ℕ → Program → ParserState → Result Program
  again m = loop m (declaration (suc (suc n)) (calls (suc n)))

  -- The end of a line takes a round.
  newline-round :
      (m : ℕ) (p : Program) (s : ParserState) (ts : List Token)
      → View s (token 28 [] ∷ ts)
      → again (suc m) p s ≡ again m p (ahead s 1)
  unfolding loop declaration declaration_of create_token get_token_type
  newline-round m p s ts h = peek-View s (token 28 []) ts h _ ∙ advance-View s (token 28 []) ts h _

  pub import-round :
      (m : ℕ) (p : Program) (s : ParserState) (path : Bytes) (ts : List Token)
      → View s (token 32 [] ∷ token 26 path ∷ token 28 [] ∷ ts)
      → again (suc (suc m)) p s
        ≡ again m
            (record p { imports = append_list p.imports (cons (str path) (cons (str []) nil)) })
            (ahead (ahead (ahead s 1) 1) 1)
  unfolding loop declaration declaration_of parse_import create_token get_token_type get_token_value
      append_list parse_name_after return
  import-round m p s path ts h =
      let h1 = behind s (token 32 []) _ h in
      let h2 = behind (ahead s 1) (token 26 path) _ h1 in
      let none : parse_name_after 42 [] (ahead (ahead s 1) 1)
          ≡ done (str []) (ahead (ahead s 1) 1) =
        bind-done (accept 42) _ _ (accept-no _ (token 28 []) ts h2 42 refl) in
      peek-View s (token 32 []) _ h _
      ∙ advance-View s (token 32 []) _ h _
      ∙ advance-View (ahead s 1) (token 26 path) _ h1 _
      ∙ bind-done (parse_name_after 42 []) _ _ none
      ∙ newline-round m _ (ahead (ahead s 1) 1) ts h2

  pub import_as-round :
      (m : ℕ) (p : Program) (s : ParserState) (path alias : Bytes) (ts : List Token)
      → View s (print_line (import_as path alias) ++ ts)
      → again (suc (suc m)) p s
        ≡ again m
            (record p { imports = append_list p.imports (cons (str path) (cons (str alias) nil)) })
            (ahead (ahead (ahead (ahead (ahead s 1) 1) 1) 1) 1)
  unfolding loop declaration declaration_of parse_import create_token get_token_type get_token_value
      append_list parse_name_after return print_line
  import_as-round m p s path alias ts h =
      let s2 = ahead (ahead s 1) 1 in
      let h1 = behind s (token 32 []) _ h in
      let h2 = behind (ahead s 1) (token 26 path) _ h1 in
      let h3 = behind s2 (token 42 []) _ h2 in
      let h4 = behind (ahead s2 1) (token 27 alias) _ h3 in
      let named : parse_name_after 42 [] s2 ≡ done (str alias) (ahead (ahead s2 1) 1) =
        bind-done (accept 42) _ _ (accept-yes s2 (token 42 []) _ h2 42 refl)
        ∙ name-View (ahead s2 1) (token 27 alias) _ h3 in
      peek-View s (token 32 []) _ h _
      ∙ advance-View s (token 32 []) _ h _
      ∙ advance-View (ahead s 1) (token 26 path) _ h1 _
      ∙ bind-done (parse_name_after 42 []) _ _ named
      ∙ newline-round m _ (ahead (ahead s2 1) 1) ts h4

  -- The state behind a constant.
  abbrev pub past : ParserState → Tree → ParserState
  past s e = ahead (ahead (ahead (ahead (ahead s 1) 1) 1) (length (print 0 e))) 1

  newline-Follows : Follows 0 (token 28 [])
  unfolding get_token_precedence create_token get_token_type
  newline-Follows = record {
    low = omega arith;
    no_dot = refl;
    no_call = refl;
    no_with = refl;
    no_and = refl;
  }

  parse_set-constant :
      (s : ParserState) (x : Bytes) (e : Tree) (t : Token) (ts : List Token)
      → length (print 0 e) ≤ n
      → (get_token_type t == 28) ≡ false
      → View s (token 2 [] ∷ token 27 x ∷ token 3 [] ∷ (print 0 e ++ token 28 [] ∷ t ∷ ts))
      → parse_set (suc (suc n)) (calls (suc n)) s
        ≡ done (cons (num (pos 7)) (cons (str x) (cons (node_of e) nil))) (past s e)
  unfolding parse_set calls make_node_set append_list return create_token get_token_type
      get_token_value get_token_precedence
  parse_set-constant s x e t ts enough ne h =
      let s2 = ahead (ahead s 1) 1 in
      let s4 = ahead (ahead s2 1) (length (print 0 e)) in
      let h1 = behind s (token 2 []) _ h in
      let h2 = behind (ahead s 1) (token 27 x) _ h1 in
      let h3 = behind s2 (token 3 []) _ h2 in
      let h4 = View-ahead (ahead s2 1) (print 0 e) (token 28 [] ∷ t ∷ ts) h3 in
      advance-View s (token 2 []) _ h _
      ∙ bind-done parse_name _ _ (name-View (ahead s 1) (token 27 x) _ h1)
      ∙ bind-done (accept 40) _ _ (accept-no s2 (token 3 []) _ h2 40 refl)
      ∙ expect-View s2 (token 3 []) _ h2 _
      ∙ bind-done ((calls (suc n)).expr 0) _ _
          (parse_expr-print e n (ahead s2 1) (token 28 []) (t ∷ ts) enough h3 newline-Follows refl)
      ∙ bind-done (accept 42) _ _ (accept-no s4 (token 28 []) _ h4 42 refl)
      ∙ bind-done {A = Bool} (return false) _ s4 refl
      ∙ bind-done (skip_newlines (suc (suc n))) _ _ (skip-View n s4 t ts h4 ne)

  pub constant-round :
      (m : ℕ) (p : Program) (s : ParserState) (x : Bytes) (e : Tree) (t : Token) (ts : List Token)
      → length (print 0 e) ≤ n
      → (get_token_type t == 28) ≡ false
      → View s (token 2 [] ∷ token 27 x ∷ token 3 [] ∷ (print 0 e ++ token 28 [] ∷ t ∷ ts))
      → again (suc m) p s
        ≡ again m
            (record p {
              top_constants =
                  append_list p.top_constants
                    (cons (num (pos 7)) (cons (str x) (cons (node_of e) nil)));
            })
            (past s e)
  unfolding loop declaration declaration_of parse_statement statement_of create_token get_token_type
  constant-round m p s x e t ts enough ne h =
      peek-View s (token 2 []) _ h _
      ∙ bind-done (parse_statement (suc (suc n)) (calls (suc n))) _ s
          (peek-View s (token 2 []) _ h _ ∙ parse_set-constant s x e t ts enough ne h)
