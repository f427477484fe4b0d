-- ===== src/Parser/Sourced.antt =====
-- What parse_program makes of a program of imports and constants.
use ern_os.Base.{
  ℕ, zero, suc, ◌-◌, ◌≤◌, ◌≡◌, refl, sym, ap, ap₂, ◌∙◌, subst, List, [], ◌∷◌, ◌++◌, append_assoc,
  arith, length, length-append,
}
use ern_os.Lexer.{create_token, get_token_type}
use ern_os.Ast.{
  Value, num, str, nil, cons, create_list, append_list, set_list_cell, make_node_program,
}
use ern_os.Parser.{ParserState, done, return, loop}
use ern_os.Parser.State.{create_parser_state}
use ern_os.Parser.Statement.{calls}
use ern_os.Parser.Program.{
  Program, no_declarations, declaration_of, declaration, program_node, parse_program,
}
use ern_os.Parser.View.{View, ahead, View-ahead, peek-View, bind-done}
use ern_os.Parser.Print.{token, print}
use ern_os.Parser.Source.{
  Line, import, import_as, constant, print_line, source, imports_of, constants_of, program_of,
}
use ern_os.Parser.Lines.{
  behind, source-first, again, past, import-round, import_as-round, constant-round,
}

-- The cells of two lists.
unfoldable join : Value → Value → Value
join nil r = r
join (cons x xs) r = cons x (join xs r)
join (num n) r = num n
join (str s) r = str s

join-append_list : (l v r : Value) → join (append_list l v) r ≡ join l (cons v r)
unfolding join append_list
join-append_list nil v r = refl
join-append_list (cons x xs) v r = ap (cons x) (join-append_list xs v r)
join-append_list (num n) v r = refl
join-append_list (str s) v r = refl

join-nil : (l : Value) → join l nil ≡ l
unfolding join
join-nil nil = refl
join-nil (cons x xs) = ap (cons x) (join-nil xs)
join-nil (num n) = refl
join-nil (str s) = refl

source-positive : (ls : List Line) → 1 ≤ length (source ls)
source-positive ls =
    let (t, ts, e, _) = source-first ls in
    let size : length (source ls) ≡ length (t ∷ ts) = ap length e in omega (arith, size)

-- The cells of the program's node.
program_node-cells :
    (ls : List Line)
    → program_node (record no_declarations {
      imports = join create_list (imports_of ls);
      top_constants = join create_list (constants_of ls);
    })
      ≡ program_of ls
unfolding program_node make_node_program set_list_cell append_list join program_of
program_node-cells ls = refl

module _ (n : ℕ) where
  -- A program with what the lines add to it.
  abbrev with_lines : Program → List Line → Program
  with_lines p ls = record p {
    imports = join p.imports (imports_of ls);
    top_constants = join p.top_constants (constants_of ls);
  }

  -- What the loop does from a state that shows the lines.
  abbrev Done : ℕ → Program → ParserState → List Line → Type 0
  Done m p s ls =
      (t : ParserState) × (again n m p s ≡ done (with_lines p ls) t)
      × (t.parser_error ≡ s.parser_error)
      × View t (token 31 [] ∷ [])

  import-added :
      (p : Program) (v : Value) (ls : List Line)
      → record p {
        imports = join (append_list p.imports v) (imports_of ls);
        top_constants = join p.top_constants (constants_of ls);
      }
        ≡ record p {
          imports = join p.imports (cons v (imports_of ls));
          top_constants = join p.top_constants (constants_of ls);
        }
  import-added p v ls =
      ap (λ x. record p { imports = x; top_constants = join p.top_constants (constants_of ls) })
        (join-append_list p.imports v (imports_of ls))

  constant-added :
      (p : Program) (v : Value) (ls : List Line)
      → record p {
        imports = join p.imports (imports_of ls);
        top_constants = join (append_list p.top_constants v) (constants_of ls);
      }
        ≡ record p {
          imports = join p.imports (imports_of ls);
          top_constants = join p.top_constants (cons v (constants_of ls));
        }
  constant-added p v ls =
      ap (λ x. record p { imports = join p.imports (imports_of ls); top_constants = x })
        (join-append_list p.top_constants v (constants_of ls))

  end-Done : (m : ℕ) (p : Program) (s : ParserState) → View s (source []) → Done (suc m) p s []
  unfolding loop declaration declaration_of create_token get_token_type return source imports_of
      constants_of
  end-Done m p s h = (
    s,
    peek-View s (token 31 []) [] h _
        ∙ ap (λ q. done q s)
            (ap₂ (λ a b. record p { imports = a; top_constants = b }) (sym (join-nil p.imports))
              (sym (join-nil p.top_constants))),
    refl,
    h,
  )

  lines-Done :
      (ls : List Line) (m : ℕ) (p : Program) (s : ParserState)
      → length (source ls) ≤ m
      → length (source ls) ≤ suc n
      → View s (source ls)
      → Done m p s ls
  unfolding source print_line imports_of constants_of ahead
  lines-Done [] m p s rounds enough h =
      let e : m ≡ suc (m - 1) = omega (arith, rounds) in
      subst (λ x. Done x p s []) (sym e) (end-Done (m - 1) p s h)
  lines-Done (import path ∷ ls) m p s rounds enough h =
      let e : m ≡ suc (suc (m - 2)) = omega (arith, rounds) in
      let u = ahead (ahead (ahead s 1) 1) 1 in
      let (t, r, clean, v) =
        lines-Done ls (m - 2) _ u (omega (arith, rounds)) (omega (arith, enough)) (
          View-ahead (ahead (ahead s 1) 1) (token 28 [] ∷ []) _
            (behind (ahead s 1) _ _ (behind s _ _ h))) in
      (
        t,
        ap (λ x. again n x p s) e
            ∙ import-round n (m - 2) p s path (source ls) h
            ∙ r
            ∙ ap (λ q. done q t) (import-added p _ ls),
        clean,
        v,
      )
  lines-Done (import_as path alias ∷ ls) m p s rounds enough h =
      let e : m ≡ suc (suc (m - 2)) = omega (arith, rounds) in
      let u = ahead (ahead (ahead (ahead (ahead s 1) 1) 1) 1) 1 in
      let h2 = behind (ahead s 1) _ _ (behind s _ _ h) in
      let (t, r, clean, v) =
        lines-Done ls (m - 2) _ u (omega (arith, rounds)) (omega (arith, enough))
          (behind _ _ _ (behind _ _ _ (behind (ahead (ahead s 1) 1) _ _ h2))) in
      (
        t,
        ap (λ x. again n x p s) e
            ∙ import_as-round n (m - 2) p s path alias (source ls) h
            ∙ r
            ∙ ap (λ q. done q t) (import-added p _ ls),
        clean,
        v,
      )
  lines-Done (constant x e ∷ ls) m p s rounds enough h =
      let size = length-append (print 0 e ++ token 28 [] ∷ []) (source ls) in
      let inner = length-append (print 0 e) (token 28 [] ∷ []) in
      let g : m ≡ suc (m - 1) = omega (arith, rounds) in
      let (y, ys, first, ne) = source-first ls in
      let order = append_assoc (print 0 e) (token 28 [] ∷ []) (source ls) in
      let h' =
        subst (λ z. View s (token 2 [] ∷ token 27 x ∷ token 3 [] ∷ z))
          (order ∙ ap (λ z. print 0 e ++ token 28 [] ∷ z) first) h in
      let s3 = ahead (ahead (ahead s 1) 1) 1 in
      let h3 = behind (ahead (ahead s 1) 1) _ _ (behind (ahead s 1) _ _ (behind s _ _ h')) in
      let (t, r, clean, v) =
        lines-Done ls (m - 1) _ (past n s e) (omega (arith, rounds, size, inner))
          (omega (arith, enough, size, inner))
          (subst (View (past n s e)) (sym first)
            (behind _ _ _ (View-ahead s3 (print 0 e) (token 28 [] ∷ y ∷ ys) h3))) in
      (
        t,
        ap (λ x. again n x p s) g
            ∙ constant-round n (m - 1) p s x e y ys (omega (arith, enough, size, inner)) ne h'
            ∙ r
            ∙ ap (λ q. done q t) (constant-added p _ ls),
        clean,
        v,
      )

-- For imports and constants in any order, a constant's value an expression of numbers, names and
-- operators, printed line by line and with the end behind them: with calls of a depth of at least
-- the number of the tokens, parse_program gives the node of ten cells that has the pairs of the imports
-- at 1 and the nodes of the constants at 9, in their order, and empty lists at 2 to 8; it stands at
-- the end, with no error flagged.
pub parse_program-source :
    (ls : List Line) (n : ℕ)
    → length (source ls) ≤ n
    → (t : ParserState) × (parse_program n (create_parser_state (source ls))
        ≡ done (program_of ls) t)
      × (t.parser_error ≡ 0)
      × View t (token 31 [] ∷ [])
unfolding parse_program return
parse_program-source ls zero enough = absurd (omega (arith, enough, source-positive ls))
parse_program-source ls (suc k) enough =
    let (t, r, clean, v) =
      lines-Done k ls (suc (suc k)) no_declarations (create_parser_state (source ls))
        (omega (arith, enough)) enough (unfold View create_parser_state in refl) in
    (
      t,
      bind-done (loop (suc (suc k)) (declaration (suc (suc k)) (calls (suc k))) no_declarations) _ _
            r
          ∙ ap (λ q. done q t) (program_node-cells ls),
      unfold create_parser_state in clean,
      v,
    )
