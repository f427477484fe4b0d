-- ===== src/Parser/Printed.antt =====
-- parse_expr reads what is printed of an expression.
use ern_os.Base.{
  ℕ, zero, suc, ◌+◌, ◌-◌, ◌≤◌, ◌<◌, ◌≡◌, refl, sym, ap, subst, ◌∙◌, true, false, List, [], ◌∷◌,
  ◌++◌, append_assoc, arith, ltb, ltb→lt, length, length-append, inl, inr, Bool-cases, ◌⊎◌,
}
use ern_os.Lexer.{Token, create_token, get_token_type}
use ern_os.Ast.{Value}
use ern_os.Parser.{ParserState, done, loop}
use ern_os.Parser.State.{get_token_precedence}
use ern_os.Parser.Calls.{Calls}
use ern_os.Parser.Expr.{parse_operator, climb, parse_expr}
use ern_os.Parser.Statement.{calls}
use ern_os.Parser.View.{View, ahead, ahead-ahead, View-ahead, bind-done}
use ern_os.Parser.Print.{
  Tree, number, name, apply, token, Operator, precedence_of, operator_token, print, operator_node,
  node_of,
}
use ern_os.Parser.Operators.{Follows, operator-Facts, operator-done, climb-on}
use ern_os.Parser.Reads.{
  Reads, prefix-Reads, Reads-done, ge→ltb, number-prefix, name-prefix, paren-prefix, Readable,
  operator-Follows, operator-binds, print-some, call-done,
}

-- From the left side on: the operator, its right side, and the loop again.
side-Reads :
    (n : ℕ) (c : Calls) (p : ℕ) (o : Operator) (xs ys zs : List Token) (v w : Value)
    (s : ParserState)
    → p < precedence_of o
    → length (xs ++ operator_token o ∷ ys) < n
    → View s (xs ++ operator_token o ∷ zs)
    → c.expr (precedence_of o) (ahead (ahead s (length xs)) 1)
      ≡ done w (ahead (ahead (ahead s (length xs)) 1) (length ys))
    → Reads n c p xs v s
    → Reads n c p (xs ++ operator_token o ∷ ys) (operator_node o v w) s
unfolding Reads
side-Reads n c p o xs ys zs v w s high short h right (zero, enough, e) =
    absurd (omega (arith, length-append xs (operator_token o ∷ ys)))
side-Reads n c p o xs ys zs v w s high short h right (suc m, enough, e) =
    let f = operator-Follows o in
    let u = ahead s (length xs) in
    let long : length xs + (1 + length ys) ≡ length (xs ++ operator_token o ∷ ys) =
      omega (arith, length-append xs (operator_token o ∷ ys)) in
    (
      m,
      omega (arith, long),
      e
          ∙ climb-on n c p v u (operator_token o) zs (View-ahead s xs (operator_token o ∷ zs) h)
              f.no_dot f.no_and m (operator-binds o p high)
          ∙ bind-done (parse_operator n c v (operator_token o)) (loop m (climb n c p)) (ahead u 1)
              (operator-done n c o v w (ahead u 1) _ right)
          ∙ ap (loop m (climb n c p) (operator_node o v w)) (
              ahead-ahead u 1 (length ys)
              ∙ ahead-ahead s (length xs) (1 + length ys)
              ∙ ap (ahead s) long),
    )

-- Both sides of an operator and what stands between them.
bare : Operator → Tree → Tree → List Token
bare o l r = print (precedence_of o - 1) l ++ operator_token o ∷ print (precedence_of o) r

bare-long :
    (o : Operator) (l r : Tree)
    → length (bare o l r)
      ≡ length (print (precedence_of o - 1) l) + suc (length (print (precedence_of o) r))
unfolding bare
bare-long o l r =
    length-append (print (precedence_of o - 1) l) (operator_token o ∷ print (precedence_of o) r)

bare-Reads :
    (o : Operator) (l r : Tree)
    → Readable l
    → Readable r
    → (k n p q : ℕ) → p ≤ q
    → q < precedence_of o
    → length (bare o l r) < n
    → length (bare o l r) ≤ suc k
    → (s : ParserState) (u : Token) (ts : List Token) → View s (bare o l r ++ u ∷ ts)
    → Follows q u
    → Reads n (calls k) p (bare o l r) (node_of (apply o l r)) s
unfolding bare Readable node_of
bare-Reads o l r read_l read_r zero n p q le high short deep s u ts h f = absurd (
    omega
      (arith, bare-long o l r, print-some (precedence_of o - 1) l, print-some (precedence_of o) r))
bare-Reads o l r read_l read_r (suc k) n p q le high short deep s u ts h f =
    let ls = print (precedence_of o - 1) l in
    let rs = print (precedence_of o) r in
    let long : length (ls ++ operator_token o ∷ rs) ≡ length ls + suc (length rs) =
      bare-long o l r in
    let some : 1 ≤ length ls = print-some (precedence_of o - 1) l in
    let parted : View s (ls ++ operator_token o ∷ (rs ++ u ∷ ts)) =
      subst (View s) (append_assoc ls (operator_token o ∷ rs) (u ∷ ts)) h in
    let behind : View (ahead (ahead s (length ls)) 1) (rs ++ u ∷ ts) =
      View-ahead (ahead s (length ls)) (operator_token o ∷ []) (rs ++ u ∷ ts)
        (View-ahead s ls (operator_token o ∷ (rs ++ u ∷ ts)) parted) in
    let follows : Follows (precedence_of o) u = record {
      low = omega (arith, f.low);
      no_dot = f.no_dot;
      no_call = f.no_call;
      no_with = f.no_with;
      no_and = f.no_and;
    } in
    side-Reads n (calls (suc k)) p o ls rs (rs ++ u ∷ ts) (node_of l) (node_of r) s (omega arith)
      short parted
      (call-done r read_r k (precedence_of o) (omega (arith, long, some)) _ u ts behind follows
        (omega (arith, f.low)))
      (read_l (suc k) n p (precedence_of o - 1) (omega arith) (omega (arith, long))
        (omega (arith, long)) s (operator_token o) (rs ++ u ∷ ts) parted (operator-Follows o))

close-Follows : Follows 0 (token 24 [])
unfolding get_token_precedence get_token_type create_token
close-Follows = record {
  low = omega arith;
  no_dot = refl;
  no_call = refl;
  no_with = refl;
  no_and = refl;
}

-- The same in parentheses.
paren-Reads :
    (o : Operator) (l r : Tree)
    → Readable l
    → Readable r
    → (k n p : ℕ) → length (bare o l r) + 2 ≤ suc k
    → (s : ParserState) (ts : List Token) → View s (token 23 [] ∷ (bare o l r ++ token 24 [] ∷ ts))
    → Reads n (calls k) p (token 23 [] ∷ (bare o l r ++ token 24 [] ∷ [])) (node_of (apply o l r)) s
unfolding get_token_precedence get_token_type create_token calls
paren-Reads o l r read_l read_r zero n p deep s ts h = absurd (omega arith)
paren-Reads o l r read_l read_r (suc k) n p deep s ts h =
    let xs = bare o l r in
    let v = node_of (apply o l r) in
    let inside : View (ahead s 1) (xs ++ token 24 [] ∷ ts) = View-ahead s (token 23 [] ∷ []) _ h in
    let binds : 0 < precedence_of o = (operator-Facts o).low in
    let read =
      bare-Reads o l r read_l read_r k (suc k) 0 0 (omega arith) binds (omega arith) (omega arith)
        (ahead s 1) (token 24 []) ts inside close-Follows in
    let f = close-Follows in
    let called =
      Reads-done (suc k) (calls k) 0 xs v (ahead s 1) (token 24 []) ts (omega arith) inside f.no_dot
        f.no_and refl read in
    let long : 1 + (length xs + 1) ≡ length (token 23 [] ∷ (xs ++ token 24 [] ∷ [])) =
      omega (arith, length-append xs (token 24 [] ∷ [])) in
    prefix-Reads n (calls (suc k)) p _ v s (
      paren-prefix n (calls (suc k)) xs ts v s h called
      ∙ ap (done v) (
          ahead-ahead (ahead s 1) (length xs) 1
          ∙ ahead-ahead s 1 (length xs + 1)
          ∙ ap (ahead s) long))

-- What is printed of an application, by whether its operator binds more strongly.
print-bare :
    (o : Operator) (l r : Tree) (q : ℕ)
    → ltb q (precedence_of o) ≡ true
    → print q (apply o l r) ≡ bare o l r
unfolding print bare
print-bare o l r q e = rw (e) refl

print-paren :
    (o : Operator) (l r : Tree) (q : ℕ)
    → ltb q (precedence_of o) ≡ false
    → print q (apply o l r) ≡ token 23 [] ∷ (bare o l r ++ token 24 [] ∷ [])
unfolding print bare
print-paren o l r q e = rw (e) refl

apply-Readable : (o : Operator) (l r : Tree) → Readable l → Readable r → Readable (apply o l r)
unfolding Readable
apply-Readable o l r read_l read_r k n p q le short deep s u ts h f =
    by_strength (Bool-cases (ltb q (precedence_of o))) short deep h
  where
    Fits : List Token → Type 0
    Fits xs =
        length xs < n
        → length xs ≤ suc k
        → View s (xs ++ u ∷ ts)
        → Reads n (calls k) p xs (node_of (apply o l r)) s

    in_parens : Fits (token 23 [] ∷ (bare o l r ++ token 24 [] ∷ []))
    in_parens short deep h =
        paren-Reads o l r read_l read_r k n p
          (omega (arith, length-append (bare o l r) (token 24 [] ∷ []))) s (u ∷ ts)
          (subst (λ xs. View s (token 23 [] ∷ xs))
            (append_assoc (bare o l r) (token 24 [] ∷ []) (u ∷ ts)) h)

    by_strength :
        (ltb q (precedence_of o) ≡ true) ⊎ (ltb q (precedence_of o) ≡ false)
        → Fits (print q (apply o l r))
    by_strength (inl e) = subst Fits (sym (print-bare o l r q e)) (λ short deep h.
        bare-Reads o l r read_l read_r k n p q le (ltb→lt q (precedence_of o) e) short deep s u ts h
          f)
    by_strength (inr e) = subst Fits (sym (print-paren o l r q e)) in_parens

print-Readable : (e : Tree) → Readable e
unfolding Readable print
print-Readable (number text) k n p q le short deep s u ts h f =
    prefix-Reads n (calls k) p (token 25 text ∷ []) (node_of (number text)) s
      (number-prefix n (calls k) text s (u ∷ ts) h)
print-Readable (name text) k n p q le short deep s u ts h f =
    prefix-Reads n (calls k) p (token 27 text ∷ []) (node_of (name text)) s
      (name-prefix n (calls k) text s u ts h f.no_call f.no_with)
print-Readable (apply o l r) k n p q le short deep s u ts h f =
    apply-Readable o l r (print-Readable l) (print-Readable r) k n p q le short deep s u ts h f

-- For an expression of numbers, names and the operators of arithmetic, comparison and logic,
-- printed with the parentheses that the precedences ask for: calls of a depth of at least the
-- number of its tokens read back its node and leave the state behind its tokens, from a state that
-- shows them in front of a token of precedence 0 that is neither `with` nor the `and` of arguments.
pub parse_expr-print :
    (e : Tree) (n : ℕ) (s : ParserState) (t : Token) (ts : List Token)
    → length (print 0 e) ≤ n
    → View s (print 0 e ++ t ∷ ts)
    → Follows 0 t
    → get_token_precedence t ≡ 0
    → parse_expr (suc n) (calls n) 0 s ≡ done (node_of e) (ahead s (length (print 0 e)))
unfolding Readable
parse_expr-print e n s t ts enough h f none =
    let read =
      print-Readable e n (suc n) 0 0 (omega arith) (omega arith) (omega arith) s t ts h f in
    Reads-done (suc n) (calls n) 0 (print 0 e) (node_of e) s t ts (omega arith) h f.no_dot f.no_and
      (ge→ltb 0 (get_token_precedence t) (omega (arith, none))) read
