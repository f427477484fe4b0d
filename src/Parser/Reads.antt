-- ===== src/Parser/Reads.antt =====
-- What parse_expr reads of an expression, by its first token and by a call.
use ern_os.Base.{
  ℕ, zero, suc, ◌+◌, ◌-◌, ◌≤◌, ◌<◌, ◌≡◌, refl, ◌∙◌, Bool, true, false, ◌&&◌, List, [], ◌∷◌, ◌++◌,
  arith, ltb, lt→ltb, ◌==◌, if◌then◌else◌, length,
}
use ern_os.Bytes.{Bytes}
use ern_os.Lexer.{Token, create_token, get_token_type, get_token_value}
use ern_os.Ast.{Value, append_list, make_node_int, make_node_ident}
use ern_os.Parser.{ParserState, done, return, loop}
use ern_os.Parser.State.{get_token_precedence, is_uppercase_start}
use ern_os.Parser.Calls.{Calls}
use ern_os.Parser.Expr.{parse_named, parse_operand, prefix_of, parse_prefix, climb, parse_expr}
use ern_os.Parser.Statement.{calls}
use ern_os.Parser.View.{View, ahead, View-ahead, peek-View, advance-View, expect-View, bind-done}
use ern_os.Parser.Print.{
  Tree, number, name, apply, token, Operator, precedence_of, operator_token, print, node_of,
}
use ern_os.Parser.Operators.{Follows, operator-Facts, climb-stop}

-- parse_expr takes the tokens off and goes on with the node, with fuel left for what follows.
unfoldable pub Reads : ℕ → Calls → ℕ → List Token → Value → ParserState → Type 0
Reads n c p xs v s =
    (m : ℕ) × (n ≤ m + length xs)
    × (parse_expr n c p s ≡ loop m (climb n c p) v (ahead s (length xs)))

pub prefix-Reads :
    (n : ℕ) (c : Calls) (p : ℕ) (xs : List Token) (v : Value) (s : ParserState)
    → parse_prefix n c s ≡ done v (ahead s (length xs))
    → Reads n c p xs v s
unfolding Reads parse_expr
prefix-Reads n c p xs v s e = (n, omega arith, bind-done (parse_prefix n c) _ s e)

-- Where no token goes on, that is all.
pub Reads-done :
    (n : ℕ) (c : Calls) (p : ℕ) (xs : List Token) (v : Value) (s : ParserState) (t : Token)
    (ts : List Token)
    → length xs < n
    → View s (xs ++ t ∷ ts)
    → (get_token_type t == 40) ≡ false
    → (get_token_type t == 11) ≡ false
    → ltb p (get_token_precedence t) ≡ false
    → Reads n c p xs v s
    → parse_expr n c p s ≡ done v (ahead s (length xs))
unfolding Reads
Reads-done n c p xs v s t ts short h no_dot no_and low (zero, enough, e) = absurd (omega arith)
Reads-done n c p xs v s t ts short h no_dot no_and low (suc m, enough, e) =
    e ∙ climb-stop n c p v _ t ts (View-ahead s xs (t ∷ ts) h) no_dot no_and m low

pub ge→ltb : (p q : ℕ) → q ≤ p → ltb p q ≡ false
ge→ltb p q h = ground arith

and_false : (b : Bool) → (b && false) ≡ false
and_false true = refl
and_false false = refl

pub number-prefix :
    (n : ℕ) (c : Calls) (text : Bytes) (s : ParserState) (ts : List Token)
    → View s (token 25 text ∷ ts)
    → parse_prefix n c s ≡ done (node_of (number text)) (ahead s 1)
unfolding parse_prefix prefix_of node_of make_node_int append_list return create_token
    get_token_type get_token_value
number-prefix n c text s ts h = advance-View s (token 25 text) ts h _

name-named :
    (n : ℕ) (c : Calls) (text : Bytes) (s : ParserState) (t : Token) (ts : List Token)
    → View s (t ∷ ts)
    → (get_token_type t == 23) ≡ false
    → (get_token_type t == 10) ≡ false
    → parse_named n c text s ≡ done (node_of (name text)) s
unfolding parse_named node_of make_node_ident append_list return
name-named n c text s t ts h no_call no_with =
    peek-View s t ts h _ ∙ rw (no_call, no_with, and_false (is_uppercase_start text)) refl

pub name-prefix :
    (n : ℕ) (c : Calls) (text : Bytes) (s : ParserState) (t : Token) (ts : List Token)
    → View s (token 27 text ∷ t ∷ ts)
    → (get_token_type t == 23) ≡ false
    → (get_token_type t == 10) ≡ false
    → parse_prefix n c s ≡ done (node_of (name text)) (ahead s 1)
unfolding parse_prefix prefix_of parse_operand create_token get_token_type get_token_value
name-prefix n c text s t ts h no_call no_with =
    advance-View s (token 27 text) (t ∷ ts) h _
    ∙ name-named n c text (ahead s 1) t ts (View-ahead s (token 27 text ∷ []) (t ∷ ts) h) no_call
        no_with

-- An expression in parentheses.
pub paren-prefix :
    (n : ℕ) (c : Calls) (xs ts : List Token) (v : Value) (s : ParserState)
    → View s (token 23 [] ∷ (xs ++ token 24 [] ∷ ts))
    → c.expr 0 (ahead s 1) ≡ done v (ahead (ahead s 1) (length xs))
    → parse_prefix n c s ≡ done v (ahead (ahead (ahead s 1) (length xs)) 1)
unfolding parse_prefix prefix_of parse_operand create_token get_token_type get_token_value return
paren-prefix n c xs ts v s h e =
    let h₁ : View (ahead s 1) (xs ++ token 24 [] ∷ ts) = View-ahead s (token 23 [] ∷ []) _ h in
    let h₂ = View-ahead (ahead s 1) xs (token 24 [] ∷ ts) h₁ in
    advance-View s (token 23 []) _ h _
    ∙ bind-done (c.expr 0) _ (ahead s 1) e
    ∙ expect-View _ (token 24 []) ts h₂ _

-- What is read of an expression.
unfoldable pub Readable : Tree → Type 0
Readable e =
    (k n p q : ℕ)
    → p ≤ q
    → length (print q e) < n
    → length (print q e) ≤ suc k
    → (s : ParserState) (t : Token) (ts : List Token) → View s (print q e ++ t ∷ ts)
    → Follows q t
    → Reads n (calls k) p (print q e) (node_of e) s

-- An operator follows its left side, and goes on with it.
pub operator-Follows : (o : Operator) → Follows (precedence_of o - 1) (operator_token o)
operator-Follows o =
    let f = operator-Facts o in
    record {
      low = omega (arith, f.binds, f.low);
      no_dot = f.no_dot;
      no_call = f.no_call;
      no_with = f.no_with;
      no_and = f.no_and;
    }

pub operator-binds :
    (o : Operator) (p : ℕ)
    → p < precedence_of o
    → ltb p (get_token_precedence (operator_token o)) ≡ true
operator-binds o p h =
    lt→ltb p (get_token_precedence (operator_token o)) (omega (arith, (operator-Facts o).binds))

pub print-some : (q : ℕ) (e : Tree) → 1 ≤ length (print q e)
unfolding print
print-some q (number s) = omega arith
print-some q (name s) = omega arith
print-some q (apply o l r) =
    some_of (ltb q (precedence_of o)) (print (precedence_of o - 1) l) _ _ _ _
  where
    some_of :
        (b : Bool) (xs : List Token) (x y : Token) (ys zs : List Token)
        → 1 ≤ length (if b then xs ++ x ∷ ys else y ∷ zs)
    some_of true [] x y ys zs = omega arith
    some_of true (z ∷ xs) x y ys zs = omega arith
    some_of false xs x y ys zs = omega arith

-- A right side, or what stands in parentheses, by a call.
pub call-done :
    (e : Tree)
    → Readable e
    → (k q : ℕ) → length (print q e) ≤ k
    → (s : ParserState) (u : Token) (ts : List Token) → View s (print q e ++ u ∷ ts)
    → Follows q u
    → get_token_precedence u ≤ q
    → (calls (suc k)).expr q s ≡ done (node_of e) (ahead s (length (print q e)))
unfolding calls Readable
call-done e read k q short s u ts h f low =
    Reads-done (suc k) (calls k) q (print q e) (node_of e) s u ts (omega arith) h f.no_dot f.no_and
      (ge→ltb q (get_token_precedence u) low)
      (read k (suc k) q q (omega arith) (omega arith) (omega arith) s u ts h f)
