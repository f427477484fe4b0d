-- ===== src/Parser/Operators.antt =====
-- How the loop of parse_expr goes on behind an operator, and where it stops.
use ern_os.Base.{ℕ, suc, ◌≤◌, ◌≡◌, refl, ◌∙◌, true, false, List, ◌∷◌, arith, ltb, ◌==◌}
use ern_os.Lexer.{Token, create_token, get_token_type}
use ern_os.Ast.{Value, append_list, make_node_binary, make_node_comp, make_node_logical}
use ern_os.Parser.{ParserState, done, return, ◌>>=◌, loop}
use ern_os.Parser.State.{get_token_precedence}
use ern_os.Parser.Calls.{Calls}
use ern_os.Parser.Expr.{math_op, comp_op, parse_operator, climb}
use ern_os.Parser.View.{View, ahead, peek-View, advance-View, bind-done, next_precedence-done}
use ern_os.Parser.Print.{
  Operator, plus, minus, times, over, modulo, less, greater, equals, differs, at_most, at_least,
  both, either, kind_of, precedence_of, operator_token, operator_node,
}

-- What an expression printed for `p` may be followed by: no token that goes on with it.
pub record Follows (p : ℕ) (t : Token) : Type 0 where
  pub low : get_token_precedence t ≤ suc p
  pub no_dot : (get_token_type t == 40) ≡ false
  pub no_call : (get_token_type t == 23) ≡ false
  pub no_with : (get_token_type t == 10) ≡ false
  pub no_and : (get_token_type t == 11) ≡ false

-- What the parser makes of an operator's token.
pub record Facts (o : Operator) : Type 0 where
  pub binds : get_token_precedence (operator_token o) ≡ precedence_of o
  pub high : precedence_of o ≤ 5
  pub low : 1 ≤ precedence_of o
  pub no_dot : (get_token_type (operator_token o) == 40) ≡ false
  pub no_call : (get_token_type (operator_token o) == 23) ≡ false
  pub no_with : (get_token_type (operator_token o) == 10) ≡ false
  pub no_and : (get_token_type (operator_token o) == 11) ≡ false

facts :
    {o : Operator}
    → get_token_precedence (operator_token o) ≡ precedence_of o
    → precedence_of o ≤ 5
    → 1 ≤ precedence_of o
    → (get_token_type (operator_token o) == 40) ≡ false
    → (get_token_type (operator_token o) == 23) ≡ false
    → (get_token_type (operator_token o) == 10) ≡ false
    → (get_token_type (operator_token o) == 11) ≡ false
    → Facts o
facts a b c d e f g = record {
  binds = a;
  high = b;
  low = c;
  no_dot = d;
  no_call = e;
  no_with = f;
  no_and = g;
}

pub operator-Facts : (o : Operator) → Facts o
unfolding kind_of precedence_of get_token_precedence get_token_type create_token
operator-Facts plus = facts refl (omega arith) (omega arith) refl refl refl refl
operator-Facts minus = facts refl (omega arith) (omega arith) refl refl refl refl
operator-Facts times = facts refl (omega arith) (omega arith) refl refl refl refl
operator-Facts over = facts refl (omega arith) (omega arith) refl refl refl refl
operator-Facts modulo = facts refl (omega arith) (omega arith) refl refl refl refl
operator-Facts less = facts refl (omega arith) (omega arith) refl refl refl refl
operator-Facts greater = facts refl (omega arith) (omega arith) refl refl refl refl
operator-Facts equals = facts refl (omega arith) (omega arith) refl refl refl refl
operator-Facts differs = facts refl (omega arith) (omega arith) refl refl refl refl
operator-Facts at_most = facts refl (omega arith) (omega arith) refl refl refl refl
operator-Facts at_least = facts refl (omega arith) (omega arith) refl refl refl refl
operator-Facts both = facts refl (omega arith) (omega arith) refl refl refl refl
operator-Facts either = facts refl (omega arith) (omega arith) refl refl refl refl

-- An operator reads its right side with its own precedence.
pub operator-done :
    (n : ℕ) (c : Calls) (o : Operator) (v r : Value) (s u : ParserState)
    → c.expr (precedence_of o) s ≡ done r u
    → parse_operator n c v (operator_token o) s ≡ done (operator_node o v r) u
unfolding parse_operator operator_node kind_of precedence_of get_token_precedence get_token_type
    create_token return math_op comp_op make_node_binary make_node_comp make_node_logical
    append_list
operator-done n c plus v r s u e = bind-done (c.expr 4) _ s e
operator-done n c minus v r s u e = bind-done (c.expr 4) _ s e
operator-done n c times v r s u e = bind-done (c.expr 5) _ s e
operator-done n c over v r s u e = bind-done (c.expr 5) _ s e
operator-done n c modulo v r s u e = bind-done (c.expr 5) _ s e
operator-done n c less v r s u e = bind-done (c.expr 3) _ s e
operator-done n c greater v r s u e = bind-done (c.expr 3) _ s e
operator-done n c equals v r s u e = bind-done (c.expr 3) _ s e
operator-done n c differs v r s u e = bind-done (c.expr 3) _ s e
operator-done n c at_most v r s u e = bind-done (c.expr 3) _ s e
operator-done n c at_least v r s u e = bind-done (c.expr 3) _ s e
operator-done n c both v r s u e = bind-done (c.expr 2) _ s e
operator-done n c either v r s u e = bind-done (c.expr 1) _ s e

module _ (n : ℕ) (c : Calls) (p : ℕ) (v : Value) (s : ParserState) (t : Token) (ts : List Token)
    (h : View s (t ∷ ts)) (no_dot : (get_token_type t == 40) ≡ false)
    (no_and : (get_token_type t == 11) ≡ false) where
  -- A token that does not bind more strongly ends the loop.
  pub climb-stop :
      (m : ℕ) → ltb p (get_token_precedence t) ≡ false → loop (suc m) (climb n c p) v s ≡ done v s
  unfolding loop climb return
  climb-stop m low =
      peek-View s t ts h _ ∙ next_precedence-done t _ s no_and ∙ rw (no_dot, low) refl

  -- One that does is read with what stands behind it.
  pub climb-on :
      (m : ℕ)
      → ltb p (get_token_precedence t) ≡ true
      → loop (suc m) (climb n c p) v s
        ≡ (parse_operator n c v t >>= loop m (climb n c p)) (ahead s 1)
  unfolding loop climb
  climb-on m high =
      peek-View s t ts h _
      ∙ next_precedence-done t _ s no_and
      ∙ rw (no_dot, high) (advance-View s t ts h _)
