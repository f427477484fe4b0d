-- ===== src/Parser/Print.antt =====
-- Expressions printed as tokens, with the parentheses that the precedences ask for, and the nodes
-- that stand for them. The numbers of tokens, precedences, kinds of nodes and operators are written
-- out here, and are not those that the parser computes.
use ern_os.Base.{ℕ, ◌-◌, List, [], ◌∷◌, ◌++◌, ltb, if◌then◌else◌}
use ern_os.Base.Int.{pos}
use ern_os.Bytes.{Bytes}
use ern_os.Bytes.Digits.{parse_int}
use ern_os.Lexer.{Token, create_token}
use ern_os.Ast.{Value, num, str, nil, cons}

-- The operators of an expression: `+ - * / %`, `< > == != <= >=`, and `and` and `or`.
pub data Operator : Type 0 where
  plus : Operator
  minus : Operator
  times : Operator
  over : Operator
  modulo : Operator
  less : Operator
  greater : Operator
  equals : Operator
  differs : Operator
  at_most : Operator
  at_least : Operator
  both : Operator
  either : Operator

pub data Tree : Type 0 where
  number : Bytes → Tree
  name : Bytes → Tree
  apply : Operator → Tree → Tree → Tree

abbrev pub token : ℕ → Bytes → Token
token kind value = create_token kind value 1 1

-- The type of an operator's token.
unfoldable pub kind_of : Operator → ℕ
kind_of plus = 12
kind_of minus = 13
kind_of times = 14
kind_of over = 15
kind_of modulo = 41
kind_of less = 16
kind_of greater = 17
kind_of equals = 18
kind_of differs = 19
kind_of at_most = 67
kind_of at_least = 68
kind_of both = 20
kind_of either = 21

-- How strongly an operator binds.
unfoldable pub precedence_of : Operator → ℕ
precedence_of plus = 4
precedence_of minus = 4
precedence_of times = 5
precedence_of over = 5
precedence_of modulo = 5
precedence_of less = 3
precedence_of greater = 3
precedence_of equals = 3
precedence_of differs = 3
precedence_of at_most = 3
precedence_of at_least = 3
precedence_of both = 2
precedence_of either = 1

abbrev pub operator_token : Operator → Token
operator_token o = token (kind_of o) []

-- The tokens of an expression whose operator is to bind more strongly than `p`.
unfoldable pub print : ℕ → Tree → List Token
print p (number s) = token 25 s ∷ []
print p (name s) = token 27 s ∷ []
print p (apply o l r) =
    let q = precedence_of o in
    let bare = print (q - 1) l ++ operator_token o ∷ print q r in
    if ltb p q then bare else token 23 [] ∷ bare ++ token 24 [] ∷ []

-- The cells of a node with two sides: its kind, the left side, the operator, the right side.
abbrev sides : ℕ → ℕ → Value → Value → Value
sides kind op l r = cons (num (pos kind)) (cons l (cons (num (pos op)) (cons r nil)))

unfoldable pub operator_node : Operator → Value → Value → Value
operator_node plus = sides 4 1
operator_node minus = sides 4 2
operator_node times = sides 4 3
operator_node over = sides 4 4
operator_node modulo = sides 4 5
operator_node less = sides 5 1
operator_node greater = sides 5 2
operator_node equals = sides 5 3
operator_node differs = sides 5 4
operator_node at_most = sides 5 5
operator_node at_least = sides 5 6
operator_node both = sides 14 1
operator_node either = sides 14 2

-- The node of an expression.
unfoldable pub node_of : Tree → Value
node_of (number s) = cons (num (pos 1)) (cons (num (parse_int s)) nil)
node_of (name s) = cons (num (pos 3)) (cons (str s) nil)
node_of (apply o l r) = operator_node o (node_of l) (node_of r)
