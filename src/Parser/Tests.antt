-- ===== src/Parser/Tests.antt =====
-- The parser at concrete inputs.
use ern_os.Base.{◌≡◌, refl, ◌≤◌, ◌<◌, List, [], ◌∷◌, ◌++◌, arith, length}
use ern_os.Bytes.{codes}
use ern_os.Ast.{Value}
use ern_os.Lexer.{Token, create_token, get_token_type}
use ern_os.Parser.{ParserState, done}
use ern_os.Parser.Ends.{Keeps, remaining}
use ern_os.Parser.State.{create_parser_state, get_token_precedence}
use ern_os.Parser.Statement.{calls, parse_statement}
use ern_os.Parser.Program.{parse_program}
use ern_os.Parser.StatementEnds.{parse_statement-Keeps}
use ern_os.Parser.ProgramEnds.{Parsed, parse_program-Total}
use ern_os.Parser.Print.{
  Tree, number, name, apply, plus, times, kind_of, precedence_of, token, print, node_of,
}
use ern_os.Parser.View.{View, ahead}
use ern_os.Parser.Printed.{parse_expr-print}
use ern_os.Parser.Expr.{parse_expr}
use ern_os.Parser.Source.{Line, import, import_as, constant, print_line, source, program_of}
use ern_os.Parser.Sourced.{parse_program-source}
use ern_os.Parser.Stops.{Stopped, parse_program-Stopped}

-- `set x to 1 + 2 * 3`
abbrev tokens_set : List Token
tokens_set =
    create_token 2 (codes "set") 1 1
    ∷ create_token 27 (codes "x") 1 5
    ∷ create_token 3 (codes "to") 1 7
    ∷ create_token 25 (codes "1") 1 10
    ∷ create_token 12 (codes "+") 1 12
    ∷ create_token 25 (codes "2") 1 14
    ∷ create_token 14 (codes "*") 1 16
    ∷ create_token 25 (codes "3") 1 18
    ∷ create_token 31 (codes "EOF") 1 19
    ∷ []

-- `import` and no string
abbrev tokens_import : List Token
tokens_import =
    create_token 32 (codes "import") 1 1
    ∷ create_token 27 (codes "x") 1 8
    ∷ create_token 31 (codes "EOF") 1 9
    ∷ []

parse_program-Total_example :
    (prog : Value) × (t : ParserState) × (parse_program 9 (create_parser_state tokens_set)
      ≡ done prog t)
    × Parsed tokens_set t
parse_program-Total_example = parse_program-Total tokens_set 9 (omega arith)

parse_program-Stopped_example :
    (prog : Value) × (t : ParserState) × (parse_program 3 (create_parser_state tokens_import)
      ≡ done prog t)
    × Stopped t
parse_program-Stopped_example = parse_program-Stopped tokens_import 3 (omega arith)

parse_statement-Keeps_example :
    (stmt : Value) × (t : ParserState) × (parse_statement 10
        (calls 9)
        (create_parser_state tokens_set)
      ≡ done stmt t)
    × Keeps (create_parser_state tokens_set) t
    × (1 ≤ remaining (create_parser_state tokens_set)
        → remaining t < remaining (create_parser_state tokens_set))
unfolding remaining create_parser_state
parse_statement-Keeps_example =
    parse_statement-Keeps 9 (create_parser_state tokens_set) (omega arith)

-- `(1 + 2) * x`
abbrev sum_times : Tree
sum_times = apply times (apply plus (number (codes "1")) (number (codes "2"))) (name (codes "x"))

abbrev newline : Token
newline = create_token 28 (codes "") 1 1

parse_expr-print_example :
    parse_expr 8 (calls 7) 0 (create_parser_state (print 0 sum_times ++ newline ∷ []))
    ≡ done (node_of sum_times) (
        ahead
          (create_parser_state (print 0 sum_times ++ newline ∷ []))
          (length (print 0 sum_times)))
unfolding print kind_of precedence_of get_token_precedence get_token_type create_token
    create_parser_state View
parse_expr-print_example =
    parse_expr-print sum_times 7 (create_parser_state (print 0 sum_times ++ newline ∷ [])) newline
      [] (omega arith) refl
      (record { low = omega arith; no_dot = refl; no_call = refl; no_with = refl; no_and = refl })
      refl

-- `import "a"`, `set x to 1 + 2 * 3`, `import "b" as c`
abbrev lines : List Line
lines = import (codes "a") ∷ constant (codes "x") sum_times ∷ import_as (codes "b") (codes "c") ∷ []

parse_program-source_example :
    (t : ParserState) × (parse_program 20 (create_parser_state (source lines))
      ≡ done (program_of lines) t)
    × (t.parser_error ≡ 0)
    × View t (token 31 [] ∷ [])
unfolding source print_line print precedence_of
parse_program-source_example = parse_program-source lines 20 (omega arith)
