-- ===== src/Parser/Source.antt =====
-- Programs of imports and constants, printed as tokens, and the nodes that stand for them. The types
-- of the tokens and the cells of the nodes are written out here.
use ern_os.Base.{List, [], ◌∷◌, ◌++◌}
use ern_os.Base.Int.{pos}
use ern_os.Bytes.{Bytes}
use ern_os.Lexer.{Token}
use ern_os.Ast.{Value, num, str, nil, cons}
use ern_os.Parser.Print.{Tree, token, print, node_of}

-- A line at the top level: an import, with `as` and a name or without, or a constant.
pub data Line : Type 0 where
  import : Bytes → Line
  import_as : Bytes → Bytes → Line
  constant : Bytes → Tree → Line

unfoldable pub print_line : Line → List Token
print_line (import path) = token 32 [] ∷ token 26 path ∷ token 28 [] ∷ []
print_line (import_as path alias) =
    token 32 [] ∷ token 26 path ∷ token 42 [] ∷ token 27 alias ∷ token 28 [] ∷ []
print_line (constant x e) = token 2 [] ∷ token 27 x ∷ token 3 [] ∷ print 0 e ++ token 28 [] ∷ []

unfoldable pub source : List Line → List Token
source [] = token 31 [] ∷ []
source (l ∷ ls) = print_line l ++ source ls

-- The pairs of path and name, the name empty where there is none.
unfoldable pub imports_of : List Line → Value
imports_of [] = nil
imports_of (import path ∷ ls) = cons (cons (str path) (cons (str []) nil)) (imports_of ls)
imports_of (import_as path alias ∷ ls) =
    cons (cons (str path) (cons (str alias) nil)) (imports_of ls)
imports_of (constant x e ∷ ls) = imports_of ls

unfoldable pub constants_of : List Line → Value
constants_of [] = nil
constants_of (import path ∷ ls) = constants_of ls
constants_of (import_as path alias ∷ ls) = constants_of ls
constants_of (constant x e ∷ ls) =
    cons (cons (num (pos 7)) (cons (str x) (cons (node_of e) nil))) (constants_of ls)

-- The ten cells of a program: its kind, the imports, seven lists that are empty, the constants.
unfoldable pub program_of : List Line → Value
program_of ls = cons (num (pos 13)) (
    cons (imports_of ls) (
      cons nil (
        cons nil
          (cons nil (cons nil (cons nil (cons nil (cons nil (cons (constants_of ls) nil)))))))))
