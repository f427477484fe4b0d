-- ===== src/Escape/Tests.antt =====
-- A literal of the code generator, and what the lexer makes of it.
use ern_os.Base.{◌+◌, ◌≡◌, refl, false, [], ◌∷◌, ◌++◌, arith, length}
use ern_os.Bytes.{Bytes, codes}
use ern_os.Lexer.{create_token, ok, err}
use ern_os.Lexer.Literal.{Body, lex_string_body}
use ern_os.Escape.{escape_string}
use ern_os.Escape.Reads.{lex_string_body-escape_string}

-- A line break and a quote.
abbrev lines : Bytes
lines = b'a' ∷ 10 ∷ 34 ∷ []

escape_string-lines : escape_string lines ≡ codes "a\\n\\\""
unfolding escape_string
escape_string-lines = refl

lex_string_body-escape_string_example :
    let src = codes "show " ++ 34 ∷ (escape_string lines ++ 34 ∷ codes "x") in
    (b : Body) × (lex_string_body (λ e. err) src 1 false [] (length (codes "show ")) 6 ≡ ok b)
    × (b.toks ≡ [] ++ create_token 26 lines 1 6 ∷ [])
    × (b.at ≡ length (codes "show ") + length (escape_string lines) + 2)
lex_string_body-escape_string_example =
    lex_string_body-escape_string (λ e. err) lines (codes "show ") (codes "x") [] 1 6
      (omega arith, omega arith, (omega arith, omega arith, (omega arith, omega arith, tt)))
