-- ===== src/Escape.antt =====
-- escape_string of toolchain/epc_bootstrap.c, by which the code generator writes a text as a
-- literal.
pub mod Reads
mod Tests
use ern_os.Base.{ℕ, List, [], ◌∷◌, ◌++◌, ◌==◌, if◌then◌else◌}
use ern_os.Bytes.{Bytes}
use ern_os.Lexer.{from_chars}

-- What a round of the loop appends for a character.
unfoldable pub escape_char : ℕ → List ℕ
escape_char ch =
    if ch == 92
    then 92 ∷ 92 ∷ []
    else if ch == 34
    then 92 ∷ 34 ∷ []
    else if ch == 10
    then 92 ∷ 110 ∷ []
    else if ch == 9
    then 92 ∷ 116 ∷ []
    else if ch == 13
    then 92 ∷ 114 ∷ []
    else ch ∷ []

unfoldable pub escape_chars : Bytes → List ℕ
unfolding escape_char
escape_chars [] = []
escape_chars (c ∷ s) = escape_char c ++ escape_chars s

unfoldable pub escape_string : Bytes → Bytes
unfolding escape_chars from_chars
escape_string s = from_chars (escape_chars s)
