-- ===== src/Lexer/Words.antt =====
-- The words of the language: the keywords of `tokenize_source`, and the phrases of several words
-- that it reads as one token.
use ern_os.Base.{ℕ, List, [], ◌∷◌}
use ern_os.Bytes.{Bytes, codes}

-- A word and the kind that it gives its token, in the order of the tests.
abbrev pub Keyword : Type 0
Keyword = Bytes × ℕ

unfoldable pub keywords : List Keyword
keywords =
    (codes "define", 1)
    ∷ (codes "set", 2)
    ∷ (codes "to", 3)
    ∷ (codes "if", 4)
    ∷ (codes "else", 5)
    ∷ (codes "return", 6)
    ∷ (codes "display", 7)
    ∷ (codes "repeat", 8)
    ∷ (codes "while", 9)
    ∷ (codes "with", 10)
    ∷ (codes "and", 11)
    ∷ (codes "plus", 12)
    ∷ (codes "minus", 13)
    ∷ (codes "equals", 18)
    ∷ (codes "import", 32)
    ∷ (codes "spawn", 33)
    ∷ (codes "channel", 34)
    ∷ (codes "send", 35)
    ∷ (codes "receive", 36)
    ∷ (codes "from", 37)
    ∷ (codes "external", 38)
    ∷ (codes "borrow", 39)
    ∷ (codes "structure", 44)
    ∷ (codes "field", 45)
    ∷ (codes "create", 46)
    ∷ (codes "as", 42)
    ∷ (codes "returning", 43)
    ∷ (codes "for", 53)
    ∷ (codes "each", 54)
    ∷ (codes "in", 55)
    ∷ (codes "range", 60)
    ∷ (codes "choice", 47)
    ∷ (codes "variant", 48)
    ∷ (codes "check", 49)
    ∷ (codes "on", 56)
    ∷ (codes "trait", 57)
    ∷ (codes "implement", 58)
    ∷ (codes "not", 52)
    ∷ (codes "break", 61)
    ∷ (codes "continue", 62)
    ∷ (codes "of", 59)
    ∷ (codes "try", 51)
    ∷ (codes "given", 50)
    ∷ (codes "true", 63)
    ∷ (codes "false", 64)
    ∷ (codes "async", 65)
    ∷ (codes "await", 66)
    ∷ (codes "modulo", 41)
    ∷ (codes "describe", 1)
    ∷ (codes "let", 2)
    ∷ (codes "be", 3)
    ∷ (codes "show", 7)
    ∷ (codes "print", 7)
    ∷ (codes "loop", 8)
    ∷ (codes "every", 54)
    ∷ (codes "returns", 43)
    ∷ (codes "stop", 61)
    ∷ (codes "skip", 62)
    ∷ (codes "times", 14)
    ∷ []

-- The words that may follow a first word, and the token that they make with it.
pub record Phrase : Type 0 where
  pub words : List Bytes
  pub kind : ℕ
  pub text : Bytes

abbrev phrase2 : Bytes → Bytes → ℕ → Bytes → Phrase
phrase2 u v k t = record { words = u ∷ v ∷ []; kind = k; text = t }

abbrev phrase1 : Bytes → ℕ → Bytes → Phrase
phrase1 u k t = record { words = u ∷ []; kind = k; text = t }

-- What may follow `is`, in the order of the tests.
unfoldable pub is_phrases : List Phrase
is_phrases =
    record { words = codes "not" ∷ codes "equal" ∷ codes "to" ∷ []; kind = 19; text = codes "!=" }
    ∷ phrase2 (codes "less") (codes "than") 16 (codes "<")
    ∷ phrase2 (codes "greater") (codes "than") 17 (codes ">")
    ∷ phrase2 (codes "equal") (codes "to") 18 (codes "==")
    ∷ phrase2 (codes "more") (codes "than") 17 (codes ">")
    ∷ phrase2 (codes "fewer") (codes "than") 16 (codes "<")
    ∷ phrase2 (codes "smaller") (codes "than") 16 (codes "<")
    ∷ phrase2 (codes "bigger") (codes "than") 17 (codes ">")
    ∷ phrase2 (codes "larger") (codes "than") 17 (codes ">")
    ∷ phrase2 (codes "at") (codes "least") 68 (codes ">=")
    ∷ phrase2 (codes "at") (codes "most") 67 (codes "<=")
    ∷ phrase2 (codes "different") (codes "from") 19 (codes "!=")
    ∷ record { words = codes "the" ∷ codes "same" ∷ codes "as" ∷ []; kind = 18; text = codes "==" }
    ∷ []

unfoldable pub does_phrases : List Phrase
does_phrases = phrase2 (codes "not") (codes "equal") 19 (codes "!=") ∷ []

unfoldable pub multiplied_phrases : List Phrase
multiplied_phrases = phrase1 (codes "by") 14 (codes "*") ∷ []

unfoldable pub divided_phrases : List Phrase
divided_phrases = phrase1 (codes "by") 15 (codes "/") ∷ []

unfoldable pub and_phrases : List Phrase
and_phrases = phrase1 (codes "also") 20 (codes "&&") ∷ []

unfoldable pub give_phrases : List Phrase
give_phrases = phrase1 (codes "back") 6 (codes "return") ∷ []

unfoldable pub or_phrases : List Phrase
or_phrases = phrase1 (codes "else") 21 (codes "||") ∷ []
