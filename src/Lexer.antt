-- ===== src/Lexer.antt =====
-- The lexer of the compiler, tokenize_source and what it calls. The source is a C string; a
-- position is an offset in it, and a read past the end gives 0, as get_character does. What the
-- lexer prints on an error is not modelled.
pub mod Words
pub mod Match
pub mod Literal
pub mod Scan
pub mod Ensures
pub mod Progress
pub mod Balance
pub mod Kinds
pub mod LiteralLaws
pub mod Indents
pub mod Phrases
pub mod Total
pub mod Succeeds
mod Tests
use ern_os.Base.{ℕ, suc, ◌+◌, Bool, ◌&&◌, ◌||◌, List, [], ◌∷◌, ◌++◌, some, ltb, ◌==◌, map}
use ern_os.Base.Int.{pos}
use ern_os.Bytes.{Bytes, get_character, string_from_list}

-- A token is the list of its four cells, which only `create_token` makes and the getters read.
pub record Token : Type 0 where
  pub kind : ℕ
  pub value : Bytes
  pub line : ℕ
  pub col : ℕ

unfoldable pub create_token : ℕ → Bytes → ℕ → ℕ → Token
create_token kind value line col = record { kind = kind; value = value; line = line; col = col }

unfoldable pub get_token_type : Token → ℕ
get_token_type t = t.kind

unfoldable pub get_token_value : Token → Bytes
get_token_value t = t.value

-- The result of a part of the lexer: `err` where it prints an error and gives up, and `stuck`
-- where a loop of the model ran out of fuel.
pub data Outcome {ℓ} (A : Type ℓ) : Type ℓ where
  ok : A → Outcome A
  err : Outcome A
  stuck : Outcome A

module _ {ℓ κ} {A : Type ℓ} {B : Type κ} where
  infixl 5 ◌>>=◌
  abbrev pub ◌>>=◌ : Outcome A → (A → Outcome B) → Outcome B
  ok a >>= f = f a
  err >>= f = err
  stuck >>= f = stuck

-- `get_character(source, p)`
unfoldable pub ch : Bytes → ℕ → ℕ
unfolding get_character
ch s p = get_character (some s) (pos p)

-- `string_from_list` of a list of characters.
unfoldable pub from_chars : List ℕ → Bytes
unfolding string_from_list
from_chars cs = string_from_list (some (map pos cs))

unfoldable pub is_letter : ℕ → Bool
is_letter c = (ltb 96 c && ltb c 123) || (ltb 64 c && ltb c 91)

unfoldable pub is_digit : ℕ → Bool
is_digit c = ltb 47 c && ltb c 58

unfoldable pub is_id_start : ℕ → Bool
unfolding is_letter
is_id_start c = is_letter c || c == 95

unfoldable pub is_id_part : ℕ → Bool
unfolding is_letter is_digit
is_id_part c = (is_letter c || is_digit c) || c == 95
