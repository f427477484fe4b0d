-- ===== src/Parser.antt =====
-- The parser of the compiler, parse_program and the functions it calls, in
-- toolchain/epc_bootstrap.c. Its state is the list [tokens, position, error, in_condition,
-- call_depth], which every function changes in place: a record that is passed on, by `>>=`. The
-- functions call each other, and each loops; `Stuck` is where a loop or a call of the model ran
-- out of fuel.
pub mod State
pub mod Lists
pub mod Calls
pub mod Expr
pub mod Statement
pub mod Program
pub mod Ends
pub mod Steps
pub mod Serves
pub mod ExprEnds
pub mod StatementEnds
pub mod ProgramEnds
pub mod Stops
pub mod View
pub mod Print
pub mod Operators
pub mod Reads
pub mod Printed
pub mod Source
pub mod Lines
pub mod Sourced
mod Tests
use ern_os.Base.{ℕ, zero, suc, List}
use ern_os.Base.Int.{ℤ}
use ern_os.Lexer.{Token}

pub record ParserState : Type 0 where
  pub tokens : List Token
  pub pos : ℕ
  pub parser_error : ℕ
  pub in_condition : ℕ
  pub call_depth : ℤ

pub data Result {ℓ} (A : Type ℓ) : Type ℓ where
  done : A → ParserState → Result A
  stuck : Result A

abbrev pub Parse {ℓ} : Type ℓ → Type ℓ
Parse A = ParserState → Result A

module _ {ℓ} {A : Type ℓ} where
  unfoldable pub return : A → Parse A
  return a s = done a s

  unfoldable pub out_of_fuel : Parse A
  out_of_fuel s = stuck

module _ {ℓ κ} {A : Type ℓ} {B : Type κ} where
  unfoldable pub continue_with : (A → Parse B) → Result A → Result B
  continue_with f (done a s) = f a s
  continue_with f stuck = stuck

  infixl 5 ◌>>=◌
  unfoldable pub ◌>>=◌ : Parse A → (A → Parse B) → Parse B
  unfolding continue_with
  (m >>= f) s = continue_with f (m s)

  infixl 5 ◌>>◌
  abbrev pub ◌>>◌ : Parse A → Parse B → Parse B
  m >> k = m >>= λ _. k

  -- A loop whose body is given what runs the next round.
  unfoldable pub loop : ℕ → ((A → Parse B) → A → Parse B) → A → Parse B
  loop zero body a = out_of_fuel
  loop (suc n) body a = body (loop n body) a
