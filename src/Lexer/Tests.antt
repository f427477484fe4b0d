-- ===== src/Lexer/Tests.antt =====
-- The lexer at concrete inputs.
use ern_os.Base.{
  ℕ, ◌<◌, ◌≡◌, refl, List, [], ◌∷◌, ◌++◌, map, arith, ltb, ltb→lt, ◌==◌, not, true, Bool-cases, inl,
  inr, length,
}
use ern_os.Base.Table.{all_below, all_below_sound}
use ern_os.Bytes.{Bytes, codes}
use ern_os.Lexer.{Token, Outcome, ok, ◌>>=◌, ch}
use ern_os.Lexer.Ensures.{Ensures}
use ern_os.Lexer.Match.{match_next_word}
use ern_os.Lexer.Phrases.{Found, match_next_word-Answers}
use ern_os.Lexer.Scan.{tokenize_source}
use ern_os.Lexer.Total.{WellFormed, tokenize_source-WellFormed}
use ern_os.Lexer.Succeeds.{tokenize_source-succeeds}

abbrev kinds : Outcome (List Token) → Outcome (List ℕ)
kinds r = r >>= λ ts. ok (map (λ t. t.kind) ts)

-- An indented line, and a line back at the margin.
abbrev block : Bytes
block = codes "if x:" ++ 10 ∷ codes "  show 1.5" ++ 10 ∷ codes "y is not equal to [2]"

abbrev fstring : Bytes
fstring = codes "show f\"a{x + 1}b\""

block-kinds :
    kinds (tokenize_source 40 block)
    ≡ ok (4 ∷ 27 ∷ 22 ∷ 28 ∷ 29 ∷ 7 ∷ 70 ∷ 28 ∷ 30 ∷ 27 ∷ 19 ∷ 69 ∷ 25 ∷ 70 ∷ 31 ∷ [])
unfolding tokenize_source
block-kinds = refl

fstring-kinds :
    kinds (tokenize_source 40 fstring)
    ≡ ok (
        7 ∷ 27 ∷ 23 ∷ 26 ∷ 11 ∷ 27 ∷ 23 ∷ 27 ∷ 23 ∷ 27 ∷ 12 ∷ 25 ∷ 24 ∷ 11 ∷ 26 ∷ 24 ∷ 24 ∷ 31 ∷ [])
unfolding tokenize_source
fstring-kinds = refl

-- A quote can only stand inside the text.
unquoted :
    (s : Bytes) → all_below (length s) (λ p. not (ch s p == 34)) ≡ true → (p : ℕ) → ¬ (ch s p ≡ 34)
unfolding ch
unquoted s h p e = elim (Bool-cases (ltb p (length s))) [
  | inl l ↦
      let k = all_below_sound (length s) (λ i. not (ch s i == 34)) p h (ltb→lt _ _ l) in
      ground (arith, k, e)
  | inr g ↦ ground (arith, g, e)
]

tokenize_source-WellFormed_example : Ensures WellFormed (tokenize_source 40 fstring)
tokenize_source-WellFormed_example = tokenize_source-WellFormed 40 fstring (omega arith)

tokenize_source-succeeds_example :
    (ts : List Token) × (tokenize_source 40 block ≡ ok ts) × WellFormed ts
tokenize_source-succeeds_example =
    tokenize_source-succeeds 40 block (omega arith) (unquoted block (unfold all_below ch in refl))

abbrev text : Bytes
text = codes "is  less than"

match_next_word-Answers_example :
    (0 < match_next_word text 2 (codes "less")
      → Found text 2 (codes "less") (match_next_word text 2 (codes "less")))
    × ((r : ℕ) → Found text 2 (codes "less") r → match_next_word text 2 (codes "less") ≡ r)
match_next_word-Answers_example =
    match_next_word-Answers text 2 (codes "less") (omega arith) λ h. cc
