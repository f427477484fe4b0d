-- ===== src/Lexer/Match.antt =====
-- match_next_word and the phrases of several words.
use ern_os.Base.{
  ℕ, zero, suc, ◌+◌, Bool, true, ◌&&◌, ◌||◌, not, List, [], ◌∷◌, ltb, ◌==◌, if◌then◌else◌, length,
}
use ern_os.Bytes.{Bytes}
use ern_os.Lexer.{ch, is_id_part}

-- `while (p < s_len && loop == 1)`: blanks and tabs are passed over.
unfoldable pub skip_blanks : ℕ → Bytes → ℕ → ℕ
unfolding ch
skip_blanks zero s p = p
skip_blanks (suc f) s p =
    let rest = skip_blanks f s (p + 1) in
    if ltb p (length s) && (ch s p == 32 || ch s p == 9) then rest else p

-- `while (idx < nw_len && matches == 1)`
unfoldable pub same_at : Bytes → ℕ → Bytes → Bool
unfolding ch
same_at s p [] = true
same_at s p (c ∷ w) = ch s p == c && same_at s (suc p) w

-- The position behind the word, or 0.
unfoldable pub match_next_word : Bytes → ℕ → Bytes → ℕ
unfolding skip_blanks same_at is_id_part
match_next_word s start word =
    let p = skip_blanks (length s) s start in
    if ltb (length s) (p + length word)
    then 0
    else if same_at s p word && not (is_id_part (ch s (p + length word)))
    then p + length word
    else 0

-- The nested calls of match_next_word for the words of a phrase.
unfoldable pub match_words : Bytes → ℕ → List Bytes → ℕ
unfolding match_next_word
match_words s p [] = p
match_words s p (w ∷ ws) =
    let q = match_next_word s p w in let rest = match_words s q ws in if q == 0 then 0 else rest

unfoldable pub lex_is_phrase2 : Bytes → ℕ → Bytes → Bytes → ℕ
unfolding match_next_word
lex_is_phrase2 s p w1 w2 =
    let p1 = match_next_word s p w1 in if p1 == 0 then 0 else match_next_word s p1 w2
