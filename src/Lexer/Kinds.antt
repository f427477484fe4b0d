-- ===== src/Lexer/Kinds.antt =====
-- The kinds that words and symbols give their tokens are neutral, and symbols have a length.
use ern_os.Base.{
  ℕ, ◌≤◌, ◌≡◌, refl, inl, inr, Bool, true, false, ◌&&◌, not, List, [], ◌∷◌, arith, ltb, ◌==◌,
  Bool-cases, if◌then◌else◌,
}
use ern_os.Bytes.{Bytes, codes}
use ern_os.Lexer.Words.{
  Keyword, keywords, Phrase, is_phrases, does_phrases, multiplied_phrases, divided_phrases,
  and_phrases, give_phrases, or_phrases,
}
use ern_os.Lexer.Match.{match_words}
use ern_os.Lexer.Progress.{try_phrases-le}
use ern_os.Lexer.Balance.{neutral}
use ern_os.Bytes.Compare.{same_text}
use ern_os.Lexer.Scan.{
  Word, try_phrases, on_word, on_is, keyword_kind, classify, Symbol, single_symbol, symbol_at,
}

abbrev Plain : List Phrase → Type 0
Plain [] = Unit {0}
Plain (p ∷ ps) = (neutral p.kind ≡ true) × Plain ps

-- A word further on than another, of a neutral kind.
pub record Onward (n : ℕ) (w : Word) : Type 0 where
  pub plain : neutral w.kind ≡ true
  pub front : n ≤ w.at

try_phrases-Onward :
    (n : ℕ) (s : Bytes) (ps : List Phrase) (w : Word)
    → Plain ps
    → Onward n w
    → Onward n (try_phrases s ps w)
unfolding try_phrases
try_phrases-Onward n s [] w h o = o
try_phrases-Onward n s (p ∷ ps) w h o =
    let further = try_phrases-le s (p ∷ ps) w in
    elim (Bool-cases (ltb 0 (match_words s w.at p.words))) [
      | inl e ↦ rw e (record {
        plain = h.0;
        front = let z = rw (e, try_phrases) at further in omega (arith, o.front, z);
      })
      | inr e ↦ rw e (try_phrases-Onward n s ps w h.1 o)
    ]

on_word-Onward :
    (n : ℕ) (s first : Bytes) (ps : List Phrase) (w : Word)
    → Plain ps
    → Onward n w
    → Onward n (on_word s first ps w)
unfolding on_word
on_word-Onward n s first ps w h o = elim (Bool-cases (not w.done && same_text first w.text)) [
  | inl e ↦ rw e (try_phrases-Onward n s ps w h o)
  | inr e ↦ rw e o
]

on_is-Onward : (n : ℕ) (s : Bytes) (w : Word) → Onward n w → Onward n (on_is s w)
unfolding on_is
on_is-Onward n s w o =
    let v = on_word s (codes "is") is_phrases w in
    let k = on_word-Onward n s (codes "is") is_phrases w (unfold is_phrases in ground arith) o in
    elim (Bool-cases (not w.done && (same_text (codes "is") w.text && not v.done))) [
      | inl e ↦ rw e (record { plain = refl; front = k.front })
      | inr e ↦ rw e k
    ]

abbrev PlainWords : List Keyword → Type 0
PlainWords [] = Unit {0}
PlainWords ((w, k) ∷ ws) = (neutral k ≡ true) × PlainWords ws

keyword_kind-neutral :
    (ws : List Keyword) (text : Bytes) (k : ℕ)
    → PlainWords ws
    → neutral k ≡ true
    → neutral (keyword_kind ws text k) ≡ true
unfolding keyword_kind
keyword_kind-neutral [] text k h n = n
keyword_kind-neutral ((w, j) ∷ ws) text k h n = elim (Bool-cases (same_text w text)) [
  | inl e ↦ rw e (keyword_kind-neutral ws text j h.1 h.0)
  | inr e ↦ rw e (keyword_kind-neutral ws text k h.1 n)
]

plain_keywords : PlainWords keywords
unfolding keywords
plain_keywords = ground arith

pick : {n : ℕ} (b : Bool) {v w : Word} → Onward n v → Onward n w → Onward n (if b then v else w)
pick true o o' = o
pick false o o' = o'

-- Every identifier gets a neutral kind, and the lexer goes on from its end or behind it.
pub classify-Onward : (n : ℕ) (s : Bytes) (w : Word) → Onward n w → Onward n (classify s w)
unfolding classify
classify-Onward n s w o =
    let p₁ : Plain multiplied_phrases = unfold multiplied_phrases in (refl, tt) in
    let p₂ : Plain divided_phrases = unfold divided_phrases in (refl, tt) in
    let p₄ : Plain does_phrases = unfold does_phrases in (refl, tt) in
    let p₅ : Plain and_phrases = unfold and_phrases in (refl, tt) in
    let p₆ : Plain give_phrases = unfold give_phrases in (refl, tt) in
    let p₇ : Plain or_phrases = unfold or_phrases in (refl, tt) in
    let o₁ = on_word-Onward n s (codes "multiplied") multiplied_phrases w p₁ o in
    let o₂ = on_word-Onward n s (codes "divided") divided_phrases _ p₂ o₁ in
    let o₃ = on_is-Onward n s _ o₂ in
    let o₄ = on_word-Onward n s (codes "does") does_phrases _ p₄ o₃ in
    let o₅ = on_word-Onward n s (codes "and") and_phrases _ p₅ o₄ in
    let o₆ = on_word-Onward n s (codes "give") give_phrases _ p₆ o₅ in
    named (on_word-Onward n s (codes "or") or_phrases _ p₇ o₆)
  where
    named :
        {v : Word}
        → Onward n v
        → Onward n (if v.done then v else record v { kind = keyword_kind keywords v.text v.kind })
    named {v} o = pick v.done o (record {
      plain = keyword_kind-neutral keywords v.text v.kind plain_keywords o.plain;
      front = o.front;
    })

-- A symbol of a neutral kind that has a length.
pub record Sound (y : Symbol) : Type 0 where
  pub plain : neutral y.kind ≡ true
  pub long : 1 ≤ y.len

either : (c : Bool) {x y : Symbol} → Sound x → Sound y → Sound (if c then x else y)
either true h k = h
either false h k = k

sound : {y : Symbol} → neutral y.kind ≡ true → 1 ≤ y.len → Sound y
sound h k = record { plain = h; long = k }

single_symbol-Sound : (c : ℕ) → Sound (single_symbol c)
unfolding single_symbol
single_symbol-Sound c = either (c == 58) (sound refl (omega arith)) (
    either (c == 40) (sound refl (omega arith)) (
      either (c == 41) (sound refl (omega arith)) (
        either (c == 43) (sound refl (omega arith)) (
          either (c == 45) (sound refl (omega arith)) (
            either (c == 42) (sound refl (omega arith)) (
              either (c == 47) (sound refl (omega arith)) (
                either (c == 60) (sound refl (omega arith)) (
                  either (c == 62) (sound refl (omega arith)) (
                    either (c == 46) (sound refl (omega arith)) (
                      either (c == 37) (sound refl (omega arith)) (
                        either (c == 91) (sound refl (omega arith)) (
                          either (c == 93) (sound refl (omega arith)) (
                            either (c == 44) (sound refl (omega arith))
                              (sound refl (omega arith)))))))))))))))

pub symbol_at-Sound : (c d : ℕ) → Sound (symbol_at c d)
unfolding symbol_at
symbol_at-Sound c d = either (c == 61 && d == 61) (sound refl (omega arith)) (
    either (c == 33 && d == 61) (sound refl (omega arith)) (
      either (c == 38 && d == 38) (sound refl (omega arith)) (
        either (c == 124 && d == 124) (sound refl (omega arith)) (
          either (c == 60 && d == 61) (sound refl (omega arith))
            (either (c == 62 && d == 61) (sound refl (omega arith)) (single_symbol-Sound c))))))
