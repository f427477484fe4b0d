-- ===== src/Parser/View.antt =====
-- What the parser's state shows: the tokens from its position on, and how its functions read them.
use ern_os.Base.{
  ℕ, zero, suc, ◌+◌, ◌<◌, ◌≡◌, refl, sym, ap, ◌∙◌, true, false, List, [], ◌∷◌, ◌++◌, arith, ltb,
  lt→ltb, ◌==◌, ==_refl, length, get_or, drop,
}
use ern_os.Lexer.{Token, get_token_type}
use ern_os.Parser.{ParserState, done, Parse, return, ◌>>=◌, continue_with}
use ern_os.Parser.State.{
  peek_token, advance_token, token_after, get_eof_token, get_token_precedence, get_in_condition,
  get_call_depth, expect_token_type,
}
use ern_os.Parser.Expr.{next_precedence}

unfoldable pub View : ParserState → List Token → Type 0
View s ts = drop s.pos s.tokens ≡ ts

-- The state some tokens further on.
unfoldable pub ahead : ParserState → ℕ → ParserState
ahead s k = record s { pos = s.pos + k }

pub ahead-ahead : (s : ParserState) (a b : ℕ) → ahead (ahead s a) b ≡ ahead s (a + b)
unfolding ahead
ahead-ahead s a b =
    ap (λ p. record s { pos = p }) (let e : s.pos + a + b ≡ s.pos + (a + b) = omega arith in e)

drop_nil : {A : Type 0} (k : ℕ) → drop {A = A} k [] ≡ []
drop_nil zero = refl
drop_nil (suc k) = refl

drop-drop : {A : Type 0} (i k : ℕ) (xs : List A) → drop (i + k) xs ≡ drop k (drop i xs)
drop-drop zero k xs = let e : 0 + k ≡ k = omega arith in ap (λ i. drop i xs) e
drop-drop {A = A} (suc i) k [] =
    let e : suc i + k ≡ suc (i + k) = omega arith in
    ap (λ i. drop {A = A} i []) e ∙ sym (drop_nil k)
drop-drop (suc i) k (x ∷ xs) =
    let e : suc i + k ≡ suc (i + k) = omega arith in ap (λ i. drop i (x ∷ xs)) e ∙ drop-drop i k xs

drop-all : {A : Type 0} (ys zs : List A) → drop (length ys) (ys ++ zs) ≡ zs
drop-all [] zs = refl
drop-all (y ∷ ys) zs = drop-all ys zs

pub View-ahead :
    (s : ParserState) (xs ys : List Token) → View s (xs ++ ys) → View (ahead s (length xs)) ys
unfolding ahead View
View-ahead s xs ys h =
    drop-drop s.pos (length xs) s.tokens ∙ ap (drop (length xs)) h ∙ drop-all xs ys

-- An element that is dropped to is there.
drop-cons :
    {A : Type 0} (i : ℕ) (xs : List A) (y : A) (ys : List A) (d : A)
    → drop i xs ≡ y ∷ ys
    → (i < length xs) × (get_or xs i d ≡ y)
drop-cons zero (x ∷ xs) y ys d h = (omega arith, ap (λ l. get_or l 0 d) h)
drop-cons zero [] y ys d h = absurd (let e : 0 ≡ suc (length ys) = ap length h in omega arith)
drop-cons (suc i) [] y ys d h = absurd (let e : 0 ≡ suc (length ys) = ap length h in omega arith)
drop-cons (suc i) (x ∷ xs) y ys d h = let (l, e) = drop-cons i xs y ys d h in (omega arith, e)

shown :
    (s : ParserState) (t : Token) (ts : List Token)
    → View s (t ∷ ts)
    → (token_after s 0 ≡ t) × (ltb s.pos (length s.tokens) ≡ true)
unfolding token_after View
shown s t ts h =
    let (l, e) = drop-cons s.pos s.tokens t ts get_eof_token h in
    let i = lt→ltb s.pos (length s.tokens) l in
    let z : s.pos + 0 ≡ s.pos = omega arith in (rw (z, i) e, i)

module _ {ℓ} {A : Type ℓ} (s : ParserState) (t : Token) (ts : List Token)
    (h : View s (t ∷ ts)) where
  pub peek-View : (f : Token → Parse A) → (peek_token >>= f) s ≡ f t s
  unfolding peek_token ◌>>=◌ continue_with
  peek-View f = ap (λ tok. f tok s) (shown s t ts h).0

  pub advance-View : (f : Token → Parse A) → (advance_token >>= f) s ≡ f t (ahead s 1)
  unfolding advance_token ◌>>=◌ continue_with ahead
  advance-View f = let (e, i) = shown s t ts h in rw (e, i) refl

  pub expect-View :
      (f : ℕ → Parse A) → (expect_token_type (get_token_type t) >>= f) s ≡ f 1 (ahead s 1)
  unfolding expect_token_type advance_token ◌>>=◌ continue_with ahead return
  expect-View f = let (e, i) = shown s t ts h in rw (e, i, ==_refl (get_token_type t)) refl

-- What follows a result.
pub bind-done {ℓ κ} :
    {A : Type ℓ} {B : Type κ} (m : Parse A) (f : A → Parse B) (s : ParserState) {a : A}
    {t : ParserState}
    → m s ≡ done a t
    → (m >>= f) s ≡ f a t
unfolding ◌>>=◌ continue_with
bind-done m f s e = ap (continue_with f) e

-- Only `and` has two precedences.
pub next_precedence-done {ℓ} :
    {A : Type ℓ} (tok : Token) (f : ℕ → Parse A) (s : ParserState)
    → (get_token_type tok == 11) ≡ false
    → (next_precedence tok >>= f) s ≡ f (get_token_precedence tok) s
unfolding next_precedence get_in_condition get_call_depth ◌>>=◌ continue_with return
next_precedence-done tok f s e = rw (e) refl
