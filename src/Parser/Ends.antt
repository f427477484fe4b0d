-- ===== src/Parser/Ends.antt =====
-- Total correctness of a part of the parser: with enough fuel for the tokens that are left it
-- ends, further on in the same tokens, with its flags as they were.
use ern_os.Base.{
  ℕ, zero, suc, ◌+◌, ◌-◌, ◌≤◌, ◌<◌, ◌≡◌, refl, ◌∙◌, ◌⊎◌, Bool, true, false, arith, if◌then◌else◌,
  length, inl, inr, ltb, ltb→lt, ltb→ge, Bool-cases,
}
use ern_os.Lexer.{Token, create_token, get_token_type}
use ern_os.Parser.{ParserState, Result, done, Parse, return, ◌>>=◌, continue_with, loop}
use ern_os.Parser.State.{peek_token, peek_token_at, token_after, get_eof_token}

unfoldable pub remaining : ParserState → ℕ
remaining s = length s.tokens - s.pos

-- What a part of the parser leaves alone.
pub record Keeps (s t : ParserState) : Type 0 where
  pub tokens : t.tokens ≡ s.tokens
  pub forward : s.pos ≤ t.pos
  pub within : s.pos ≤ length s.tokens → t.pos ≤ length t.tokens
  pub error : s.parser_error ≡ 1 → t.parser_error ≡ 1
  pub condition : t.in_condition ≡ s.in_condition
  pub depth : t.call_depth ≡ s.call_depth

pub Keeps-refl : (s : ParserState) → Keeps s s
Keeps-refl s = record {
  tokens = refl;
  forward = omega arith;
  within = λ h. h;
  error = λ h. h;
  condition = refl;
  depth = refl;
}

pub Keeps-trans : {s t u : ParserState} → Keeps s t → Keeps t u → Keeps s u
Keeps-trans {s} {t} {u} h k = record {
  tokens = k.tokens ∙ h.tokens;
  forward = omega (arith, h.forward, k.forward);
  within = λ w. k.within (h.within w);
  error = λ e. k.error (h.error e);
  condition = k.condition ∙ h.condition;
  depth = k.depth ∙ h.depth;
}

-- A result from the state `s`, with at least `e` of its tokens consumed.
pub data Ended {ℓ} {A : Type ℓ} (e : ℕ) (s : ParserState) : Result A → Type ℓ where
  ended :
      {a : A} {t : ParserState} → Keeps s t → remaining t + e ≤ remaining s → Ended e s (done a t)

-- From each state with at least `l` and less than `n` tokens left.
pub record Ends {ℓ} {A : Type ℓ} (l e n : ℕ) (m : Parse A) : Type ℓ where
  pub run : (s : ParserState) → l ≤ remaining s → remaining s < n → Ended e s (m s)

module _ {ℓ} {A : Type ℓ} where
  pub Ends-return : {l n : ℕ} (a : A) → Ends l 0 n (return a)
  unfolding return
  Ends-return a = record { run = λ s _ _. ended (Keeps-refl s) (omega arith) }

  pub Ended-lax : {e e' : ℕ} {s : ParserState} {r : Result A} → Ended e s r → e' ≤ e → Ended e' s r
  Ended-lax (ended keeps eaten) h = ended keeps (omega arith)

  pub Ended_after :
      {d : ℕ} {s t : ParserState} {r : Result A}
      → Keeps s t
      → remaining t + d ≤ remaining s
      → Ended 0 t r
      → Ended d s r
  Ended_after keeps eaten (ended further less) = ended (Keeps-trans keeps further) (omega arith)

  -- With more tokens left, or less fuel.
  pub Ends_weaken :
      {l e n l' e' n' : ℕ} {m : Parse A} → Ends l e n m → l ≤ l' → e' ≤ e → n' ≤ n → Ends l' e' n' m
  Ends_weaken h i j k = record {
    run = λ s low high. Ended-lax (h.run s (omega arith) (omega arith)) j;
  }

  -- Where the fuel is out for no token left.
  pub Ends_zero : {l e : ℕ} {m : Parse A} → Ends l e 0 m
  Ends_zero = record { run = λ s low high. absurd (omega arith) }

  pub Ends-if :
      {l e n : ℕ} (b : Bool) {x y : Parse A}
      → Ends l e n x
      → Ends l e n y
      → Ends l e n (if b then x else y)
  Ends-if true h k = h
  Ends-if false h k = k

  -- Where no token is left, and where there is one.
  pub Ends_split : {n : ℕ} {m : Parse A} → Ends 1 0 n m → Ends 0 0 1 m → Ends 0 0 n m
  Ends_split {n = n} {m} h k = record {
    run = λ s low high. at s high (Bool-cases (ltb 0 (remaining s)));
  }
    where
      at :
          (s : ParserState)
          → remaining s < n
          → (ltb 0 (remaining s) ≡ true) ⊎ (ltb 0 (remaining s) ≡ false)
          → Ended 0 s (m s)
      at s high (inl e) = h.run s (ltb→lt 0 (remaining s) e) high
      at s high (inr e) = k.run s (omega arith) (omega (arith, ltb→ge 0 (remaining s) e))

module _ {ℓ κ} {A : Type ℓ} {B : Type κ} where
  -- One part after another; `Ended` of what follows is asked of each state that is reached.
  Ended-continue :
      {d : ℕ} {s : ParserState} {r : Result A} {f : A → Parse B}
      → Ended d s r
      → ((a : A) (t : ParserState) → remaining t + d ≤ remaining s → Ended 0 t (f a t))
      → Ended d s (continue_with f r)
  unfolding continue_with
  Ended-continue (ended {a = a} {t = t} keeps eaten) k = Ended_after keeps eaten (k a t eaten)

  pub Ends-bind :
      {l e n : ℕ} {m : Parse A} {f : A → Parse B}
      → Ends l e n m
      → ((a : A) → Ends 0 0 n (f a))
      → Ends l e n (m >>= f)
  unfolding ◌>>=◌
  Ends-bind h k = record {
    run = λ s low high.
        Ended-continue (h.run s low high) (λ a t less. (k a).run t (omega arith) (omega arith));
  }

  -- What follows a consumed token has one token less.
  pub Ends-eat :
      {l n : ℕ} {m : Parse A} {f : A → Parse B}
      → Ends l 1 (suc n) m
      → ((a : A) → Ends 0 0 n (f a))
      → Ends l 1 (suc n) (m >>= f)
  unfolding ◌>>=◌
  Ends-eat h k = record {
    run = λ s low high.
        Ended-continue (h.run s low high) (λ a t less. (k a).run t (omega arith) (omega arith));
  }

  pub Ends-loop :
      {body : (A → Parse B) → A → Parse B} (k n : ℕ)
      → ((j : ℕ) (again : A → Parse B)
          → suc j ≤ k
          → ((a : A) → Ends 0 0 j (again a))
          → (a : A) → Ends 0 0 (suc j) (body again a))
      → k ≤ n
      → (a : A) → Ends 0 0 k (loop n body a)
  unfolding loop
  Ends-loop zero n h le a = Ends_zero
  Ends-loop (suc k) zero h le a = absurd (omega arith)
  Ends-loop {body} (suc k) (suc n) h le a =
      h k (loop n body) (omega arith)
        (Ends-loop k n (λ j again less. h j again (omega arith)) (omega arith)) a

-- The next token is that of the end, or there is a token left.
pub peeked : (s : ParserState) → (get_token_type (token_after s 0) ≡ 31) ⊎ (1 ≤ remaining s)
unfolding token_after get_eof_token get_token_type create_token remaining
peeked s = at (Bool-cases (ltb (s.pos + 0) (length s.tokens)))
  where
    at :
        (ltb (s.pos + 0) (length s.tokens) ≡ true) ⊎ (ltb (s.pos + 0) (length s.tokens) ≡ false)
        → (get_token_type (token_after s 0) ≡ 31) ⊎ (1 ≤ remaining s)
    at (inl e) = inr (omega (arith, ltb→lt (s.pos + 0) (length s.tokens) e))
    at (inr e) = inl (rw (e))

module _ {ℓ} {A : Type ℓ} where
  pub Ends-peek :
      {n : ℕ} {f : Token → Parse A}
      → ((tok : Token) → Ends 1 0 n (f tok))
      → ((tok : Token) → get_token_type tok ≡ 31 → Ends 0 0 n (f tok))
      → Ends 0 0 n (peek_token >>= f)
  unfolding peek_token ◌>>=◌ continue_with
  Ends-peek h k = record {
    run = λ s low high. elim (peeked s) [
      | inl e ↦ (k (token_after s 0) e).run s low high
      | inr l ↦ (h (token_after s 0)).run s l high
    ];
  }

  pub Ends-peek_at :
      {l e n : ℕ} {f : Token → Parse A} (offset : ℕ)
      → ((tok : Token) → Ends l e n (f tok))
      → Ends l e n (peek_token_at offset >>= f)
  unfolding peek_token_at ◌>>=◌ continue_with
  Ends-peek_at offset h = record { run = λ s low high. (h (token_after s offset)).run s low high }

  pub Ends-look :
      {l e n : ℕ} {f : Token → Parse A}
      → ((tok : Token) → Ends l e n (f tok))
      → Ends l e n (peek_token >>= f)
  unfolding peek_token ◌>>=◌ continue_with
  Ends-look h = record { run = λ s low high. (h (token_after s 0)).run s low high }
