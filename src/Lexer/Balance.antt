-- ===== src/Lexer/Balance.antt =====
-- Blocks among the tokens: how deep INDENT and DEDENT stand.
use ern_os.Base.{
  ℕ, zero, suc, ◌≡◌, refl, sym, ◌∙◌, ap, inl, inr, Bool, true, false, ◌&&◌, ◌||◌, not, Option,
  Option-cases, none, some, List, [], ◌∷◌, ◌++◌, arith, ◌==◌, Bool-cases, if◌then◌else◌, replicate,
}
use ern_os.Lexer.{Token}
use ern_os.Lexer.Scan.{unsnoc}
use ern_os.Lexer.Literal.{inner_tokens}

-- The depth behind the tokens, from a depth before them. A DEDENT at depth 0 fails, and so does
-- an EOF.
abbrev pub walk : ℕ → List Token → Option ℕ
walk d [] = some d
walk d (t ∷ ts) =
    let deeper = walk (suc d) ts in
    let back : Option ℕ = elim d [ zero ↦ none | suc e ↦ walk e ts ] in
    let same = walk d ts in
    if t.kind == 29
    then deeper
    else if t.kind == 30
    then back
    else if t.kind == 31
    then none
    else same

-- A kind that opens and closes no block and ends nothing.
abbrev pub neutral : ℕ → Bool
neutral k = not (k == 29) && (not (k == 30) && not (k == 31))

abbrev pub AreNeutral : List Token → Type 0
AreNeutral [] = Unit {0}
AreNeutral (t ∷ ts) = (neutral t.kind ≡ true) × AreNeutral ts

pub append-AreNeutral : (a b : List Token) → AreNeutral a → AreNeutral b → AreNeutral (a ++ b)
append-AreNeutral [] b h k = k
append-AreNeutral (t ∷ a) b h k = (h.0, append-AreNeutral a b h.1 k)

pub replicate-AreNeutral : (n : ℕ) (t : Token) → neutral t.kind ≡ true → AreNeutral (replicate n t)
replicate-AreNeutral zero t h = tt
replicate-AreNeutral (suc n) t h = (h, replicate-AreNeutral n t h)

walk-neutral_cons :
    (d : ℕ) (t : Token) (ts : List Token) → neutral t.kind ≡ true → walk d (t ∷ ts) ≡ walk d ts
walk-neutral_cons d t ts h = ground arith

pub walk-AreNeutral : (d : ℕ) (ts : List Token) → AreNeutral ts → walk d ts ≡ some d
walk-AreNeutral d [] h = refl
walk-AreNeutral d (t ∷ ts) h = walk-neutral_cons d t ts h.0 ∙ walk-AreNeutral d ts h.1

-- The tokens one after the other.
pub walk-append : (d e : ℕ) (a b : List Token) → walk d a ≡ some e → walk d (a ++ b) ≡ walk e b
walk-append d e [] b h = ap (λ k. walk k b) (let z : d ≡ e = cc in z)
walk-append d e (t ∷ a) b h = elim (Bool-cases (t.kind == 29)) [
  | inl g ↦ rw g (walk-append (suc d) e a b (rw g at h))
  | inr g ↦ elim (Bool-cases (t.kind == 30)) [
    | inl k ↦ rw (g, k) (walk_back d e a b (λ c. walk-append c e a b) (rw (g, k) at h))
    | inr k ↦ elim (Bool-cases (t.kind == 31)) [
      | inl l ↦ absurd (let z : none ≡ some e = rw (g, k, l) at h in cc)
      | inr l ↦ rw (g, k, l) (walk-append d e a b (rw (g, k, l) at h))
    ]
  ]
]
  where
    walk_back :
        (d e : ℕ) (a b : List Token)
        → ((c : ℕ) → walk c a ≡ some e → walk c (a ++ b) ≡ walk e b)
        → elim d [ zero ↦ none | suc c ↦ walk c a ] ≡ some e
        → elim d [ zero ↦ none | suc c ↦ walk c (a ++ b) ] ≡ walk e b
    walk_back zero e a b ih h = cc
    walk_back (suc c) e a b ih h = ih c h

-- Tokens that are neutral leave the depth behind a list as it is.
pub walk-append_neutral :
    (d e : ℕ) (a b : List Token) → walk d a ≡ some e → AreNeutral b → walk d (a ++ b) ≡ some e
walk-append_neutral d e a b h n = walk-append d e a b h ∙ walk-AreNeutral e b n

abbrev glue : Option (List Token × Token) → List Token
glue none = []
glue (some (us, t)) = us ++ t ∷ []

glue-unsnoc : (ts : List Token) → ts ≡ glue (unsnoc ts)
glue-unsnoc [] = refl
glue-unsnoc (x ∷ ts) = elim (Option-cases (unsnoc ts)) [
  | inl e ↦ rw e (ap (λ r. x ∷ r) (glue-unsnoc ts ∙ ap glue e))
  | inr ((vs, v), e) ↦ rw e (ap (λ r. x ∷ r) (glue-unsnoc ts ∙ ap glue e))
]

pub unsnoc-append : (ts us : List Token) (t : Token) → unsnoc ts ≡ some (us, t) → ts ≡ us ++ t ∷ []
unsnoc-append ts us t h = glue-unsnoc ts ∙ ap glue h

pub inner_tokens-AreNeutral : (ts : List Token) → AreNeutral (inner_tokens ts)
unfolding inner_tokens
inner_tokens-AreNeutral [] = tt
inner_tokens-AreNeutral (t ∷ ts) =
    elim (Bool-cases (t.kind == 28 || (t.kind == 29 || (t.kind == 30 || t.kind == 31)))) [
      | inl e ↦ rw e (inner_tokens-AreNeutral ts)
      | inr e ↦ rw e (
        neutral_of (t.kind == 28) (t.kind == 29) (t.kind == 30) (t.kind == 31) e,
        inner_tokens-AreNeutral ts,
      )
    ]
  where
    neutral_of :
        (a b c d : Bool) → (a || (b || (c || d))) ≡ false → (not b && (not c && not d)) ≡ true
    neutral_of a b c d h = ground arith

walk-append_none : (d : ℕ) (a b : List Token) → walk d a ≡ none → walk d (a ++ b) ≡ none
walk-append_none d [] b h = absurd (some≢none h)
  where
    some≢none : some d ≡ none → ⊥
    some≢none e = cc
walk-append_none d (t ∷ a) b h = elim (Bool-cases (t.kind == 29)) [
  | inl g ↦ rw g (walk-append_none (suc d) a b (rw g at h))
  | inr g ↦ elim (Bool-cases (t.kind == 30)) [
    | inl k ↦ rw (g, k) (stays d a b (λ c. walk-append_none c a b) (rw (g, k) at h))
    | inr k ↦ elim (Bool-cases (t.kind == 31)) [
      | inl l ↦ rw (g, k, l)
      | inr l ↦ rw (g, k, l) (walk-append_none d a b (rw (g, k, l) at h))
    ]
  ]
]
  where
    stays :
        (d : ℕ) (a b : List Token)
        → ((c : ℕ) → walk c a ≡ none → walk c (a ++ b) ≡ none)
        → elim d [ zero ↦ none | suc c ↦ walk c a ] ≡ none
        → elim d [ zero ↦ none | suc c ↦ walk c (a ++ b) ] ≡ none
    stays zero a b ih h = refl
    stays (suc c) a b ih h = ih c h

-- A neutral token that is taken off leaves the depth as it was.
pub walk-unsnoc :
    (d e : ℕ) (ts us : List Token) (t : Token)
    → unsnoc ts ≡ some (us, t)
    → neutral t.kind ≡ true
    → walk d ts ≡ some e
    → walk d us ≡ some e
walk-unsnoc d e ts us t h n w = elim (Option-cases (walk d us)) [
  | inl g ↦
      let fails : walk d ts ≡ none =
        ap (walk d) (unsnoc-append ts us t h) ∙ walk-append_none d us (t ∷ []) g in
      absurd (let z : none ≡ some e = sym fails ∙ w in cc)
  | inr (c, g) ↦
      g
      ∙ sym (walk-append_neutral d c us (t ∷ []) g (n, tt))
      ∙ ap (walk d) (sym (unsnoc-append ts us t h))
      ∙ w
]
