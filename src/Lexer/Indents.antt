-- ===== src/Lexer/Indents.antt =====
-- The invariant of the main loop: the stack of indentations and the blocks among the tokens.
use ern_os.Base.{
  ℕ, suc, ◌≤◌, ◌<◌, ◌≡◌, refl, sym, ◌∙◌, ap, inl, inr, Bool, true, false, ◌&&◌, not, some, List, [],
  ◌∷◌, ◌++◌, arith, ltb, ltb→lt, ◌==◌, Bool-cases, Option-cases, length, subst,
}
use ern_os.Bytes.{Bytes, codes}
use ern_os.Lexer.{Token, create_token, get_token_type, get_token_value, ch}
use ern_os.Lexer.Progress.{margin-le}
use ern_os.Lexer.Balance.{walk, neutral, walk-append, walk-append_neutral, walk-unsnoc}
use ern_os.Lexer.LiteralLaws.{Extends}
use ern_os.Bytes.Compare.{same_text}
use ern_os.Lexer.Scan.{
  Lex, push, margin, dedent, last_indent, indentation, start_line, unsnoc, f_prefix, close_all,
}

-- The stack ends in 0 and grows strictly towards its top.
abbrev pub Grows : List ℕ → Type 0
Grows [] = ⊥
Grows (i ∷ []) = i ≡ 0
Grows (i ∷ j ∷ is) = (j < i) × Grows (j ∷ is)

-- The blocks that a stack keeps open.
abbrev pub open_blocks : List ℕ → ℕ
open_blocks [] = 0
open_blocks (i ∷ []) = 0
open_blocks (i ∷ j ∷ is) = suc (open_blocks (j ∷ is))

pub record Inv (x : Lex) : Type 0 where
  pub grows : Grows x.indents
  pub blocks : walk 0 x.toks ≡ some (open_blocks x.indents)

-- What a DEDENT does to the depth.
walk_dedent :
    (toks : List Token) (d line col : ℕ)
    → walk 0 toks ≡ some (suc d)
    → walk 0 (toks ++ create_token 30 (codes "DEDENT") line col ∷ []) ≡ some d
unfolding create_token
walk_dedent toks d line col h = walk-append 0 (suc d) toks _ h

walk_indent :
    (toks : List Token) (d line col : ℕ)
    → walk 0 toks ≡ some d
    → walk 0 (toks ++ create_token 29 (codes "INDENT") line col ∷ []) ≡ some (suc d)
unfolding create_token
walk_indent toks d line col h = walk-append 0 d toks _ h

dedent-Inv :
    (spaces line col : ℕ) (is : List ℕ) (toks : List Token)
    → Grows is
    → walk 0 toks ≡ some (open_blocks is)
    → let r = dedent spaces line col is toks in Grows r.0 × (walk 0 r.1 ≡ some (open_blocks r.0))
unfolding dedent
dedent-Inv spaces line col [] toks g h = absurd g
dedent-Inv spaces line col (i ∷ []) toks g h =
    let e : ltb spaces i ≡ false = ground (arith, g) in rw (e, dedent) (g, h)
dedent-Inv spaces line col (i ∷ j ∷ is) toks g h = elim (Bool-cases (ltb spaces i)) [
  | inr e ↦ rw (e, dedent) (g, h)
  | inl e ↦
      rw (e, dedent)
        (dedent-Inv spaces line col (j ∷ is) _ g.1
          (walk_dedent toks (open_blocks (j ∷ is)) line col h))
]

indentation-Inv : (spaces : ℕ) (x : Lex) → Inv x → Inv (indentation spaces x)
unfolding indentation push
indentation-Inv spaces x v = elim (Bool-cases (ltb (last_indent x.indents) spaces)) [
  | inl e ↦ rw (e, indentation) (deeper x.indents (ltb→lt _ _ e) v.grows v.blocks)
  | inr e ↦
      let r = dedent-Inv spaces x.line x.col x.indents x.toks v.grows v.blocks in
      rw (e, indentation) (record { grows = r.0; blocks = r.1 })
]
  where
    deeper :
        (is : List ℕ)
        → last_indent is < spaces
        → Grows is
        → walk 0 x.toks ≡ some (open_blocks is)
        → Inv (record x {
          indents = spaces ∷ is;
          toks = x.toks ++ create_token 29 (codes "INDENT") x.line x.col ∷ [];
        })
    deeper [] l g h = absurd g
    deeper (i ∷ is) l g h = record {
      grows = (unfold last_indent in l, g);
      blocks = walk_indent x.toks _ x.line x.col h;
    }

-- Neutral tokens keep the invariant.
pub Extends-Inv : (x y : Lex) → y.indents ≡ x.indents → Extends x.toks y.toks → Inv x → Inv y
Extends-Inv x y same (n, e, h) v = record {
  grows = subst Grows (sym same) v.grows;
  blocks =
      ap (walk 0) e
      ∙ walk-append_neutral 0 (open_blocks x.indents) x.toks n v.blocks h
      ∙ ap (λ i. some (open_blocks i)) (sym same);
}

pub push-Inv : (x : Lex) (t : Token) → neutral t.kind ≡ true → Inv x → Inv (push x t)
unfolding push
push-Inv x t n v = Extends-Inv x (push x t) refl (t ∷ [], refl, (n, tt)) v

indentation_at : (n : ℕ) (y : Lex) {a : ℕ} → a ≤ y.at → a ≤ (indentation n y).at
unfolding indentation push
indentation_at n y h = elim (Bool-cases (ltb (last_indent y.indents) n)) [
  | inl e ↦ rw (e, indentation) h
  | inr e ↦ rw (e, indentation) h
]

pub start_line-Inv :
    (s : Bytes) (x : Lex) → Inv x → Inv (start_line s x) × (x.at ≤ (start_line s x).at)
unfolding start_line
start_line-Inv s x v =
    let m = margin (length s) s (record { spaces = 0; at = x.at; col = x.col }) in
    let y = record x { at = m.at; col = m.col; line_start = false } in
    let c = ch s m.at in
    let front : x.at ≤ m.at =
      margin-le (length s) s (record { spaces = 0; at = x.at; col = x.col }) in
    let v' : Inv y = record { grows = v.grows; blocks = v.blocks } in
    elim (Bool-cases (not (c == 10) && (not (c == 13) && (not (c == 35) && ltb m.at (length s))))) [
      | inl e ↦ rw e (indentation-Inv m.spaces y v', indentation_at m.spaces y front)
      | inr e ↦ rw e (v', front)
    ]

identifier_neutral : (t : Token) → (get_token_type t == 27) ≡ true → neutral t.kind ≡ true
unfolding get_token_type
identifier_neutral t h = ground arith

-- The `f` of an f-string is neutral.
pub f_prefix-blocks :
    (toks : List Token) (d : ℕ) → walk 0 toks ≡ some d → walk 0 (f_prefix toks).0 ≡ some d
unfolding f_prefix
f_prefix-blocks toks d h = elim (Option-cases (unsnoc toks)) [
  | inl e ↦ rw (e, f_prefix) h
  | inr ((us, t), e) ↦
      elim (Bool-cases (get_token_type t == 27 && same_text (codes "f") (get_token_value t))) [
        | inl g ↦
            rw (e, f_prefix, g)
              (walk-unsnoc 0 d toks us t e
                (identifier_neutral t (and-left (get_token_type t == 27) _ g)) h)
        | inr g ↦ rw (e, f_prefix, g) h
      ]
]
  where
    and-left : (a b : Bool) → (a && b) ≡ true → a ≡ true
    and-left a b h = ground arith

-- At the end every open block is closed.
pub close_all-closes :
    (line col : ℕ) (is : List ℕ) → walk (open_blocks is) (close_all line col is) ≡ some 0
unfolding close_all create_token
close_all-closes line col [] = refl
close_all-closes line col (i ∷ []) = refl
close_all-closes line col (i ∷ j ∷ is) = close_all-closes line col (j ∷ is)
