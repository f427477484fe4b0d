-- ===== src/Fold/Constants.antt =====
-- The expressions that opt_fold_expr makes a number of, said by rules of their own.
use ern_os.Base.{
  ℕ, ◌≡◌, ◌≢◌, ◌↔◌, refl, sym, ◌∙◌, ap, subst, inl, inr, true, false, Bool-cases, none, some, ◌==◌,
  ==_iff, arith,
}
use ern_os.Base.Int.{ℤ, pos, negsuc}
use ern_os.Fold.{
  Expr, int, binary, comp, logical, call, unary, list_lit, other, Longs, is_zero, fold_op,
  fold_binary, opt_fold_expr,
}
use ern_os.Fold.Stable.{fold_binary-Shape, opt_fold_expr-opt_fold_expr}

-- What an operator comes to on two numbers. Nothing is divided by 0.
pub data Operation (c : Longs) : ℕ → ℤ → ℤ → ℤ → Type 0 where
  sum : (a d : ℤ) → Operation c 1 a d (c.add a d)
  difference : (a d : ℤ) → Operation c 2 a d (c.sub a d)
  product : (a d : ℤ) → Operation c 3 a d (c.mul a d)
  quotient : (a d : ℤ) → d ≢ pos 0 → Operation c 4 a d (c.div a d)
  remainder : (a d : ℤ) → d ≢ pos 0 → Operation c 5 a d (c.sub a (c.mul (c.div a d) d))

-- A number, and an operation on two expressions that are constant themselves.
pub data Constant (c : Longs) : Expr → ℤ → Type 0 where
  literal : (n : ℤ) → Constant c (int n) n
  combined :
      {x y : Expr} {op : ℕ} {a d v : ℤ}
      → Constant c x a
      → Constant c y d
      → Operation c op a d v
      → Constant c (binary x op y) v

is_zero-pos : (d : ℤ) → d ≢ pos 0 → is_zero d ≡ false
unfolding is_zero
is_zero-pos (pos n) h = elim (Bool-cases (n == 0)) [
  | inl e ↦ absurd (h (ap pos ((==_iff n 0).0 e)))
  | inr e ↦ e
]
is_zero-pos (negsuc n) h = refl

is_zero-ne : (d : ℤ) → is_zero d ≡ false → d ≢ pos 0
unfolding is_zero
is_zero-ne d e h = let z : true ≡ false = ap is_zero (sym h) ∙ e in cc

fold_op-Operation :
    {c : Longs} {op : ℕ} {a d v : ℤ} → Operation c op a d v → fold_op c op a d ≡ some v
unfolding fold_op
fold_op-Operation (sum a d) = refl
fold_op-Operation (difference a d) = refl
fold_op-Operation (product a d) = refl
fold_op-Operation (quotient a d h) = rw (is_zero-pos d h) refl
fold_op-Operation (remainder a d h) = rw (is_zero-pos d h) refl

some-is : {a d : ℤ} → some a ≡ some d → a ≡ d
some-is h = cc

module _ (c : Longs) where
  -- One row of the table: where the operator is `k`, the value is the row's.
  Operation-fold_op : (op : ℕ) (a d v : ℤ) → fold_op c op a d ≡ some v → Operation c op a d v
  unfolding fold_op
  Operation-fold_op op a d v h = elim (Bool-cases (op == 1)) [
    | inl e ↦ row 1 (c.add a d) e (sum a d) (rw e at h)
    | inr e1 ↦ elim (Bool-cases (op == 2)) [
      | inl e ↦ row 2 (c.sub a d) e (difference a d) (rw (e1, e) at h)
      | inr e2 ↦ elim (Bool-cases (op == 3)) [
        | inl e ↦ row 3 (c.mul a d) e (product a d) (rw (e1, e2, e) at h)
        | inr e3 ↦ elim (Bool-cases (is_zero d)) [
          | inl z ↦ absurd (let g : none ≡ some v = ground arith in cc)
          | inr z ↦ elim (Bool-cases (op == 4)) [
            | inl e ↦
                row 4 (c.div a d) e (quotient a d (is_zero-ne d z)) (rw (e1, e2, e3, e, z) at h)
            | inr e4 ↦ elim (Bool-cases (op == 5)) [
              | inl e ↦
                  row 5 (c.sub a (c.mul (c.div a d) d)) e (remainder a d (is_zero-ne d z))
                    (rw (e1, e2, e3, e4, e, z) at h)
              | inr e5 ↦ absurd (let g : none ≡ some v = rw (e1, e2, e3, e4, e5) at h in cc)
            ]
          ]
        ]
      ]
    ]
  ]
    where
      row :
          (k : ℕ) (w : ℤ)
          → (op == k) ≡ true
          → Operation c k a d w
          → some w ≡ some v
          → Operation c op a d v
      row k w e r s =
          subst (λ o. Operation c o a d v) (sym ((==_iff op k).0 e))
            (subst (Operation c k a d) (some-is s) r)

  Constant-opt_fold_expr : {x : Expr} {v : ℤ} → Constant c x v → opt_fold_expr c x ≡ int v
  unfolding opt_fold_expr fold_binary
  Constant-opt_fold_expr (literal n) = refl
  Constant-opt_fold_expr (combined {x} {y} {op} {a} {d} {v} p q o) =
      rw
        (
          opt_fold_expr,
          Constant-opt_fold_expr p,
          Constant-opt_fold_expr q,
          fold_binary,
          fold_op-Operation o,
        )
        refl

  opt_fold_expr-is : (x : Expr) (v : ℤ) → opt_fold_expr c x ≡ int v → Constant c x v
  unfolding opt_fold_expr
  opt_fold_expr-is (int n) v h = let e : n ≡ v = cc in subst (Constant c (int n)) e (literal n)
  opt_fold_expr-is (binary x op y) v h =
      elim (fold_binary-Shape c (opt_fold_expr c x) op (opt_fold_expr c y)) [
        | inl e ↦
            absurd
              (let g : binary (opt_fold_expr c x) op (opt_fold_expr c y) ≡ int v = sym e ∙ h in cc)
        | inr (a, d, w, p, q, o, e) ↦
            let g : int w ≡ int v = sym e ∙ h in
            let same : w ≡ v = cc in
            combined (opt_fold_expr-is x a p) (opt_fold_expr-is y d q)
              (Operation-fold_op op a d v (o ∙ ap some same))
      ]
  opt_fold_expr-is (comp x op y) v h = cc
  opt_fold_expr-is (logical x op y) v h = cc
  opt_fold_expr-is (call f args) v h = cc
  opt_fold_expr-is (unary k x) v h = cc
  opt_fold_expr-is (list_lit xs) v h = cc
  opt_fold_expr-is (other w) v h = cc

-- opt_fold_expr makes an expression the number `v` exactly where the rules say that it is the
-- constant `v`: a number, or +, -, *, / or the remainder of two constants, where nothing is divided
-- by 0. What it gives, a second pass of it leaves as it is.
pub opt_fold_expr-Constant :
    (c : Longs) (x : Expr) (v : ℤ)
    → ((opt_fold_expr c x ≡ int v) ↔ Constant c x v)
      × (opt_fold_expr c (opt_fold_expr c x) ≡ opt_fold_expr c x)
opt_fold_expr-Constant c x v =
    ((opt_fold_expr-is c x v, λ p. Constant-opt_fold_expr c p), opt_fold_expr-opt_fold_expr c x)
