-- ===== src/Fold/Stable.antt =====
-- A second folding changes nothing.
use ern_os.Base.{ℕ, some, ◌≡◌, ◌⊎◌, refl, sym, ◌∙◌, ap, ap₂, inl, inr, Option-cases}
use ern_os.Base.Int.{ℤ}
use ern_os.Fold.{
  Expr, int, binary, comp, logical, call, unary, list_lit, other, Exprs, end, item, Longs, fold_op,
  fold_binary, opt_fold_expr, fold_exprs,
}

module _ (c : Longs) where
  abbrev pub Shape : Expr → ℕ → Expr → Type 0
  Shape x op y =
      (fold_binary c x op y ≡ binary x op y)
      ⊎ ((a : ℤ) × (b : ℤ) × (v : ℤ) × (x ≡ int a)
          × (y ≡ int b)
          × (fold_op c op a b ≡ some v)
          × (fold_binary c x op y ≡ int v))

  -- A binary node stays, or becomes the number that its operator makes of two.
  pub fold_binary-Shape : (x : Expr) (op : ℕ) (y : Expr) → Shape x op y
  unfolding fold_binary
  fold_binary-Shape (int a) op (int b) = elim (Option-cases (fold_op c op a b)) [
    | inl e ↦ inl (rw (e, fold_binary) refl)
    | inr (v, e) ↦ inr (a, b, v, refl, refl, e, rw (e, fold_binary) refl)
  ]
  fold_binary-Shape (int a) op (binary y k z) = inl refl
  fold_binary-Shape (int a) op (comp y k z) = inl refl
  fold_binary-Shape (int a) op (logical y k z) = inl refl
  fold_binary-Shape (int a) op (call f args) = inl refl
  fold_binary-Shape (int a) op (unary k y) = inl refl
  fold_binary-Shape (int a) op (list_lit ys) = inl refl
  fold_binary-Shape (int a) op (other v) = inl refl
  fold_binary-Shape (binary x k z) op y = inl refl
  fold_binary-Shape (comp x k z) op y = inl refl
  fold_binary-Shape (logical x k z) op y = inl refl
  fold_binary-Shape (call f args) op y = inl refl
  fold_binary-Shape (unary k x) op y = inl refl
  fold_binary-Shape (list_lit xs) op y = inl refl
  fold_binary-Shape (other v) op y = inl refl

  fold_binary-stable :
      (x : Expr) (op : ℕ) (y : Expr)
      → opt_fold_expr c x ≡ x
      → opt_fold_expr c y ≡ y
      → opt_fold_expr c (fold_binary c x op y) ≡ fold_binary c x op y
  unfolding opt_fold_expr
  fold_binary-stable x op y h k = elim (fold_binary-Shape x op y) [
    | inl e ↦ ap (opt_fold_expr c) e ∙ ap₂ (λ a b. fold_binary c a op b) h k
    | inr (_, _, v, _, _, _, e) ↦ ap (opt_fold_expr c) e ∙ sym e
  ]

  mutual
    unfolding opt_fold_expr

    stable : (x : Expr) → opt_fold_expr c (opt_fold_expr c x) ≡ opt_fold_expr c x
    stable (int n) = refl
    stable (binary x op y) = fold_binary-stable _ op _ (stable x) (stable y)
    stable (comp x op y) = ap₂ (λ a b. comp a op b) (stable x) (stable y)
    stable (logical x op y) = ap₂ (λ a b. logical a op b) (stable x) (stable y)
    stable (call f args) = ap (call f) (stable_all args)
    stable (unary k x) = ap (unary k) (stable x)
    stable (list_lit xs) = ap list_lit (stable_all xs)
    stable (other v) = refl

    stable_all : (xs : Exprs) → fold_exprs c (fold_exprs c xs) ≡ fold_exprs c xs
    stable_all end = refl
    stable_all (item x xs) = ap₂ item (stable x) (stable_all xs)

-- A second pass changes nothing.
pub opt_fold_expr-opt_fold_expr :
    (c : Longs) (x : Expr) → opt_fold_expr c (opt_fold_expr c x) ≡ opt_fold_expr c x
opt_fold_expr-opt_fold_expr c x = stable c x
