-- ===== src/Fold/Meaning.antt =====
-- The folding keeps the meaning of a program, for every meaning that is built up from the
-- meanings of the parts and gives the operators on literals their meaning in C.
use ern_os.Base.{
  ℕ, ◌≡◌, refl, sym, ◌∙◌, ap, inl, inr, Bool, true, false, Option, none, some, List, [], ◌∷◌, arith,
  ◌==◌, Bool-cases, Option-cases, ap₂, if◌then◌else◌, map,
}
use ern_os.Base.Int.{ℤ}
use ern_os.Ast.{Value}
use ern_os.Fold.{
  Unary, Expr, int, binary, comp, logical, call, unary, list_lit, other, Exprs, end, item, Stmt,
  set_node, return_node, display, expr_stmt, if_node, repeat_while, send, for_each, match,
  other_stmt, Stmts, done, next, Branch, missing, otherwise, Arms, no_arms, arm, Callable, Program,
  Longs, is_zero, fold_op, fold_binary, opt_fold_expr, fold_exprs, opt_fold_stmt, opt_fold_stmts,
  fold_branch, fold_arms, fold_callable, fold_methods, optimize_program,
}

-- The remainder of C, which its standard ties to the quotient: (a / b) * b + a % b is a.
pub record Remainder (c : Longs) : Type 0 where
  pub rem : ℤ → ℤ → ℤ
  pub quotient_law : (a b : ℤ) → is_zero b ≡ false → c.sub a (c.mul (c.div a b) b) ≡ rem a b

-- A meaning for each kind of node from the meanings of its children. The generated code of a
-- binary node is its operator between the codes of its children: +, -, *, / and %.
pub record Meaning (c : Longs) (r : Remainder c) : Type 1 where
  pub E : Type 0
  pub Es : Type 0
  pub S : Type 0
  pub Ss : Type 0
  pub int : ℤ → E
  pub binary : E → ℕ → E → E
  pub comp : E → ℕ → E → E
  pub logical : E → ℕ → E → E
  pub call : Value → Es → E
  pub unary : Unary → E → E
  pub list_lit : Es → E
  pub other : Value → E
  pub end : Es
  pub item : E → Es → Es
  pub set_node : Value → E → S
  pub return_node : E → S
  pub display : E → S
  pub expr_stmt : E → S
  pub if_node : E → Ss → Ss → S
  pub repeat_while : E → Ss → S
  pub send : Value → E → S
  pub for_each : Value → E → Ss → S
  pub match : E → Ss → S
  pub other_stmt : Value → S
  pub done : Ss
  pub next : S → Ss → Ss
  pub arm : Value → Value → Ss → Value → Ss → Ss
  pub plus : (a b : ℤ) → binary (int a) 1 (int b) ≡ int (c.add a b)
  pub minus : (a b : ℤ) → binary (int a) 2 (int b) ≡ int (c.sub a b)
  pub times : (a b : ℤ) → binary (int a) 3 (int b) ≡ int (c.mul a b)
  pub over : (a b : ℤ) → is_zero b ≡ false → binary (int a) 4 (int b) ≡ int (c.div a b)
  pub modulo : (a b : ℤ) → is_zero b ≡ false → binary (int a) 5 (int b) ≡ int (r.rem a b)

module _ {c : Longs} {r : Remainder c} (m : Meaning c r) where
  unfoldable mutual
    pub eval : Expr → m.E
    eval (int n) = m.int n
    eval (binary x op y) = m.binary (eval x) op (eval y)
    eval (comp x op y) = m.comp (eval x) op (eval y)
    eval (logical x op y) = m.logical (eval x) op (eval y)
    eval (call f args) = m.call f (eval_all args)
    eval (unary k x) = m.unary k (eval x)
    eval (list_lit xs) = m.list_lit (eval_all xs)
    eval (other v) = m.other v

    pub eval_all : Exprs → m.Es
    eval_all end = m.end
    eval_all (item x xs) = m.item (eval x) (eval_all xs)

  unfoldable mutual
    unfolding eval

    pub exec : Stmt → m.S
    exec (set_node x e) = m.set_node x (eval e)
    exec (return_node e) = m.return_node (eval e)
    exec (display e) = m.display (eval e)
    exec (expr_stmt e) = m.expr_stmt (eval e)
    exec (if_node e t f) = m.if_node (eval e) (exec_all t) (exec_branch f)
    exec (repeat_while e b) = m.repeat_while (eval e) (exec_all b)
    exec (send ch e) = m.send ch (eval e)
    exec (for_each x e b) = m.for_each x (eval e) (exec_all b)
    exec (match e arms) = m.match (eval e) (exec_arms arms)
    exec (other_stmt v) = m.other_stmt v

    pub exec_all : Stmts → m.Ss
    exec_all done = m.done
    exec_all (next s ss) = m.next (exec s) (exec_all ss)

    pub exec_branch : Branch → m.Ss
    exec_branch missing = m.done
    exec_branch (otherwise ss) = exec_all ss

    pub exec_arms : Arms → m.Ss
    exec_arms no_arms = m.done
    exec_arms (arm v w b k arms) = m.arm v w (exec_all b) k (exec_arms arms)

  -- An operator with its number and result known.
  known :
      {op k : ℕ} (a b : ℤ) {v w : ℤ}
      → (op == k) ≡ true
      → m.binary (m.int a) k (m.int b) ≡ m.int w
      → some w ≡ some v
      → m.int v ≡ m.binary (m.int a) op (m.int b)
  known {op} {k} a b {v} {w} e h g =
      let o : op ≡ k = ground (arith, e) in
      let same : w ≡ v = cc in
      ap m.int (sym same) ∙ sym h ∙ ap (λ i. m.binary (m.int a) i (m.int b)) (sym o)

  -- A folded operator is the operator on its literals.
  fold_op-binary :
      (op : ℕ) (a b v : ℤ) → fold_op c op a b ≡ some v → m.int v ≡ m.binary (m.int a) op (m.int b)
  unfolding fold_op
  fold_op-binary op a b v h = elim (Bool-cases (op == 1)) [
    | inl e ↦ known a b e (m.plus a b) (rw e at h)
    | inr e₁ ↦
        let h₁ = rw e₁ at h in
        elim (Bool-cases (op == 2)) [
          | inl e ↦ known a b e (m.minus a b) (rw e at h₁)
          | inr e₂ ↦
              let h₂ = rw e₂ at h₁ in
              elim (Bool-cases (op == 3)) [
                | inl e ↦ known a b e (m.times a b) (rw e at h₂)
                | inr e₃ ↦
                    let h₃ = rw e₃ at h₂ in
                    elim (Bool-cases (is_zero b)) [
                      | inl z ↦ absurd (impossible (op == 4) (op == 5) (rw z at h₃))
                      | inr z ↦
                          let h₄ = rw z at h₃ in
                          elim (Bool-cases (op == 4)) [
                            | inl e ↦ known a b e (m.over a b z) (rw e at h₄)
                            | inr e₄ ↦
                                let h₅ = rw e₄ at h₄ in
                                elim (Bool-cases (op == 5)) [
                                  | inl e ↦
                                      known a b e
                                        (m.modulo a b z ∙ ap m.int (sym (r.quotient_law a b z)))
                                        (rw e at h₅)
                                  | inr e ↦ absurd (let no : none ≡ some v = rw e at h₅ in cc)
                                ]
                          ]
                    ]
              ]
        ]
  ]
    where
      impossible : (p q : Bool) → (if p then none else if q then none else none) ≡ some v → ⊥
      impossible true q e = cc
      impossible false true e = cc
      impossible false false e = cc

  fold_literals-eval :
      (op : ℕ) (a b : ℤ)
      → eval (elim (fold_op c op a b) [ none ↦ binary (int a) op (int b) | some v ↦ int v ])
        ≡ m.binary (m.int a) op (m.int b)
  unfolding eval
  fold_literals-eval op a b = elim (Option-cases (fold_op c op a b)) [
    | inl e ↦ rw e
    | inr (v, e) ↦ rw e (fold_op-binary op a b v e)
  ]

  fold_binary-eval :
      (x : Expr) (op : ℕ) (y : Expr) → eval (fold_binary c x op y) ≡ m.binary (eval x) op (eval y)
  unfolding fold_binary eval
  fold_binary-eval (int a) op (int b) = fold_literals-eval op a b
  fold_binary-eval (int a) op (binary y k z) = refl
  fold_binary-eval (int a) op (comp y k z) = refl
  fold_binary-eval (int a) op (logical y k z) = refl
  fold_binary-eval (int a) op (call f args) = refl
  fold_binary-eval (int a) op (unary k y) = refl
  fold_binary-eval (int a) op (list_lit ys) = refl
  fold_binary-eval (int a) op (other v) = refl
  fold_binary-eval (binary x k z) op y = refl
  fold_binary-eval (comp x k z) op y = refl
  fold_binary-eval (logical x k z) op y = refl
  fold_binary-eval (call f args) op y = refl
  fold_binary-eval (unary k x) op y = refl
  fold_binary-eval (list_lit xs) op y = refl
  fold_binary-eval (other v) op y = refl

  mutual
    unfolding opt_fold_expr eval

    fold_expr-eval : (x : Expr) → eval (opt_fold_expr c x) ≡ eval x
    fold_expr-eval (int n) = refl
    fold_expr-eval (binary x op y) =
        fold_binary-eval (opt_fold_expr c x) op (opt_fold_expr c y)
        ∙ ap₂ (λ a b. m.binary a op b) (fold_expr-eval x) (fold_expr-eval y)
    fold_expr-eval (comp x op y) = ap₂ (λ a b. m.comp a op b) (fold_expr-eval x) (fold_expr-eval y)
    fold_expr-eval (logical x op y) =
        ap₂ (λ a b. m.logical a op b) (fold_expr-eval x) (fold_expr-eval y)
    fold_expr-eval (call f args) = ap (m.call f) (fold_exprs-eval args)
    fold_expr-eval (unary k x) = ap (m.unary k) (fold_expr-eval x)
    fold_expr-eval (list_lit xs) = ap m.list_lit (fold_exprs-eval xs)
    fold_expr-eval (other v) = refl

    fold_exprs-eval : (xs : Exprs) → eval_all (fold_exprs c xs) ≡ eval_all xs
    fold_exprs-eval end = refl
    fold_exprs-eval (item x xs) = ap₂ m.item (fold_expr-eval x) (fold_exprs-eval xs)

  mutual
    unfolding opt_fold_stmts exec

    fold_stmt-exec : (s : Stmt) → exec (opt_fold_stmt c s) ≡ exec s
    fold_stmt-exec (set_node x e) = ap (m.set_node x) (fold_expr-eval e)
    fold_stmt-exec (return_node e) = ap m.return_node (fold_expr-eval e)
    fold_stmt-exec (display e) = ap m.display (fold_expr-eval e)
    fold_stmt-exec (expr_stmt e) = ap m.expr_stmt (fold_expr-eval e)
    fold_stmt-exec (if_node e t f) =
        ap₂ (λ a b. m.if_node a b (exec_branch (fold_branch c f))) (fold_expr-eval e)
          (fold_stmts-exec t)
        ∙ ap (m.if_node (eval e) (exec_all t)) (fold_branch-exec f)
    fold_stmt-exec (repeat_while e b) = ap₂ m.repeat_while (fold_expr-eval e) (fold_stmts-exec b)
    fold_stmt-exec (send ch e) = ap (m.send ch) (fold_expr-eval e)
    fold_stmt-exec (for_each x e b) = ap₂ (m.for_each x) (fold_expr-eval e) (fold_stmts-exec b)
    fold_stmt-exec (match e arms) = ap (m.match (eval e)) (fold_arms-exec arms)
    fold_stmt-exec (other_stmt v) = refl

    fold_stmts-exec : (ss : Stmts) → exec_all (opt_fold_stmts c ss) ≡ exec_all ss
    fold_stmts-exec done = refl
    fold_stmts-exec (next s ss) = ap₂ m.next (fold_stmt-exec s) (fold_stmts-exec ss)

    fold_branch-exec : (f : Branch) → exec_branch (fold_branch c f) ≡ exec_branch f
    fold_branch-exec missing = refl
    fold_branch-exec (otherwise ss) = fold_stmts-exec ss

    fold_arms-exec : (arms : Arms) → exec_arms (fold_arms c arms) ≡ exec_arms arms
    fold_arms-exec no_arms = refl
    fold_arms-exec (arm v w b k arms) =
        ap₂ (λ s t. m.arm v w s k t) (fold_stmts-exec b) (fold_arms-exec arms)

  -- The meaning of a program: that of every body, with the other cells.
  unfoldable pub bodies : List Callable → List (Value × m.Ss)
  unfolding exec
  bodies fs = map (λ f. (f.head, exec_all f.body)) fs

  unfoldable pub method_bodies : Option (List Callable) → Option (List (Value × m.Ss))
  unfolding bodies
  method_bodies none = none
  method_bodies (some fs) = some (bodies fs)

  unfoldable pub run : Program → Value × List (Value × m.Ss) × Option (List (Value × m.Ss))
  unfolding bodies method_bodies
  run p = (p.rest, bodies p.funcs, method_bodies p.methods)

  fold_callable-bodies : (fs : List Callable) → bodies (map (fold_callable c) fs) ≡ bodies fs
  unfolding bodies fold_callable
  fold_callable-bodies [] = refl
  fold_callable-bodies (f ∷ fs) =
      ap₂ (λ b bs. (f.head, b) ∷ bs) (fold_stmts-exec f.body) (fold_callable-bodies fs)

  fold_methods-bodies :
      (ms : Option (List Callable)) → method_bodies (fold_methods c ms) ≡ method_bodies ms
  unfolding fold_methods method_bodies
  fold_methods-bodies none = refl
  fold_methods-bodies (some fs) = ap some (fold_callable-bodies fs)

  -- `optimize_program` keeps the meaning of every function and method, for every meaning that is
  -- built up from those of the parts and in which the operators 1 to 5 on two literals, with no
  -- divisor 0, are +, -, *, / and % of C.
  pub optimize_program-run : (p : Program) → run (optimize_program c p) ≡ run p
  unfolding run optimize_program
  optimize_program-run p =
      ap₂ (λ fs ms. (p.rest, fs, ms)) (fold_callable-bodies p.funcs) (fold_methods-bodies p.methods)
