-- ===== src/Fold.antt =====
-- The optimiser of the compiler: opt_fold_expr, opt_fold_stmts and optimize_program of
-- toolchain/epc_bootstrap.c. They replace the children of a node in place by set_list; no node
-- has two parents, so the tree afterwards is the one that the functions here return.
pub mod Meaning
pub mod Stable
pub mod Constants
mod Tests
use ern_os.Base.{
  ℕ, zero, suc, Bool, true, false, Option, none, some, List, [], ◌∷◌, ◌==◌, if◌then◌else◌, map,
}
use ern_os.Base.Int.{ℤ, pos, negsuc}
use ern_os.Ast.{Value}

-- The nodes with one child that is folded: receive, await, not, try.
pub data Unary : Type 0 where
  receive await unary_not try : Unary

-- Expressions by the kinds of their nodes. What the folding leaves as it is, a missing node too,
-- is `other`.
mutual
  pub data Expr : Type 0 where
    int : ℤ → Expr
    binary : Expr → ℕ → Expr → Expr
    comp : Expr → ℕ → Expr → Expr
    logical : Expr → ℕ → Expr → Expr
    call : Value → Exprs → Expr
    unary : Unary → Expr → Expr
    list_lit : Exprs → Expr
    other : Value → Expr

  pub data Exprs : Type 0 where
    end : Exprs
    item : Expr → Exprs → Exprs

-- Statements. `otherwise` is missing where the cell of the else branch is 0; a node that the loop
-- passes over is `other_stmt`.
mutual
  pub data Stmt : Type 0 where
    set_node : Value → Expr → Stmt
    return_node : Expr → Stmt
    display : Expr → Stmt
    expr_stmt : Expr → Stmt
    if_node : Expr → Stmts → Branch → Stmt
    repeat_while : Expr → Stmts → Stmt
    send : Value → Expr → Stmt
    for_each : Value → Expr → Stmts → Stmt
    match : Expr → Arms → Stmt
    other_stmt : Value → Stmt

  pub data Stmts : Type 0 where
    done : Stmts
    next : Stmt → Stmts → Stmts

  pub data Branch : Type 0 where
    missing : Branch
    otherwise : Stmts → Branch

  -- An arm by its name, bindings, body and kind.
  pub data Arms : Type 0 where
    no_arms : Arms
    arm : Value → Value → Stmts → Value → Arms → Arms

-- A function and a method by its body and the other cells; the cell of the methods may be missing.
pub record Callable : Type 0 where
  pub head : Value
  pub body : Stmts

pub record Program : Type 0 where
  pub rest : Value
  pub funcs : List Callable
  pub methods : Option (List Callable)

-- The operators of C on `long long`, the same ones when the compiler runs as in the code that it
-- makes. Dividing by 0 is undefined, and so is overflow; for what C does there nothing is assumed.
pub record Longs : Type 0 where
  pub add : ℤ → ℤ → ℤ
  pub sub : ℤ → ℤ → ℤ
  pub mul : ℤ → ℤ → ℤ
  pub div : ℤ → ℤ → ℤ

-- `rv == 0`
unfoldable pub is_zero : ℤ → Bool
is_zero (pos n) = n == 0
is_zero (negsuc n) = false

module _ (c : Longs) where
  -- The operators 1 to 5 on numbers; a division by 0 stays.
  unfoldable pub fold_op : ℕ → ℤ → ℤ → Option ℤ
  unfolding is_zero
  fold_op op lv rv =
      if op == 1
      then some (c.add lv rv)
      else if op == 2
      then some (c.sub lv rv)
      else if op == 3
      then some (c.mul lv rv)
      else if op == 4
      then (if is_zero rv then none else some (c.div lv rv))
      else if op == 5
      then (if is_zero rv then none else some (c.sub lv (c.mul (c.div lv rv) rv)))
      else none

  -- The folded node of a binary one with folded children.
  unfoldable pub fold_binary : Expr → ℕ → Expr → Expr
  unfolding fold_op
  fold_binary (int lv) op (int rv) = elim (fold_op op lv rv) [
    | none ↦ binary (int lv) op (int rv)
    | some v ↦ int v
  ]
  fold_binary left op right = binary left op right

  unfoldable mutual
    unfolding fold_binary

    pub opt_fold_expr : Expr → Expr
    opt_fold_expr (int n) = int n
    opt_fold_expr (binary l op r) = fold_binary (opt_fold_expr l) op (opt_fold_expr r)
    opt_fold_expr (comp l op r) = comp (opt_fold_expr l) op (opt_fold_expr r)
    opt_fold_expr (logical l op r) = logical (opt_fold_expr l) op (opt_fold_expr r)
    opt_fold_expr (call f args) = call f (fold_exprs args)
    opt_fold_expr (unary k e) = unary k (opt_fold_expr e)
    opt_fold_expr (list_lit es) = list_lit (fold_exprs es)
    opt_fold_expr (other v) = other v

    -- The loops over arguments and elements.
    pub fold_exprs : Exprs → Exprs
    fold_exprs end = end
    fold_exprs (item e es) = item (opt_fold_expr e) (fold_exprs es)

  unfoldable mutual
    unfolding opt_fold_expr

    pub opt_fold_stmt : Stmt → Stmt
    opt_fold_stmt (set_node x e) = set_node x (opt_fold_expr e)
    opt_fold_stmt (return_node e) = return_node (opt_fold_expr e)
    opt_fold_stmt (display e) = display (opt_fold_expr e)
    opt_fold_stmt (expr_stmt e) = expr_stmt (opt_fold_expr e)
    opt_fold_stmt (if_node e t f) = if_node (opt_fold_expr e) (opt_fold_stmts t) (fold_branch f)
    opt_fold_stmt (repeat_while e b) = repeat_while (opt_fold_expr e) (opt_fold_stmts b)
    opt_fold_stmt (send ch e) = send ch (opt_fold_expr e)
    opt_fold_stmt (for_each x e b) = for_each x (opt_fold_expr e) (opt_fold_stmts b)
    opt_fold_stmt (match e arms) = match e (fold_arms arms)
    opt_fold_stmt (other_stmt v) = other_stmt v

    pub opt_fold_stmts : Stmts → Stmts
    opt_fold_stmts done = done
    opt_fold_stmts (next s ss) = next (opt_fold_stmt s) (opt_fold_stmts ss)

    pub fold_branch : Branch → Branch
    fold_branch missing = missing
    fold_branch (otherwise ss) = otherwise (opt_fold_stmts ss)

    pub fold_arms : Arms → Arms
    fold_arms no_arms = no_arms
    fold_arms (arm v w b k arms) = arm v w (opt_fold_stmts b) k (fold_arms arms)

  unfoldable pub fold_callable : Callable → Callable
  unfolding opt_fold_stmts
  fold_callable f = record f { body = opt_fold_stmts f.body }

  -- The loop over the methods, where the program has them.
  unfoldable pub fold_methods : Option (List Callable) → Option (List Callable)
  unfolding fold_callable
  fold_methods none = none
  fold_methods (some fs) = some (map fold_callable fs)

  unfoldable pub optimize_program : Program → Program
  unfolding fold_callable fold_methods
  optimize_program p = record p {
    funcs = map fold_callable p.funcs;
    methods = fold_methods p.methods;
  }
