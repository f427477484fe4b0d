-- ===== src/Fold/Tests.antt =====
-- The folding at concrete inputs, with the integers for `long long`.
use ern_os.Base.{
  ℕ, suc, ◌/◌, ◌≡◌, ◌↔◌, refl, Option, none, some, List, [], ◌∷◌, ◌++◌, ◌==◌, if◌then◌else◌,
}
use ern_os.Base.Int.{ℤ, pos, negsuc, ◌+ℤ◌, ◌-ℤ◌, ◌*ℤ◌, sub_ℕ}
use ern_os.Bytes.{codes}
use ern_os.Ast.{num, str}
use ern_os.Fold.{
  Expr, int, binary, comp, display, if_node, done, next, otherwise, Program, Longs, is_zero,
  opt_fold_expr, optimize_program,
}
use ern_os.Fold.Meaning.{Remainder, Meaning, run, optimize_program-run}
use ern_os.Fold.Constants.{Constant, opt_fold_expr-Constant}

-- The quotient of C, which is cut off towards 0.
abbrev quot : ℤ → ℤ → ℤ
quot (pos a) (pos b) = pos (a / b)
quot (pos a) (negsuc b) = sub_ℕ 0 (a / suc b)
quot (negsuc a) (pos b) = sub_ℕ 0 (suc a / b)
quot (negsuc a) (negsuc b) = pos (suc a / suc b)

abbrev exact : Longs
exact = record { add = λ a b. a +ℤ b; sub = λ a b. a -ℤ b; mul = λ a b. a *ℤ b; div = quot }

abbrev exact_rem : Remainder exact
exact_rem = record { rem = λ a b. a -ℤ quot a b *ℤ b; quotient_law = λ a b z. refl }

-- The operator of the generated code, and nothing where it traps.
abbrev operator : ℕ → ℤ → ℤ → Option ℤ
operator op a b =
    if op == 1
    then some (a +ℤ b)
    else if op == 2
    then some (a -ℤ b)
    else if op == 3
    then some (a *ℤ b)
    else if is_zero b
    then none
    else if op == 4
    then some (quot a b)
    else if op == 5
    then some (a -ℤ quot a b *ℤ b)
    else none

abbrev both : Option ℤ → ℕ → Option ℤ → Option ℤ
both (some a) op (some b) = operator op a b
both none op y = none
both (some a) op none = none

-- A meaning that shows what the display statements reach.
abbrev shown : Meaning exact exact_rem
shown = record {
  E = Option ℤ;
  Es = Unit;
  S = List (Option ℤ);
  Ss = List (Option ℤ);
  int = some;
  binary = both;
  comp = λ a op b. none;
  logical = λ a op b. none;
  call = λ f args. none;
  unary = λ k a. a;
  list_lit = λ es. none;
  other = λ v. none;
  end = tt;
  item = λ e es. tt;
  set_node = λ x e. [];
  return_node = λ e. [];
  display = λ e. e ∷ [];
  expr_stmt = λ e. [];
  if_node = λ e t f. t ++ f;
  repeat_while = λ e b. b;
  send = λ ch e. [];
  for_each = λ x e b. b;
  match = λ e b. b;
  other_stmt = λ v. [];
  done = [];
  next = λ s ss. s ++ ss;
  arm = λ v w b k bs. b ++ bs;
  plus = λ a b. refl;
  minus = λ a b. refl;
  times = λ a b. refl;
  over = λ a b z. rw z refl;
  modulo = λ a b z. rw z refl;
}

abbrev lit : ℕ → Expr
lit n = int (pos n)

-- `(2 - 5) modulo 2 + 4 / 0`
abbrev sum : Expr
sum = binary (binary (binary (lit 2) 2 (lit 5)) 5 (lit 2)) 1 (binary (lit 4) 4 (lit 0))

opt_fold_expr-sum : opt_fold_expr exact sum ≡ binary (int (negsuc 0)) 1 (binary (lit 4) 4 (lit 0))
unfolding opt_fold_expr ◌+ℤ◌ ◌-ℤ◌ ◌*ℤ◌
opt_fold_expr-sum = refl

-- `(2 - 5) modulo 2`
abbrev minus_one : Expr
minus_one = binary (binary (lit 2) 2 (lit 5)) 5 (lit 2)

opt_fold_expr-Constant_example :
    ((opt_fold_expr exact minus_one ≡ int (negsuc 0)) ↔ Constant exact minus_one (negsuc 0))
    × (opt_fold_expr exact (opt_fold_expr exact minus_one) ≡ opt_fold_expr exact minus_one)
opt_fold_expr-Constant_example = opt_fold_expr-Constant exact minus_one (negsuc 0)

abbrev sample : Program
sample = record {
  rest = num (pos 0);
  funcs =
      record {
        head = str (codes "main");
        body =
            next (display (binary (lit 2) 3 (binary (lit 3) 1 (lit 4))))
              (next (if_node (comp (lit 1) 3 sum) (next (display sum) done) (otherwise done)) done);
      }
      ∷ [];
  methods = none;
}

optimize_program-run_example : run shown (optimize_program exact sample) ≡ run shown sample
optimize_program-run_example = optimize_program-run shown sample
