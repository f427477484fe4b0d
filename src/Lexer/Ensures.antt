-- ===== src/Lexer/Ensures.antt =====
-- Total correctness of a part of the lexer: it does not run out of fuel, and its result, where it
-- has one, satisfies a predicate.
use ern_os.Base.{◌≡◌, refl, Bool, true, false, if◌then◌else◌}
use ern_os.Lexer.{Outcome, ok, err, ◌>>=◌}

pub data Ensures {ℓ κ} {A : Type ℓ} (P : A → Type κ) : Outcome A → Type (ℓ ⊔ κ) where
  done : {a : A} → P a → Ensures P (ok a)
  failed : Ensures P err

module _ {ℓ κ} {A : Type ℓ} {P : A → Type κ} where
  pub Ensures-if :
      (c : Bool) {x y : Outcome A}
      → (c ≡ true → Ensures P x)
      → (c ≡ false → Ensures P y)
      → Ensures P (if c then x else y)
  Ensures-if true h k = h refl
  Ensures-if false h k = k refl

  pub Ensures-ok : {a : A} → Ensures P (ok a) → P a
  Ensures-ok (done h) = h

  pub Ensures-map {ι} :
      {Q : A → Type ι} {m : Outcome A} → Ensures P m → ((a : A) → P a → Q a) → Ensures Q m
  Ensures-map (done {a = a} h) k = done (k a h)
  Ensures-map failed k = failed

  pub Ensures-bind {μ ι} :
      {B : Type μ} {Q : B → Type ι} {m : Outcome A} {f : A → Outcome B}
      → Ensures P m
      → ((a : A) → P a → Ensures Q (f a))
      → Ensures Q (m >>= f)
  Ensures-bind (done {a = a} h) k = k a h
  Ensures-bind failed k = failed
