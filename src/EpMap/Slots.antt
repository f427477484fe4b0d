-- ===== src/EpMap/Slots.antt =====
-- The slots of a table, and how many of them are used.
use ern_os.Base.{
  ℕ, zero, suc, ◌≤◌, ◌<◌, ◌≡◌, ◌⊎◌, refl, sym, ap, ◌∙◌, inl, inr, Option, none, some, List, [], ◌∷◌,
  arith, length, set, replicate,
}
use ern_os.EpMap.{Entry, slot}

-- A table that is used at a position, and one that holds a key with a value.
abbrev pub Used : List (Option Entry) → ℕ → Type 0
Used es i = (e : Entry) × (slot es i ≡ some e)

pub Used-or-free : (es : List (Option Entry)) (i : ℕ) → Used es i ⊎ (slot es i ≡ none)
Used-or-free es i = go (slot es i) refl
  where
    go : (o : Option Entry) → slot es i ≡ o → Used es i ⊎ (slot es i ≡ none)
    go none h = inr h
    go (some e) h = inl (e, h)

pub some-not-none : {e : Entry} → some e ≡ none → ⊥
some-not-none h = cc

pub not_free : {o : Option Entry} → (e : Entry) × (o ≡ some e) → o ≡ none → ⊥
not_free (e, h) k = some-not-none (sym h ∙ k)

pub Used-lt : (es : List (Option Entry)) (i : ℕ) → Used es i → i < length es
Used-lt [] i u = absurd (not_free u refl)
Used-lt (o ∷ es) zero u = omega arith
Used-lt (o ∷ es) (suc i) u = omega (arith, Used-lt es i u)

abbrev pub count : List (Option Entry) → ℕ
count [] = 0
count (none ∷ es) = count es
count (some e ∷ es) = suc (count es)

pub count-le : (es : List (Option Entry)) → count es ≤ length es
count-le [] = omega arith
count-le (none ∷ es) = omega (arith, count-le es)
count-le (some e ∷ es) = omega (arith, count-le es)

-- A table that is not full has a free slot.
pub room-free :
    (es : List (Option Entry))
    → count es < length es
    → (i : ℕ) × (i < length es) × (slot es i ≡ none)
room-free [] h = absurd (omega arith)
room-free (none ∷ es) h = (0, omega arith, refl)
room-free (some e ∷ es) h = let (i, l, k) = room-free es (omega arith) in (suc i, omega arith, k)

pub count-set_free :
    (es : List (Option Entry)) (i : ℕ) (e : Entry)
    → i < length es
    → slot es i ≡ none
    → count (set es i (some e)) ≡ suc (count es)
count-set_free [] i e l h = absurd (omega arith)
count-set_free (none ∷ es) zero e l h = refl
count-set_free (some x ∷ es) zero e l h = absurd (some-not-none h)
count-set_free (none ∷ es) (suc i) e l h = count-set_free es i e (omega arith) h
count-set_free (some x ∷ es) (suc i) e l h = ap suc (count-set_free es i e (omega arith) h)

pub count-set-Used :
    (es : List (Option Entry)) (i : ℕ) (e : Entry)
    → Used es i
    → count (set es i (some e)) ≡ count es
count-set-Used [] i e u = refl
count-set-Used (none ∷ es) zero e u = absurd (not_free u refl)
count-set-Used (some x ∷ es) zero e u = refl
count-set-Used (none ∷ es) (suc i) e u = count-set-Used es i e u
count-set-Used (some x ∷ es) (suc i) e u = ap suc (count-set-Used es i e u)

pub count-clear :
    (es : List (Option Entry)) (i : ℕ) → Used es i → suc (count (set es i none)) ≡ count es
count-clear [] i u = absurd (not_free u refl)
count-clear (none ∷ es) zero u = absurd (not_free u refl)
count-clear (some x ∷ es) zero u = refl
count-clear (none ∷ es) (suc i) u = count-clear es i u
count-clear (some x ∷ es) (suc i) u = ap suc (count-clear es i u)

pub count-replicate : (n : ℕ) → count (replicate n none) ≡ 0
count-replicate zero = refl
count-replicate (suc n) = count-replicate n

pub slot-replicate : (n i : ℕ) → slot (replicate n none) i ≡ none
slot-replicate zero i = refl
slot-replicate (suc n) zero = refl
slot-replicate (suc n) (suc i) = slot-replicate n i
