-- ===== src/Bytes/Split.antt =====
-- string_split, and what its parts are.
use ern_os.Base.{
  ℕ, zero, suc, ◌+◌, ◌≤◌, ◌<◌, ◌≡◌, refl, sym, ◌∙◌, ap, inl, inr, false, Option-cases, length-take,
  none, some, List, [], ◌∷◌, ◌++◌, append_assoc, arith, ◌==◌, if◌then◌else◌, length, take, drop,
  length-append, take-append-drop,
}
use ern_os.Bytes.{Bytes, Ptr}
use ern_os.Bytes.Search.{strstr, strstr-first, OccursAt}

-- The loop from `p` on, with fuel: the part up to the delimiter, then the rest behind it.
unfoldable pub split_from : ℕ → Bytes → Bytes → List Bytes
split_from zero d p = []
split_from (suc f) d p = elim (strstr p d) [
  | none ↦ p ∷ []
  | some k ↦ take k p ∷ split_from f d (drop (k + length d) p)
]

unfoldable pub string_split : Ptr → Ptr → List Bytes
unfolding split_from
string_split none d = []
string_split (some s) none = []
string_split (some s) (some d) = if length d == 0 then s ∷ [] else split_from (length s + 1) d s

-- The parts with a text between them.
unfoldable pub join : Bytes → List Bytes → Bytes
join d [] = []
join d (x ∷ []) = x
join d (x ∷ y ∷ xs) = x ++ (d ++ join d (y ∷ xs))

abbrev pub Each : (Bytes → Type 0) → List Bytes → Type 0
Each P [] = Unit {0}
Each P (x ∷ xs) = P x × Each P xs

pub take-length : (a b : Bytes) → take (length a) (a ++ b) ≡ a
take-length [] b = refl
take-length (c ∷ a) b = ap (λ r. c ∷ r) (take-length a b)

pub drop-length : (a b : Bytes) → drop (length a) (a ++ b) ≡ b
drop-length [] b = refl
drop-length (c ∷ a) b = drop-length a b

drop-drop : (n m : ℕ) (s : Bytes) → drop (n + m) s ≡ drop m (drop n s)
drop-drop zero m s = ap (λ k. drop k s) (let e : 0 + m ≡ m = omega arith in e)
drop-drop (suc n) m [] = drop_nil (suc n + m) ∙ sym (drop_nil m)
  where
    drop_nil : (k : ℕ) → drop {A = ℕ} k [] ≡ []
    drop_nil zero = refl
    drop_nil (suc k) = refl
drop-drop (suc n) m (c ∷ s) =
    ap (λ k. drop k (c ∷ s)) (let e : suc n + m ≡ suc (n + m) = omega arith in e) ∙ drop-drop n m s

some_eq : (a b : ℕ) → some a ≡ some b → a ≡ b
some_eq a b e = cc

-- What a found delimiter cuts the text into.
pub record Cut (p d : Bytes) (k : ℕ) : Type 0 where
  pub whole : p ≡ take k p ++ (d ++ drop (k + length d) p)
  pub shorter : k + length d + length (drop (k + length d) p) ≡ length p
  pub first : (j : ℕ) → OccursAt p d j → k ≤ j

pub cut : (p d : Bytes) (k : ℕ) → strstr p d ≡ some k → Cut p d k
cut p d k h = elim (strstr-first p d) [
  | inr (e, never) ↦ cc (sym h ∙ e)
  | inl (k', e, (a, b, whole, n), first) ↦
      let same : k' ≡ k = some_eq k' k (sym e ∙ h) in
      let at : length a ≡ k = n ∙ same in
      let front : take k p ≡ a =
        ap (λ j. take j p) (sym at) ∙ ap (take (length a)) whole ∙ take-length a (d ++ b) in
      let back : drop (k + length d) p ≡ b =
        drop-drop k (length d) p
        ∙ ap (λ j. drop (length d) (drop j p)) (sym at)
        ∙ ap (λ t. drop (length d) (drop (length a) t)) whole
        ∙ ap (drop (length d)) (drop-length a (d ++ b))
        ∙ drop-length d b in
      record {
        whole = whole ∙ sym (λ i. front i ++ (d ++ back i));
        shorter =
            omega
              (arith, ap length back, ap length whole, length-append a (d ++ b), length-append d b);
        first = λ j o. omega (arith, first j o);
      }
]

pub join-cons :
    (d x : Bytes) (xs : List Bytes) → 0 < length xs → join d (x ∷ xs) ≡ x ++ (d ++ join d xs)
unfolding join
join-cons d x [] h = absurd (omega arith)
join-cons d x (y ∷ xs) h = refl

pub split_from-some :
    (f : ℕ) (d p : Bytes) (k : ℕ)
    → strstr p d ≡ some k
    → split_from (suc f) d p ≡ take k p ∷ split_from f d (drop (k + length d) p)
unfolding split_from
split_from-some f d p k e = rw (e, split_from)

pub split_from-none : (f : ℕ) (d p : Bytes) → strstr p d ≡ none → split_from (suc f) d p ≡ p ∷ []
unfolding split_from
split_from-none f d p e = rw (e, split_from)

pub split_from-nonempty : (f : ℕ) (d p : Bytes) → 0 < f → 0 < length (split_from f d p)
split_from-nonempty zero d p h = elim h [ ]
split_from-nonempty (suc f) d p h = elim (Option-cases (strstr p d)) [
  | inl e ↦ rw (split_from-none f d p e) (omega arith)
  | inr (k, e) ↦ rw (split_from-some f d p k e) (omega arith)
]

join-split_from :
    (f : ℕ) (d p : Bytes) → 0 < length d → length p < f → join d (split_from f d p) ≡ p
join-split_from zero d p n h = elim h [ ]
join-split_from (suc f) d p n h = elim (Option-cases (strstr p d)) [
  | inl e ↦ ap (join d) (split_from-none f d p e) ∙ unfold join in refl
  | inr (k, e) ↦
      let c = cut p d k e in
      let rest = drop (k + length d) p in
      let fewer : length rest < f = omega (arith, c.shorter) in
      ap (join d) (split_from-some f d p k e)
      ∙ join-cons d (take k p) (split_from f d rest) (split_from-nonempty f d rest (omega arith))
      ∙ ap (λ r. take k p ++ (d ++ r)) (join-split_from f d rest n fewer)
      ∙ sym c.whole
]

-- An occurrence in a front part is one in the whole, and ends before the cut.
occurs_in_front :
    (k : ℕ) (p d : Bytes) (j : ℕ)
    → k ≤ length p
    → OccursAt (take k p) d j
    → OccursAt p d j × (j + length d ≤ k)
occurs_in_front k p d j h (a, b, e, n) = (
  (
    a,
    b ++ drop k p,
    sym (take-append-drop k p)
        ∙ ap (λ t. t ++ drop k p) e
        ∙ append_assoc a (d ++ b) (drop k p)
        ∙ ap (λ t. a ++ t) (append_assoc d b (drop k p)),
    n,
  ),
  omega (arith, ap length e, length-append a (d ++ b), length-append d b, length-take k p),
)

abbrev pub Lacks : Bytes → Bytes → Type 0
Lacks d x = (j : ℕ) → OccursAt x d j → ⊥

split_from-Lacks : (f : ℕ) (d p : Bytes) → 0 < length d → Each (Lacks d) (split_from f d p)
split_from-Lacks zero d p n = unfold split_from in tt
split_from-Lacks (suc f) d p n = elim (Option-cases (strstr p d)) [
  | inl e ↦ rw (split_from-none f d p e) (elim (strstr-first p d) [
    | inl (k, g, o, first) ↦ cc (sym e ∙ g)
    | inr (g, never) ↦ (never, tt)
  ])
  | inr (k, e) ↦
      let c = cut p d k e in
      rw (split_from-some f d p k e) (
        λ j o.
            let (o', fits) = occurs_in_front k p d j (omega (arith, c.shorter)) o in
            omega (arith, c.first j o'),
        split_from-Lacks f d (drop (k + length d) p) n,
      )
]

-- For a delimiter that is not empty, string_split loses nothing: the parts joined by the
-- delimiter are the text, and no part contains the delimiter.
pub join-string_split :
    (s d : Bytes)
    → 0 < length d
    → (join d (string_split (some s) (some d)) ≡ s)
      × Each (Lacks d) (string_split (some s) (some d))
unfolding string_split
join-string_split s d n =
    let e : (length d == 0) ≡ false = ground arith in
    rw e (join-split_from (length s + 1) d s n (omega arith), split_from-Lacks (length s + 1) d s n)
