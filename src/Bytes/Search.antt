-- ===== src/Bytes/Search.antt =====
-- string_index_of and string_contains, over `strstr`.
use ern_os.Base.{
  ℕ, suc, ◌≤◌, ◌≡◌, refl, sym, ◌∙◌, ap, ◌⊎◌, inl, inr, Bool, true, false, ◌&&◌, Option, none, some,
  [], ◌∷◌, ◌++◌, arith, ◌==◌, ==_iff, ==_refl, Bool-cases, if◌then◌else◌, length, drop,
}
use ern_os.Base.Int.{ℤ, pos, negsuc}
use ern_os.Bytes.{Bytes, Ptr}

-- `strncmp(s, sub, strlen(sub)) == 0`
unfoldable pub starts_with : Bytes → Bytes → Bool
starts_with s [] = true
starts_with [] (b ∷ sub) = false
starts_with (c ∷ s) (b ∷ sub) = c == b && starts_with s sub

-- The offset of the first occurrence, as `strstr` finds it.
unfoldable pub strstr : Bytes → Bytes → Option ℕ
strstr [] sub = if starts_with [] sub then some 0 else none
strstr (c ∷ s) sub =
    let later : Option ℕ = elim (strstr s sub) [ none ↦ none | some k ↦ some (suc k) ] in
    if starts_with (c ∷ s) sub then some 0 else later

unfoldable pub string_contains : Ptr → Ptr → ℕ
string_contains none sub = 0
string_contains (some s) none = 0
string_contains (some s) (some sub) = elim (strstr s sub) [ none ↦ 0 | some k ↦ 1 ]

unfoldable pub string_index_of : Ptr → Ptr → ℤ
string_index_of none sub = negsuc 0
string_index_of (some s) none = negsuc 0
string_index_of (some s) (some sub) = elim (strstr s sub) [ none ↦ negsuc 0 | some k ↦ pos k ]

-- `sub` stands in `s` from offset `k` on.
abbrev pub OccursAt : Bytes → Bytes → ℕ → Type 0
OccursAt s sub k = (a : Bytes) × (b : Bytes) × (s ≡ a ++ (sub ++ b)) × (length a ≡ k)

pub starts_with-append : (sub b : Bytes) → starts_with (sub ++ b) sub ≡ true
unfolding starts_with
starts_with-append [] b = refl
starts_with-append (c ∷ sub) b = rw (==_refl c) (starts_with-append sub b)

pub starts_with-split : (s sub : Bytes) → starts_with s sub ≡ true → s ≡ sub ++ drop (length sub) s
unfolding starts_with
starts_with-split s [] h = refl
starts_with-split [] (b ∷ sub) h = cc
starts_with-split (c ∷ s) (b ∷ sub) h = elim (Bool-cases (c == b)) [
  | inr e ↦ cc (rw e at h)
  | inl e ↦
      let same : c ≡ b = (==_iff c b).0 e in
      let rest = starts_with-split s sub (rw e at h) in λ i. same i ∷ rest i
]

-- Without a match at the start, an occurrence lies in the rest.
occurs_later :
    (c : ℕ) (s sub : Bytes) (k : ℕ)
    → starts_with (c ∷ s) sub ≡ false
    → OccursAt (c ∷ s) sub k
    → (j : ℕ) × (k ≡ suc j) × OccursAt s sub j
occurs_later c s sub k h ([], b, e, n) =
    absurd (cc (sym h ∙ ap (λ t. starts_with t sub) e ∙ starts_with-append sub b))
occurs_later c s sub k h (d ∷ a, b, e, n) = (length a, sym n, (a, b, ap tail_of e, refl))
  where
    tail_of : Bytes → Bytes
    tail_of [] = []
    tail_of (x ∷ xs) = xs

pub strstr-first :
    (s sub : Bytes)
    → ((k : ℕ) × (strstr s sub ≡ some k) × OccursAt s sub k × ((j : ℕ) → OccursAt s sub j → k ≤ j))
      ⊎ ((strstr s sub ≡ none) × ((j : ℕ) → OccursAt s sub j → ⊥))
unfolding strstr
strstr-first [] sub = elim (Bool-cases (starts_with [] sub)) [
  | inl e ↦ inl (0, rw e, ([], _, starts_with-split [] sub e, refl), λ j o. omega arith)
  | inr e ↦ inr (rw e, λ j o. empty_occurs sub j e o)
]
  where
    empty_occurs : (sub : Bytes) (j : ℕ) → starts_with [] sub ≡ false → OccursAt [] sub j → ⊥
    empty_occurs sub j h ([], b, e, n) =
        cc (sym h ∙ ap (λ t. starts_with t sub) e ∙ starts_with-append sub b)
    empty_occurs sub j h (d ∷ a, b, e, n) = cc e
strstr-first (c ∷ s) sub = elim (Bool-cases (starts_with (c ∷ s) sub)) [
  | inl e ↦ inl (0, rw e, ([], _, starts_with-split (c ∷ s) sub e, refl), λ j o. omega arith)
  | inr e ↦ elim (strstr-first s sub) [
    | inl (k, f, (a, b, g, n), first) ↦ inl (
      suc k,
      rw (e, f),
      (c ∷ a, b, ap (λ t. c ∷ t) g, ap suc n),
      λ j o. (let (i, p, o') = occurs_later c s sub j e o in omega (arith, first i o')),
    )
    | inr (f, never) ↦
        inr (rw (e, f), λ j o. (let (i, p, o') = occurs_later c s sub j e o in never i o'))
  ]
]

-- What string_index_of and string_contains answer for `sub` in `s`.
abbrev pub Answers : Bytes → Bytes → Type 0
Answers s sub =
    ((k : ℕ) × (string_index_of (some s) (some sub) ≡ pos k)
      × (string_contains (some s) (some sub) ≡ 1)
      × OccursAt s sub k
      × ((j : ℕ) → OccursAt s sub j → k ≤ j))
    ⊎ ((string_index_of (some s) (some sub) ≡ negsuc 0)
        × (string_contains (some s) (some sub) ≡ 0)
        × ((j : ℕ) → OccursAt s sub j → ⊥))

-- Where the text occurs in the other, string_index_of gives the offset of its first occurrence
-- and string_contains 1; where it does not, they give -1 and 0.
pub string_index_of-Answers : (s sub : Bytes) → Answers s sub
unfolding string_index_of string_contains
string_index_of-Answers s sub = elim (strstr-first s sub) [
  | inl (k, e, o, first) ↦ inl (k, rw (e, string_index_of), rw (e, string_contains), o, first)
  | inr (e, never) ↦ inr (rw (e, string_index_of), rw (e, string_contains), never)
]
