-- ===== src/Bytes/Replace.antt =====
-- string_replace: the count of matches that sizes the buffer, and the loop that fills it.
use ern_os.Base.{
  ℕ, zero, suc, ◌+◌, ◌-◌, ◌*◌, ◌%◌, ◌^◌, ◌<◌, ◌≤◌, ◌≡◌, refl, sym, ◌∙◌, ap, subst, inl, inr, true,
  false, Option, Option-cases, Bool-cases, none, some, List, [], ◌∷◌, ◌++◌, arith, ◌==◌, ltb,
  lt→ltb, if◌then◌else◌, length, drop, take, length-drop, length-append,
}
use native.Mathlib.Nat.{mod-eq_of_lt}
use ern_os.Bytes.{Bytes, Ptr}
use ern_os.Bytes.Search.{starts_with, strstr}
use ern_os.Bytes.Split.{
  split_from, string_split, join, cut, split_from-some, split_from-none, split_from-nonempty,
  join-cons, join-string_split,
}
use native.Mathlib.Decide.{dec_lt}

-- `while ((p = strstr(p, old_str)) != NULL) { count++; p += old_len; }`, with fuel. `count` is an
-- int, here the number of its 32 bits; where it overflows it is taken to wrap around.
unfoldable pub count_from : ℕ → Bytes → Bytes → ℕ
count_from zero old p = 0
count_from (suc f) old p = elim (strstr p old) [
  | none ↦ 0
  | some k ↦ (count_from f old (drop (k + length old) p) + 1) % 2 ^ 32
]

-- An int as a `size_t`: a negative one is extended by its sign.
unfoldable pub as_size : ℕ → ℕ
as_size n = if ltb n (2 ^ 31) then n else n + 2 ^ 64 - 2 ^ 32

-- `while (*p)`, with fuel: the new text for a match, a byte for anything else.
unfoldable pub replace_from : ℕ → Bytes → Bytes → Bytes → Bytes
replace_from zero old new p = []
replace_from (suc f) old new [] = []
replace_from (suc f) old new (c ∷ p) =
    let hit = new ++ replace_from f old new (drop (length old) (c ∷ p)) in
    let miss = c ∷ replace_from f old new p in if starts_with (c ∷ p) old then hit else miss

-- `strlen(s) + count * (new_len - old_len)` in `size_t`, where the difference may wrap.
unfoldable pub result_len : Bytes → Bytes → Bytes → ℕ
unfolding count_from as_size
result_len s old new =
    (length s
      + as_size (count_from (length s + 1) old s) * ((length new + 2 ^ 64 - length old) % 2 ^ 64))
    % 2 ^ 64

unfoldable pub string_replace : Ptr → Ptr → Ptr → Bytes
unfolding replace_from
string_replace none old new = []
string_replace (some s) none new = s
string_replace (some s) (some old) none = s
string_replace (some s) (some old) (some new) =
    if length old == 0 then s else replace_from (length s + 1) old new s

join_one : (d x : Bytes) → join d (x ∷ []) ≡ x
unfolding join
join_one d x = refl

abbrev cons_head : ℕ → List Bytes → List Bytes
cons_head c [] = []
cons_head c (x ∷ xs) = (c ∷ x) ∷ xs

join-cons_head :
    (d : Bytes) (c : ℕ) (xs : List Bytes) → 0 < length xs → join d (cons_head c xs) ≡ c ∷ join d xs
unfolding join
join-cons_head d c [] h = absurd (omega arith)
join-cons_head d c (x ∷ []) h = refl
join-cons_head d c (x ∷ y ∷ xs) h = refl

module _ (old : Bytes) (filled : 0 < length old) where
  strstr_hit : (c : ℕ) (p : Bytes) → starts_with (c ∷ p) old ≡ true → strstr (c ∷ p) old ≡ some 0
  unfolding strstr
  strstr_hit c p h = rw h

  strstr_miss_some :
      (c : ℕ) (p : Bytes) (k : ℕ)
      → starts_with (c ∷ p) old ≡ false
      → strstr p old ≡ some k
      → strstr (c ∷ p) old ≡ some (suc k)
  unfolding strstr
  strstr_miss_some c p k h e = rw (h, e)

  strstr_miss_none :
      (c : ℕ) (p : Bytes)
      → starts_with (c ∷ p) old ≡ false
      → strstr p old ≡ none
      → strstr (c ∷ p) old ≡ none
  unfolding strstr
  strstr_miss_none c p h e = rw (h, e)

  strstr_empty : strstr [] old ≡ none
  unfolding strstr starts_with
  strstr_empty = empty_case old filled
    where
      empty_case :
          (d : Bytes)
          → 0 < length d
          → ◌≡◌ {A = Option ℕ} (if starts_with [] d then some 0 else none) none
      empty_case [] h = absurd (omega arith)
      empty_case (b ∷ d) h = refl

  -- A byte that starts no match goes to the front of the first part.
  split_from_miss :
      (f c : ℕ) (p : Bytes)
      → starts_with (c ∷ p) old ≡ false
      → split_from (suc f) old (c ∷ p) ≡ cons_head c (split_from (suc f) old p)
  split_from_miss f c p h = elim (Option-cases (strstr p old)) [
    | inl e ↦
        split_from-none f old (c ∷ p) (strstr_miss_none c p h e)
        ∙ sym (ap (cons_head c) (split_from-none f old p e))
    | inr (k, e) ↦
        split_from-some f old (c ∷ p) (suc k) (strstr_miss_some c p k h e)
        ∙ ap (λ j. (c ∷ take k p) ∷ split_from f old (drop j (c ∷ p)))
            (let z : suc k + length old ≡ suc (k + length old) = omega arith in z)
        ∙ sym (ap (cons_head c) (split_from-some f old p k e))
  ]

  replace_hit :
      (f : ℕ) (new : Bytes) (c : ℕ) (p : Bytes)
      → starts_with (c ∷ p) old ≡ true
      → replace_from (suc f) old new (c ∷ p)
        ≡ new ++ replace_from f old new (drop (length old) (c ∷ p))
  unfolding replace_from
  replace_hit f new c p e = rw e

  replace_miss :
      (f : ℕ) (new : Bytes) (c : ℕ) (p : Bytes)
      → starts_with (c ∷ p) old ≡ false
      → replace_from (suc f) old new (c ∷ p) ≡ c ∷ replace_from f old new p
  unfolding replace_from
  replace_miss f new c p e = rw e

  replace_empty : (f : ℕ) (new : Bytes) → replace_from (suc f) old new [] ≡ []
  unfolding replace_from
  replace_empty f new = refl

  replace_from-join :
      (new : Bytes) (f g : ℕ) (p : Bytes)
      → length p < f
      → length p < g
      → replace_from f old new p ≡ join new (split_from g old p)
  replace_from-join new zero g p h k = elim h [ ]
  replace_from-join new (suc f) zero p h k = elim k [ ]
  replace_from-join new (suc f) (suc g) [] h k =
      replace_empty f new
      ∙ sym (ap (join new) (split_from-none g old [] strstr_empty) ∙ join_one new [])
  replace_from-join new (suc f) (suc g) (c ∷ p) h k = elim (Bool-cases (starts_with (c ∷ p) old)) [
    | inl e ↦
        let rest = drop (length old) (c ∷ p) in
        let less : length rest < length (c ∷ p) = omega (arith, length-drop (length old) (c ∷ p)) in
        let zero_on : 0 + length old ≡ length old = omega arith in
        replace_hit f new c p e
        ∙ ap (λ r. new ++ r) (replace_from-join new f g rest (omega arith) (omega arith))
        ∙ sym (
            ap (join new) (
              split_from-some g old (c ∷ p) 0 (strstr_hit c p e)
              ∙ ap (λ j. [] ∷ split_from g old (drop j (c ∷ p))) zero_on)
            ∙ join-cons new [] (split_from g old rest)
                (split_from-nonempty g old rest (omega arith)))
    | inr e ↦
        replace_miss f new c p e
        ∙ ap (λ r. c ∷ r) (replace_from-join new f (suc g) p (omega arith) (omega arith))
        ∙ sym (
            ap (join new) (split_from_miss g c p e)
            ∙ join-cons_head new c (split_from (suc g) old p)
                (split_from-nonempty (suc g) old p (omega arith)))
  ]

  count_none : (f : ℕ) (p : Bytes) → strstr p old ≡ none → count_from (suc f) old p ≡ 0
  unfolding count_from
  count_none f p e = rw (e, count_from)

  count_some :
      (f : ℕ) (p : Bytes) (k : ℕ)
      → strstr p old ≡ some k
      → count_from (suc f) old p ≡ (count_from f old (drop (k + length old) p) + 1) % 2 ^ 32
  unfolding count_from
  count_some f p k e = rw (e, count_from)

  -- The matches are one fewer than the parts, as far as an int counts them.
  count_from-parts :
      (f : ℕ) (p : Bytes)
      → length p < f
      → length (split_from f old p) ≤ 2 ^ 31
      → count_from f old p + 1 ≡ length (split_from f old p)
  count_from-parts zero p h few = elim h [ ]
  count_from-parts (suc f) p h few = elim (Option-cases (strstr p old)) [
    | inl e ↦ rw (split_from-none f old p e, count_none f p e) (omega arith)
    | inr (k, e) ↦
        let c = cut p old k e in
        let rest = drop (k + length old) p in
        let parts = split_from-some f old p k e in
        let fewer : suc (length (split_from f old rest)) ≤ 2 ^ 31 =
          subst (λ xs. length xs ≤ 2 ^ 31) parts few in
        let counted = count_from-parts f rest (omega (arith, c.shorter)) (omega arith) in
        rw (parts, count_some f p k e) (omega (arith, counted))
  ]

abbrev total : List Bytes → ℕ
total [] = 0
total (x ∷ xs) = length x + total xs

length-join :
    (d : Bytes) (xs : List Bytes)
    → 0 < length xs
    → length (join d xs) + length d ≡ total xs + length xs * length d
unfolding join
length-join d [] h = absurd (omega arith)
length-join d (x ∷ []) h = omega arith
length-join d (x ∷ y ∷ xs) h = omega (
  arith,
  length-append x (d ++ join d (y ∷ xs)),
  length-append d (join d (y ∷ xs)),
  length-join d (y ∷ xs) (omega arith),
)

-- For an old text that is not empty, string_replace puts the new text between the parts of string_split: every match that
-- string_split cuts at, and no other, is replaced.
pub string_replace-join :
    (s old new : Bytes)
    → 0 < length old
    → string_replace (some s) (some old) (some new) ≡ join new (string_split (some s) (some old))
unfolding string_replace string_split
string_replace-join s old new n =
    let e : (length old == 0) ≡ false = ground arith in
    rw e (replace_from-join old n new (length s + 1) (length s + 1) s (omega arith) (omega arith))

-- The lengths before and after, with what each match takes out and puts in.
balance :
    (s old new : Bytes)
    → 0 < length old
    → length (string_split (some s) (some old)) ≤ 2 ^ 31
    → let n = count_from (length s + 1) old s in
      length (string_replace (some s) (some old) (some new)) + n * length old
      ≡ length s + n * length new
balance s old new n few =
    let f = length s + 1 in
    let k = count_from f old s in
    let parts = split_from f old s in
    let out = string_replace (some s) (some old) (some new) in
    let e : (length old == 0) ≡ false = ground arith in
    let same : string_split (some s) (some old) ≡ parts = unfold string_split in rw e in
    let many : k + 1 ≡ length parts =
      count_from-parts old n f s (omega arith) (subst (λ xs. length xs ≤ 2 ^ 31) same few) in
    let nonempty : 0 < length parts = omega arith in
    omega (
      arith,
      length-join new parts nonempty,
      length-join old parts nonempty,
      ap length (string_replace-join s old new n ∙ ap (join new) same),
      ap length (sym (ap (join old) same) ∙ (join-string_split s old n).0),
      ap (λ t. t * length old) many,
      ap (λ t. t * length new) many,
    )

wrap_away : (a n : ℕ) → a < 2 ^ 64 → (a + n * 2 ^ 64) % 2 ^ 64 ≡ a
wrap_away a n h = omega arith

counted_small :
    (s old : Bytes)
    → 0 < length old
    → length (string_split (some s) (some old)) ≤ 2 ^ 31
    → count_from (length s + 1) old s < 2 ^ 31
unfolding string_split
counted_small s old n few =
    let e : (length old == 0) ≡ false = ground arith in
    let few' : length (split_from (length s + 1) old s) ≤ 2 ^ 31 = rw e at few in
    omega (arith, count_from-parts old n (length s + 1) s (omega arith) few')

-- For an old text that is not empty and cuts the text into at most 2 ^ 31 parts, so that an int
-- counts the matches, and for texts and a result of fewer than 2 ^ 64 bytes, the length that
-- string_replace computes is that of the text that its loop writes, although `new_len - old_len`
-- wraps where the new text is the shorter one.
pub result_len-string_replace :
    (s old new : Bytes)
    → 0 < length old
    → length (string_split (some s) (some old)) ≤ 2 ^ 31
    → length old < 2 ^ 64
    → length new < 2 ^ 64
    → length (string_replace (some s) (some old) (some new)) < 2 ^ 64
    → result_len s old new ≡ length (string_replace (some s) (some old) (some new))
unfolding result_len as_size
result_len-string_replace s old new n few small_old small_new fits =
    let k = count_from (length s + 1) old s in
    let out = length (string_replace (some s) (some old) (some new)) in
    let b = balance s old new n few in
    let small : k < 2 ^ 31 = counted_small s old n few in
    let e31 : ltb k (2 ^ 31) ≡ true = lt→ltb k (2 ^ 31) small in
    rw e31 (elim (dec_lt (length new) (length old)) [
      | no p ↦
          let d = length new - length old in
          let m : (length new + 2 ^ 64 - length old) % 2 ^ 64 ≡ d = omega arith in
          let e : d + length old ≡ length new = omega arith in
          let sum : length s + k * d ≡ out = omega (arith, b, ap (λ t. k * t) e) in
          rw (m, sum) (mod-eq_of_lt fits)
      | yes p ↦
          let d = length new + 2 ^ 64 - length old in
          let m : d % 2 ^ 64 ≡ d = omega arith in
          let e : d + length old ≡ length new + 2 ^ 64 = omega arith in
          let sum : length s + k * d ≡ out + k * 2 ^ 64 = omega (arith, b, ap (λ t. k * t) e) in
          rw (m, sum) (wrap_away out k fits)
    ])
