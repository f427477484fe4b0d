-- ===== src/Bytes/Trim.antt =====
-- string_trim.
use ern_os.Base.{
  ℕ, zero, suc, ◌+◌, ◌-◌, ◌≤◌, ◌<◌, ◌≡◌, refl, sym, ◌∙◌, ap, inl, inr, Bool, true, false, ◌&&◌,
  ◌||◌, none, some, [], ◌∷◌, ◌++◌, arith, leb, ◌==◌, Bool-cases, if◌then◌else◌, length, get_or,
  take, drop, take-append-drop, get_or-take, get_or-drop, length-take, length-drop,
}
use native.Mathlib.Decide.{dec_lt}
use ern_os.Bytes.{Bytes, Ptr}

-- `isspace` in the C locale
unfoldable pub isspace : ℕ → Bool
isspace c = c == 32 || (leb 9 c && leb c 13)

-- `while (*s && isspace(*s)) s++`
unfoldable pub skip_front : Bytes → Bytes
skip_front [] = []
skip_front (c ∷ s) = if isspace c then skip_front s else c ∷ s

-- `while (len > 0 && isspace(s[len - 1])) len--`
unfoldable pub trim_len : ℕ → Bytes → ℕ
trim_len zero s = 0
trim_len (suc n) s = if isspace (get_or s n 0) then trim_len n s else suc n

unfoldable pub string_trim : Ptr → Bytes
unfolding skip_front trim_len isspace
string_trim none = []
string_trim (some s) = let t = skip_front s in take (trim_len (length t) t) t

abbrev pub AreSpaces : Bytes → Type 0
AreSpaces [] = Unit {0}
AreSpaces (c ∷ s) = (isspace c ≡ true) × AreSpaces s

-- A text that begins and ends with no space, or is empty.
abbrev pub IsTrimmed : Bytes → Type 0
IsTrimmed s =
    0 < length s → (isspace (get_or s 0 0) ≡ false) × (isspace (get_or s (length s - 1) 0) ≡ false)

skip_front-split :
    (s : Bytes)
    → (a : Bytes) × (s ≡ a ++ skip_front s)
      × AreSpaces a
      × (0 < length (skip_front s) → isspace (get_or (skip_front s) 0 0) ≡ false)
unfolding skip_front
skip_front-split [] = ([], refl, tt, λ h. elim h [ ])
skip_front-split (c ∷ s) = elim (Bool-cases (isspace c)) [
  | inl e ↦
      let (a, g, sp, first) = skip_front-split s in
      (c ∷ a, rw (e, skip_front) (ap (λ t. c ∷ t) g), (e, sp), rw (e, skip_front) first)
  | inr e ↦ ([], rw (e, skip_front), tt, rw (e, skip_front) (λ h. e))
]

trim_len-le : (n : ℕ) (s : Bytes) → trim_len n s ≤ n
unfolding trim_len
trim_len-le zero s = omega arith
trim_len-le (suc n) s = ground (arith, trim_len-le n s)

-- Behind the new length there are only spaces, and it ends at none.
trim_len-spaces :
    (n : ℕ) (s : Bytes) (i : ℕ) → trim_len n s ≤ i → i < n → isspace (get_or s i 0) ≡ true
unfolding trim_len
trim_len-spaces zero s i h p = elim p [ ]
trim_len-spaces (suc n) s i h p = elim (Bool-cases (isspace (get_or s n 0))) [
  | inl e ↦ elim (dec_lt i n) [
    | yes q ↦ trim_len-spaces n s i (rw (e, trim_len) at h) q
    | no q ↦ (let same : i ≡ n = omega arith in rw same e)
  ]
  | inr e ↦ (let big : suc n ≤ i = rw (e, trim_len) at h in absurd (omega arith))
]

trim_len-last :
    (n : ℕ) (s : Bytes) → 0 < trim_len n s → isspace (get_or s (trim_len n s - 1) 0) ≡ false
unfolding trim_len
trim_len-last zero s h = elim h [ ]
trim_len-last (suc n) s h = elim (Bool-cases (isspace (get_or s n 0))) [
  | inl e ↦ rw (e, trim_len) (trim_len-last n s (rw (e, trim_len) at h))
  | inr e ↦ let z : suc n - 1 ≡ n = omega arith in rw (e, trim_len) (rw z e)
]

spaces_of_reads :
    (s : Bytes) → ((i : ℕ) → i < length s → isspace (get_or s i 0) ≡ true) → AreSpaces s
spaces_of_reads [] h = tt
spaces_of_reads (c ∷ s) h = (h 0 (omega arith), spaces_of_reads s (λ i p. h (suc i) (omega arith)))

-- `t` is `s` without the spaces at its ends.
abbrev pub Trims : Bytes → Bytes → Type 0
Trims s t =
    IsTrimmed t × ((a : Bytes) × (b : Bytes) × (s ≡ a ++ (t ++ b)) × AreSpaces a × AreSpaces b)

-- string_trim takes off spaces at both ends, nothing else, and leaves none there.
pub string_trim-Trims : (s : Bytes) → Trims s (string_trim (some s))
unfolding string_trim
string_trim-Trims s =
    let (a, g, sp, first) = skip_front-split s in
    let t = skip_front s in
    let n = trim_len (length t) t in
    let small : n ≤ length t = trim_len-le (length t) t in
    let cut : length (take n t) ≡ n = omega (arith, length-take n t) in
    (
      λ h. (
        ap isspace (get_or-take n t 0 0 (omega (arith, cut))) ∙ first (omega (arith, cut)),
        rw cut (
            ap isspace (get_or-take n t (n - 1) 0 (omega (arith, cut)))
            ∙ trim_len-last (length t) t (omega (arith, cut))),
      ),
      (
        a,
        drop n t,
        g ∙ ap (λ r. a ++ r) (sym (take-append-drop n t)),
        sp,
        spaces_of_reads (drop n t) (λ i p.
            ap isspace (get_or-drop n t i 0)
            ∙ trim_len-spaces (length t) t (n + i) (omega arith) (omega (arith, length-drop n t))),
      ),
    )
