-- ===== src/Bytes/Digits.antt =====
-- Numbers as text in the compiler: parse_int, which reads the digits that the lexer collects, and
-- cg_int_to_str, which writes a number into the generated C. The `long long` of both has 64 bits;
-- where it overflows it is taken to wrap around.
use ern_os.Base.{
  ℕ, zero, suc, ◌+◌, ◌-◌, ◌*◌, ◌/◌, ◌%◌, ◌^◌, ◌≤◌, ◌<◌, ◌≡◌, refl, sym, ◌∙◌, ap, ap₂, inl, inr,
  some, List, [], ◌∷◌, ◌++◌, map, append-nil, append_assoc, arith, true, ltb, lt→ltb, ◌==◌, ==_iff,
  Bool-cases, if◌then◌else◌, length, length-append,
}
use mathlib.Core.List.{map-append}
use ern_os.Base.Int.{ℤ, pos, negsuc, ◌+ℤ◌, ◌-ℤ◌, ◌*ℤ◌}
use ern_os.Bytes.{Bytes, IsText, string_from_list}
use ern_os.Bytes.Text.{append-IsText, string_from_list-map}
use ern_os.EpList.Spec.{init, last}

-- The `long long` with the bits of an integer's rest modulo 2 ^ 64.
unfoldable pub signed : ℕ → ℤ
signed bits = if ltb bits (2 ^ 63) then pos bits else negsuc (2 ^ 64 - 1 - bits)

unfoldable pub wrap : ℤ → ℤ
unfolding signed
wrap (pos n) = signed (n % 2 ^ 64)
wrap (negsuc n) = signed (2 ^ 64 - 1 - n % 2 ^ 64)

-- The loop over the characters: `val = val * 10 + (ch - 48)`.
unfoldable pub parse_from : ℤ → Bytes → ℤ
unfolding ◌+ℤ◌ ◌-ℤ◌ ◌*ℤ◌ wrap
parse_from v [] = v
parse_from v (c ∷ s) = parse_from (wrap (wrap (v *ℤ pos 10) +ℤ (pos c -ℤ pos 48))) s

unfoldable pub parse_int : Bytes → ℤ
unfolding parse_from
parse_int s = parse_from (pos 0) s

-- `while (temp > 0)`, with fuel; the digits come lowest first.
unfoldable pub digits_from : ℕ → ℕ → List ℤ → List ℤ
digits_from zero t ds = ds
digits_from (suc f) t ds =
    let rest = digits_from f (t / 10) (ds ++ pos (t - t / 10 * 10 + 48) ∷ []) in
    if t == 0 then ds else rest

-- `while (len > 0)`: the last digit is popped and appended.
unfoldable pub drain : ℕ → List ℤ → List ℤ → List ℤ
drain zero ds lst = lst
drain (suc k) ds lst = drain k (init ds) (lst ++ last ds ∷ [])

-- The digits of `temp`, for which the loop `while (temp > 0)` runs; a negative one has none.
unfoldable pub magnitude : ℤ → Bytes
unfolding digits_from drain string_from_list
magnitude (pos n) = let ds = digits_from n n [] in string_from_list (some (drain (length ds) ds []))
magnitude (negsuc n) = string_from_list (some [])

-- `n = 0 - n` stays negative for the smallest number.
unfoldable pub cg_int_to_str : ℤ → Bytes
unfolding magnitude wrap
cg_int_to_str (pos zero) = b'0' ∷ []
cg_int_to_str (pos (suc n)) = magnitude (pos (suc n))
cg_int_to_str (negsuc n) = b'-' ∷ magnitude (wrap (pos (suc n)))

-- The decimal digits of a number, highest first.
digits : ℕ → ℕ → Bytes
digits zero t = []
digits (suc f) t =
    let rest = digits f (t / 10) ++ (t - t / 10 * 10 + 48) ∷ [] in if t == 0 then [] else rest

rev : List ℤ → List ℤ
rev [] = []
rev (x ∷ xs) = rev xs ++ x ∷ []

rev-snoc : (xs : List ℤ) (x : ℤ) → rev (xs ++ x ∷ []) ≡ x ∷ rev xs
unfolding rev
rev-snoc [] x = refl
rev-snoc (y ∷ xs) x = ap (λ r. r ++ y ∷ []) (rev-snoc xs x)

init-snoc : (xs : List ℤ) (x : ℤ) → init (xs ++ x ∷ []) ≡ xs
init-snoc [] x = refl
init-snoc (y ∷ []) x = refl
init-snoc (y ∷ z ∷ xs) x = ap (λ r. y ∷ r) (init-snoc (z ∷ xs) x)

last-snoc : (xs : List ℤ) (x : ℤ) → last (xs ++ x ∷ []) ≡ x
last-snoc [] x = refl
last-snoc (y ∷ []) x = refl
last-snoc (y ∷ z ∷ xs) x = last-snoc (z ∷ xs) x

length-rev : (xs : List ℤ) → length (rev xs) ≡ length xs
unfolding rev
length-rev [] = refl
length-rev (x ∷ xs) = omega (arith, length-append (rev xs) (x ∷ []), length-rev xs)

drain-rev : (xs lst : List ℤ) → drain (length xs) (rev xs) lst ≡ lst ++ xs
unfolding drain rev
drain-rev [] lst = sym (append-nil lst)
drain-rev (x ∷ xs) lst =
    ap₂ (λ d l. drain (length xs) d (lst ++ l ∷ [])) (init-snoc (rev xs) x) (last-snoc (rev xs) x)
    ∙ drain-rev xs (lst ++ x ∷ [])
    ∙ append_assoc lst (x ∷ []) xs

digits_from-digits : (f t : ℕ) (ds : List ℤ) → digits_from f t ds ≡ ds ++ rev (map pos (digits f t))
unfolding digits_from digits rev
digits_from-digits zero t ds = sym (append-nil ds)
digits_from-digits (suc f) t ds = elim (Bool-cases (t == 0)) [
  | inl e ↦ rw e (sym (append-nil ds))
  | inr e ↦
      let d = t - t / 10 * 10 + 48 in
      rw e (
        digits_from-digits f (t / 10) (ds ++ pos d ∷ [])
        ∙ append_assoc ds (pos d ∷ []) (rev (map pos (digits f (t / 10))))
        ∙ ap (λ r. ds ++ r)
            (sym (
              ap rev (map-append pos (digits f (t / 10)) (d ∷ []))
              ∙ rev-snoc (map pos (digits f (t / 10))) (pos d))))
]

digits-IsText : (f t : ℕ) → IsText (digits f t)
unfolding digits
digits-IsText zero t = tt
digits-IsText (suc f) t = elim (Bool-cases (t == 0)) [
  | inl e ↦ rw e tt
  | inr e ↦ rw e (
      append-IsText (digits f (t / 10)) _ (digits-IsText f (t / 10)) (omega arith, omega arith, tt))
]

wrap_small : (n : ℕ) → n < 2 ^ 63 → wrap (pos n) ≡ pos n
unfolding wrap signed
wrap_small n h =
    let e : n % 2 ^ 64 ≡ n = omega arith in
    let l : ltb n (2 ^ 63) ≡ true = lt→ltb n (2 ^ 63) h in rw (e, l) refl

-- The smallest number is its own negation.
wrap_least : wrap (pos (2 ^ 63)) ≡ negsuc (2 ^ 63 - 1)
unfolding wrap signed
wrap_least = refl

parse_from-snoc :
    (v : ℤ) (s : Bytes) (c : ℕ)
    → parse_from v (s ++ c ∷ []) ≡ wrap (wrap (parse_from v s *ℤ pos 10) +ℤ (pos c -ℤ pos 48))
unfolding parse_from
parse_from-snoc v [] c = refl
parse_from-snoc v (d ∷ s) c = parse_from-snoc (wrap (wrap (v *ℤ pos 10) +ℤ (pos d -ℤ pos 48))) s c

tens : (t : ℕ) → pos t *ℤ pos 10 ≡ pos (t * 10)
unfolding ◌*ℤ◌
tens t = ground arith

push_digit : (t : ℕ) → pos (t / 10 * 10) +ℤ (pos (t - t / 10 * 10 + 48) -ℤ pos 48) ≡ pos t
unfolding ◌+ℤ◌ ◌-ℤ◌
push_digit t = ground arith

parse_from-digits : (f t : ℕ) → t ≤ f → t < 2 ^ 63 → parse_from (pos 0) (digits f t) ≡ pos t
unfolding digits
parse_from-digits zero t h small = unfold parse_from in ap pos (omega arith)
parse_from-digits (suc f) t h small = elim (Bool-cases (t == 0)) [
  | inl e ↦ rw e (unfold parse_from in ap pos (omega (arith, (==_iff t 0).0 e)))
  | inr e ↦
      let d = pos (t - t / 10 * 10 + 48) -ℤ pos 48 in
      let front = parse_from-digits f (t / 10) (ground (arith, e)) (omega arith) in
      rw e (
        parse_from-snoc (pos 0) (digits f (t / 10)) (t - t / 10 * 10 + 48)
        ∙ ap (λ r. wrap (wrap (r *ℤ pos 10) +ℤ d)) front
        ∙ ap (λ r. wrap (wrap r +ℤ d)) (tens (t / 10))
        ∙ ap (λ r. wrap (r +ℤ d)) (wrap_small (t / 10 * 10) (omega arith))
        ∙ ap wrap (push_digit t)
        ∙ wrap_small t small)
]

magnitude-digits : (n : ℕ) → magnitude (pos n) ≡ digits n n
unfolding magnitude
magnitude-digits n =
    let ms = map pos (digits n n) in
    let ds = digits_from n n [] in
    let same : ds ≡ rev ms = digits_from-digits n n [] in
    ap (λ l. string_from_list (some (drain (length l) l []))) same
    ∙ ap (λ k. string_from_list (some (drain k (rev ms) []))) (length-rev ms)
    ∙ ap (λ l. string_from_list (some l)) (drain-rev ms [])
    ∙ string_from_list-map (digits n n) (digits-IsText n n)

read_back : (n : ℕ) → n < 2 ^ 63 → parse_int (magnitude (pos n)) ≡ pos n
unfolding parse_int
read_back n small =
    ap (parse_from (pos 0)) (magnitude-digits n) ∙ parse_from-digits n n (omega arith) small

-- A negative number is written as a minus sign and its absolute value, but for the smallest.
negative :
    (n : ℕ)
    → n < 2 ^ 63
    → magnitude (wrap (pos (suc n))) ≡ (if n == 2 ^ 63 - 1 then [] else magnitude (pos (suc n)))
negative n small = elim (Bool-cases (n == 2 ^ 63 - 1)) [
  | inl e ↦
      let least : n ≡ 2 ^ 63 - 1 = (==_iff n (2 ^ 63 - 1)).0 e in
      let all : suc n ≡ 2 ^ 63 = omega (arith, least) in
      rw e (
        ap (λ k. magnitude (wrap (pos k))) all
        ∙ ap magnitude wrap_least
        ∙ unfold magnitude string_from_list in refl)
  | inr e ↦
      let less : suc n < 2 ^ 63 = ground (arith, e) in rw e (ap magnitude (wrap_small (suc n) less))
]

-- For every number of 64 bits: what cg_int_to_str writes for one that is not negative, parse_int
-- reads back; and for a negative one it writes a minus sign and what it writes for its absolute
-- value, but for the smallest one, -2 ^ 63, of which it writes the minus sign alone.
pub parse_int-cg_int_to_str :
    (n : ℕ)
    → n < 2 ^ 63
    → (parse_int (cg_int_to_str (pos n)) ≡ pos n)
      × (cg_int_to_str (negsuc n)
          ≡ b'-' ∷ (if n == 2 ^ 63 - 1 then [] else cg_int_to_str (pos (suc n))))
unfolding cg_int_to_str
parse_int-cg_int_to_str zero small =
    (unfold parse_int in refl, ap (λ m. b'-' ∷ m) (negative 0 small))
parse_int-cg_int_to_str (suc n) small =
    (read_back (suc n) small, ap (λ m. b'-' ∷ m) (negative (suc n) small))
