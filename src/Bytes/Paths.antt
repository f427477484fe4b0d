-- ===== src/Bytes/Paths.antt =====
-- File names in the compiler's driver: get_file_dir and get_file_stem.
use ern_os.Base.{
  ℕ, suc, ◌+◌, ◌-◌, ◌≡◌, ◌≢◌, ◌⊎◌, refl, sym, ◌∙◌, ap, inl, inr, true, false, some, [], ◌∷◌, ◌++◌,
  arith, leb, ltb, ◌==◌, ==_iff, ==→ne, Bool-cases, if◌then◌else◌, append-nil, append_assoc, subst,
  length, length-append, take, drop,
}
use ern_os.Base.Int.{ℤ, pos, negsuc}
use ern_os.Bytes.{Bytes, substring}
use ern_os.Bytes.Split.{take-length, drop-length}

-- `while (idx < len)`: `found` becomes the index of each `c`. The list is what lies at `idx` and
-- behind it.
unfoldable pub last_index : ℕ → ℕ → Bytes → ℤ → ℤ
last_index c idx [] found = found
last_index c idx (x ∷ s) found = last_index c (suc idx) s (if x == c then pos idx else found)

-- The test `last_slash < 0` and what follows it in `get_file_dir`.
unfoldable pub dir_of : Bytes → ℤ → Bytes
unfolding substring
dir_of path (negsuc n) = b'.' ∷ b'/' ∷ []
dir_of path (pos n) = substring (some path) (pos 0) (pos (n + 1))

unfoldable pub get_file_dir : Bytes → Bytes
unfolding last_index dir_of
get_file_dir path = dir_of path (last_index b'/' 0 path (negsuc 0))

-- `last_slash + 1`, which is 0 where there is no slash.
unfoldable pub after : ℤ → ℕ
after (pos n) = n + 1
after (negsuc n) = 0

-- `substring(path, start, dot_pos - start)`, where `dot_pos` is not before `start`.
unfoldable pub stem_at : Bytes → ℕ → ℤ → Bytes
unfolding substring
stem_at path start (pos dot) = substring (some path) (pos start) (pos (dot - start))
stem_at path start (negsuc n) = []

unfoldable pub get_file_stem : Bytes → Bytes
unfolding last_index after stem_at
get_file_stem path =
    let start = after (last_index b'/' 0 path (negsuc 0)) in
    stem_at path start (last_index b'.' start (drop start path) (pos (length path)))

-- No byte of the text is `c`.
abbrev pub Free : ℕ → Bytes → Type 0
Free c [] = Unit {0}
Free c (x ∷ s) = (x ≢ c) × Free c s

-- What the loop finds: the last `c`, with none behind it; or what `found` was, with none at all.
last_index-split :
    (c idx : ℕ) (s : Bytes) (found : ℤ)
    → ((a : Bytes) × (b : Bytes) × (s ≡ a ++ (c ∷ b))
        × Free c b
        × (last_index c idx s found ≡ pos (idx + length a)))
      ⊎ (Free c s × (last_index c idx s found ≡ found))
unfolding last_index
last_index-split c idx [] found = inr (tt, refl)
last_index-split c idx (x ∷ s) found = elim (Bool-cases (x == c)) [
  | inl e ↦ elim (last_index-split c (suc idx) s (pos idx)) [
    | inl (a, b, g, free, at) ↦ inl (
      x ∷ a,
      b,
      ap (λ t. x ∷ t) g,
      free,
      rw (e, last_index)
          (at ∙ ap pos (let z : suc idx + length a ≡ idx + length (x ∷ a) = omega arith in z)),
    )
    | inr (free, at) ↦ inl (
      [],
      s,
      ap (λ y. y ∷ s) ((==_iff x c).0 e),
      free,
      rw (e, last_index) (at ∙ ap pos (let z : idx ≡ idx + 0 = omega arith in z)),
    )
  ]
  | inr e ↦ elim (last_index-split c (suc idx) s found) [
    | inl (a, b, g, free, at) ↦ inl (
      x ∷ a,
      b,
      ap (λ t. x ∷ t) g,
      free,
      rw (e, last_index)
          (at ∙ ap pos (let z : suc idx + length a ≡ idx + length (x ∷ a) = omega arith in z)),
    )
    | inr (free, at) ↦ inr ((==→ne x c e, free), rw (e, last_index) at)
  ]
]

take_mid :
    (pre mid post : Bytes) → take (length mid) (drop (length pre) (pre ++ (mid ++ post))) ≡ mid
take_mid pre mid post =
    ap (take (length mid)) (drop-length pre (mid ++ post)) ∙ take-length mid post

-- The substring that stands between two others.
substring_mid :
    (pre mid post : Bytes) (n : ℕ)
    → length mid ≡ n
    → substring (some (pre ++ (mid ++ post))) (pos (length pre)) (pos n) ≡ mid
unfolding substring
substring_mid pre [] post n h =
    let e : leb n 0 ≡ true = ground (arith, h) in
    elim (Bool-cases (leb (length (pre ++ ([] ++ post))) (length pre))) [
      | inl g ↦ rw g
      | inr g ↦ rw (g, e)
    ]
substring_mid pre (c ∷ mid) post n h =
    let s = pre ++ (c ∷ mid ++ post) in
    let all : length s ≡ length pre + (suc (length mid) + length post) =
      omega (arith, length-append pre (c ∷ mid ++ post), length-append mid post) in
    let inside : leb (length s) (length pre) ≡ false = ground (arith, all) in
    let some_len : leb n 0 ≡ false = ground (arith, h) in
    let whole : ltb (length s) (length pre + n) ≡ false = ground (arith, all, h) in
    rw (inside, some_len, whole)
      (ap (λ k. take k (drop (length pre) s)) (sym h) ∙ take_mid pre (c ∷ mid) post)

-- The text is the path's part up to its last slash, or stands for the directory of a bare name.
abbrev pub IsDirOf : Bytes → Bytes → Type 0
IsDirOf path dir =
    ((a : Bytes) × (b : Bytes) × (path ≡ a ++ (b'/' ∷ b)) × Free b'/' b × (dir ≡ a ++ (b'/' ∷ [])))
    ⊎ (Free b'/' path × (dir ≡ b'.' ∷ b'/' ∷ []))

-- get_file_dir gives what the path has up to its last slash, the slash included, and "./" where
-- it has none.
pub get_file_dir-IsDirOf : (path : Bytes) → IsDirOf path (get_file_dir path)
unfolding get_file_dir
get_file_dir-IsDirOf path = elim (last_index-split b'/' 0 path (negsuc 0)) [
  | inr (free, at) ↦ inr (free, ap (dir_of path) at)
  | inl (a, b, g, free, at) ↦
      let front : path ≡ [] ++ ((a ++ (b'/' ∷ [])) ++ b) = g ∙ sym (append_assoc a (b'/' ∷ []) b) in
      inl (
        a,
        b,
        g,
        free,
        ap (dir_of path) at
            ∙ ap (λ t. substring (some t) (pos 0) (pos (0 + length a + 1))) front
            ∙ substring_mid [] (a ++ (b'/' ∷ [])) b (0 + length a + 1)
                (omega (arith, length-append a (b'/' ∷ []))),
      )
]

-- The directory part of a path: nothing, or a text that ends in a slash.
abbrev pub IsDir : Bytes → Type 0
IsDir pre = (pre ≡ []) ⊎ ((a : Bytes) × (pre ≡ a ++ (b'/' ∷ [])))

-- The extension of a name: nothing where it has no dot, else what follows its last dot.
abbrev pub IsExtension : Bytes → Bytes → Type 0
IsExtension stem ext =
    ((ext ≡ []) × Free b'.' stem) ⊎ ((e : Bytes) × (ext ≡ b'.' ∷ e) × Free b'.' e)

-- A path cut in its directory, its stem and its extension.
abbrev pub Parts : Bytes → Bytes → Type 0
Parts path stem =
    (pre : Bytes) × (ext : Bytes) × (path ≡ pre ++ (stem ++ ext))
    × IsDir pre
    × Free b'/' (stem ++ ext)
    × IsExtension stem ext

stem_of :
    (pre b : Bytes)
    → IsDir pre
    → Free b'/' b
    → Parts
        (pre ++ b)
        (stem_at (pre ++ b) (length pre) (last_index b'.' (length pre) b (pos (length (pre ++ b)))))
stem_of pre b dir free = elim (last_index-split b'.' (length pre) b (pos (length (pre ++ b)))) [
  | inl (a, e, g, none_behind, at) ↦
      let n = length pre + length a - length pre in
      let is_stem : stem_at (pre ++ b) (length pre)
            (last_index b'.' (length pre) b (pos (length (pre ++ b))))
          ≡ a =
        ap (stem_at (pre ++ b) (length pre)) at
        ∙ (unfold stem_at in
            (ap (λ t. substring (some (pre ++ t)) (pos (length pre)) (pos n)) g
              ∙ substring_mid pre a (b'.' ∷ e) n (omega arith))) in
      rw is_stem (
        pre,
        b'.' ∷ e,
        ap (λ t. pre ++ t) g,
        dir,
        subst (Free b'/') g free,
        inr (e, refl, none_behind),
      )
  | inr (no_dot, at) ↦
      let n = length (pre ++ b) - length pre in
      let is_stem : stem_at (pre ++ b) (length pre)
            (last_index b'.' (length pre) b (pos (length (pre ++ b))))
          ≡ b =
        ap (stem_at (pre ++ b) (length pre)) at
        ∙ (unfold stem_at in
            (ap (λ t. substring (some (pre ++ t)) (pos (length pre)) (pos n)) (sym (append-nil b))
              ∙ substring_mid pre b [] n (omega (arith, length-append pre b)))) in
      rw is_stem (
        pre,
        [],
        ap (λ t. pre ++ t) (sym (append-nil b)),
        dir,
        subst (Free b'/') (sym (append-nil b)) free,
        inl (refl, no_dot),
      )
]

-- get_file_stem gives the name behind the last slash without its extension: the path is a
-- directory part, the stem and an extension that starts at the last dot of the name.
pub get_file_stem-Parts : (path : Bytes) → Parts path (get_file_stem path)
unfolding get_file_stem
get_file_stem-Parts path = elim (last_index-split b'/' 0 path (negsuc 0)) [
  | inl (a, b, g, free, at) ↦
      let pre = a ++ (b'/' ∷ []) in
      let cut : path ≡ pre ++ b = g ∙ sym (append_assoc a (b'/' ∷ []) b) in
      let len : after (last_index b'/' 0 path (negsuc 0)) ≡ length pre =
        ap after at ∙ (unfold after in omega (arith, length-append a (b'/' ∷ []))) in
      rw len (
        subst
          (λ p. Parts p (
            stem_at p (length pre)
              (last_index b'.' (length pre) (drop (length pre) p) (pos (length p)))))
          (sym cut) (rw (drop-length pre b) (stem_of pre b (inr (a, refl)) free)))
  | inr (free, at) ↦
      let len : after (last_index b'/' 0 path (negsuc 0)) ≡ 0 =
        ap after at ∙ (unfold after in refl) in
      rw len (stem_of [] path (inl refl) free)
]
