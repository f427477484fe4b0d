-- ===== src/Bytes/Builder.antt =====
-- The string builder, `EpStringBuilder`: ep_sb_create, ep_sb_append, ep_sb_append_int,
-- ep_sb_length, ep_sb_to_string. `data` is the list `cells`, as long as what was allocated, with
-- `junk` where nothing was written; `decimal` is what `snprintf` writes for "%lld".
use ern_os.Base.{
  ℕ, zero, suc, ◌+◌, ◌-◌, ◌*◌, ◌≤◌, ◌<◌, ◌≡◌, refl, sym, ◌∙◌, ap, inl, inr, none, some, List, [],
  ◌∷◌, ◌++◌, append-nil, append_assoc, arith, ltb, ltb→ge, ◌==◌, Bool-cases, false, if◌then◌else◌,
  length, get_or, set, take, length-set, length-append, length-take, list_ext, get_or-set_self,
  get_or-set_ne, get_or-take, get_or-append_left, get_or-append_right, subst,
}
use native.Mathlib.Decide.{dec_lt}
use ern_os.Base.Int.{ℤ}
use ern_os.Base.Memory.{
  realloc, blit, length-realloc, get_or-realloc, length-blit, blit_below, blit_copied,
}
use ern_os.Bytes.{Bytes, Ptr, IsText, c_string}
use ern_os.Bytes.Text.{append-IsText}

pub record Builder : Type 0 where
  pub cells : List ℕ
  pub len : ℕ
  pub cap : ℕ

pub data Op : Type 0 where
  append : Ptr → Op
  append_int : ℤ → Op

-- The bytes, and the terminator behind them.
unfoldable pub put : Builder → Bytes → Builder
put b s = record b {
  cells = set (blit b.cells b.len s) (b.len + length s) 0;
  len = b.len + length s;
}

module _ (junk : ℕ) where
  unfoldable pub ep_sb_create : Builder
  ep_sb_create = record { cells = set (realloc junk [] 256) 0 0; len = 0; cap = 256 }

  -- `while (len + slen + 1 > cap)`, with fuel.
  unfoldable pub grow : ℕ → ℕ → Builder → Builder
  grow zero need b = b
  grow (suc f) need b =
      let wider =
        grow f need (record b { cells = realloc junk b.cells (b.cap * 2); cap = b.cap * 2 }) in
      if ltb b.cap need then wider else b

  unfoldable pub ep_sb_append : Builder → Ptr → Builder
  ep_sb_append b none = b
  ep_sb_append b (some s) = let need = b.len + length s + 1 in put (grow need need b) s

module _ (junk : ℕ) (decimal : ℤ → Bytes) where
  unfoldable pub ep_sb_append_int : Builder → ℤ → Builder
  unfolding ep_sb_append
  ep_sb_append_int b v = ep_sb_append junk b (some (decimal v))

  unfoldable pub run : Builder → List Op → Builder
  run b [] = b
  run b (append p ∷ os) = run (ep_sb_append junk b p) os
  run b (append_int v ∷ os) = run (ep_sb_append_int b v) os

-- The first `len + 1` bytes are copied.
unfoldable pub ep_sb_to_string : Builder → Bytes
unfolding c_string
ep_sb_to_string b = c_string (take (b.len + 1) b.cells)

unfoldable pub ep_sb_length : Builder → ℕ
ep_sb_length b = b.len

-- The buffer holds the text and its terminator, inside what was allocated.
pub record Holds (b : Builder) (t : Bytes) : Type 0 where
  pub allocated : length b.cells ≡ b.cap
  pub room : b.len < b.cap
  pub counted : b.len ≡ length t
  pub reads : (i : ℕ) → i < length t → get_or b.cells i 0 ≡ get_or t i 0
  pub ends : get_or b.cells b.len 0 ≡ 0

module _ (junk : ℕ) where
  -- With the fuel that `ep_sb_append` gives it, the loop ends with room enough.
  grow-Holds :
      (f need : ℕ) (b : Builder) (t : Bytes)
      → Holds b t
      → need ≤ b.cap + f
      → Holds (grow junk f need b) t
        × (need ≤ (grow junk f need b).cap)
        × ((grow junk f need b).len ≡ b.len)
  unfolding grow
  grow-Holds zero need b t h p = (h, omega arith, refl)
  grow-Holds (suc f) need b t h p = elim (Bool-cases (ltb b.cap need)) [
    | inr e ↦ rw e (h, ltb→ge _ _ e, refl)
    | inl e ↦
        let n = b.cap * 2 in
        let small : length b.cells ≤ n = omega (arith, h.allocated) in
        rw e (
          grow-Holds f need (record b { cells = realloc junk b.cells n; cap = n }) t
            (record {
              allocated = length-realloc junk b.cells n small;
              room = omega (arith, h.room);
              counted = h.counted;
              reads = λ i q.
                  get_or-realloc junk b.cells n i 0 small
                    (omega (arith, h.allocated, h.room, h.counted))
                  ∙ h.reads i q;
              ends =
                  get_or-realloc junk b.cells n b.len 0 small (omega (arith, h.allocated, h.room))
                  ∙ h.ends;
            })
            (omega (arith, h.room)))
  ]

  pub ep_sb_create-Holds : Holds (ep_sb_create junk) []
  unfolding ep_sb_create
  ep_sb_create-Holds = record {
    allocated = length-set (realloc junk [] 256) 0 0 ∙ length-realloc junk [] 256 (omega arith);
    room = omega arith;
    counted = refl;
    reads = λ i h. elim h [ ];
    ends = refl;
  }

-- A copy behind a text that leaves room for its terminator.
put-Holds :
    (b : Builder) (t s : Bytes)
    → Holds b t
    → b.len + length s + 1 ≤ b.cap
    → Holds (put b s) (t ++ s)
unfolding put
put-Holds b t s h p =
    let at = b.len + length s in
    let c = blit b.cells b.len s in
    let long = length-blit b.cells b.len s in
    let sum = length-append t s in
    record {
      allocated = length-set c at 0 ∙ long ∙ h.allocated;
      room = omega arith;
      counted = omega (arith, h.counted, sum);
      reads = λ i q.
          get_or-set_ne c at i 0 0 (omega (arith, h.counted, sum)) ∙ elim (dec_lt i (length t)) [
            | yes l ↦
                blit_below b.cells b.len s i 0 (omega (arith, h.counted))
                ∙ h.reads i l
                ∙ sym (get_or-append_left t s i 0 l)
            | no l ↦
                let j = i - length t in
                let here : i ≡ b.len + j = omega (arith, h.counted) in
                let there : length t + j ≡ i = omega arith in
                ap (λ k. get_or c k 0) here
                ∙ blit_copied b.cells b.len s j 0 (omega (arith, sum)) (omega (arith, h.allocated))
                ∙ sym (get_or-append_right t s j 0)
                ∙ ap (λ k. get_or (t ++ s) k 0) there
          ];
      ends = get_or-set_self c at 0 0 (omega (arith, long, h.allocated));
    }

ep_sb_append-Holds :
    (junk : ℕ) (b : Builder) (t s : Bytes)
    → Holds b t
    → Holds (ep_sb_append junk b (some s)) (t ++ s)
unfolding ep_sb_append
ep_sb_append-Holds junk b t s h =
    let need = b.len + length s + 1 in
    let (g, wide, same) = grow-Holds junk need need b t h (omega arith) in
    put-Holds (grow junk need need b) t s g (omega arith)

c_string-append : (t : Bytes) → IsText t → c_string (t ++ 0 ∷ []) ≡ t
unfolding c_string
c_string-append [] h = refl
c_string-append (c ∷ t) h =
    let e : (c == 0) ≡ false = ground (arith, h.0) in rw e (ap (λ r. c ∷ r) (c_string-append t h.2))

ep_sb_to_string-Holds : (b : Builder) (t : Bytes) → Holds b t → IsText t → ep_sb_to_string b ≡ t
unfolding ep_sb_to_string
ep_sb_to_string-Holds b t h x =
    let n = b.len + 1 in
    let cut = length-take n b.cells in
    let sum = length-append t (0 ∷ []) in
    let same =
      list_ext (take n b.cells) (t ++ 0 ∷ []) 0
        (omega (arith, cut, sum, h.allocated, h.room, h.counted))
        (λ i q. get_or-take n b.cells i 0 (omega (arith, cut)) ∙ elim (dec_lt i (length t)) [
          | yes l ↦ h.reads i l ∙ sym (get_or-append_left t (0 ∷ []) i 0 l)
          | no l ↦
              let here : i ≡ b.len = omega (arith, cut, h.counted) in
              let there : length t + 0 ≡ i = omega (arith, h.counted) in
              ap (λ k. get_or b.cells k 0) here
              ∙ h.ends
              ∙ sym (get_or-append_right t (0 ∷ []) 0 0)
              ∙ ap (λ k. get_or (t ++ 0 ∷ []) k 0) there
        ]) in
    ap c_string same ∙ c_string-append t x

module _ (decimal : ℤ → Bytes) where
  -- The text that a call adds.
  abbrev pub added : Op → Bytes
  added (append none) = []
  added (append (some s)) = s
  added (append_int v) = decimal v

  abbrev pub text : List Op → Bytes
  text [] = []
  text (o ∷ os) = added o ++ text os

  abbrev pub AreTexts : List Op → Type 0
  AreTexts [] = Unit {0}
  AreTexts (o ∷ os) = IsText (added o) × AreTexts os

  text-IsText : (os : List Op) → AreTexts os → IsText (text os)
  text-IsText [] h = tt
  text-IsText (o ∷ os) h = append-IsText (added o) (text os) h.0 (text-IsText os h.1)

  run-Holds :
      (junk : ℕ) (os : List Op) (b : Builder) (t : Bytes)
      → Holds b t
      → Holds (run junk decimal b os) (t ++ text os)
  unfolding run ep_sb_append_int
  run-Holds junk [] b t h = subst (Holds b) (sym (append-nil t)) h
  run-Holds junk (append none ∷ os) b t h = unfold ep_sb_append in run-Holds junk os b t h
  run-Holds junk (append (some s) ∷ os) b t h =
      subst (Holds _) (append_assoc t s (text os)) (
        run-Holds junk os (ep_sb_append junk b (some s)) (t ++ s) (ep_sb_append-Holds junk b t s h))
  run-Holds junk (append_int v ∷ os) b t h =
      subst (Holds _) (append_assoc t (decimal v) (text os)) (
        run-Holds junk os (ep_sb_append junk b (some (decimal v))) (t ++ decimal v)
          (ep_sb_append-Holds junk b t (decimal v) h))

  -- After any calls of ep_sb_append and ep_sb_append_int on a fresh builder, ep_sb_to_string gives
  -- the texts one after the other, ep_sb_length their total length, and the terminator lies
  -- inside the buffer that was allocated.
  pub ep_sb_to_string-run :
      (junk : ℕ) (os : List Op)
      → AreTexts os
      → let b = run junk decimal (ep_sb_create junk) os in
        (ep_sb_to_string b ≡ text os)
        × (ep_sb_length b ≡ length (text os))
        × (b.len < length b.cells)
  unfolding ep_sb_length
  ep_sb_to_string-run junk os x =
      let b = run junk decimal (ep_sb_create junk) os in
      let h = run-Holds junk os (ep_sb_create junk) [] (ep_sb_create-Holds junk) in
      (
        ep_sb_to_string-Holds b (text os) h (text-IsText os x),
        h.counted,
        omega (arith, h.room, h.allocated),
      )
