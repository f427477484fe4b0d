-- ===== src/Base/Memory.antt =====
-- Blocks of memory as lists of cells: growing a block, and copying into it.
use Prim.Native.Nat.{ℕ, zero, suc, ◌+◌, ◌-◌, ◌≤◌, ◌<◌}
use mathlib.Core.Path.{◌≡◌, refl, ◌∙◌}
use mathlib.Core.List.{List, [], ◌∷◌, ◌++◌}
use native.Mathlib.Omega.{arith}
use ern_os.Base.Lists.{
  length, get_or, set, take, replicate, length-append, length-set, length-take, length-replicate,
  get_or-append_left, get_or-set_self, get_or-set_ne, get_or-take,
}

module _ {ℓ} {A : Type ℓ} where
  -- `realloc` to `n` cells: the first keep their contents, the others hold `junk`.
  abbrev pub realloc : A → List A → ℕ → List A
  realloc junk c n = take n c ++ replicate (n - length c) junk

  -- `memcpy(c + i, s, length s)`
  unfoldable pub blit : List A → ℕ → List A → List A
  blit c i [] = c
  blit c i (b ∷ s) = blit (set c i b) (suc i) s

  pub length-realloc :
      (junk : A) (c : List A) (n : ℕ) → length c ≤ n → length (realloc junk c n) ≡ n
  length-realloc junk c n h = omega (
    arith,
    length-append (take n c) (replicate (n - length c) junk),
    length-take n c,
    length-replicate (n - length c) junk,
  )

  pub get_or-realloc :
      (junk : A) (c : List A) (n i : ℕ) (d : A)
      → length c ≤ n
      → i < length c
      → get_or (realloc junk c n) i d ≡ get_or c i d
  get_or-realloc junk c n i d h p =
      get_or-append_left (take n c) (replicate (n - length c) junk) i d
        (omega (arith, length-take n c))
      ∙ get_or-take n c i d (omega arith)

  pub length-blit : (c : List A) (i : ℕ) (s : List A) → length (blit c i s) ≡ length c
  unfolding blit
  length-blit c i [] = refl
  length-blit c i (b ∷ s) = length-blit (set c i b) (suc i) s ∙ length-set c i b

  pub blit_below :
      (c : List A) (i : ℕ) (s : List A) (j : ℕ) (d : A)
      → j < i
      → get_or (blit c i s) j d ≡ get_or c j d
  unfolding blit
  blit_below c i [] j d h = refl
  blit_below c i (b ∷ s) j d h =
      blit_below (set c i b) (suc i) s j d (omega arith) ∙ get_or-set_ne c i j b d (omega arith)

  -- The copied cells hold the copy.
  pub blit_copied :
      (c : List A) (i : ℕ) (s : List A) (j : ℕ) (d : A)
      → j < length s
      → i + length s ≤ length c
      → get_or (blit c i s) (i + j) d ≡ get_or s j d
  unfolding blit
  blit_copied c i [] j d h b = absurd (omega arith)
  blit_copied c i (x ∷ s) zero d h b =
      let e : i + zero ≡ i = omega arith in
      rw e
        (blit_below (set c i x) (suc i) s i d (omega arith) ∙ get_or-set_self c i x d (omega arith))
  blit_copied c i (x ∷ s) (suc j) d h b =
      let e : i + suc j ≡ suc i + j = omega arith in
      rw e (blit_copied (set c i x) (suc i) s j d (omega arith) (omega (arith, length-set c i x)))
