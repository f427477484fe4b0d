-- ===== src/EpMap/Delete.antt =====
-- map_delete takes a key out and keeps the rest.
use ern_os.Base.{
  ℕ, ◌+◌, ◌-◌, ◌<◌, ◌≡◌, ◌≢◌, sym, ap, ◌∙◌, subst, inl, inr, true, Option, none, some, arith,
  length, length-set, set, get_or-set_ne,
}
use ern_os.Base.Int.{ℤ}
use ern_os.Bytes.{Bytes}
use ern_os.EpMap.{Entry, EpMap, slot, next, is_pointer, reinsert}
use ern_os.EpMap.Circle.{
  Between, next-lt, not-around, rank, rank-next, rank-before, rank_injective, rank-Between, rank-le,
}
use ern_os.EpMap.Slots.{Used, Used-lt, not_free, count-clear, room-free}
use ern_os.EpMap.Probe.{free_slot-FirstFree}
use ern_os.EpMap.Table.{Holds, home-lt}
use ern_os.EpMap.Insert.{Good}
use ern_os.EpMap.Cluster.{slot-clear, Used-clear, Loop, reinsert-Inv}

-- What a deletion of a key that is there does.
pub record Deleted (m : EpMap) (key : Bytes) (n : EpMap) : Type 0 where
  pub good : Good n
  pub sizes : n.size + 1 ≡ m.size
  pub kept : (k : Bytes) (v : ℤ) → k ≢ key → Holds m.entries k v → Holds n.entries k v
  pub only : (k : Bytes) (v : ℤ) → Holds n.entries k v → (k ≢ key) × Holds m.entries k v

module _ {m : EpMap} (good : Good m) (p : ℕ) (key : Bytes) (w : ℤ)
    (at : slot m.entries p ≡ some (key, w)) where
  abbrev emptied : EpMap
  emptied = record m { entries = set m.entries p none; size = m.size - 1 }

  in_table : p < length m.entries
  in_table = Used-lt m.entries p ((key, w), at)

  p_inside : p < m.capacity
  p_inside = omega (arith, in_table, good.inv.len)

  -- The free slot at which the cluster ends.
  cluster_end :
      (e : ℕ) × (e < m.capacity)
      × (e ≢ p)
      × (slot emptied.entries e ≡ none)
      × ((z : ℕ) → z < m.capacity → Between (next m.capacity p) z e → Used emptied.entries z)
  cluster_end =
      let (t, ht, target) =
        room-free m.entries
          (omega (arith, good.inv.counted, good.inv.len, good.room, good.inv.positive)) in
      let t_inside : t < m.capacity = omega (arith, ht, good.inv.len) in
      let apart : p ≢ t = λ s. not_free ((key, w), at) (ap (slot m.entries) s ∙ target) in
      let (e, _, f) =
        free_slot-FirstFree emptied.entries m.capacity (next m.capacity p) t
          (next-lt m.capacity p p_inside) t_inside
          (get_or-set_ne m.entries p t none none apart ∙ target) in
      (
        e,
        f.inside,
        (λ s. elim f.on_way [
          | inl b ↦
              not-around m.capacity p t p_inside t_inside apart
                (subst (λ x. Between (next m.capacity p) x t) s b)
          | inr s' ↦ apart (sym s ∙ s')
        ]),
        f.empty,
        f.full,
      )

  first_Loop :
      (e : ℕ)
      → e < m.capacity
      → e ≢ p
      → slot emptied.entries e ≡ none
      → ((z : ℕ) → z < m.capacity → Between (next m.capacity p) z e → Used emptied.entries z)
      → Loop e (next m.capacity p) emptied
  first_Loop e he not_p empty full =
      let was_empty : slot m.entries e ≡ none =
        sym (get_or-set_ne m.entries p e none none (λ s. not_p (sym s))) ∙ empty in
      let step = rank-next m.capacity e p he p_inside (λ s. not_p (sym s)) in
      let q_inside = next-lt m.capacity p p_inside in
      let inside = λ (i : ℕ) (x : Entry) (h : slot m.entries i ≡ some x).
        let z : i < m.capacity = omega (arith, Used-lt m.entries i (x, h), good.inv.len) in z in
      let homes = λ (k : Bytes). home-lt m.capacity k good.inv.positive in
      record {
        len = length-set m.entries p none ∙ good.inv.len;
        end_inside = he;
        inside = q_inside;
        empty = empty;
        rest = λ z hz n h. full z hz (rank-Between he q_inside hz he h (rank-before he hz n));
        up = λ i k v h.
            let (_, g) = slot-clear m.entries p i (k, v) in_table h in
            rank-le he (homes k) (inside i (k, v) g)
              (λ b. not_free (good.inv.path i k v g e he b) was_empty)
              (λ s. not_free ((k, v), g) (ap (slot m.entries) (sym s) ∙ was_empty));
        path = λ i k v h lower z hz from to.
            let (n, g) = slot-clear m.entries p i (k, v) in_table h in
            let hi = inside i (k, v) g in
            let differ : rank m.capacity e i ≢ rank m.capacity e p =
              λ s. n (rank_injective he hi p_inside s) in
            let not_z : z ≢ p = λ s.
              let r : rank m.capacity e z ≡ rank m.capacity e p = ap (rank m.capacity e) s in
              omega (arith, lower, step, differ, to, r) in
            Used-clear m.entries p z not_z
              (good.inv.path i k v g z hz (rank-Between he (homes k) hz hi from to));
        alone = λ i j k v u h g.
            let (_, h') = slot-clear m.entries p i (k, v) in_table h in
            let (_, g') = slot-clear m.entries p j (k, u) in_table g in
            good.inv.alone i j k v u h' g';
        counted = omega (arith, count-clear m.entries p ((key, w), at), good.inv.counted);
        texts = λ i k v h.
            let (_, g) = slot-clear m.entries p i (k, v) in_table h in good.inv.texts i k v g;
        room = omega (arith, good.room);
      }

  -- The loop of the deletion ends, and what it gives is the table without the key.
  pub reinsert-Deleted :
      (decimal : ℤ → Bytes) (strdup : Bytes → ℤ)
      → ((s : Bytes) → is_pointer (strdup s) ≡ true)
      → (n : EpMap) × (reinsert decimal strdup m.capacity (next m.capacity p) emptied ≡ some n)
        × Deleted m key n
  reinsert-Deleted decimal strdup heap =
      let (e, he, not_p, empty, full) = cluster_end in
      let (n, g, inv, same) =
        reinsert-Inv decimal strdup heap m.capacity e (next m.capacity p) emptied
          (first_Loop e he not_p empty full) fuel in
      (
        n,
        g,
        record {
          good = record {
            inv = inv;
            even = (good.even.0, same.same_capacity ∙ good.even.1);
            room = omega (arith, same.same_capacity, same.same_size, good.room);
          };
          sizes =
              omega
                (arith, same.same_size, count-clear m.entries p ((key, w), at), good.inv.counted);
          kept = λ k v d (i, h). same.moved k v (
            i,
            get_or-set_ne m.entries p i none none (λ s.
                  let both : ◌≡◌ {A = Option Entry} (some (k, v)) (some (key, w)) =
                    sym h ∙ ap (slot m.entries) (sym s) ∙ at in
                  let z : k ≡ key = cc in d z)
                ∙ h,
          );
          only = λ k v h.
              let (i, g) = same.only k v h in
              let (n, g') = slot-clear m.entries p i (k, v) in_table g in
              ((λ s. n (good.inv.alone i p key v w (g' ∙ ap (λ x. some (x, v)) s) at)), (i, g'));
        },
      )
    where
      fuel :
          (rank m.capacity (cluster_end).0 (cluster_end).0
            < rank m.capacity (cluster_end).0 (next m.capacity p) + m.capacity)
      fuel = let z = (cluster_end).1 in ground (arith, z)
