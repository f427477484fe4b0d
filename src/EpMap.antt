-- ===== src/EpMap.antt =====
-- The map of the runtime, EpMap of toolchain/epc_bootstrap.c: a table with linear probing, whose
-- deletion inserts the rest of the cluster again. A `long long` key above 0x100000 is followed as
-- the address of a text. A used entry has a key that is not NULL, and an unused one the cells that calloc left.
pub mod Circle
pub mod Slots
pub mod Probe
pub mod Table
pub mod Insert
pub mod Resize
pub mod Cluster
pub mod Delete
pub mod Spec
pub mod Refines
pub mod Listing
mod Tests
use ern_os.Base.{
  ℕ, zero, suc, ◌+◌, ◌-◌, ◌*◌, ◌%◌, ◌^◌, Bool, true, false, ◌&&◌, ◌||◌, Option, none, some, List,
  [], ◌∷◌, ltb, leb, ◌==◌, if◌then◌else◌, length, get_or, set, replicate,
}
use ern_os.Base.Int.{ℤ, pos, negsuc, ltb_ℤ}
use ern_os.Bytes.{Bytes}
use ern_os.Bytes.Compare.{same_text}

-- `c = *str` is a signed char.
abbrev pub hash_step : ℕ → ℕ → ℕ
hash_step hash c = (hash * 33 + (if ltb c 128 then c else c + 2 ^ 64 - 256)) % 2 ^ 64

unfoldable pub hash_from : ℕ → Bytes → ℕ
hash_from hash [] = hash
hash_from hash (c ∷ s) = hash_from (hash_step hash c) s

unfoldable pub hash_string : Bytes → ℕ
unfolding hash_from
hash_string s = hash_from 5381 s

abbrev pub Entry : Type 0
Entry = Bytes × ℤ

pub record EpMap : Type 0 where
  pub entries : List (Option Entry)
  pub capacity : ℕ
  pub size : ℕ

unfoldable pub create_map : EpMap
create_map = record { entries = replicate 16 none; capacity = 16; size = 0 }

abbrev pub slot : List (Option Entry) → ℕ → Option Entry
slot es i = get_or es i none

-- `(h + 1) % capacity`
unfoldable pub next : ℕ → ℕ → ℕ
next cap h = (h + 1) % cap

-- `while (entries[h].used) h = (h + 1) % capacity`
unfoldable pub free_slot : ℕ → List (Option Entry) → ℕ → ℕ → Option ℕ
unfolding next
free_slot zero es cap h = none
free_slot (suc f) es cap h =
    let rest = free_slot f es cap (next cap h) in elim (slot es h) [ none ↦ some h | some e ↦ rest ]

-- What the loop that compares keys comes to: the key, an unused entry, or its start again.
pub data Probed : Type 0 where
  hit : ℕ → Probed
  free : ℕ → Probed
  around : Probed

unfoldable pub probe : ℕ → List (Option Entry) → ℕ → Bytes → ℕ → Probed
unfolding next same_text
probe zero es cap key h = around
probe (suc f) es cap key h =
    let rest = probe f es cap key (next cap h) in
    elim (slot es h) [ none ↦ free h | some (k, v) ↦ if same_text k key then hit h else rest ]

-- `hash_string(key) % capacity`
unfoldable pub home : ℕ → Bytes → ℕ
unfolding hash_string
home cap key = hash_string key % cap

-- The loop of map_resize over the old entries, from an index on.
unfoldable pub rehash : List (Option Entry) → EpMap → Option EpMap
unfolding free_slot home
rehash [] m = some m
rehash (none ∷ old) m = rehash old m
rehash (some (key, value) ∷ old) m =
    elim (free_slot m.capacity m.entries m.capacity (home m.capacity key)) [
      | none ↦ none
      | some h ↦
          rehash old (record m { entries = set m.entries h (some (key, value)); size = m.size + 1 })
    ]

-- A loop that finds no unused entry does not end: `none`.
unfoldable pub map_resize : EpMap → ℕ → Option EpMap
unfolding rehash
map_resize m new_capacity =
    rehash m.entries
      (record { entries = replicate new_capacity none; capacity = new_capacity; size = 0 })

-- map_insert from behind the growing on, with the text of the key.
unfoldable pub insert_key : EpMap → Bytes → ℤ → Option EpMap
unfolding probe home
insert_key m key value = elim (probe m.capacity m.entries m.capacity key (home m.capacity key)) [
  | hit h ↦ some (record m { entries = set m.entries h (some (key, value)) })
  | free h ↦ some (record m { entries = set m.entries h (some (key, value)); size = m.size + 1 })
  | around ↦ none
]

unfoldable pub insert_text : EpMap → Bytes → ℤ → Option EpMap
unfolding map_resize insert_key
insert_text m key value =
    elim (if leb m.capacity (m.size * 2) then map_resize m (m.capacity * 2) else some m) [
      | none ↦ none
      | some n ↦ insert_key n key value
    ]

-- A key as the caller passes it, with the text that the memory holds where the key is taken as an
-- address.
pub record Key : Type 0 where
  pub value : ℤ
  pub text : Bytes

-- The text `s` as a key, at the address `n`.
abbrev pub address : Bytes → ℤ → Key
address s n = record { value = n; text = s }

-- `key_val == 0`
unfoldable pub is_null : ℤ → Bool
is_null (pos n) = n == 0
is_null (negsuc n) = false

-- `key_val > 0x100000`
unfoldable pub is_pointer : ℤ → Bool
is_pointer n = ltb_ℤ (pos 1048576) n

-- The test of the first byte, by which a text is told from a number.
unfoldable pub is_text : Bytes → Bool
is_text [] = true
is_text (c ∷ s) = (leb 32 c && ltb c 127) || leb 192 c

-- The runtime's map with `snprintf("%lld")`, and with where strdup puts a text.
module _ (decimal : ℤ → Bytes) (strdup : Bytes → ℤ) where
  unfoldable pub ep_map_key_str : Key → Bytes
  unfolding is_null is_pointer is_text
  ep_map_key_str key =
      if is_null key.value
      then 48 ∷ []
      else if is_pointer key.value && is_text key.text
      then key.text
      else decimal key.value

  unfoldable pub map_insert : EpMap → Key → ℤ → Option EpMap
  unfolding ep_map_key_str insert_text
  map_insert m key value = insert_text m (ep_map_key_str key) value

  unfoldable pub map_get_val : EpMap → Key → ℤ
  unfolding ep_map_key_str probe home
  map_get_val m key =
      let k = ep_map_key_str key in
      elim (probe m.capacity m.entries m.capacity k (home m.capacity k)) [
        | hit h ↦ elim (slot m.entries h) [ none ↦ pos 0 | some (_, v) ↦ v ]
        | free h ↦ pos 0
        | around ↦ pos 0
      ]

  unfoldable pub map_contains : EpMap → Key → Bool
  unfolding ep_map_key_str probe home
  map_contains m key =
      let k = ep_map_key_str key in
      elim (probe m.capacity m.entries m.capacity k (home m.capacity k)) [
        | hit h ↦ true
        | free h ↦ false
        | around ↦ false
      ]

  -- The inner loop of map_delete: the entries up to the next unused one are taken out and
  -- inserted again.
  unfoldable pub reinsert : ℕ → ℕ → EpMap → Option EpMap
  unfolding map_insert next
  reinsert zero h m = none
  reinsert (suc f) h m = elim (slot m.entries h) [
    | none ↦ some m
    | some (k, v) ↦
        elim (map_insert (record m { entries = set m.entries h none; size = m.size - 1 })
          (address k (strdup k)) v) [ none ↦ none | some n ↦ reinsert f (next n.capacity h) n ]
  ]

  unfoldable pub map_delete : EpMap → Key → Option (EpMap × Bool)
  unfolding ep_map_key_str probe home next reinsert
  map_delete m key =
      let k = ep_map_key_str key in
      elim (probe m.capacity m.entries m.capacity k (home m.capacity k)) [
        | hit h ↦
            elim (reinsert m.capacity (next m.capacity h)
              (record m { entries = set m.entries h none; size = m.size - 1 })) [
                | none ↦ none
                | some n ↦ some (n, true)
              ]
        | free h ↦ some (m, false)
        | around ↦ some (m, false)
      ]

-- The texts and the values of the used entries, in their order.
unfoldable pub map_keys : List (Option Entry) → List Bytes
map_keys [] = []
map_keys (none ∷ es) = map_keys es
map_keys (some (k, v) ∷ es) = k ∷ map_keys es

unfoldable pub map_values : List (Option Entry) → List ℤ
map_values [] = []
map_values (none ∷ es) = map_values es
map_values (some (k, v) ∷ es) = v ∷ map_values es

unfoldable pub map_size : EpMap → ℕ
map_size m = m.size
