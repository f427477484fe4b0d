-- ===== src/Bytes/Text.antt =====
-- Texts: strings whose bytes are bytes, none of them 0, as every C string's are.
use ern_os.Base.{◌%◌, ◌≡◌, refl, ap, [], ◌∷◌, ◌++◌, map, arith, ◌==◌, false, some}
use native.Mathlib.Nat.{mod-eq_of_lt}
use ern_os.Base.Int.{pos}
use ern_os.Bytes.{Bytes, IsText, string_from_list, string_to_list}

pub append-IsText : (a b : Bytes) → IsText a → IsText b → IsText (a ++ b)
append-IsText [] b h k = k
append-IsText (c ∷ a) b h k = (h.0, h.1, append-IsText a b h.2 k)

-- A list of the bytes of a text makes the text.
pub string_from_list-map : (s : Bytes) → IsText s → string_from_list (some (map pos s)) ≡ s
unfolding string_from_list
string_from_list-map [] h = refl
string_from_list-map (c ∷ s) h =
    let small : c % 256 ≡ c = mod-eq_of_lt h.1 in
    let some_byte : (c == 0) ≡ false = ground (arith, h.0) in
    rw (small, some_byte) (ap (λ r. c ∷ r) (string_from_list-map s h.2))

-- string_from_list undoes string_to_list on every C string.
pub string_from_list-string_to_list :
    (s : Bytes) → IsText s → string_from_list (some (string_to_list (some s))) ≡ s
unfolding string_to_list
string_from_list-string_to_list s h = string_from_list-map s h
