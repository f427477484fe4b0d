-- ===== src/Bytes.antt =====
-- C strings in the runtime of toolchain/epc_bootstrap.c. A string is the list of its bytes before
-- the terminator, so no byte of it is 0; a `char*` is `none` where it is NULL. `strlen`, `strstr`
-- and `strncmp` are read as C defines them. Allocation succeeds.
pub mod Text
pub mod Compare
pub mod Search
pub mod Replace
pub mod Split
pub mod Trim
pub mod Builder
pub mod Base64
pub mod Digits
pub mod Paths
mod Tests
use Prim.Native.Char.{code}
use Prim.Native.String.{String}
use ern_os.Base.{
  ℕ, zero, suc, ◌+◌, ◌-◌, ◌%◌, ◌<◌, Bool, true, false, ◌&&◌, Option, none, some, List, [], ◌∷◌,
  ◌++◌, map, ltb, leb, ◌==◌, if◌then◌else◌, length, get_or, take, drop,
}
use ern_os.Base.Int.{ℤ, pos, negsuc, pos_part, ltb_ℤ, leb_ℤ, ◌+ℤ◌, ◌-ℤ◌}

abbrev pub Bytes : Type 0
Bytes = List ℕ

abbrev pub Ptr : Type 0
Ptr = Option Bytes

unfoldable pub string_length : Ptr → ℕ
string_length none = 0
string_length (some s) = length s

-- `index < 0 || index >= len` answers 0.
unfoldable pub get_character : Ptr → ℤ → ℕ
get_character none i = 0
get_character (some s) (negsuc i) = 0
get_character (some s) (pos i) = if leb (length s) i then 0 else get_or s i 0

-- The same test and read, written out once more in the source.
unfoldable pub char_at : Ptr → ℤ → ℕ
char_at none i = 0
char_at (some s) (negsuc i) = 0
char_at (some s) (pos i) = if leb (length s) i then 0 else get_or s i 0

-- The guards of `substring` leave 0 ≤ start < total_len and 0 < len.
unfoldable pub substring : Ptr → ℤ → ℤ → Bytes
substring none start len = []
substring (some s) (negsuc start) len = []
substring (some s) (pos start) (negsuc len) = []
substring (some s) (pos start) (pos len) =
    if leb (length s) start
    then []
    else if leb len 0
    then []
    else (let n = if ltb (length s) (start + len) then length s - start else len in
        take n (drop start s))

unfoldable pub concat : Bytes → Bytes → Bytes
concat a b = a ++ b

-- A cell cast to `unsigned char`.
unfoldable pub byte : ℤ → ℕ
byte (pos n) = n % 256
byte (negsuc n) = 255 - n % 256

-- What `strlen` sees of a buffer: the bytes before the first 0.
unfoldable pub c_string : List ℕ → Bytes
c_string [] = []
c_string (b ∷ bs) = if b == 0 then [] else b ∷ c_string bs

-- `(char)list->data[i]` for each cell, then the terminator.
unfoldable pub string_from_list : Option (List ℤ) → Bytes
unfolding c_string byte
string_from_list none = []
string_from_list (some l) = c_string (map byte l)

unfoldable pub string_to_list : Ptr → List ℤ
string_to_list none = []
string_to_list (some s) = map pos s

unfoldable pub char_from_code : ℤ → Bytes
unfolding c_string byte
char_from_code code = c_string (byte code ∷ [])

-- `toupper` and `tolower` in the C locale
unfoldable pub to_upper : ℕ → ℕ
to_upper c = if leb 97 c && leb c 122 then c - 32 else c

unfoldable pub to_lower : ℕ → ℕ
to_lower c = if leb 65 c && leb c 90 then c + 32 else c

unfoldable pub string_upper : Ptr → Bytes
unfolding to_upper
string_upper none = []
string_upper (some s) = map to_upper s

unfoldable pub string_lower : Ptr → Bytes
unfolding to_lower
string_lower none = []
string_lower (some s) = map to_lower s

-- No byte of a C string is 0, and each is a byte.
abbrev pub IsText : Bytes → Type 0
IsText [] = Unit {0}
IsText (c ∷ s) = (0 < c) × (c < 256) × IsText s

-- The bytes of an ASCII literal.
abbrev pub codes : String → Bytes
codes String.[] = []
codes (String.◌∷◌ c s) = code c ∷ codes s
