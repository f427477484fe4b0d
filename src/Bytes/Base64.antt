-- ===== src/Bytes/Base64.antt =====
-- ep_base64_encode, against the decoding of RFC 4648.
use ern_os.Base.{
  ℕ, ◌+◌, ◌-◌, ◌*◌, ◌/◌, ◌%◌, ◌^◌, ◌<◌, ◌≡◌, refl, ap, Bool, true, false, ◌&&◌, not, Option, none,
  some, [], ◌∷◌, arith, leb, ◌==◌, if◌then◌else◌, length, get_or,
}
use ern_os.Base.Table.{all_below, all_below_sound}
use ern_os.Bytes.{Bytes, codes}

unfoldable pub b64_table : Bytes
b64_table = codes "ABCDEFGHIJKLMNOPQRSTUVWXYZabcdefghijklmnopqrstuvwxyz0123456789+/"

-- `b64_table[(n >> k) & 63]`
unfoldable pub symbol : ℕ → ℕ
unfolding b64_table
symbol v = get_or b64_table (v % 64) 0

-- One round of the loop for each clause: three bytes or more are left, two, one. The bytes of `n`
-- are shifted to bits of their own, so `|` is a sum.
unfoldable pub ep_base64_encode : Bytes → Bytes
ep_base64_encode [] = []
ep_base64_encode (a ∷ []) =
    let n = a * 2 ^ 16 in symbol (n / 2 ^ 18) ∷ symbol (n / 2 ^ 12) ∷ b'=' ∷ b'=' ∷ []
ep_base64_encode (a ∷ b ∷ []) =
    let n = a * 2 ^ 16 + b * 2 ^ 8 in
    symbol (n / 2 ^ 18) ∷ symbol (n / 2 ^ 12) ∷ symbol (n / 2 ^ 6) ∷ b'=' ∷ []
ep_base64_encode (a ∷ b ∷ c ∷ data') =
    let n = a * 2 ^ 16 + b * 2 ^ 8 + c in
    symbol (n / 2 ^ 18)
    ∷ symbol (n / 2 ^ 12)
    ∷ symbol (n / 2 ^ 6)
    ∷ symbol n
    ∷ ep_base64_encode data'

-- `out_len`, which is allocated with one byte more.
unfoldable pub out_len : ℕ → ℕ
out_len len = 4 * ((len + 2) / 3)

-- The value of a symbol of RFC 4648.
unfoldable pub value : ℕ → Option ℕ
value c =
    if leb b'A' c && leb c b'Z'
    then some (c - b'A')
    else if leb b'a' c && leb c b'z'
    then some (c - b'a' + 26)
    else if leb b'0' c && leb c b'9'
    then some (c - b'0' + 52)
    else if c == b'+'
    then some 62
    else if c == b'/'
    then some 63
    else none

module _ {ℓ κ} {A : Type ℓ} {B : Type κ} where
  infixl 5 ◌>>=◌
  abbrev ◌>>=◌ : Option A → (A → Option B) → Option B
  none >>= f = none
  some a >>= f = f a

-- The one, two or three bytes of a group of four symbols.
one_byte : ℕ → ℕ → Option Bytes
one_byte p q = do v ← value p; w ← value q; some ((v * 4 + w / 16) ∷ [])

two_bytes : ℕ → ℕ → ℕ → Option Bytes
two_bytes p q r = do
  v ← value p
  w ← value q
  x ← value r
  some ((v * 4 + w / 16) ∷ (w % 16 * 16 + x / 4) ∷ [])

three_bytes : ℕ → ℕ → ℕ → ℕ → Option Bytes → Option Bytes
three_bytes p q r s tail = do
  v ← value p
  w ← value q
  x ← value r
  y ← value s
  t ← tail
  some ((v * 4 + w / 16) ∷ (w % 16 * 16 + x / 4) ∷ (x % 4 * 64 + y) ∷ t)

-- Padding ends a text: `==` after two symbols, `=` after three.
unfoldable pub decode : Bytes → Option Bytes
unfolding value one_byte two_bytes three_bytes
decode [] = some []
decode (p ∷ q ∷ r ∷ s ∷ rest) =
    let tail = decode rest in
    if s == b'='
    then (if r == b'=' then one_byte p q else two_bytes p q r)
    else three_bytes p q r s tail
decode _ = none

abbrev same_value : Option ℕ → ℕ → Bool
same_value none k = false
same_value (some v) k = v == k

symbols : all_below 64 (λ v. same_value (value (symbol v)) v && not (symbol v == b'=')) ≡ true
unfolding all_below value symbol
symbols = refl

value-symbol : (v : ℕ) → (value (symbol v) ≡ some (v % 64)) × ((symbol v == b'=') ≡ false)
value-symbol v =
    let w = v % 64 in
    let lt : w < 64 = omega arith in
    let h = all_below_sound 64 _ w symbols lt in
    let e : symbol w ≡ symbol v =
      unfold symbol in
      ap (λ k. get_or b64_table k 0) (let z : w % 64 ≡ v % 64 = omega arith in z) in
    rw (← e) (read_back (value (symbol w)) w (symbol w == b'=') h)
  where
    read_back :
        (o : Option ℕ) (w : ℕ) (p : Bool)
        → (same_value o w && not p) ≡ true
        → (o ≡ some w) × (p ≡ false)
    read_back o w p h = ground arith

-- Bytes are below 256.
abbrev pub AreBytes : Bytes → Type 0
AreBytes [] = Unit {0}
AreBytes (b ∷ s) = (b < 256) × AreBytes s

-- The four symbols of three bytes decode to those bytes; so do the shorter groups.
decode_three :
    (a b c : ℕ) (rest t : Bytes)
    → a < 256
    → b < 256
    → c < 256
    → decode rest ≡ some t
    → (let n = a * 2 ^ 16 + b * 2 ^ 8 + c in
        decode (symbol (n / 2 ^ 18) ∷ symbol (n / 2 ^ 12) ∷ symbol (n / 2 ^ 6) ∷ symbol n ∷ rest))
      ≡ some (a ∷ b ∷ c ∷ t)
unfolding decode
decode_three a b c rest t p q r h =
    let n = a * 2 ^ 16 + b * 2 ^ 8 + c in
    let first : n / 2 ^ 18 % 64 * 4 + n / 2 ^ 12 % 64 / 16 ≡ a = omega arith in
    let second : n / 2 ^ 12 % 64 % 16 * 16 + n / 2 ^ 6 % 64 / 4 ≡ b = omega arith in
    let third : n / 2 ^ 6 % 64 % 4 * 64 + n % 64 ≡ c = omega arith in
    simp
      (
        (value-symbol n).1,
        (value-symbol (n / 2 ^ 18)).0,
        (value-symbol (n / 2 ^ 12)).0,
        (value-symbol (n / 2 ^ 6)).0,
        (value-symbol n).0,
        h,
      )
      (λ i. some (first i ∷ second i ∷ third i ∷ t))

decode_two :
    (a b : ℕ) → a < 256 → b < 256 → decode (ep_base64_encode (a ∷ b ∷ [])) ≡ some (a ∷ b ∷ [])
unfolding decode ep_base64_encode
decode_two a b p q =
    let n = a * 2 ^ 16 + b * 2 ^ 8 in
    let first : n / 2 ^ 18 % 64 * 4 + n / 2 ^ 12 % 64 / 16 ≡ a = omega arith in
    let second : n / 2 ^ 12 % 64 % 16 * 16 + n / 2 ^ 6 % 64 / 4 ≡ b = omega arith in
    simp
      (
        (value-symbol (n / 2 ^ 6)).1,
        (value-symbol (n / 2 ^ 18)).0,
        (value-symbol (n / 2 ^ 12)).0,
        (value-symbol (n / 2 ^ 6)).0,
      )
      (λ i. some (first i ∷ second i ∷ []))

decode_one : (a : ℕ) → a < 256 → decode (ep_base64_encode (a ∷ [])) ≡ some (a ∷ [])
unfolding decode ep_base64_encode
decode_one a p =
    let n = a * 2 ^ 16 in
    let first : n / 2 ^ 18 % 64 * 4 + n / 2 ^ 12 % 64 / 16 ≡ a = omega arith in
    simp ((value-symbol (n / 2 ^ 18)).0, (value-symbol (n / 2 ^ 12)).0) (λ i. some (first i ∷ []))

decode-nil : decode [] ≡ some []
unfolding decode
decode-nil = refl

-- Decoding by RFC 4648 gives back every string of bytes, and the encoded text has exactly the
-- `out_len` bytes that were allocated for it.
pub decode-ep_base64_encode :
    (s : Bytes)
    → AreBytes s
    → (decode (ep_base64_encode s) ≡ some s) × (length (ep_base64_encode s) ≡ out_len (length s))
unfolding ep_base64_encode out_len
decode-ep_base64_encode [] h = (decode-nil, refl)
decode-ep_base64_encode (a ∷ []) h = (decode_one a h.0, refl)
decode-ep_base64_encode (a ∷ b ∷ []) h = (decode_two a b h.0 h.1.0, refl)
decode-ep_base64_encode (a ∷ b ∷ c ∷ s) h =
    let (back, len) = decode-ep_base64_encode s h.1.1.1 in
    (decode_three a b c (ep_base64_encode s) s h.0 h.1.0 h.1.1.0 back, omega (arith, len))
