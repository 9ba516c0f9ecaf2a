-- ===== src/Frame/Words.antt =====
-- Fields of a byte array: put24 and get24 of pkg/frame/codec.go, and the accessors of
-- encoding/binary's BigEndian that codec.go calls. A byte array is a list of numbers below 256.
use takapu_protocol_sdk.Prelude.{
  ℕ, ◌+◌, ◌*◌, ◌/◌, ◌%◌, ◌^◌, ◌≤◌, ◌<◌, ◌≡◌, ◌≢◌, ◌∙◌, List, arith, length, get_or, set, replicate,
  length-set, get_or-set_self, get_or-set_ne, ◌⊎◌,
}

-- A [32]byte array.
abbrev pub Word : Type 0
Word = List ℕ

abbrev pub IsByte : ℕ → Type 0
IsByte b = b < 256

abbrev pub zero_word : Word
zero_word = replicate 32 0

-- The byte at an index of the array.
abbrev pub byte_at : Word → ℕ → ℕ
byte_at w i = get_or w i 0

-- `put24(dst[at:at+3], v)`
unfoldable pub put24 : Word → ℕ → ℕ → Word
put24 w at v = set (set (set w at (v / 2 ^ 16 % 256)) (at + 1) (v / 2 ^ 8 % 256)) (at + 2) (v % 256)

-- `get24(src[at:at+3])`. The three bytes occupy disjoint bits, so that `|` is a sum.
unfoldable pub get24 : Word → ℕ → ℕ
get24 w at = byte_at w at * 2 ^ 16 + byte_at w (at + 1) * 2 ^ 8 + byte_at w (at + 2)

-- `binary.BigEndian.PutUint16(dst[at:at+2], v)`
unfoldable pub put16 : Word → ℕ → ℕ → Word
put16 w at v = set (set w at (v / 2 ^ 8 % 256)) (at + 1) (v % 256)

-- `binary.BigEndian.PutUint32(dst[at:at+4], v)`
unfoldable pub put32 : Word → ℕ → ℕ → Word
put32 w at v =
    set
      (set (set (set w at (v / 2 ^ 24 % 256)) (at + 1) (v / 2 ^ 16 % 256)) (at + 2)
        (v / 2 ^ 8 % 256))
      (at + 3) (v % 256)

unfoldable pub get16 : Word → ℕ → ℕ
get16 w at = byte_at w at * 2 ^ 8 + byte_at w (at + 1)

unfoldable pub get32 : Word → ℕ → ℕ
get32 w at =
    byte_at w at * 2 ^ 24
    + byte_at w (at + 1) * 2 ^ 16
    + byte_at w (at + 2) * 2 ^ 8
    + byte_at w (at + 3)

pub length-put24 : (w : Word) (at v : ℕ) → length (put24 w at v) ≡ length w
unfolding put24
length-put24 w at v = omega (arith, length-set {0} {A = ℕ})

byte_at-set_self : (w : Word) (i v : ℕ) → i < length w → byte_at (set w i v) i ≡ v
byte_at-set_self w i v h = get_or-set_self w i v 0 h

byte_at-set_ne : (w : Word) (i j v : ℕ) → i ≢ j → byte_at (set w i v) j ≡ byte_at w j
byte_at-set_ne w i j v h = get_or-set_ne w i j v 0 h

-- The three bytes that put24 writes, and those that it leaves.
pub byte_at-put24 :
    (w : Word) (at v : ℕ)
    → at + 2 < length w
    → (byte_at (put24 w at v) at ≡ v / 2 ^ 16 % 256)
      × (byte_at (put24 w at v) (at + 1) ≡ v / 2 ^ 8 % 256)
      × (byte_at (put24 w at v) (at + 2) ≡ v % 256)
unfolding put24
byte_at-put24 w at v h = (
  byte_at-set_ne _ (at + 2) at _ (omega arith)
      ∙ byte_at-set_ne _ (at + 1) at _ (omega arith)
      ∙ byte_at-set_self w at _ (omega arith),
  byte_at-set_ne _ (at + 2) (at + 1) _ (omega arith)
      ∙ byte_at-set_self _ (at + 1) _ (omega (arith, length-set {0} {A = ℕ})),
  byte_at-set_self _ (at + 2) _ (omega (arith, length-set {0} {A = ℕ})),
)

pub byte_at-put24_ne :
    (w : Word) (at v j : ℕ) → (j < at) ⊎ (at + 3 ≤ j) → byte_at (put24 w at v) j ≡ byte_at w j
unfolding put24
byte_at-put24_ne w at v j h =
    byte_at-set_ne _ (at + 2) j _ (omega arith)
    ∙ byte_at-set_ne _ (at + 1) j _ (omega arith)
    ∙ byte_at-set_ne w at j _ (omega arith)

-- A uint24 that is written is read back, and a write elsewhere leaves it.
pub get24-put24 :
    (w : Word) (at v : ℕ) → at + 2 < length w → v < 2 ^ 24 → get24 (put24 w at v) at ≡ v
unfolding get24
get24-put24 w at v h hv = omega (arith, byte_at-put24 w at v h)

pub get24-put24_ne :
    (w : Word) (at v i : ℕ) → (i + 3 ≤ at) ⊎ (at + 3 ≤ i) → get24 (put24 w at v) i ≡ get24 w i
unfolding get24
get24-put24_ne w at v i h = omega (
  arith,
  byte_at-put24_ne w at v i (omega arith),
  byte_at-put24_ne w at v (i + 1) (omega arith),
  byte_at-put24_ne w at v (i + 2) (omega arith),
)

-- A three-byte field determines its bytes.
pub get24-injective :
    (u w : Word) (at : ℕ)
    → (byte_at u at < 256) × (byte_at u (at + 1) < 256) × (byte_at u (at + 2) < 256)
    → (byte_at w at < 256) × (byte_at w (at + 1) < 256) × (byte_at w (at + 2) < 256)
    → get24 u at ≡ get24 w at
    → (byte_at u at ≡ byte_at w at)
      × (byte_at u (at + 1) ≡ byte_at w (at + 1))
      × (byte_at u (at + 2) ≡ byte_at w (at + 2))
unfolding get24
get24-injective u w at hu hw e = omega arith
