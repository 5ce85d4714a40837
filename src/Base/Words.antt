-- ===== src/Base/Words.antt =====
-- Go's view of a byte slice: indexing, slicing, big-endian reads, and the wrap of fixed-width words.
-- A source line indexes only behind a test of the length, so `at` past the end is never what it reads.
use Prim.Native.Nat.{ℕ, ◌+◌, ◌-◌, ◌*◌, ◌/◌, ◌%◌, ◌≤◌, ◌<◌}
use mathlib.Core.Path.{◌∙◌, ◌≡◌}
use mathlib.Core.List.{List, [], ◌∷◌}
use native.Mathlib.Omega.{arith}
use otus.Base.Lists.{
  get_elem?, get_elem?-take, get_elem?-drop, length, get_or, take, drop, All, length-take,
  length-drop,
}

abbrev pub Bytes : Type 0
Bytes = List ℕ

-- Every element is a byte.
abbrev pub IsBytes : Bytes → Type 0
IsBytes bs = All (λ b. b < 256) bs

abbrev pub u8 : ℕ → ℕ
u8 n = n % 256

abbrev pub u16 : ℕ → ℕ
u16 n = n % 65536

abbrev pub u32 : ℕ → ℕ
u32 n = n % 4294967296

-- `data[i]`
abbrev pub at : Bytes → ℕ → ℕ
at bs i = get_or bs i 0

-- `data[a:b]` and `data[a:]`
abbrev pub slice : Bytes → ℕ → ℕ → Bytes
slice bs a b = take (b - a) (drop a bs)

-- `binary.BigEndian.Uint16(data[i:i+2])`
abbrev pub be16 : Bytes → ℕ → ℕ
be16 bs i = at bs i * 256 + at bs (i + 1)

-- `binary.BigEndian.Uint32(data[i:i+4])`
abbrev pub be32 : Bytes → ℕ → ℕ
be32 bs i = be16 bs i * 65536 + be16 bs (i + 2)

-- `binary.BigEndian.PutUint16` and `PutUint32`
abbrev pub put16 : ℕ → Bytes
put16 n = u8 (n / 256) ∷ u8 n ∷ []

abbrev pub put32 : ℕ → Bytes
put32 n = u8 (n / 16777216) ∷ u8 (n / 65536) ∷ u8 (n / 256) ∷ u8 n ∷ []

pub length-slice : (bs : Bytes) (a b : ℕ) → a ≤ b → b ≤ length bs → length (slice bs a b) ≡ b - a
length-slice bs a b h k = omega (arith, length-take (b - a) (drop a bs), length-drop a bs)

pub get_elem?-slice :
    (bs : Bytes) (a b i : ℕ) → a + i < b → get_elem? (slice bs a b) i ≡ get_elem? bs (a + i)
get_elem?-slice bs a b i h =
    get_elem?-take (b - a) (drop a bs) i (omega arith) ∙ get_elem?-drop a bs i

pub at-lt : (bs : Bytes) (i : ℕ) → IsBytes bs → at bs i < 256
at-lt [] i h = omega arith
at-lt (x ∷ xs) Prim.Native.Nat.zero h = h.0
at-lt (x ∷ xs) (Prim.Native.Nat.suc i) h = at-lt xs i h.1

pub be16-lt : (bs : Bytes) (i : ℕ) → IsBytes bs → be16 bs i < 65536
be16-lt bs i h = omega (arith, at-lt bs i h, at-lt bs (i + 1) h)
