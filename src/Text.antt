-- ===== src/Text.antt =====
-- What the source uses of Go's `bytes`, `strings` and `strconv`, on texts of ASCII: white space and
-- letters beyond ASCII are not known here.
pub mod Split
pub mod Tokens
use otus.Base.{
  Bytes, ℕ, List, min, ◌≡◌, [], Bool, ◌∷◌, if◌then◌else◌, Option, map, suc, ◌+◌, refl, ◌==◌, true,
  some, none, leb, ◌++◌, zero, ◌||◌, false, ◌&&◌, ◌*◌, ◌-◌,
}
use Prim.Native.Char.{code}
use Prim.Native.String.{String}

-- The bytes of a literal.
abbrev pub codes : String → Bytes
codes String.[] = []
codes (String.◌∷◌ c s) = code c ∷ codes s

abbrev pub is_space : ℕ → Bool
is_space c = c == b' ' || leb b'\t' c && leb c b'\r'

unfoldable pub trim_left : Bytes → Bytes
trim_left [] = []
trim_left (c ∷ s) = elim (is_space c) [ true ↦ trim_left s | false ↦ c ∷ s ]

-- Put a byte before a text whose white space at the end is gone.
abbrev pub cons_trim : ℕ → Bytes → Bytes
cons_trim c [] = if is_space c then [] else c ∷ []
cons_trim c (d ∷ s) = c ∷ d ∷ s

unfoldable pub trim_right : Bytes → Bytes
trim_right [] = []
trim_right (c ∷ s) = cons_trim c (trim_right s)

-- `TrimSpace`
abbrev pub trim : Bytes → Bytes
trim s = trim_right (trim_left s)

abbrev pub cons_head : ℕ → List Bytes → List Bytes
cons_head c [] = (c ∷ []) ∷ []
cons_head c (s ∷ ss) = (c ∷ s) ∷ ss

-- `Split` at a byte
unfoldable pub split_on : ℕ → Bytes → List Bytes
split_on sep [] = [] ∷ []
split_on sep (c ∷ s) = let rest = split_on sep s in if c == sep then [] ∷ rest else cons_head c rest

-- `SplitN` at a byte
unfoldable pub split_n : ℕ → ℕ → Bytes → List Bytes
split_n zero sep s = []
split_n (suc zero) sep s = s ∷ []
split_n (suc (suc n)) sep [] = [] ∷ []
split_n (suc (suc n)) sep (c ∷ s) = elim (c == sep) [
  | true ↦ [] ∷ split_n (suc n) sep s
  | false ↦ cons_head c (split_n (suc (suc n)) sep s)
]

-- `Fields`: the flag says whether the text before is a field that goes on.
abbrev pub drop_empty : List Bytes → List Bytes
drop_empty [] = []
drop_empty ([] ∷ ss) = drop_empty ss
drop_empty ((c ∷ s) ∷ ss) = (c ∷ s) ∷ drop_empty ss

unfoldable pub split_space : Bytes → List Bytes
split_space [] = [] ∷ []
split_space (c ∷ s) = let rest = split_space s in if is_space c then [] ∷ rest else cons_head c rest

abbrev pub fields : Bytes → List Bytes
fields s = drop_empty (split_space s)

unfoldable pub has_prefix : Bytes → Bytes → Bool
has_prefix [] s = true
has_prefix (p ∷ ps) [] = false
has_prefix (p ∷ ps) (c ∷ s) = p == c && has_prefix ps s

-- `Index` and `IndexByte`; `none` is -1.
unfoldable pub index_of : Bytes → Bytes → Option ℕ
index_of p [] = if has_prefix p [] then some 0 else none
index_of p (c ∷ s) = elim (has_prefix p (c ∷ s)) [
  | true ↦ some 0
  | false ↦ elim (index_of p s) [ none ↦ none | some i ↦ some (suc i) ]
]

unfoldable pub index_byte : ℕ → Bytes → Option ℕ
index_byte b [] = none
index_byte b (c ∷ s) = elim (c == b) [
  | true ↦ some 0
  | false ↦ elim (index_byte b s) [ none ↦ none | some i ↦ some (suc i) ]
]

unfoldable pub contains : Bytes → Bytes → Bool
contains p s = elim (index_of p s) [ none ↦ false | some i ↦ true ]

abbrev pub lower : ℕ → ℕ
lower c = if leb b'A' c && leb c b'Z' then c + 32 else c

-- `ToLower`
abbrev pub to_lower : Bytes → Bytes
to_lower = map lower

-- `Join`
unfoldable pub join : Bytes → List Bytes → Bytes
join sep [] = []
join sep (s ∷ []) = s
join sep (s ∷ t ∷ ss) = s ++ sep ++ join sep (t ∷ ss)

pub data ℤ : Type 0 where
  pos negsuc : ℕ → ℤ

-- What `ParseUint` with base 10 finds.
pub data Number : Type 0 where
  number : ℕ → Number
  bad_syntax out_of_range : Number

unfoldable pub scan_digits : ℕ → ℕ → Bytes → Number
scan_digits limit n [] = number n
scan_digits limit n (c ∷ s) = elim (leb b'0' c && leb c b'9') [
  | false ↦ bad_syntax
  | true ↦ elim (leb (n * 10 + (c - b'0')) limit) [
    | false ↦ out_of_range
    | true ↦ scan_digits limit (n * 10 + (c - b'0')) s
  ]
]

unfoldable pub parse_uint : ℕ → Bytes → Number
parse_uint limit [] = bad_syntax
parse_uint limit (c ∷ s) = scan_digits limit 0 (c ∷ s)

-- `ParseUint(s, 10, 16)`
abbrev pub parse_uint16 : Bytes → Option ℕ
parse_uint16 s = elim (parse_uint 65535 s) [
  | number n ↦ some n
  | bad_syntax ↦ none
  | out_of_range ↦ none
]

abbrev max_u64 : ℕ
max_u64 = 18446744073709551615

abbrev max_i64 : ℕ
max_i64 = 9223372036854775807

abbrev positive : Number → ℤ
positive (number n) = pos (min n max_i64)
positive bad_syntax = pos 0
positive out_of_range = pos max_i64

abbrev negate : ℕ → ℤ
negate zero = pos 0
negate (suc n) = negsuc n

abbrev negative : Number → ℤ
negative (number n) = negate (min n (max_i64 + 1))
negative bad_syntax = pos 0
negative out_of_range = negsuc max_i64

-- `Atoi`, whose error is ignored: 0 on bad syntax, the nearest number when it is out of range.
unfoldable pub atoi : Bytes → ℤ
atoi [] = pos 0
atoi (c ∷ s) =
    if c == b'-'
    then negative (parse_uint max_u64 s)
    else if c == b'+'
    then positive (parse_uint max_u64 s)
    else positive (parse_uint max_u64 (c ∷ s))

atoi-tests :
    (atoi (codes "200") ≡ pos 200)
    × (atoi (codes "-7") ≡ negsuc 6)
    × (atoi (codes "20x") ≡ pos 0)
    × (atoi (codes "99999999999999999999999") ≡ pos max_i64)
unfolding atoi parse_uint scan_digits
atoi-tests = (refl, refl, refl, refl)

texts-tests :
    (trim (codes " a b\r") ≡ codes "a b")
    × (fields (codes " IN  IP4 x ") ≡ codes "IN" ∷ codes "IP4" ∷ codes "x" ∷ [])
    × (split_n 3 b' ' (codes "INVITE sip:b SIP/2.0 x")
        ≡ codes "INVITE" ∷ codes "sip:b" ∷ codes "SIP/2.0 x" ∷ [])
    × (split_on b',' (codes "a,,b") ≡ codes "a" ∷ [] ∷ codes "b" ∷ [])
    × (index_of (codes "\n\n") (codes "a\n\nb") ≡ some 1)
unfolding trim_left trim_right split_space split_n split_on index_of has_prefix
texts-tests = (refl, refl, refl, refl, refl)
