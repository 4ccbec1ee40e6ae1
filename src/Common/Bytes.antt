-- ===== src/Common/Bytes.antt =====
-- Go strings and byte slices as lists of bytes, with what the program uses of package strings.
-- A loop over runes that only tests for ASCII characters is a loop over bytes: a byte from 128 on
-- belongs to a rune from 128 on, or to the replacement rune.
pub mod Laws
pub mod Hex
use Prim.Native.Char.{code}
use Prim.Native.String.{String}
use llmp2p.Common.{
  ℕ, zero, suc, ◌+◌, Bool, true, false, ◌&&◌, ◌||◌, List, [], ◌∷◌, ◌++◌, Option, none, some, ltb,
  leb, ◌==◌, if◌then◌else◌, length,
}

abbrev pub Bytes : Type 0
Bytes = List ℕ

-- The bytes of a text: its code points, for the ASCII literals of the source.
abbrev pub codes : String → Bytes
codes String.[] = []
codes (String.◌∷◌ c s) = code c ∷ codes s

-- `a == b`
unfoldable pub equal : Bytes → Bytes → Bool
equal (c ∷ a) (d ∷ b) = c == d && equal a b
equal [] [] = true
equal _ _ = false

-- `a < b`, by bytes
unfoldable pub less : Bytes → Bytes → Bool
less [] [] = false
less [] (y ∷ ys) = true
less (x ∷ xs) [] = false
less (x ∷ xs) (y ∷ ys) = ltb x y || (x == y && less xs ys)

unfoldable pub is_empty : Bytes → Bool
is_empty [] = true
is_empty (c ∷ cs) = false

unfoldable pub all_bytes : (ℕ → Bool) → Bytes → Bool
all_bytes p [] = true
all_bytes p (c ∷ cs) = p c && all_bytes p cs

-- `^[class]{lo,hi}$`
unfoldable pub class_between : (ℕ → Bool) → ℕ → ℕ → Bytes → Bool
unfolding all_bytes
class_between p lo hi s = leb lo (length s) && leb (length s) hi && all_bytes p s

-- `strings.CutPrefix(s, prefix)`; `none` if the prefix is not there
unfoldable pub cut_prefix : Bytes → Bytes → Option Bytes
cut_prefix s [] = some s
cut_prefix [] (p ∷ ps) = none
cut_prefix (c ∷ cs) (p ∷ ps) = let rest = cut_prefix cs ps in if c == p then rest else none

-- `strings.HasPrefix(s, prefix)`
unfoldable pub has_prefix : Bytes → Bytes → Bool
has_prefix s [] = true
has_prefix [] (p ∷ ps) = false
has_prefix (c ∷ cs) (p ∷ ps) = c == p && has_prefix cs ps

-- `strings.Cut(s, sep)` at a separator of one byte; `none` if it is not found
unfoldable pub cut_cons : ℕ → Option (Bytes × Bytes) → Option (Bytes × Bytes)
cut_cons c none = none
cut_cons c (some (a, b)) = some (c ∷ a, b)

unfoldable pub cut : ℕ → Bytes → Option (Bytes × Bytes)
unfolding cut_cons
cut sep [] = none
cut sep (c ∷ cs) = let rest = cut sep cs in if c == sep then some ([], cs) else cut_cons c rest

-- `strings.Contains(s, sub)` for a byte, and for a pair of bytes
unfoldable pub contains_byte : ℕ → Bytes → Bool
contains_byte b [] = false
contains_byte b (c ∷ cs) = c == b || contains_byte b cs

unfoldable pub contains_pair : ℕ → ℕ → Bytes → Bool
contains_pair a b [] = false
contains_pair a b (c ∷ []) = false
contains_pair a b (c ∷ d ∷ cs) = (c == a && d == b) || contains_pair a b (d ∷ cs)

-- The first byte goes to the first piece.
unfoldable pub cons_head : ℕ → List Bytes → List Bytes
cons_head c [] = (c ∷ []) ∷ []
cons_head c (s ∷ ss) = (c ∷ s) ∷ ss

-- `strings.Split(s, sep)` at a separator of one byte
unfoldable pub split : ℕ → Bytes → List Bytes
unfolding cons_head
split sep [] = [] ∷ []
split sep (c ∷ cs) = let rest = split sep cs in if c == sep then [] ∷ rest else cons_head c rest

-- `strings.Join(ss, sep)`
unfoldable pub join : ℕ → List Bytes → Bytes
join sep [] = []
join sep (s ∷ []) = s
join sep (s ∷ t ∷ ss) = s ++ (sep ∷ join sep (t ∷ ss))

-- `strings.TrimRight(s, cutset)` for a cutset of one byte: the bytes equal to it at the end go
unfoldable pub trim_right : ℕ → Bytes → Bytes
unfolding is_empty
trim_right b [] = []
trim_right b (c ∷ cs) =
    let rest = trim_right b cs in if c == b && is_empty rest then [] else c ∷ rest

-- `strings.TrimLeft(s, cutset)` and `strings.TrimRight(s, cutset)`, the cutset as a test
unfoldable pub trim_left_by : (ℕ → Bool) → Bytes → Bytes
trim_left_by p [] = []
trim_left_by p (c ∷ cs) = let rest = trim_left_by p cs in if p c then rest else c ∷ cs

unfoldable pub trim_right_by : (ℕ → Bool) → Bytes → Bytes
unfolding is_empty
trim_right_by p [] = []
trim_right_by p (c ∷ cs) =
    let rest = trim_right_by p cs in if p c && is_empty rest then [] else c ∷ rest

-- `strings.Trim(s, cutset)`
unfoldable pub trim_by : (ℕ → Bool) → Bytes → Bytes
unfolding trim_left_by trim_right_by
trim_by p s = trim_right_by p (trim_left_by p s)

-- `strings.HasSuffix(s, suffix)`
unfoldable pub has_suffix : Bytes → Bytes → Bool
unfolding equal
has_suffix [] suffix = equal [] suffix
has_suffix (c ∷ cs) suffix = equal (c ∷ cs) suffix || has_suffix cs suffix

-- `unicode.IsSpace` on ASCII
unfoldable pub is_space : ℕ → Bool
is_space c = c == 32 || (leb 9 c && leb c 13)

-- character classes of the regular expressions
unfoldable pub is_digit : ℕ → Bool
is_digit c = leb b'0' c && leb c b'9'

unfoldable pub is_lower : ℕ → Bool
is_lower c = leb b'a' c && leb c b'z'

unfoldable pub is_upper : ℕ → Bool
is_upper c = leb b'A' c && leb c b'Z'

-- `[a-zA-Z0-9]`
unfoldable pub is_alnum : ℕ → Bool
unfolding is_digit is_lower is_upper
is_alnum c = is_lower c || is_upper c || is_digit c

-- `[0-9a-f]`
unfoldable pub is_hex_lower : ℕ → Bool
unfolding is_digit
is_hex_lower c = is_digit c || (leb b'a' c && leb c b'f')

-- `strings.ToLower(s)`, on ASCII
unfoldable pub lower_byte : ℕ → ℕ
unfolding is_upper
lower_byte c = if is_upper c then c + 32 else c

unfoldable pub to_lower : Bytes → Bytes
unfolding lower_byte
to_lower [] = []
to_lower (c ∷ cs) = lower_byte c ∷ to_lower cs
