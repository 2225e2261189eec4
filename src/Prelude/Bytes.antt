-- ===== src/Prelude/Bytes.antt =====
-- Bytes and code points as lists of numbers.
use Prim.Native.Nat.{ℕ, ◌+◌, ◌-◌, ◌*◌}
use Prim.Native.String.{String}
use Prim.Native.Char.{code}
use mathlib.Core.Bool.{Bool, true, false, not, ◌&&◌, ◌||◌}
use mathlib.Core.List.{List, [], ◌∷◌}
use openai_compatible_bridge.Prelude.Tests.{◌==◌, leb, if◌then◌else◌}
use openai_compatible_bridge.Prelude.Lists.{is_empty}

-- The code points of a text: its bytes, if it is ASCII.
abbrev pub codes : String → List ℕ
codes String.[] = []
codes (String.◌∷◌ c s) = code c ∷ codes s

abbrev pub same_bytes : List ℕ → List ℕ → Bool
same_bytes [] [] = true
same_bytes [] (y ∷ ys) = false
same_bytes (x ∷ xs) [] = false
same_bytes (x ∷ xs) (y ∷ ys) = x == y && same_bytes xs ys

-- `bytes.lower()`
unfoldable pub lower_byte : ℕ → ℕ
lower_byte c = if leb b'A' c && leb c b'Z' then c + 32 else c

unfoldable pub lower_bytes : List ℕ → List ℕ
unfolding lower_byte
lower_bytes [] = []
lower_bytes (c ∷ cs) = lower_byte c ∷ lower_bytes cs

abbrev pub is_digit : ℕ → Bool
is_digit c = leb b'0' c && leb c b'9'

abbrev pub all_digits : List ℕ → Bool
all_digits [] = true
all_digits (c ∷ cs) = is_digit c && all_digits cs

-- `bytes.isdigit()`
abbrev pub is_number : List ℕ → Bool
is_number cs = not (is_empty cs) && all_digits cs

-- `int(digits)`, from the digits read so far.
unfoldable pub digits_value : ℕ → List ℕ → ℕ
digits_value acc [] = acc
digits_value acc (c ∷ cs) = digits_value (acc * 10 + (c - b'0')) cs

-- `text.rstrip(c)`
unfoldable pub rstrip : ℕ → List ℕ → List ℕ
rstrip c [] = []
rstrip c (x ∷ xs) = let rest = rstrip c xs in if is_empty rest && x == c then [] else x ∷ rest

-- `str.isspace()` of one code point.
unfoldable pub is_space : ℕ → Bool
is_space c =
    leb 9 c && leb c 13
    || leb 28 c && leb c 32
    || c == 133
    || c == 160
    || c == 5760
    || leb 8192 c && leb c 8202
    || c == 8232
    || c == 8233
    || c == 8239
    || c == 8287
    || c == 12288

unfoldable pub lstrip_space : List ℕ → List ℕ
lstrip_space [] = []
lstrip_space (c ∷ cs) = let rest = lstrip_space cs in if is_space c then rest else c ∷ cs

unfoldable pub rstrip_space : List ℕ → List ℕ
rstrip_space [] = []
rstrip_space (c ∷ cs) =
    let rest = rstrip_space cs in if is_empty rest && is_space c then [] else c ∷ rest

-- `text.strip()`
unfoldable pub strip : List ℕ → List ℕ
strip cs = rstrip_space (lstrip_space cs)
