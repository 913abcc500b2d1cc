-- ===== src/Prelude/Bytes.antt =====
-- Go's strings as lists of bytes, where the program looks at the bytes. A literal is ASCII.
use Prim.Native.Nat.{ℕ, ◌+◌, ◌<◌, compare, Ordering}
use Prim.Native.Char.{Char, char, code, IsScalar}
use Prim.Native.String.{String}
use mathlib.Core.Bool.{Bool, true, false, ◌&&◌}
use mathlib.Core.Path.{◌≡◌}
use mathlib.Core.Logic.{dite}
use native.Mathlib.Decide.{dec_lt}
use native.Mathlib.Omega.{arith}
use mathlib.Core.List.{List, [], ◌∷◌}
use obs_brutal.Prelude.Tests.{leb, nat_eq, if◌then◌else◌}

abbrev pub codes : String → List ℕ
codes String.[] = []
codes (String.◌∷◌ c s) = code c ∷ codes s

scalar_of_lt : (n : ℕ) → n < 128 → IsScalar n
scalar_of_lt n h = let e : compare n 55296 ≡ Ordering.lt = ground arith in rw e tt

-- The character of an ASCII byte; any other byte is read as a question mark.
ascii : ℕ → Char
ascii n = dite (dec_lt n 128) (λ h. char n (scalar_of_lt n h)) (λ _. char b'?' tt)

-- The other way, for keys that the program computes.
unfoldable pub as_string : List ℕ → String
unfolding ascii scalar_of_lt dec_lt
as_string [] = String.[]
as_string (c ∷ s) = String.◌∷◌ (ascii c) (as_string s)

abbrev pub is_upper : ℕ → Bool
is_upper c = leb b'A' c && leb c b'Z'

abbrev pub is_lower : ℕ → Bool
is_lower c = leb b'a' c && leb c b'z'

abbrev pub is_digit : ℕ → Bool
is_digit c = leb b'0' c && leb c b'9'

-- `unicode.ToLower` on ASCII.
abbrev pub to_lower : ℕ → ℕ
to_lower c = if is_upper c then c + 32 else c

-- `strings.HasPrefix(s, p)`.
abbrev pub has_prefix : List ℕ → List ℕ → Bool
has_prefix s [] = true
has_prefix [] (y ∷ ys) = false
has_prefix (x ∷ xs) (y ∷ ys) = if nat_eq x y then has_prefix xs ys else false

-- `strings.Contains(s, p)`.
abbrev pub contains : List ℕ → List ℕ → Bool
contains [] p = has_prefix [] p
contains (x ∷ xs) p = if has_prefix (x ∷ xs) p then true else contains xs p
