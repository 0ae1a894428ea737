-- ===== src/Common/Number.antt =====
-- `usize` on a 64-bit platform: checked arithmetic, and `usize::from_str`.
use mathlib.Core.Path.{◌≡◌, refl}
use mathlib.Core.Bool.{Bool, true, false, ◌&&◌}
use mathlib.Core.List.{List, [], ◌∷◌, ◌++◌}
use mathlib.Core.Option.{Option, none, some}
use Prim.Native.Nat.{ℕ, ◌+◌, ◌-◌, ◌*◌, ◌^◌, ◌≤◌, ◌<◌}
use native.Mathlib.Omega.{arith}
use mesabox.Common.Tests.{ltb, leb, ◌==◌, if◌then◌else◌, ◌>>=◌}
use mesabox.Common.Bytes.{codes}

abbrev pub usize_mod : ℕ
usize_mod = 2 ^ 64

abbrev pub IsUsize : ℕ → Type 0
IsUsize n = n < 2 ^ 64

-- A result that must fit the type.
abbrev pub checked : ℕ → Option ℕ
checked n = if ltb n usize_mod then some n else none

unfoldable pub checked_mul : ℕ → ℕ → Option ℕ
checked_mul a b = checked (a * b)

unfoldable pub checked_add : ℕ → ℕ → Option ℕ
checked_add a b = checked (a + b)

abbrev pub is_digit : ℕ → Bool
is_digit c = leb b'0' c && leb c b'9'

-- The digits of a number, from the left, onto what was read before.
unfoldable pub parse_digits : ℕ → List ℕ → Option ℕ
unfolding checked_mul checked_add
parse_digits acc [] = some acc
parse_digits acc (c ∷ rest) =
    if is_digit c
    then (checked_mul acc 10 >>= λ n. checked_add n (c - b'0') >>= λ m. parse_digits m rest)
    else none

-- `usize::from_str`: a sign `+` may stand in front; `none` stands for each kind of error.
unfoldable pub from_str : List ℕ → Option ℕ
unfolding parse_digits
from_str [] = none
from_str (c ∷ []) = parse_digits 0 (c ∷ [])
from_str (c ∷ d ∷ rest) =
    if c == b'+' then parse_digits 0 (d ∷ rest) else parse_digits 0 (c ∷ d ∷ rest)

from_str_max : from_str (codes "18446744073709551615") ≡ some 18446744073709551615
unfolding from_str
from_str_max = refl

from_str_too_large : from_str (codes "18446744073709551616") ≡ none
unfolding from_str
from_str_too_large = refl

parse_digits-IsUsize :
    (acc : ℕ) (s : List ℕ) (n : ℕ) → IsUsize acc → parse_digits acc s ≡ some n → IsUsize n
unfolding parse_digits
parse_digits-IsUsize acc [] n h e = ground arith
parse_digits-IsUsize acc (c ∷ rest) n h e =
    ground (arith, parse_digits-IsUsize (acc * 10 + (c - b'0')) rest n)

-- What `from_str` returns fits the type.
pub from_str-IsUsize : (s : List ℕ) (n : ℕ) → from_str s ≡ some n → IsUsize n
unfolding from_str
from_str-IsUsize [] n e = cc
from_str-IsUsize (c ∷ []) n e = parse_digits-IsUsize 0 (c ∷ []) n (omega arith) e
from_str-IsUsize (c ∷ d ∷ rest) n e =
    ground (arith, parse_digits-IsUsize 0 (d ∷ rest) n, parse_digits-IsUsize 0 (c ∷ d ∷ rest) n)

-- The number that digits stand for.
abbrev pub decimal : ℕ → List ℕ → ℕ
decimal acc [] = acc
decimal acc (c ∷ rest) = decimal (acc * 10 + (c - b'0')) rest

abbrev pub IsDigits : List ℕ → Type 0
IsDigits [] = Unit {0}
IsDigits (c ∷ s) = (is_digit c ≡ true) × IsDigits s

decimal-ge : (acc : ℕ) (s : List ℕ) → acc ≤ decimal acc s
decimal-ge acc [] = omega arith
decimal-ge acc (c ∷ rest) = omega (arith, decimal-ge (acc * 10 + (c - b'0')) rest)

parse_digits-decimal :
    (acc : ℕ) (s : List ℕ) → IsUsize acc → IsDigits s → parse_digits acc s ≡ checked (decimal acc s)
unfolding parse_digits
parse_digits-decimal acc [] h ds = ground arith
parse_digits-decimal acc (c ∷ rest) h ds = ground (
  arith,
  decimal-ge (acc * 10 + (c - b'0')) rest,
  parse_digits-decimal (acc * 10 + (c - b'0')) rest,
)

-- On digits `from_str` returns their number if it fits the type, and an error if not.
pub from_str-decimal :
    (c : ℕ) (s : List ℕ) → IsDigits (c ∷ s) → from_str (c ∷ s) ≡ checked (decimal 0 (c ∷ s))
unfolding from_str
from_str-decimal c [] h = parse_digits-decimal 0 (c ∷ []) (omega arith) h
from_str-decimal c (d ∷ s) h = ground (arith, parse_digits-decimal 0 (c ∷ d ∷ s) (omega arith) h)

parse_digits-bad :
    (acc : ℕ) (s : List ℕ) (c : ℕ) → is_digit c ≡ false → parse_digits acc (s ++ c ∷ []) ≡ none
unfolding parse_digits
parse_digits-bad acc [] c h = rw h refl
parse_digits-bad acc (d ∷ s) c h = ground (arith, parse_digits-bad (acc * 10 + (d - b'0')) s c h)

-- A text that does not end in a digit is no number.
pub from_str-bad : (s : List ℕ) (c : ℕ) → is_digit c ≡ false → from_str (s ++ c ∷ []) ≡ none
unfolding from_str
from_str-bad [] c h = parse_digits-bad 0 [] c h
from_str-bad (d ∷ []) c h =
    ground (arith, parse_digits-bad 0 [] c h, parse_digits-bad 0 (d ∷ []) c h)
from_str-bad (d ∷ b ∷ s) c h =
    ground (arith, parse_digits-bad 0 (b ∷ s) c h, parse_digits-bad 0 (d ∷ b ∷ s) c h)
