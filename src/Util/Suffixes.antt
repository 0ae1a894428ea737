-- ===== src/Util/Suffixes.antt =====
-- libmesabox/src/util/mod.rs: the numbers with suffixes that `parse_num_with_suffix` accepts.
use mathlib.Core.List.{reverse, reverse-append, reverse-cons, reverse-reverse}
use native.Mathlib.Nat.{one-le-pow, le-mul_of_pos_right}
use mesabox.Common.{
  ℕ, ◌*◌, ◌^◌, ◌<◌, ◌≡◌, refl, sym, ap, ◌∙◌, Bool, true, false, none, some, List, [], ◌∷◌, ◌++◌,
  ◌>>=◌, arith,
}
use mesabox.Common.Bytes.{codes}
use mesabox.Common.Number.{
  checked, checked_mul, is_digit, from_str, decimal, IsDigits, from_str-decimal, from_str-bad,
}
use mesabox.Util.Pow.{pow-checked}
use mesabox.Util.ParseNum.{suffixes, position, scan, parse_num_with_suffix}

-- The prefixes of units, with their letters and their powers.
pub data Prefix : Type 0 where
  kilo mega giga tera peta exa zetta yotta : Prefix

abbrev pub letter : Prefix → ℕ
letter kilo = b'K'
letter mega = b'M'
letter giga = b'G'
letter tera = b'T'
letter peta = b'P'
letter exa = b'E'
letter zetta = b'Z'
letter yotta = b'Y'

abbrev pub power : Prefix → ℕ
power kilo = 1
power mega = 2
power giga = 3
power tera = 4
power peta = 5
power exa = 6
power zetta = 7
power yotta = 8

-- The suffixes that are accepted: none, `b`, `B`, `K` and the like, `KB` and the like.
pub data Suffix : Type 0 where
  plain blocks bytes : Suffix
  binary si : Prefix → Suffix

abbrev pub spelled : Suffix → List ℕ
spelled plain = []
spelled blocks = b'b' ∷ []
spelled bytes = b'B' ∷ []
spelled (binary p) = letter p ∷ []
spelled (si p) = letter p ∷ b'B' ∷ []

abbrev pub base : Suffix → ℕ
base plain = 1
base blocks = 512
base bytes = 1
base (binary p) = 1024
base (si p) = 1000

abbrev pub exponent : Suffix → ℕ
exponent plain = 1
exponent blocks = 1
exponent bytes = 1
exponent (binary p) = power p
exponent (si p) = power p

abbrev pub factor : Suffix → ℕ
factor s = base s ^ exponent s

IsDigits-append : (xs ys : List ℕ) → IsDigits xs → IsDigits ys → IsDigits (xs ++ ys)
IsDigits-append [] ys hx hy = hy
IsDigits-append (x ∷ xs) ys hx hy = (hx.0, IsDigits-append xs ys hx.1 hy)

IsDigits-reverse : (xs : List ℕ) → IsDigits xs → IsDigits (reverse xs)
IsDigits-reverse [] h = tt
IsDigits-reverse (x ∷ xs) h =
    rw reverse-cons (IsDigits-append (reverse xs) (x ∷ []) (IsDigits-reverse xs h.1) (h.0, tt))

-- A digit is no suffix.
position_digit : (c : ℕ) → is_digit c ≡ true → position c suffixes 0 ≡ none
unfolding position
position_digit c h = ground arith

scan_digit :
    (found_si : Bool) (b c : ℕ) (rest : List ℕ)
    → is_digit c ≡ true
    → scan suffixes false found_si b (c ∷ rest)
      ≡ some (record { rest = c ∷ rest; base = b; power = 1 })
unfolding scan
scan_digit found_si b c rest h = ground (arith, position_digit c h)

scan_bytes :
    (c : ℕ) (rest : List ℕ)
    → scan suffixes false false 1 (b'B' ∷ c ∷ rest) ≡ scan suffixes false true 1 (c ∷ rest)
unfolding scan
scan_bytes c rest = refl

scan_suffix :
    (s : Suffix) (c : ℕ) (rest : List ℕ)
    → is_digit c ≡ true
    → scan suffixes false false 1 (reverse (spelled s) ++ c ∷ rest)
      ≡ some (record { rest = c ∷ rest; base = base s; power = exponent s })
scan_suffix plain c rest h = scan_digit false 1 c rest h
scan_suffix blocks c rest h = unfold scan in refl
scan_suffix bytes c rest h = scan_bytes c rest ∙ scan_digit true 1 c rest h
scan_suffix (binary kilo) c rest h = unfold scan in refl
scan_suffix (binary _) c rest h = unfold scan in refl
scan_suffix (si kilo) c rest h = unfold scan in refl
scan_suffix (si _) c rest h = unfold scan in refl

base_pos : (s : Suffix) → 0 < base s
base_pos plain = omega arith
base_pos _ = omega arith

factor_pos : (s : Suffix) → 0 < factor s
factor_pos s = one-le-pow (exponent s) (base s) (base_pos s)

-- A number that does not fit does not fit with a factor either.
checked-product :
    (n m : ℕ)
    → 0 < m
    → (checked n >>= λ n'. checked m >>= λ m'. checked_mul n' m')
      ≡ (checked m >>= λ m'. checked (n * m'))
unfolding checked_mul
checked-product n m h = ground (arith, le-mul_of_pos_right {m = m} n h)

parse_reversed :
    (s : Suffix) (digits rest : List ℕ) (c : ℕ)
    → reverse digits ≡ c ∷ rest
    → is_digit c ≡ true
    → parse_num_with_suffix (digits ++ spelled s)
      ≡ (from_str digits >>= λ n. checked (factor s) >>= λ m. checked_mul n m)
parse_reversed s digits rest c e h =
    let back : reverse (digits ++ spelled s) ≡ reverse (spelled s) ++ c ∷ rest =
      reverse-append digits (spelled s) ∙ ap (λ t. reverse (spelled s) ++ t) e in
    let forth : reverse (c ∷ rest) ≡ digits = ap reverse (sym e) ∙ reverse-reverse digits in
    let scanned : scan suffixes false false 1 (reverse (digits ++ spelled s))
        ≡ some (record { rest = c ∷ rest; base = base s; power = exponent s }) =
      rw back (scan_suffix s c rest h) in
    unfold parse_num_with_suffix in
    rw (scanned, forth, pow-checked (base s) (exponent s) (base_pos s))

read_suffix :
    (s : Suffix) (c : ℕ) (rest : List ℕ)
    → IsDigits (c ∷ rest)
    → parse_num_with_suffix ((c ∷ rest) ++ spelled s)
      ≡ (checked (factor s) >>= λ m. checked (decimal 0 (c ∷ rest) * m))
read_suffix s c rest h =
    go (c ∷ rest) refl (reverse (c ∷ rest)) refl (IsDigits-reverse (c ∷ rest) h)
  where
    go :
        (digits : List ℕ)
        → digits ≡ c ∷ rest
        → (r : List ℕ) → reverse digits ≡ r
        → IsDigits r
        → parse_num_with_suffix (digits ++ spelled s)
          ≡ (checked (factor s) >>= λ m. checked (decimal 0 (c ∷ rest) * m))
    go digits d [] e hr = cc (ap reverse e, reverse-reverse digits)
    go digits d (l ∷ r) e hr =
        parse_reversed s digits r l e hr.0
        ∙ rw (d, from_str-decimal c rest h)
            (checked-product (decimal 0 (c ∷ rest)) (factor s) (factor_pos s))

-- A `k` is no suffix, also before a `b` or a `B`.
small_k :
    (digits rest : List ℕ) (b : ℕ)
    → scan suffixes false false 1 (reverse (digits ++ rest))
      ≡ some (record { rest = b'k' ∷ reverse digits; base = b; power = 1 })
    → parse_num_with_suffix (digits ++ rest) ≡ none
unfolding parse_num_with_suffix
small_k digits rest b e =
    let forth : reverse (b'k' ∷ reverse digits) ≡ digits ++ b'k' ∷ [] =
      reverse-cons b'k' (reverse digits) ∙ ap (λ t. t ++ b'k' ∷ []) (reverse-reverse digits) in
    rw (e, forth, from_str-bad digits b'k' refl) refl

small_kilo :
    (digits : List ℕ)
    → (parse_num_with_suffix (digits ++ codes "kB") ≡ none)
      × (parse_num_with_suffix (digits ++ codes "kb") ≡ none)
small_kilo digits = (
  small_k digits (codes "kB") 1 (rw (reverse-append digits (codes "kB")) (unfold scan in refl)),
  small_k digits (codes "kb") 512 (rw (reverse-append digits (codes "kb")) (unfold scan in refl)),
)

-- Digits with no suffix, `b`, `B`, one of the letters from `K` to `Y`, or one of these and a `B`, are
-- read as the digits' number times the suffix's factor, if the factor and the product both fit a
-- `usize`, and are refused if not. Digits with `kB` or `kb` are always refused.
pub parse_num_with_suffix_lem :
    (s : Suffix) (c : ℕ) (rest : List ℕ)
    → IsDigits (c ∷ rest)
    → (parse_num_with_suffix ((c ∷ rest) ++ spelled s)
        ≡ (checked (factor s) >>= λ m. checked (decimal 0 (c ∷ rest) * m)))
      × (parse_num_with_suffix ((c ∷ rest) ++ codes "kB") ≡ none)
      × (parse_num_with_suffix ((c ∷ rest) ++ codes "kb") ≡ none)
parse_num_with_suffix_lem s c rest h =
    let (upper, lower) = small_kilo (c ∷ rest) in (read_suffix s c rest h, upper, lower)
