-- ===== src/Util/ParseNum.antt =====
-- libmesabox/src/util/mod.rs: `parse_num_with_suffix` and `parse_obsolete_num`. A text is the list
-- of its characters, here from its end, since the code takes characters off the end.
use mathlib.Core.List.{reverse}
use mesabox.Common.{
  ℕ, suc, ◌+◌, ◌≡◌, refl, Bool, true, false, not, ◌&&◌, Option, none, some, List, [], ◌∷◌, ◌==◌,
  ◌>>=◌, if◌then◌else◌,
}
use mesabox.Common.Bytes.{codes}
use mesabox.Common.Number.{checked_mul, from_str}
use mesabox.Util.Pow.{pow}

abbrev pub suffixes : List ℕ
suffixes = codes "KMGTPEZY"

abbrev pub obsolete_suffixes : List ℕ
obsolete_suffixes = codes "km"

-- The place of a character among the suffixes, from `i` on.
unfoldable pub position : ℕ → List ℕ → ℕ → Option ℕ
position ch [] i = none
position ch (s ∷ rest) i = let later = position ch rest (suc i) in if s == ch then some i else later

-- What the loop leaves: the characters before the suffix, and the factor as base and power.
pub record Scanned : Type 0 where
  pub rest : List ℕ
  pub base : ℕ
  pub power : ℕ

-- `none` is the `?` on a text that has no characters left.
unfoldable pub scan : List ℕ → Bool → Bool → ℕ → List ℕ → Option Scanned
unfolding position
scan table obsolete found_si base [] = none
scan table obsolete found_si base (ch ∷ rest) =
    let after_b =
      if obsolete
      then scan table obsolete true 512 rest
      else some (record { rest = rest; base = 512; power = 1 }) in
    let after_si = scan table obsolete true base rest in
    if ch == b'b' && not found_si
    then after_b
    else if ch == b'B' && (not found_si && not obsolete)
    then after_si
    else elim (position ch table 0) [
      | some i ↦
          some (record { rest = rest; base = if found_si then 1000 else 1024; power = i + 1 })
      | none ↦ some (record { rest = ch ∷ rest; base = base; power = 1 })
    ]

unfoldable pub parse_num_common : List ℕ → List ℕ → Bool → Option ℕ
unfolding scan from_str pow checked_mul
parse_num_common s table obsolete = scan table obsolete false 1 (reverse s) >>= λ found.
    from_str (reverse found.rest) >>= λ n.
    pow found.base found.power >>= λ factor. checked_mul n factor

unfoldable pub parse_num_with_suffix : List ℕ → Option ℕ
unfolding parse_num_common
parse_num_with_suffix s = parse_num_common s suffixes false

unfoldable pub parse_obsolete_num : List ℕ → Option ℕ
unfolding parse_num_common
parse_obsolete_num s = parse_num_common s obsolete_suffixes true

-- The cases of the unit tests in the same file.
invalid :
    (parse_num_with_suffix (codes "  1") ≡ none)
    × (parse_num_with_suffix (codes "1X") ≡ none)
    × (parse_num_with_suffix (codes "b") ≡ none)
    × (parse_num_with_suffix (codes "-1") ≡ none)
unfolding parse_num_with_suffix
invalid = (refl, refl, refl, refl)

valid :
    (parse_num_with_suffix (codes "1b") ≡ some 512)
    × (parse_num_with_suffix (codes "1K") ≡ some 1024)
    × (parse_num_with_suffix (codes "1MB") ≡ some 1000000)
    × (parse_num_with_suffix (codes "1Y") ≡ none)
    × (parse_obsolete_num (codes "3kb") ≡ some 3000)
unfolding parse_num_with_suffix parse_obsolete_num
valid = (refl, refl, refl, refl, refl)
