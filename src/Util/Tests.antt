-- ===== src/Util/Tests.antt =====
-- Examples for the theorems on libmesabox/src/util.
use mesabox.Common.{◌^◌, ◌*◌, ◌≡◌, refl, some, none, [], ◌∷◌, ◌++◌, ◌>>=◌, arith}
use mesabox.Common.Number.{checked, decimal}
use mesabox.Common.Bytes.{codes}
use mesabox.Util.Pow.{pow, pow-checked}
use mesabox.Util.ParseNum.{parse_num_with_suffix}
use mesabox.Util.Suffixes.{si, mega, factor, spelled, parse_num_with_suffix_lem}

pow_max : pow 2 63 ≡ some 9223372036854775808
unfolding pow
pow_max = refl

pow_too_large : pow 4294967296 2 ≡ none
unfolding pow
pow_too_large = refl

pow-checked_example : pow 1000 6 ≡ checked (1000 ^ 6)
pow-checked_example = pow-checked 1000 6 (omega arith)

parse_num_with_suffix_lem_example :
    (parse_num_with_suffix ((b'1' ∷ b'2' ∷ []) ++ spelled (si mega))
      ≡ (checked (factor (si mega)) >>= λ m. checked (decimal 0 (b'1' ∷ b'2' ∷ []) * m)))
    × (parse_num_with_suffix (codes "12kB") ≡ none)
    × (parse_num_with_suffix (codes "12kb") ≡ none)
parse_num_with_suffix_lem_example =
    parse_num_with_suffix_lem (si mega) b'1' (b'2' ∷ []) (refl, (refl, tt))
