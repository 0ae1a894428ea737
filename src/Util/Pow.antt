-- ===== src/Util/Pow.antt =====
-- libmesabox/src/util/mod.rs: `pow`, a checked power of a `usize` by squaring.
use native.Mathlib.Nat.{
  pow-zero, pow-succ', one-mul, le_trans, one-le-mul, pow-suc, pow-le-pow_right, mul-le-mul_left,
  mul-le-mul_right, mul_assoc,
}
use mesabox.Common.{
  ℕ, zero, suc, ◌+◌, ◌*◌, ◌/◌, ◌%◌, ◌^◌, ◌≤◌, ◌<◌, ◌≡◌, sym, ap, ◌∙◌, Option, none, some, ltb, ◌==◌,
  ◌>>=◌, arith, if◌then◌else◌,
}
use mesabox.Common.Number.{IsUsize, checked, checked_mul}

-- The loop, with its variables; `exp` falls at least by half, so fuel above `exp` is enough.
unfoldable pub pow_loop : ℕ → ℕ → ℕ → ℕ → Option ℕ
unfolding checked_mul
pow_loop zero base exp acc = none
pow_loop (suc fuel) base exp acc =
    let round = (if exp % 2 == 1 then checked_mul acc base else some acc) >>= λ acc'.
    checked_mul base base >>= λ base'. pow_loop fuel base' (exp / 2) acc' in
    if ltb 1 exp then round else if exp == 1 then checked_mul acc base else some acc

unfoldable pub pow : ℕ → ℕ → Option ℕ
unfolding pow_loop
pow base exp = pow_loop (suc exp) base exp 1

pow_squares : (b h : ℕ) → b ^ (h + h) ≡ (b * b) ^ h
pow_squares b zero = simp pow-zero
pow_squares b (suc h) =
    let e : suc h + suc h ≡ suc (suc (h + h)) = omega arith in
    rw (e, pow-suc, pow-suc, pow-suc, pow_squares b h) (mul_assoc ((b * b) ^ h) b b)

pow_even : (b e : ℕ) → e % 2 ≡ 0 → (b * b) ^ (e / 2) ≡ b ^ e
pow_even b e h =
    let halves : e ≡ e / 2 + e / 2 = omega arith in
    sym (pow_squares b (e / 2)) ∙ ap (λ n. b ^ n) (sym halves)

pow_odd : (b e : ℕ) → e % 2 ≡ 1 → b * (b * b) ^ (e / 2) ≡ b ^ e
pow_odd b e h =
    let halves : e ≡ suc (e / 2 + e / 2) = omega arith in
    ap (λ n. b * n) (sym (pow_squares b (e / 2)))
    ∙ sym (pow-succ' b (e / 2 + e / 2))
    ∙ ap (λ n. b ^ n) (sym halves)

pow_one : (b : ℕ) → b ^ 1 ≡ b
pow_one b = pow-suc b 0 ∙ rw pow-zero (one-mul b)

pow_two : (b : ℕ) → b ^ 2 ≡ b * b
pow_two b = pow-suc b 1 ∙ rw pow_one

module _ (b acc : ℕ) (b_pos : 0 < b) (acc_pos : 0 < acc) where
  -- What overflows in a round would overflow in the result.
  acc-le : (e : ℕ) → 1 ≤ e → acc * b ≤ acc * b ^ e
  acc-le e h =
      let larger : b ≤ b ^ e = rw pow_one at (pow-le-pow_right b_pos h) in
      mul-le-mul_left acc larger

  square-le : (e : ℕ) → 2 ≤ e → b * b ≤ acc * b ^ e
  square-le e h =
      let larger : b * b ≤ b ^ e = rw pow_two at (pow-le-pow_right b_pos h) in
      let scaled : 1 * b ^ e ≤ acc * b ^ e = mul-le-mul_right (b ^ e) acc_pos in
      le_trans larger (rw one-mul at scaled)

  -- A round keeps the product of the accumulator and the power.
  round_even : (e : ℕ) → e % 2 ≡ 0 → acc * (b * b) ^ (e / 2) ≡ acc * b ^ e
  round_even e h = ap (λ n. acc * n) (pow_even b e h)

  round_odd : (e : ℕ) → e % 2 ≡ 1 → acc * b * (b * b) ^ (e / 2) ≡ acc * b ^ e
  round_odd e h = mul_assoc acc b ((b * b) ^ (e / 2)) ∙ ap (λ n. acc * n) (pow_odd b e h)

pow_loop-checked :
    (fuel b e acc : ℕ)
    → 0 < b
    → 0 < acc
    → IsUsize acc
    → e < fuel
    → pow_loop fuel b e acc ≡ checked (acc * b ^ e)
unfolding pow_loop
pow_loop-checked zero b e acc hb ha hu hf = absurd (omega arith)
pow_loop-checked (suc fuel) b zero acc hb ha hu hf = rw pow-zero (ground arith)
pow_loop-checked (suc fuel) b (suc zero) acc hb ha hu hf = rw pow_one
pow_loop-checked (suc fuel) b (suc (suc k)) acc hb ha hu hf =
    let e = suc (suc k) in
    let b_square : 0 < b * b = one-le-mul hb hb in
    let acc_b : 0 < acc * b = one-le-mul ha hb in
    ground (
      arith,
      acc-le b acc hb ha e (omega arith),
      square-le b acc hb ha e (omega arith),
      round_even b acc hb ha e,
      round_odd b acc hb ha e,
      pow_loop-checked fuel (b * b) (e / 2) acc b_square ha hu (omega arith),
      pow_loop-checked fuel (b * b) (e / 2) (acc * b) b_square acc_b,
    )

-- `pow` returns the power of a positive base if it fits a `usize`, and `none` exactly if it does
-- not: no step overflows that the result would not.
pub pow-checked : (base exp : ℕ) → 0 < base → pow base exp ≡ checked (base ^ exp)
unfolding pow
pow-checked base exp h =
    pow_loop-checked (suc exp) base exp 1 h (omega arith) (omega arith) (omega arith)
    ∙ ap (λ n. checked n) (one-mul (base ^ exp))
