-- ===== src/Session/Queue/Delay.antt =====
-- The delay of the exponential back-off.
use native.Mathlib.Nat.{pow-suc, pow-le-pow_right}
use skypier_chat.Prelude.{
  ℕ, suc, ◌*◌, ◌^◌, ◌≤◌, ◌≡◌, arith, ltb, ltb→lt, Bool-cases, inl, inr, if◌then◌else◌,
}
use skypier_chat.Session.Queue.{compute_next_retry_delay}

-- The delay never falls from one retry to the next.
pub delay_le_suc : (n : ℕ) → compute_next_retry_delay n ≤ compute_next_retry_delay (suc n)
unfolding compute_next_retry_delay
delay_le_suc n = omega (arith, pow-suc 2 n)

-- The delay is 2 s doubled at each retry, up to 256 s at the seventh, and 5 min at every later
-- one; it is 2 s at least, and never falls from one retry to the next.
pub delay_lem :
    (n : ℕ)
    → (compute_next_retry_delay n ≡ (if ltb n 8 then 2000 * 2 ^ n else 300000))
      × (2000 ≤ compute_next_retry_delay n)
      × (compute_next_retry_delay n ≤ compute_next_retry_delay (suc n))
unfolding compute_next_retry_delay
delay_lem n = elim (Bool-cases (ltb n 8)) [
  | inl small ↦
      let least : 2 ^ 0 ≤ 2 ^ n = pow-le-pow_right {n = 2} (omega arith) {i = 0} (omega arith) in
      let most : 2 ^ n ≤ 2 ^ 7 =
        pow-le-pow_right {n = 2} (omega arith) {j = 7} (omega (arith, ltb→lt n 8 small)) in
      rw small (omega arith, omega arith, delay_le_suc n)
  | inr large ↦
      let most : 2 ^ 8 ≤ 2 ^ n = pow-le-pow_right {n = 2} (omega arith) {i = 8} (ground arith) in
      rw large (omega arith, omega arith, delay_le_suc n)
]
