-- ===== src/Shared/Fx/RoundTrip.antt =====
-- The conversions of the pay page undo one another.
use native.Mathlib.Nat.{div-eq_of_lt-le}
use wusuq_web.Base.{ℕ, zero, suc, ◌+◌, ◌*◌, ◌≤◌, ◌<◌, ◌≡◌, refl, ap, some, arith}
use wusuq_web.Shared.Flows.{usd}
use wusuq_web.Shared.Money.{million, round2}
use wusuq_web.Shared.Fx.{payable_in_pkr, submit_amount_from_pkr, convert_to_pkr}

-- The rounded product, between its bounds.
to_pkr_bounds :
    (p : ℕ)
    → (2 * million * round2 p million ≤ 2 * p + million)
      × (2 * p < 2 * million * round2 p million + million + 1)
unfolding round2
to_pkr_bounds p = omega arith

round2_back :
    (x r p : ℕ)
    → million ≤ r
    → 2 * million * p ≤ 2 * (x * r) + million
    → 2 * (x * r) < 2 * million * p + million + 1
    → round2 (p * million) r ≡ x
unfolding round2
round2_back x r p h low high = div-eq_of_lt-le (2 * r) (grind arith) (grind arith)

-- What is payable in PKR at a rate of at least 1, submitted back, is the amount that was due.
pub submit_amount_from_pkr-payable_in_pkr :
    (due rate : ℕ)
    → million ≤ rate
    → (p : ℕ) × (payable_in_pkr due usd (some rate) ≡ some p)
      × (submit_amount_from_pkr p usd (some rate) ≡ some due)
unfolding payable_in_pkr submit_amount_from_pkr convert_to_pkr
submit_amount_from_pkr-payable_in_pkr due zero h = absurd (omega arith)
submit_amount_from_pkr-payable_in_pkr due (suc r) h =
    let p = round2 (due * suc r) million in
    let (low, high) = to_pkr_bounds (due * suc r) in
    (p, refl, ap some (round2_back due (suc r) p h low high))
