-- ===== src/Tests/Money.antt =====
-- Tests of the shared money rules.
use wusuq_web.Base.{ℕ, ◌≡◌, some, arith}
use wusuq_web.Shared.Flows.{usd}
use wusuq_web.Shared.Fx.{payable_in_pkr, submit_amount_from_pkr}
use wusuq_web.Shared.Fx.RoundTrip.{submit_amount_from_pkr-payable_in_pkr}

submit_amount_from_pkr-payable_in_pkr_example :
    (p : ℕ) × (payable_in_pkr 12_34 usd (some 278_500_000) ≡ some p)
    × (submit_amount_from_pkr p usd (some 278_500_000) ≡ some 12_34)
submit_amount_from_pkr-payable_in_pkr_example =
    submit_amount_from_pkr-payable_in_pkr 12_34 278_500_000 (omega arith)
