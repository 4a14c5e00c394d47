-- ===== src/Shared/Clerk/Payout.antt =====
-- A clerk is paid at most what the clerk submitted, and at most what was billed.
use mathlib.Core.Option
use wusuq_web.Base.{
  ℕ, zero, suc, ◌+◌, ◌≤◌, ◌≡◌, refl, Option, none, some, arith, ltb, ◌||◌, ◌⁇◌, if◌then◌else◌,
}
use wusuq_web.Base.Int.{sub_ℕ}
use wusuq_web.Shared.Flows.{Currency, pkr, usd}
use wusuq_web.Shared.Money.{round2_one}
use wusuq_web.Shared.Fx.{convert_to_pkr, payable_in_pkr}
use wusuq_web.Shared.Clerk.{
  ClerkEarningsInput, pdf_clerk_fee, line, compute_clerk_earnings, compute_wusuq_margin_pkr,
}

-- The part of the pay that no phase-2 line touches.
abbrev pub fixed_pay : ClerkEarningsInput → ℕ
fixed_pay t =
    (t.clerk_cost ⁇ t.default_clerk_cost ⁇ 0)
    + (if ltb 0 t.pdf_surcharge || t.want_pdf then pdf_clerk_fee else 0)

pub compute_clerk_earnings_lem :
    (t : ClerkEarningsInput)
    → compute_clerk_earnings t
      ≡ fixed_pay t
        + line t.clerk_attested_charges t.attested_charges
        + line t.clerk_non_attested_charges t.non_attested_charges
        + line t.clerk_printing_charges t.printing_charges
        + line t.clerk_delivery_charges t.delivery_charges
unfolding compute_clerk_earnings
compute_clerk_earnings_lem t = simp round2_one (omega arith)

-- What the clerk submitted, line by line.
pub record Submitted (t : ClerkEarningsInput) (a n p d : ℕ) : Type 0 where
  pub attested : t.clerk_attested_charges ≡ some a
  pub non_attested : t.clerk_non_attested_charges ≡ some n
  pub printing : t.clerk_printing_charges ≡ some p
  pub delivery : t.clerk_delivery_charges ≡ some d

-- With the clerk's four lines on record, the pay beyond the fixed part is at most what the clerk
-- submitted and at most what the final columns bill.
compute_clerk_earnings_capped :
    (t : ClerkEarningsInput) (a n p d : ℕ)
    → Submitted t a n p d
    → (compute_clerk_earnings t ≤ fixed_pay t + (a + n + p + d))
      × (compute_clerk_earnings t
          ≤ fixed_pay t
            + (t.attested_charges + t.non_attested_charges + t.printing_charges
                + t.delivery_charges))
unfolding line
compute_clerk_earnings_capped t a n p d s =
    rw (compute_clerk_earnings_lem t, s.attested, s.non_attested, s.printing, s.delivery)
      (omega arith)

-- When no final column is below what the clerk submitted, the pay is the fixed part and exactly
-- what was submitted, however far the columns were marked up.
compute_clerk_earnings_markup :
    (t : ClerkEarningsInput) (a n p d : ℕ)
    → Submitted t a n p d
    → a ≤ t.attested_charges
    → n ≤ t.non_attested_charges
    → p ≤ t.printing_charges
    → d ≤ t.delivery_charges
    → compute_clerk_earnings t ≡ fixed_pay t + (a + n + p + d)
unfolding line
compute_clerk_earnings_markup t a n p d s ha hn hp hd =
    rw (compute_clerk_earnings_lem t, s.attested, s.non_attested, s.printing, s.delivery)
      (omega arith)

-- The margin in PKR is what the pay page asks for in PKR, less the clerk's pay, and there is none
-- exactly where the pay page has no amount.
compute_wusuq_margin_pkr-payable_in_pkr :
    (total : ℕ) (currency : Currency) (rate : Option ℕ) (earnings : ℕ)
    → compute_wusuq_margin_pkr total currency rate earnings
      ≡ Option.map (λ t. sub_ℕ t earnings) (payable_in_pkr total currency rate)
unfolding compute_wusuq_margin_pkr payable_in_pkr convert_to_pkr
compute_wusuq_margin_pkr-payable_in_pkr total pkr rate earnings = refl
compute_wusuq_margin_pkr-payable_in_pkr total usd none earnings = refl
compute_wusuq_margin_pkr-payable_in_pkr total usd (some zero) earnings = refl
compute_wusuq_margin_pkr-payable_in_pkr total usd (some (suc r)) earnings = refl
