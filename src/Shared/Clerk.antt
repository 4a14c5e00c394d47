-- ===== src/Shared/Clerk.antt =====
-- packages/shared/src/index.ts, `computeClerkEarningsBreakdown` and the margins.
pub mod Payout
use wusuq_web.Base.{
  ℕ, ◌+◌, Bool, true, false, ◌||◌, Option, none, some, min, ltb, if◌then◌else◌, ◌⁇◌,
}
use wusuq_web.Base.Int.{ℤ, sub_ℕ}
use wusuq_web.Shared.Flows.{Currency, pkr, usd}
use wusuq_web.Shared.Money.{round2}
use wusuq_web.Shared.Fx.{convert_to_pkr}

abbrev pub pdf_clerk_fee : ℕ
pdf_clerk_fee = 100_00

pub record ClerkEarningsInput : Type 0 where
  pub clerk_cost : Option ℕ
  pub default_clerk_cost : Option ℕ
  pub attested_charges : ℕ
  pub non_attested_charges : ℕ
  pub printing_charges : ℕ
  pub delivery_charges : ℕ
  pub pdf_surcharge : ℕ
  pub want_pdf : Bool
  pub clerk_attested_charges : Option ℕ
  pub clerk_non_attested_charges : Option ℕ
  pub clerk_printing_charges : Option ℕ
  pub clerk_delivery_charges : Option ℕ

pub record ClerkEarningsBreakdown : Type 0 where
  pub base : ℕ
  pub attested : ℕ
  pub non_attested : ℕ
  pub printing : ℕ
  pub delivery : ℕ
  pub pdf_fee : ℕ
  pub total : ℕ

-- The local `line`: what the clerk submitted caps the final column.
unfoldable pub line : Option ℕ → ℕ → ℕ
line none final = final
line (some submitted) final = min submitted final

unfoldable pub compute_clerk_earnings_breakdown : ClerkEarningsInput → ClerkEarningsBreakdown
unfolding line
compute_clerk_earnings_breakdown t =
    let base = t.clerk_cost ⁇ t.default_clerk_cost ⁇ 0 in
    let pdf_purchased = ltb 0 t.pdf_surcharge || t.want_pdf in
    let attested = line t.clerk_attested_charges t.attested_charges in
    let non_attested = line t.clerk_non_attested_charges t.non_attested_charges in
    let printing = line t.clerk_printing_charges t.printing_charges in
    let delivery = line t.clerk_delivery_charges t.delivery_charges in
    let pdf_fee : ℕ = if pdf_purchased then pdf_clerk_fee else 0 in
    record {
      base = round2 base 1;
      attested = round2 attested 1;
      non_attested = round2 non_attested 1;
      printing = round2 printing 1;
      delivery = round2 delivery 1;
      pdf_fee = round2 pdf_fee 1;
      total = round2 (base + attested + non_attested + printing + delivery + pdf_fee) 1;
    }

unfoldable pub compute_clerk_earnings : ClerkEarningsInput → ℕ
unfolding compute_clerk_earnings_breakdown
compute_clerk_earnings t = (compute_clerk_earnings_breakdown t).total

-- Both amounts in one currency; the margin may be negative.
unfoldable pub compute_wusuq_margin : ℕ → ℕ → ℤ
compute_wusuq_margin total_amount clerk_earnings = sub_ℕ total_amount clerk_earnings

unfoldable pub compute_wusuq_margin_pkr : ℕ → Currency → Option ℕ → ℕ → Option ℤ
unfolding convert_to_pkr
compute_wusuq_margin_pkr total pkr rate earnings = some (sub_ℕ total earnings)
compute_wusuq_margin_pkr total usd rate earnings = elim (convert_to_pkr total rate) [
  | none ↦ none
  | some total_pkr ↦ some (sub_ℕ total_pkr earnings)
]
