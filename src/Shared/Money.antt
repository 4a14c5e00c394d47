-- ===== src/Shared/Money.antt =====
-- packages/shared/src/index.ts: `round2` and the total of a ticket. Amounts are whole hundredths
-- of the currency unit, and a rate (of tax or of exchange) is a whole number of millionths, so
-- `n / d` stands for the exact value that the source holds as a float.
pub mod Total
use wusuq_web.Base.{ℕ, ◌+◌, ◌-◌, ◌*◌, ◌/◌, ◌≡◌, Bool, arith, leb}

abbrev pub million : ℕ
million = 1_000_000

-- The exact amount n / d (in hundredths) to the nearest hundredth, half up as `Math.round`.
unfoldable pub round2 : ℕ → ℕ → ℕ
round2 n d = (2 * n + d) / (2 * d)

-- A sum of amounts is already whole.
pub round2_one : (n : ℕ) → round2 n 1 ≡ n
unfolding round2
round2_one n = omega arith

pub record TicketChargeComponents : Type 0 where
  pub service_cost : ℕ
  pub delivery_charges : ℕ
  pub printing_charges : ℕ
  pub attested_charges : ℕ
  pub non_attested_charges : ℕ
  pub additional_charges : ℕ
  pub additional_service_cost : ℕ

pub record TicketMoneyInput : Type 0 where
  pub charges : TicketChargeComponents
  pub discount_price : ℕ
  pub promo_discount : ℕ
  pub tax_rate : ℕ

pub record TicketMoneyResult : Type 0 where
  pub charges_subtotal : ℕ
  pub discount_total : ℕ
  pub taxable_base : ℕ
  pub tax_amount : ℕ
  pub total_amount : ℕ

-- `Math.max(0, a - b)` is `a - b` on ℕ, which stops at 0.
unfoldable pub compute_ticket_total : TicketMoneyInput → TicketMoneyResult
compute_ticket_total input =
    let c = input.charges in
    let subtotal =
      round2
        (c.service_cost + c.delivery_charges + c.printing_charges + c.attested_charges
          + c.non_attested_charges + c.additional_charges + c.additional_service_cost)
        1 in
    let discount = round2 (input.discount_price + input.promo_discount) 1 in
    let service_base = round2 (c.service_cost + c.additional_service_cost) 1 in
    let taxable = round2 (service_base - discount) 1 in
    let tax = round2 (taxable * input.tax_rate) million in
    record {
      charges_subtotal = subtotal;
      discount_total = discount;
      taxable_base = taxable;
      tax_amount = tax;
      total_amount = round2 (round2 (subtotal - discount) 1 + tax) 1;
    }

-- `isBaseCovered` and `isFullyPaid`, on the amounts that they compare.
abbrev pub is_base_covered : ℕ → ℕ → Bool
is_base_covered amount_paid service_cost = leb service_cost amount_paid

abbrev pub is_fully_paid : ℕ → ℕ → Bool
is_fully_paid amount_paid total_amount = leb total_amount amount_paid
