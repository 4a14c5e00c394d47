-- ===== src/Shared/Money/Total.antt =====
-- What a ticket's total says of its charges, discounts and tax.
use native.Mathlib.Nat.{mul-le-mul_right}
use wusuq_web.Base.{ℕ, ◌+◌, ◌-◌, ◌*◌, ◌≤◌, ◌<◌, ◌≡◌, arith}
use wusuq_web.Shared.Money.{
  million, round2, round2_one, TicketChargeComponents, TicketMoneyInput, compute_ticket_total,
}

-- The charges that a ticket bills outside its taxed service base.
abbrev pub untaxed : TicketChargeComponents → ℕ
untaxed c =
    c.delivery_charges + c.printing_charges + c.attested_charges + c.non_attested_charges
    + c.additional_charges

abbrev pub service_base : TicketChargeComponents → ℕ
service_base c = c.service_cost + c.additional_service_cost

abbrev pub discounts : TicketMoneyInput → ℕ
discounts i = i.discount_price + i.promo_discount

pub tax_amount_lem :
    (i : TicketMoneyInput)
    → (compute_ticket_total i).tax_amount
      ≡ round2 ((service_base i.charges - discounts i) * i.tax_rate) million
unfolding compute_ticket_total
tax_amount_lem i = simp round2_one

-- With every rounding of a sum of whole hundredths gone.
pub total_amount_lem :
    (i : TicketMoneyInput)
    → (compute_ticket_total i).total_amount
      ≡ service_base i.charges
        + untaxed i.charges
        - discounts i
        + (compute_ticket_total i).tax_amount
unfolding compute_ticket_total
total_amount_lem i = simp round2_one (omega arith)

round2_nearest :
    (n : ℕ)
    → (2 * n < 2 * million * round2 n million + million + 1)
      × (2 * million * round2 n million ≤ 2 * n + million)
unfolding round2
round2_nearest n = omega arith

pub round2_mono : (m n : ℕ) → m ≤ n → round2 m million ≤ round2 n million
unfolding round2
round2_mono m n h = omega arith

-- The tax of a ticket is its rate of the discounted service base alone, to the nearest hundredth.
tax_amount_nearest :
    (i : TicketMoneyInput)
    → let exact = (service_base i.charges - discounts i) * i.tax_rate in
      let tax = (compute_ticket_total i).tax_amount in
      (2 * exact ≤ 2 * million * tax + million) × (2 * million * tax ≤ 2 * exact + million)
tax_amount_nearest i =
    rw (tax_amount_lem i)
      (omega (arith, round2_nearest ((service_base i.charges - discounts i) * i.tax_rate)))

-- When the discounts leave something of both bills, replacing the charges of a ticket by others of
-- the same service base leaves its tax as it is, and moves the total by exactly what the untaxed
-- charges move.
total_amount-untaxed :
    (i : TicketMoneyInput) (c : TicketChargeComponents)
    → service_base c ≡ service_base i.charges
    → discounts i ≤ service_base i.charges + untaxed i.charges
    → discounts i ≤ service_base c + untaxed c
    → let before = compute_ticket_total i in
      let after = compute_ticket_total (record i { charges = c }) in
      (after.tax_amount ≡ before.tax_amount)
      × (after.total_amount + untaxed i.charges ≡ before.total_amount + untaxed c)
total_amount-untaxed i c same low low' =
    let j : TicketMoneyInput = record i { charges = c } in
    let tax : (compute_ticket_total j).tax_amount ≡ (compute_ticket_total i).tax_amount =
      rw (tax_amount_lem i, tax_amount_lem j, same) in
    (tax, omega (arith, total_amount_lem i, total_amount_lem j))

-- Raising the discounts of a ticket raises neither its tax nor its total.
total_amount-discount :
    (i : TicketMoneyInput) (p q : ℕ)
    → discounts i ≤ p + q
    → let after = compute_ticket_total (record i { discount_price = p; promo_discount = q }) in
      (after.tax_amount ≤ (compute_ticket_total i).tax_amount)
      × (after.total_amount ≤ (compute_ticket_total i).total_amount)
total_amount-discount i p q more =
    let j : TicketMoneyInput = record i { discount_price = p; promo_discount = q } in
    let base = service_base i.charges in
    let fewer : (base - (p + q)) * i.tax_rate ≤ (base - discounts i) * i.tax_rate =
      mul-le-mul_right i.tax_rate (omega arith) in
    let tax = round2_mono _ _ fewer in
    omega (arith, total_amount_lem i, total_amount_lem j, tax_amount_lem i, tax_amount_lem j)
