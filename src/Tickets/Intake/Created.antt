-- ===== src/Tickets/Intake/Created.antt =====
-- apps/api/src/tickets/tickets.service.ts, `createIntakeTicket`: the ticket that an order creates.
use wusuq_web.Base.{
  ℕ, ◌+◌, ◌-◌, ◌≤◌, ◌≡◌, refl, sym, Bool, true, false, some, List, [], ◌∷◌, arith, if◌then◌else◌,
  Bool-cases, inl, inr, Post, Post-return,
}
use wusuq_web.Base.Text.{Text, given}
use wusuq_web.Shared.Flows.{Flow, Currency, is_split, payment_model_for}
use wusuq_web.Shared.Money.{TicketMoneyInput, compute_ticket_total, round2}
use wusuq_web.Shared.Money.Total.{
  service_base, untaxed, discounts, total_amount_lem, tax_amount_lem,
}
use wusuq_web.Store.{Ticket, unpaid, Db}
use wusuq_web.Promos.{PromoValidation, valid, invalid, validate}
use wusuq_web.Promos.Discount.{validate-Granted}
use wusuq_web.Pricing.{request_of, Resolution, unmatched, unavailable, priced}
use wusuq_web.Pricing.Total.{resolve-AddsUp}
use wusuq_web.Tickets.Assign.{total_of}
use wusuq_web.Tickets.Intake.{
  IntakeEnv, CreateTicketIntakeDto, Quote, quote_of, PromoUse, no_promo, use_of, use_code,
  promo_args, promo_for, assemble_intake_charges, assemble_intake_money, new_ticket, answer_for,
}

-- What a quote has, whatever the answer of the resolver.
pub record Sound (flow : Flow) (currency : Currency) (quote : Quote) : Type 0 where
  pub parts : quote.total ≡ quote.service_cost + quote.delivery_charge
  pub one_time :
      is_split (payment_model_for (some flow) currency) ≡ false → quote.delivery_charge ≡ 0
  pub free : quote.matched ≡ false → quote.service_cost ≡ 0
  pub free_delivery : quote.matched ≡ false → quote.delivery_charge ≡ 0

pub quote_of-Sound :
    (env : IntakeEnv) (dto : CreateTicketIntakeDto) (currency : Currency)
    → Sound dto.flow currency (quote_of (answer_for env dto currency))
unfolding request_of
quote_of-Sound env dto currency = go (answer_for env dto currency) refl
  where
    go : (r : Resolution) → answer_for env dto currency ≡ r → Sound dto.flow currency (quote_of r)
    go (unmatched b) e = record {
      parts = refl;
      one_time = λ _. refl;
      free = λ _. refl;
      free_delivery = λ _. refl;
    }
    go (unavailable b) e = record {
      parts = refl;
      one_time = λ _. refl;
      free = λ _. refl;
      free_delivery = λ _. refl;
    }
    go (priced best p) e =
        let order = record dto.order { flow = dto.flow; currency = some currency } in
        let a = resolve-AddsUp env.mode env.rules env.current_year order best p e in
        record {
          parts = a.parts;
          one_time = a.one_time;
          free = λ h. absurd (ground (arith, h));
          free_delivery = λ h. absurd (ground (arith, h));
        }

-- A discount is covered by the base, and there is none without a price.
pub record Covered (quote : Quote) (promo : PromoUse) : Type 0 where
  pub base : promo.promo_discount ≤ quote.service_cost
  pub free : quote.matched ≡ false → promo.promo_discount ≡ 0

use_of-Covered :
    (flow : Flow) (currency : Currency) (quote : Quote) (v : PromoValidation)
    → Sound flow currency quote
    → quote.matched ≡ true
    → ((discount id : ℕ)
        → v ≡ valid discount id
        → discount ≤ (
            if is_split (payment_model_for (some flow) currency)
            then quote.service_cost
            else quote.total))
    → Post (Covered quote) (use_of v)
use_of-Covered flow currency quote (invalid r) s m h = Post.throws
use_of-Covered flow currency quote (valid d id) s m h =
    let bound = h d id refl in
    Post-return (record {
      base = elim (Bool-cases (is_split (payment_model_for (some flow) currency))) [
        | inl x ↦ rw x at bound
        | inr x ↦ omega (arith, rw x at bound, s.parts, s.one_time x)
      ];
      free = λ n. absurd (ground (arith, m, n));
    })

no_promo-Covered : (quote : Quote) → Covered quote no_promo
no_promo-Covered quote = record { base = omega arith; free = λ _. refl }

pub promo_for-Covered :
    (env : IntakeEnv) (dto : CreateTicketIntakeDto) (consumer_id : ℕ) (currency : Currency)
    (quote : Quote) (db : Db)
    → Sound dto.flow currency quote
    → Post (Covered quote) (promo_for env dto consumer_id currency quote db)
unfolding promo_for
promo_for-Covered env dto consumer_id currency quote db s = go (given dto.promo_code) refl
  where
    go :
        (code : List Text)
        → given dto.promo_code ≡ code
        → Post (Covered quote) (promo_for env dto consumer_id currency quote db)
    go [] e = rw (e, promo_for) (Post-return (no_promo-Covered quote))
    go (code ∷ more) e = rw (e, promo_for) (checked code quote.matched refl)
      where
        checked :
            (code : Text) (b : Bool)
            → quote.matched ≡ b
            → Post
                (Covered quote)
                (use_code b (validate (promo_args dto consumer_id currency quote code) env.now db))
        checked code false n = Post-return (no_promo-Covered quote)
        checked code true m = use_of-Covered dto.flow currency quote _ s m λ d id v.
            let (p, _, g) =
              validate-Granted (promo_args dto consumer_id currency quote code) env.now d id db v in
            g.bounded

-- What a new ticket is billed.
pub record Billed (t : Ticket) : Type 0 where
  pub status : t.status ≡ unpaid
  pub unpaid_yet : t.amount_paid ≡ 0
  pub total : t.total_amount ≡ (total_of t).total_amount
  pub no_delivery : t.charges.delivery_charges ≡ 0
  pub discount : t.promo_discount ≤ t.charges.service_cost

-- Charges that are all 0 make a total of 0.
total_of_nothing :
    (i : TicketMoneyInput)
    → service_base i.charges ≡ 0
    → untaxed i.charges ≡ 0
    → (compute_ticket_total i).total_amount ≡ 0
unfolding round2
total_of_nothing i s u =
    let nothing : service_base i.charges - discounts i ≡ 0 = omega (arith, s) in
    let tax : (compute_ticket_total i).tax_amount ≡ 0 =
      rw (tax_amount_lem i, nothing) (omega arith) in
    omega (arith, total_amount_lem i, tax, s, u)

pub new_ticket-Billed :
    (env : IntakeEnv) (dto : CreateTicketIntakeDto) (consumer_id : ℕ) (currency : Currency)
    (quote : Quote) (promo : PromoUse) (id : ℕ)
    → Sound dto.flow currency quote
    → Covered quote promo
    → Billed (new_ticket env dto consumer_id currency quote promo id)
unfolding new_ticket assemble_intake_charges assemble_intake_money total_of
new_ticket-Billed env dto consumer_id currency quote promo id s c =
    let t = new_ticket env dto consumer_id currency quote promo id in
    let free : quote.matched ≡ false → (total_of t).total_amount ≡ 0 =
      λ n. total_of_nothing _ (omega (arith, s.free n)) (deferred n) in
    record {
      status = refl;
      unpaid_yet = refl;
      total = billed quote.matched (total_of t).total_amount free;
      no_delivery = elim (Bool-cases (is_split (payment_model_for (some dto.flow) currency))) [
        | inl x ↦ rw x refl
        | inr x ↦ rw x (s.one_time x)
      ];
      discount = c.base;
    }
  where
    billed : (b : Bool) (n : ℕ) → (b ≡ false → n ≡ 0) → (if b then n else 0) ≡ n
    billed true n h = refl
    billed false n h = sym (h refl)

    deferred : quote.matched ≡ false → untaxed (assemble_intake_charges dto.flow currency quote) ≡ 0
    deferred n = elim (Bool-cases (is_split (payment_model_for (some dto.flow) currency))) [
      | inl x ↦ rw (assemble_intake_charges, x) refl
      | inr x ↦ rw (assemble_intake_charges, x) (omega (arith, s.free_delivery n))
    ]
