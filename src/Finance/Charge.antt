-- ===== src/Finance/Charge.antt =====
-- apps/api/src/finance/finance.service.ts, `updateCharge`: the ticket after an override of its
-- charges.
use wusuq_web.Base.{
  ℕ, ◌+◌, ◌≤◌, ◌≡◌, Option, refl, some, arith, ◌⁇◌, ok, Post-or_throw, Post-throw_if, Post-return,
  Post-result, not_found, bad_request,
}
use wusuq_web.Base.Table
use wusuq_web.Shared.Flows.{usd}
use wusuq_web.Shared.Gate.{Capability, resolve_gated_charge}
use wusuq_web.Store.{Ticket, Db, ticket_key, find_ticket, IsWellFormed}
use wusuq_web.Tickets.Assign.{total_of}
use wusuq_web.Wallet.Money.{held, paid_total-update_ticket}
use wusuq_web.Finance.{
  UpdateChargeDto, gated, charged, updated_money, updated_charges, update_charge,
}

-- The rows before and after.
pub record Charged (id : ℕ) (dto : UpdateChargeDto) (db db' : Db) : Type 0 where
  pub before : Ticket
  pub after : Ticket
  pub found : find_ticket id db ≡ some before
  pub written : find_ticket id db' ≡ some after
  pub total : after.total_amount ≡ dto.amount ⁇ (total_of after).total_amount
  pub covers : after.amount_paid ≤ after.total_amount
  pub discount : (total_of after).discount_total ≤ (total_of after).charges_subtotal
  pub same_paid : after.amount_paid ≡ before.amount_paid
  pub same_status : after.status ≡ before.status
  pub usd_flat :
      before.currency ≡ usd
      → after.charges.delivery_charges + after.charges.printing_charges
          + after.charges.attested_charges + after.charges.non_attested_charges
        ≡ 0
  pub money : held db' ≡ held db

gated-usd :
    (t : Ticket) (c : Capability) (v : Option ℕ) (p : ℕ) → t.currency ≡ usd → gated t c v p ≡ 0
unfolding resolve_gated_charge
gated-usd t c v p e = rw (e, resolve_gated_charge) refl

-- In well-formed tables, after an override of the charges the total is the one that the overrider
-- gave, or else the one that the new columns give; it covers what was paid, the discounts do not
-- exceed the charges, a USD ticket carries no phase-2 charge, and no money has moved.
update_charge-Charged :
    (id : ℕ) (dto : UpdateChargeDto) (db db' : Db)
    → IsWellFormed db
    → update_charge id dto db ≡ ok db'
    → Charged id dto db db'
unfolding update_charge updated_money charged updated_charges total_of
update_charge-Charged id dto db db' w h =
    Post-result {P = Charged id dto db}
      (Post-or_throw not_found λ (t : Ticket) e. Post-throw_if bad_request λ x.
        Post-throw_if bad_request λ y.
          let c = t.charges in
          Post-return (record {
            before = t;
            after = charged dto t t;
            found = e;
            written =
                Table.find_by-update_by_self ticket_key (charged dto t) (λ _. refl) id db.tickets t
                  e;
            total = refl;
            covers = ground (arith, y);
            discount = ground (arith, x);
            same_paid = refl;
            same_status = refl;
            usd_flat = λ u.
                rw
                  (
                    gated-usd t Capability.delivery dto.delivery_charges c.delivery_charges u,
                    gated-usd t Capability.printing dto.printing_charges c.printing_charges u,
                    gated-usd t Capability.attestation dto.attested_charges c.attested_charges u,
                    gated-usd t Capability.attestation dto.non_attested_charges
                        c.non_attested_charges u,
                  )
                  refl;
            money = omega (arith, paid_total-update_ticket id (charged dto t) db t w e);
          }))
      h
