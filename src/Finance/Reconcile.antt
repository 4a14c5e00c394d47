-- ===== src/Finance/Reconcile.antt =====
-- apps/api/src/finance/finance.service.ts, `reconcilePayment`: what a payment that the staff books
-- does.
use wusuq_web.Base.{
  ℕ, ◌+◌, ◌-◌, ◌≤◌, ◌≡◌, ◌&&◌, refl, some, arith, leb, if◌then◌else◌, ok, Post-or_throw,
  Post-throw_if, Post-return, Post-result, not_found, bad_request,
}
use wusuq_web.Base.Table
use wusuq_web.Store.{Ticket, unpaid, paid, Db, ticket_key, find_ticket, IsWellFormed, ◌is◌}
use wusuq_web.Wallet.Money.{held, paid_total-update_ticket, update_ticket-IsWellFormed}
use wusuq_web.Finance.{ReconcilePaymentDto, reconciled, reconcile_payment}

-- The rows before and after, the money that is held, and the answer.
pub record Reconciled (id amount : ℕ) (db : Db) (s : ℕ × Db) : Type 0 where
  pub before : Ticket
  pub after : Ticket
  pub found : find_ticket id db ≡ some before
  pub written : find_ticket id s.1 ≡ some after
  pub credited : after.amount_paid ≡ before.amount_paid + amount
  pub not_over : amount ≤ before.total_amount - before.amount_paid
  pub remaining : s.0 ≡ before.total_amount - after.amount_paid
  pub status : after.status ≡ (
      if before.status is unpaid && leb before.charges.service_cost after.amount_paid
      then paid
      else before.status)
  pub money : held s.1 ≡ held db + amount
  pub well_formed : IsWellFormed s.1

-- In well-formed tables, a payment that is booked does not exceed what the ticket lacks; it is added
-- to the ticket once, makes an UNPAID ticket PAID exactly if the base is now covered, and grows the
-- money that is held by its amount. The answer is what is left to pay.
pub reconcile_payment-Reconciled :
    (id : ℕ) (dto : ReconcilePaymentDto) (db : Db) (s : ℕ × Db)
    → IsWellFormed db
    → reconcile_payment id dto db ≡ ok s
    → Reconciled id dto.amount db s
unfolding reconcile_payment
reconcile_payment-Reconciled id dto db s w h =
    Post-result {P = Reconciled id dto.amount db}
      (Post-or_throw not_found λ (t : Ticket) e. Post-throw_if bad_request λ x.
        let change = reconciled t dto.amount in
        Post-return (record {
          before = t;
          after = change t;
          found = e;
          written = Table.find_by-update_by_self ticket_key change (λ _. refl) id db.tickets t e;
          credited = refl;
          not_over = ground (arith, x);
          remaining = ground arith;
          status = refl;
          money = omega (arith, paid_total-update_ticket id change db t w e);
          well_formed = record {
            users = w.users;
            tickets = (update_ticket-IsWellFormed id change db (λ _. refl) w).tickets;
          };
        }))
      h
