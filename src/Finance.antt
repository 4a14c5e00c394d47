-- ===== src/Finance.antt =====
-- apps/api/src/finance/finance.service.ts: the staff's corrections of a ticket's money.
pub mod Reconcile
pub mod Charge
use wusuq_web.Base.{
  ℕ, ◌+◌, ◌-◌, ◌||◌, Bool, true, false, Option, some, List, [], ◌∷◌, any, ltb, leb, ◌==◌, ◌&&◌,
  if◌then◌else◌, ◌⁇◌, Result, ok, ◌>>=◌, ◌>>◌, throw_if, or_throw, bad_request, not_found,
}
use wusuq_web.Base.Int.{pos}
use wusuq_web.Shared.Flows.{Currency}
use wusuq_web.Shared.Fx.{PaymentMode}
use wusuq_web.Shared.Gate.{Capability, attestation, printing, delivery, resolve_gated_charge}
use wusuq_web.Shared.Money.{
  TicketChargeComponents, TicketMoneyResult, compute_ticket_total, is_base_covered,
}
use wusuq_web.Shared.Clerk.{ClerkEarningsInput, compute_clerk_earnings}
use wusuq_web.Store.{
  Ticket, unpaid, paid, Assignment, AssignmentStatus, active, accepted, rejected, superseded,
  WalletTransaction, TransactionStatus, TransactionType, Db, find_ticket, update_ticket, ◌is◌,
}
use wusuq_web.Wallet.{create_transaction}

-- A live assignment of the ticket, as the callers of `clerkPayoutFor` select it.
abbrev pub is_live_for : ℕ → Assignment → Bool
is_live_for ticket_id a =
    a.ticket_id == ticket_id
    && (elim a.status [ active ↦ true | accepted ↦ true | rejected ↦ false | superseded ↦ false ])

-- The arguments of `computeClerkEarnings`; the column of the clerk's cost is never null.
abbrev pub earnings_input : Ticket → ClerkEarningsInput
earnings_input t = record {
  clerk_cost = some t.clerk_cost;
  default_clerk_cost = t.default_clerk_cost;
  attested_charges = t.charges.attested_charges;
  non_attested_charges = t.charges.non_attested_charges;
  printing_charges = t.charges.printing_charges;
  delivery_charges = t.charges.delivery_charges;
  pdf_surcharge = 0;
  want_pdf = t.want_pdf;
  clerk_attested_charges = t.clerk.attested;
  clerk_non_attested_charges = t.clerk.non_attested;
  clerk_printing_charges = t.clerk.printing;
  clerk_delivery_charges = t.clerk.delivery;
}

unfoldable pub clerk_payout_for : Ticket → Db → ℕ
clerk_payout_for t db =
    if any (is_live_for t.id) db.assignments then compute_clerk_earnings (earnings_input t) else 0

-- `ReconcilePaymentDto`; the note and the receipt are not kept.
pub record ReconcilePaymentDto : Type 0 where
  pub amount : ℕ
  pub payment_mode : PaymentMode

-- The columns that a reconciled payment writes.
abbrev pub reconciled : Ticket → ℕ → Ticket → Ticket
reconciled ticket amount t = record t {
  amount_paid = ticket.amount_paid + amount;
  status =
      if ticket.status is unpaid
        && is_base_covered (ticket.amount_paid + amount) ticket.charges.service_cost
      then paid
      else t.status;
}

-- `reconcilePayment`, under the lock of the ticket; it answers what is left to pay.
unfoldable pub reconcile_payment : ℕ → ReconcilePaymentDto → Db → Result (ℕ × Db)
unfolding create_transaction
reconcile_payment ticket_id dto db = do
  ticket ← or_throw (find_ticket ticket_id db) not_found
  throw_if (ltb (ticket.total_amount - ticket.amount_paid) dto.amount) bad_request
  let paid_db = update_ticket ticket_id (reconciled ticket dto.amount) db
  ok (
    ticket.total_amount - (ticket.amount_paid + dto.amount),
    create_transaction (some ticket_id) ticket.consumer_id (pos dto.amount) dto.payment_mode
        ticket.currency TransactionStatus.verified TransactionType.ticket_debit paid_db,
  )

-- `UpdateChargeDto`.
pub record UpdateChargeDto : Type 0 where
  pub amount : Option ℕ
  pub service_cost : Option ℕ
  pub delivery_charges : Option ℕ
  pub printing_charges : Option ℕ
  pub attested_charges : Option ℕ
  pub non_attested_charges : Option ℕ
  pub additional_charges : Option ℕ
  pub additional_service_cost : Option ℕ
  pub discount_price : Option ℕ
  pub promo_discount : Option ℕ

-- A gated column: what the gate writes, or else what stands there. The column after the call is
-- this, since an `undefined` leaves it as it is.
abbrev pub gated : Ticket → Capability → Option ℕ → ℕ → ℕ
gated t capability dto_value persisted =
    resolve_gated_charge t.intake_flow t.currency capability dto_value (some persisted) ⁇ persisted

unfoldable pub updated_charges : UpdateChargeDto → Ticket → TicketChargeComponents
unfolding resolve_gated_charge
updated_charges dto t =
    let c = t.charges in
    record {
      service_cost = dto.service_cost ⁇ c.service_cost;
      delivery_charges = gated t delivery dto.delivery_charges c.delivery_charges;
      printing_charges = gated t printing dto.printing_charges c.printing_charges;
      attested_charges = gated t attestation dto.attested_charges c.attested_charges;
      non_attested_charges = gated t attestation dto.non_attested_charges c.non_attested_charges;
      additional_charges = dto.additional_charges ⁇ c.additional_charges;
      additional_service_cost = dto.additional_service_cost ⁇ c.additional_service_cost;
    }

unfoldable pub updated_money : UpdateChargeDto → Ticket → TicketMoneyResult
unfolding updated_charges
updated_money dto t = compute_ticket_total (record {
  charges = updated_charges dto t;
  discount_price = dto.discount_price ⁇ t.discount_price;
  promo_discount = dto.promo_discount ⁇ t.promo_discount;
  tax_rate = t.tax_rate;
})

-- The columns that `updateCharge` writes, from the ticket as it was read.
unfoldable pub charged : UpdateChargeDto → Ticket → Ticket → Ticket
unfolding updated_charges updated_money
charged dto ticket t = record t {
  charges = updated_charges dto ticket;
  discount_price = dto.discount_price ⁇ ticket.discount_price;
  promo_discount = dto.promo_discount ⁇ ticket.promo_discount;
  tax_amount = (updated_money dto ticket).tax_amount;
  total_amount = dto.amount ⁇ (updated_money dto ticket).total_amount;
}

-- `updateCharge`, on one state of the tables for the read and the write.
unfoldable pub update_charge : ℕ → UpdateChargeDto → Db → Result Db
unfolding updated_money charged
update_charge ticket_id dto db = do
  ticket ← or_throw (find_ticket ticket_id db) not_found
  let money = updated_money dto ticket
  throw_if (ltb money.charges_subtotal money.discount_total) bad_request
  throw_if (ltb (dto.amount ⁇ money.total_amount) ticket.amount_paid) bad_request
  ok (update_ticket ticket_id (charged dto ticket) db)
