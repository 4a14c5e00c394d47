-- ===== src/Tickets/Finalize.antt =====
-- apps/api/src/tickets/tickets.service.ts: `finalizeRemainder`, `reviewAndComplete`,
-- `repriceTicket` and the assembly of an intake's money. The automatic invoice is not kept.
pub mod Review
pub mod Reprice
pub mod Held
pub mod Settled
use wusuq_web.Base.{
  ℕ, ◌+◌, ◌-◌, Bool, true, false, not, ◌&&◌, ◌||◌, Option, none, some, ltb, if◌then◌else◌, ◌⁇◌,
  or_else, Result, ok, err, ◌>>=◌, ◌>>◌, throw_if, ensure, or_throw, bad_request, not_found,
  conflict,
}
use wusuq_web.Base.Int.{pos}
use wusuq_web.Shared.Flows.{ServiceChargeCapabilities, charge_capabilities_for, pkr}
use wusuq_web.Shared.Fx.{bank_transfer}
use wusuq_web.Shared.Money.{
  TicketChargeComponents, TicketMoneyResult, compute_ticket_total, is_fully_paid,
}
use wusuq_web.Store.{
  Ticket, TicketStatus, waiting_approval, completed, delivered, ClerkApprovalStatus, submitted,
  verified, TransactionStatus, TransactionType, Db, find_ticket, update_ticket, update_user,
  is_dispatched, ◌is◌,
}
use wusuq_web.Wallet.{create_transaction, settle_tickets_for_user}
use wusuq_web.Tickets.{flip, add_history, transition}
use wusuq_web.Tickets.Status.{is_physical}
use wusuq_web.Tickets.Work.{ClerkCosts, GatedCharges, gated_charges, write_charges, write_pages}

-- `FinalizeRemainderDto`: the charges and the page counts stand in `costs`, whose dispatch fields a
-- finalization does not read.
pub record FinalizeRemainderDto : Type 0 where
  pub costs : ClerkCosts
  pub additional_service_cost : Option ℕ

-- The charges that the ticket has after the call.
unfoldable pub final_charges : FinalizeRemainderDto → Ticket → TicketChargeComponents
unfolding gated_charges write_charges
final_charges dto ticket = record (write_charges (gated_charges dto.costs ticket) ticket.charges) {
  additional_charges = dto.costs.additional_charges ⁇ ticket.charges.additional_charges;
  additional_service_cost = dto.additional_service_cost ⁇ ticket.charges.additional_service_cost;
}

-- `assembleFinalizeMoney`.
unfoldable pub assemble_finalize_money : TicketChargeComponents → Ticket → TicketMoneyResult
assemble_finalize_money charges ticket = compute_ticket_total (record {
  charges = charges;
  discount_price = ticket.discount_price;
  promo_discount = ticket.promo_discount;
  tax_rate = ticket.tax_rate;
})

-- What was paid above the new total goes to the wallet, with its row in the ledger.
unfoldable pub credit_surplus : Ticket → ℕ → Db → Db
unfolding create_transaction
credit_surplus ticket surplus db =
    if ltb 0 surplus
    then create_transaction (some ticket.id) ticket.consumer_id (pos surplus) bank_transfer
        ticket.currency TransactionStatus.verified TransactionType.admin_adjustment
        (update_user ticket.consumer_id
          (λ u. record u { wallet_balance = u.wallet_balance + surplus }) db)
    else db

-- The columns that a finalization writes.
unfoldable pub finalized : FinalizeRemainderDto → Ticket → Ticket → Ticket
unfolding final_charges assemble_finalize_money write_pages
finalized dto ticket t =
    let money = assemble_finalize_money (final_charges dto ticket) ticket in
    record t {
      charges = final_charges dto ticket;
      total_amount = money.total_amount;
      tax_amount = money.tax_amount;
      pages = write_pages dto.costs.pages ticket.pages;
      amount_paid =
          if ltb 0 (ticket.amount_paid - money.total_amount)
          then money.total_amount
          else t.amount_paid;
      remainder_finalized = true;
    }

unfoldable pub can_finalize : Ticket → Bool
can_finalize ticket =
    ticket.status is waiting_approval
    || (ticket.status is completed && not (is_dispatched ticket.delivery_status))

-- `finalizeRemainderCore`, under the locks of the user and of the ticket.
unfoldable pub finalize_remainder_core : ℕ → FinalizeRemainderDto → Db → Result Db
unfolding can_finalize finalized credit_surplus
finalize_remainder_core id dto db = do
  ticket ← or_throw (find_ticket id db) not_found
  throw_if ticket.remainder_finalized conflict
  ensure (can_finalize ticket) bad_request
  let money = assemble_finalize_money (final_charges dto ticket) ticket
  let credited = credit_surplus ticket (ticket.amount_paid - money.total_amount) db
  ok (update_ticket id (finalized dto ticket) credited)

-- `finalizeRemainder`: the core, and then the settlement from the consumer's wallet.
unfoldable pub finalize_remainder : ℕ → FinalizeRemainderDto → Db → Result Db
unfolding finalize_remainder_core
finalize_remainder id dto db = do
  ref ← or_throw (find_ticket id db) not_found
  written ← finalize_remainder_core id dto db
  ok (settle_tickets_for_user ref.consumer_id written)

abbrev is_submitted : ClerkApprovalStatus → Bool
is_submitted submitted = true
is_submitted _ = false

-- Is there a phase-2 charge to finalize?
unfoldable pub has_caps : Ticket → Bool
has_caps ticket =
    let caps = charge_capabilities_for ticket.intake_flow ticket.currency in
    caps.attestation || caps.printing || caps.delivery || caps.pdf

-- The columns that the completion writes, from the ticket as it was read first.
unfoldable pub complete : Ticket → Ticket → Ticket
complete ticket t = record t {
  clerk_approval_status =
      if is_submitted ticket.clerk_approval_status then verified else t.clerk_approval_status;
  status = completed;
}

-- The ticket after its completion: a digital one that is fully paid is delivered at once.
unfoldable pub auto_deliver : ℕ → Db → Result Db
auto_deliver id db = elim (find_ticket id db) [
  | none ↦ ok db
  | some fresh ↦
      if not (is_physical fresh) && is_fully_paid fresh.amount_paid fresh.total_amount
      then transition id completed delivered db
      else ok db
]

abbrev pub should_finalize : Ticket → Bool
should_finalize ticket = has_caps ticket && not ticket.remainder_finalized

-- The transaction of `reviewAndComplete`.
unfoldable pub review : ℕ → FinalizeRemainderDto → Ticket → Db → Result Db
unfolding finalize_remainder_core has_caps complete auto_deliver
review id dto ticket db = do
  charged ← elim (should_finalize ticket) [
    | true ↦ finalize_remainder_core id dto db
    | false ↦ ok db
  ]
  done ← flip id waiting_approval (complete ticket) charged
  auto_deliver id (add_history id waiting_approval completed done)

-- `reviewAndComplete`, which settles from the wallet when it has finalized.
unfoldable pub review_and_complete : ℕ → FinalizeRemainderDto → Db → Result Db
unfolding review has_caps
review_and_complete id dto db = do
  ticket ← or_throw (find_ticket id db) not_found
  ensure (ticket.status is waiting_approval) bad_request
  reviewed ← review id dto ticket db
  ok (
      if should_finalize ticket
      then settle_tickets_for_user ticket.consumer_id reviewed
      else reviewed)
