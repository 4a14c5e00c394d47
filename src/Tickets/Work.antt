-- ===== src/Tickets/Work.antt =====
-- apps/api/src/tickets/tickets.service.ts: the steps of the representative (`submitClerkReceipt`,
-- `submitClerkCosts`, `saveClerkCharges`, `dispatchDelivery`), and `sendBackToClerk`. Notes, documents
-- and the report on available files are not kept.
pub mod Snapshot
use wusuq_web.Base.{
  ℕ, Bool, true, false, not, ◌&&◌, ◌||◌, Option, none, some, if◌then◌else◌, ◌⁇◌, or_else, Result,
  ok, err, ◌>>=◌, ◌>>◌, throw_if, ensure, or_throw, bad_request, not_found, conflict,
}
use wusuq_web.Shared.Flows.{Flow, Currency}
use wusuq_web.Shared.Gate.{Capability, attestation, printing, delivery, resolve_gated_charge}
use wusuq_web.Shared.Money.{TicketChargeComponents}
use wusuq_web.Store.{
  Ticket, TicketStatus, in_progress, waiting_approval, completed, PageCounts, ClerkSnapshot,
  ClerkApprovalStatus, submitted, rejected, DeliveryStatus, dispatched, Db, find_ticket,
  update_ticket, is_dispatched, ◌is◌,
}
use wusuq_web.Tickets.{
  Actor, ensure_clerk_action_allowed, flip, add_history, transition, compute_page_charges,
}
use wusuq_web.Tickets.Status.{is_physical}

-- The columns that a receipt writes.
abbrev pub receipt : ℕ → Ticket → Ticket
receipt url t = record t { clerk_receipt_url = some url; clerk_approval_status = submitted }

-- `submitClerkReceipt`: a first receipt moves the ticket on, and a later one replaces it.
unfoldable pub submit_clerk_receipt : ℕ → ℕ → Actor → Db → Result Db
submit_clerk_receipt id url actor db = do
  ticket ← or_throw (find_ticket id db) not_found
  ensure_clerk_action_allowed id actor db
  elim (ticket.status is in_progress) [
    | true ↦ do
      advanced ← flip id in_progress (λ t. record (receipt url t) { status = waiting_approval }) db
      ok (add_history id in_progress waiting_approval advanced)
    | false ↦ flip id waiting_approval (receipt url) db
  ]

-- The fields of `SubmitClerkCostsDto` that carry money; each may be absent.
pub record ClerkCosts : Type 0 where
  pub delivery_charges : Option ℕ
  pub printing_charges : Option ℕ
  pub attested_charges : Option ℕ
  pub non_attested_charges : Option ℕ
  pub additional_charges : Option ℕ
  pub pages : PageCounts
  pub dispatch_proof_url : Option ℕ
  pub tracking_no : Option ℕ

-- The four gated charges that a call writes; `none` leaves a column as it is.
pub record GatedCharges : Type 0 where
  pub delivery : Option ℕ
  pub printing : Option ℕ
  pub attested : Option ℕ
  pub non_attested : Option ℕ

-- The sent charge, else pages times rate, else the column, through the gate.
unfoldable pub gated_charges : ClerkCosts → Ticket → GatedCharges
gated_charges dto ticket =
    let gate = λ (c : Capability) (value fallback : Option ℕ).
      resolve_gated_charge ticket.intake_flow ticket.currency c value fallback in
    let p = dto.pages in
    record {
      delivery = gate delivery dto.delivery_charges (some ticket.charges.delivery_charges);
      printing = gate printing dto.printing_charges (
          or_else (compute_page_charges p.no_of_pages p.cost_per_page)
            (some ticket.charges.printing_charges));
      attested = gate attestation dto.attested_charges (
          or_else (compute_page_charges p.attested_pages p.attested_cost_per_page)
            (some ticket.charges.attested_charges));
      non_attested = gate attestation dto.non_attested_charges (
          or_else (compute_page_charges p.non_attested_pages p.non_attested_cost_per_page)
            (some ticket.charges.non_attested_charges));
    }

-- `undefined` in Prisma's `data` leaves the column.
unfoldable pub write_charges : GatedCharges → TicketChargeComponents → TicketChargeComponents
write_charges g c = record c {
  delivery_charges = g.delivery ⁇ c.delivery_charges;
  printing_charges = g.printing ⁇ c.printing_charges;
  attested_charges = g.attested ⁇ c.attested_charges;
  non_attested_charges = g.non_attested ⁇ c.non_attested_charges;
}

unfoldable pub write_snapshot : GatedCharges → ClerkSnapshot → ClerkSnapshot
write_snapshot g s = record {
  attested = or_else g.attested s.attested;
  non_attested = or_else g.non_attested s.non_attested;
  printing = or_else g.printing s.printing;
  delivery = or_else g.delivery s.delivery;
}

-- `dto.<field> ?? ticket.<field>` for each of the page counts.
unfoldable pub write_pages : PageCounts → PageCounts → PageCounts
write_pages sent p = record {
  no_of_pages = or_else sent.no_of_pages p.no_of_pages;
  cost_per_page = or_else sent.cost_per_page p.cost_per_page;
  attested_pages = or_else sent.attested_pages p.attested_pages;
  attested_cost_per_page = or_else sent.attested_cost_per_page p.attested_cost_per_page;
  non_attested_pages = or_else sent.non_attested_pages p.non_attested_pages;
  non_attested_cost_per_page = or_else sent.non_attested_cost_per_page p.non_attested_cost_per_page;
}

-- The columns that `submitClerkCosts` writes, from the ticket that it read.
unfoldable pub clerk_costs : ClerkCosts → Ticket → Ticket → Ticket
unfolding gated_charges write_charges write_snapshot write_pages
clerk_costs dto ticket t =
    let g = gated_charges dto ticket in
    record t {
      charges = record (write_charges g t.charges) {
        additional_charges = dto.additional_charges ⁇ ticket.charges.additional_charges;
      };
      pages = write_pages dto.pages ticket.pages;
      clerk = write_snapshot g t.clerk;
      dispatch_proof_url = or_else dto.dispatch_proof_url ticket.dispatch_proof_url;
      tracking_no = or_else dto.tracking_no ticket.tracking_no;
      clerk_approval_status = submitted;
      status = waiting_approval;
    }

unfoldable pub submit_clerk_costs : ℕ → ClerkCosts → Actor → Db → Result Db
unfolding clerk_costs
submit_clerk_costs id dto actor db = do
  ticket ← or_throw (find_ticket id db) not_found
  ensure_clerk_action_allowed id actor db
  ensure (ticket.status is in_progress || ticket.status is waiting_approval) bad_request
  throw_if ticket.remainder_finalized conflict
  written ← flip id ticket.status (clerk_costs dto ticket) db
  ok (add_history id ticket.status waiting_approval written)

-- `saveClerkCharges`: a draft, which leaves out what was not sent. Of the fields that are sent it
-- reads the four gated charges.
unfoldable pub save_clerk_charges : ℕ → ClerkCosts → Actor → Db → Result Db
unfolding write_charges
save_clerk_charges id dto actor db = do
  ticket ← or_throw (find_ticket id db) not_found
  ensure_clerk_action_allowed id actor db
  let gate = λ (c : Capability) (value : Option ℕ).
      resolve_gated_charge ticket.intake_flow ticket.currency c value none
  let drafted : GatedCharges = record {
    delivery = gate delivery dto.delivery_charges;
    printing = gate printing dto.printing_charges;
    attested = gate attestation dto.attested_charges;
    non_attested = gate attestation dto.non_attested_charges;
  }
  ok (update_ticket id (λ t. record t { charges = write_charges drafted t.charges }) db)

-- `sendBackToClerk`.
unfoldable pub send_back_to_clerk : ℕ → Db → Result Db
send_back_to_clerk id db = do
  ticket ← or_throw (find_ticket id db) not_found
  ensure (ticket.status is waiting_approval) bad_request
  written ←
      flip id waiting_approval
        (λ t. record t { status = in_progress; clerk_approval_status = rejected }) db
  ok (add_history id waiting_approval in_progress written)

-- `dispatchDelivery`; the tracking number is given trimmed, and absent when it is empty.
unfoldable pub dispatch_delivery : ℕ → Option ℕ → Option ℕ → Actor → Db → Result Db
dispatch_delivery id proof_url tracking_no actor db = do
  ticket ← or_throw (find_ticket id db) not_found
  ensure_clerk_action_allowed id actor db
  ensure (is_physical ticket) bad_request
  ensure (ticket.status is completed) bad_request
  throw_if (is_dispatched ticket.delivery_status) conflict
  flip id completed
      (λ t. record t {
        delivery_status = dispatched;
        dispatch_proof_url = or_else proof_url ticket.dispatch_proof_url;
        tracking_no = or_else tracking_no ticket.tracking_no;
      })
      db
