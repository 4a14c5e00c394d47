-- ===== src/Tickets/NextHearing.antt =====
-- apps/api/src/tickets/tickets.service.ts: `recordNextHearing` and `generateNextHearing`. The payload
-- of the new ticket and the type of a hearing are not kept.
use wusuq_web.Base.{
  ℕ, false, Option, none, some, or_else, is_some, ◌==◌, if◌then◌else◌, Result, ok, ◌>>=◌, ◌>>◌,
  or_throw, ensure, not_found, bad_request,
}
use wusuq_web.Shared.Flows.{pkr}
use wusuq_web.Store.{
  Ticket, unpaid, ClerkApprovalStatus, DeliveryStatus, Db, find_ticket, update_ticket,
}
use wusuq_web.Tickets.{Actor, ensure_clerk_action_allowed}
use wusuq_web.Tickets.Intake.{insert_ticket}

-- The date that a hearing moves away from: none when it stays, or had no date.
abbrev pub moved_away_from : Option ℕ → ℕ → Option ℕ
moved_away_from none next = none
moved_away_from (some date) next = if date == next then none else some date

-- `recordNextHearing`: the date that is replaced becomes the previous one.
unfoldable pub record_next_hearing : ℕ → ℕ → Actor → Db → Result Db
unfolding ensure_clerk_action_allowed
record_next_hearing id date actor db = do
  existing ← or_throw (find_ticket id db) not_found
  ensure_clerk_action_allowed id actor db
  ok (
      update_ticket id
        (λ t. record t {
          scheduled_date = some date;
          previous_hearing_date =
              or_else (moved_away_from existing.scheduled_date date) t.previous_hearing_date;
        })
        db)

-- The row of the next hearing's ticket. `create` names neither the currency nor the rate, so both
-- have their defaults.
abbrev pub next_hearing : Ticket → ℕ → Ticket
next_hearing parent id = record {
  id = id;
  consumer_id = parent.consumer_id;
  status = unpaid;
  intake_flow = parent.intake_flow;
  currency = pkr;
  fx_rate_to_pkr = none;
  service_city = parent.service_city;
  charges = record {
    service_cost = parent.charges.service_cost;
    delivery_charges = 0;
    printing_charges = 0;
    attested_charges = 0;
    non_attested_charges = 0;
    additional_charges = 0;
    additional_service_cost = 0;
  };
  pages = record {
    no_of_pages = none;
    cost_per_page = none;
    attested_pages = none;
    attested_cost_per_page = none;
    non_attested_pages = none;
    non_attested_cost_per_page = none;
  };
  clerk = record { attested = none; non_attested = none; printing = none; delivery = none };
  discount_price = 0;
  promo_discount = 0;
  tax_rate = 0;
  tax_amount = 0;
  clerk_cost = 0;
  default_clerk_cost = parent.default_clerk_cost;
  clerk_approval_status = ClerkApprovalStatus.pending;
  clerk_receipt_url = none;
  delivery_status = DeliveryStatus.pending;
  dispatch_proof_url = none;
  tracking_no = none;
  remainder_finalized = false;
  total_amount = parent.charges.service_cost;
  amount_paid = 0;
  archived = false;
  want_pdf = false;
  promo_code_id = none;
  intake_request_id = none;
  scheduled_date = none;
  previous_hearing_date = none;
}

unfoldable pub generate_next_hearing : ℕ → Db → Result Db
generate_next_hearing parent_id db = do
  parent ← or_throw (find_ticket parent_id db) not_found
  ensure (is_some parent.scheduled_date) bad_request
  ok (insert_ticket (next_hearing parent db.next_id) db)
