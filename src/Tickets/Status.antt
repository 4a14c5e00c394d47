-- ===== src/Tickets/Status.antt =====
-- apps/api/src/tickets/tickets.service.ts: `updateStatus`, here its checks and its
-- transaction on the tables of tickets (what it writes to a case is in Cases/Completion), and
-- `overrideStatus`.
pub mod Gates
use wusuq_web.Base.{
  ℕ, Bool, true, false, not, ◌&&◌, Option, none, some, Result, ok, err, ◌>>=◌, ◌>>◌, throw_if,
  ensure, or_throw, bad_request, not_found, forbidden,
}
use wusuq_web.Shared.Flows.{Currency, pkr, charge_capabilities_for}
use wusuq_web.Shared.Money.{is_fully_paid}
use wusuq_web.Store.{
  UserRole, super_admin, Ticket, TicketStatus, delivered, Db, find_ticket, is_dispatched, ◌is◌,
}
use wusuq_web.Tickets.{is_allowed, Actor, transition}

-- Does the flow have a delivery leg? (The check names no currency, which stands for PKR.)
unfoldable pub is_physical : Ticket → Bool
is_physical t = (charge_capabilities_for t.intake_flow pkr).delivery

-- The gates before DELIVERED: the money, and then the dispatch.
unfoldable pub ensure_deliverable : Ticket → Result (Unit {0})
unfolding is_physical
ensure_deliverable t = do
  ensure (is_fully_paid t.amount_paid t.total_amount) forbidden
  throw_if (is_physical t && not (is_dispatched t.delivery_status)) bad_request

-- What `updateStatus` checks of the ticket that it read.
unfoldable pub check_status_update : Ticket → TicketStatus → Result (Unit {0})
unfolding ensure_deliverable
check_status_update ticket status = do
  ensure (is_allowed ticket.status status) bad_request
  elim (status is delivered) [ true ↦ ensure_deliverable ticket | false ↦ ok tt ]

unfoldable pub update_status : ℕ → TicketStatus → Db → Result Db
unfolding check_status_update
update_status id status db = do
  ticket ← or_throw (find_ticket id db) not_found
  check_status_update ticket status
  transition id ticket.status status db

abbrev pub is_super_admin : Option UserRole → Bool
is_super_admin (some super_admin) = true
is_super_admin _ = false

-- `overrideStatus`: any status, yet DELIVERED passes the gates unless a super-admin asks.
unfoldable pub override_status : ℕ → TicketStatus → Actor → Db → Result Db
unfolding ensure_deliverable
override_status id status actor db = do
  ticket ← or_throw (find_ticket id db) not_found
  elim (status is delivered && not (is_super_admin actor.role)) [
    | true ↦ ensure_deliverable ticket
    | false ↦ ok tt
  ]
  transition id ticket.status status db
