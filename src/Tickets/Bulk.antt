-- ===== src/Tickets/Bulk.antt =====
-- apps/api/src/tickets/tickets.service.ts: `assignBulk` and `bulkAction`. Of
-- `updateStatus` the loop has its half on the tables of tickets. The audit row is not kept.
pub mod Held
use wusuq_web.Base.{
  ℕ, Bool, true, false, not, ◌&&◌, Option, none, some, List, [], ◌∷◌, map, any, filterb, ◌==◌,
  if◌then◌else◌, Result, ok, err, Error, not_found, ◌>>=◌, or_throw,
}
use wusuq_web.Store.{Ticket, completed, Notification, Db, find_ticket}
use wusuq_web.Tickets.Assign.{AssignTicketDto, assign}
use wusuq_web.Tickets.Status.{update_status}

-- A ticket that a bulk call left out, with the exception that says why.
pub record Skipped : Type 0 where
  pub ticket_id : ℕ
  pub reason : Error

-- The two lists that a bulk call reports, and the tables that it leaves.
pub record BulkResult : Type 0 where
  pub succeeded : List ℕ
  pub failed : List Skipped
  pub db : Db

-- One round of the loop of `assignBulk`.
unfoldable pub assign_one : ℕ → Bool → ℕ → Db → Result Db
assign_one representative_id force_assign ticket_id db = do
  t ← or_throw (find_ticket ticket_id db) not_found
  assign ticket_id
      (record {
        representative_id = representative_id;
        clerk_cost = t.default_clerk_cost;
        force_assign = force_assign;
      })
      db

-- The loops go over the tickets in order, and an exception of one does not stop the others.
unfoldable pub for_each : (ℕ → Db → Result Db) → List ℕ → Db → BulkResult
for_each call [] db = record { succeeded = []; failed = []; db = db }
for_each call (id ∷ ids) db = elim (call id db) [
  | ok d ↦ let rest = for_each call ids d in record rest { succeeded = id ∷ rest.succeeded }
  | err e ↦
      let rest = for_each call ids db in
      record rest { failed = record { ticket_id = id; reason = e } ∷ rest.failed }
]

unfoldable pub assign_bulk : List ℕ → ℕ → Bool → Db → BulkResult
unfolding assign_one for_each
assign_bulk ticket_ids representative_id force_assign db =
    for_each (assign_one representative_id force_assign) ticket_ids db

pub data BulkAction : Type 0 where
  complete delete restore : BulkAction

abbrev pub set_archived : Bool → List ℕ → Ticket → Ticket
set_archived archived ticket_ids t =
    if any (λ id. t.id == id) ticket_ids then record t { archived = archived } else t

-- `ticket.updateMany({ where: { id: { in: ticketIds }, archivedAt }, data: { archivedAt } })`: the
-- condition on `archivedAt` leaves out the rows that are already as the call wants them.
abbrev pub archive_many : Bool → List ℕ → Db → Db
archive_many archived ticket_ids db = record db {
  tickets = map (set_archived archived ticket_ids) db.tickets;
}

-- Is this a notification about one of the tickets?
abbrev is_about : List ℕ → Notification → Bool
is_about ticket_ids n = elim n.ticket_id [
  | none ↦ false
  | some ticket_id ↦ any (λ id. ticket_id == id) ticket_ids
]

-- `notification.deleteMany`. (A failure of it is logged and goes no further.)
abbrev clear_notifications : List ℕ → Db → Db
clear_notifications ticket_ids db = record db {
  notifications = filterb (λ n. not (is_about ticket_ids n)) db.notifications;
}

-- Nothing brings back the notifications that an archiving clears.
unfoldable pub bulk_action : BulkAction → List ℕ → Db → BulkResult
unfolding for_each
bulk_action complete ticket_ids db = for_each (λ id db. update_status id completed db) ticket_ids db
bulk_action delete ticket_ids db = record {
  succeeded = [];
  failed = [];
  db = clear_notifications ticket_ids (archive_many true ticket_ids db);
}
bulk_action restore ticket_ids db = record {
  succeeded = [];
  failed = [];
  db = archive_many false ticket_ids db;
}
