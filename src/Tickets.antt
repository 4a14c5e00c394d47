-- ===== src/Tickets.antt =====
-- apps/api/src/tickets/tickets.service.ts: what the operations on a ticket share. Each operation
-- that changes the status has two halves, as in the source: it validates the ticket that it read,
-- and then writes on the condition that the status is still the one that was read.
pub mod Flip
pub mod Status
pub mod Assign
pub mod Work
pub mod Finalize
pub mod Frozen
pub mod Intake
pub mod Delivery
pub mod Bulk
pub mod Regenerate
pub mod NextHearing
use wusuq_web.Base.{
  ℕ, ◌*◌, Bool, true, false, ◌||◌, Option, none, some, List, [], ◌∷◌, ◌++◌, any, if◌then◌else◌,
  ◌==◌, find_last, Result, ok, err, ◌>>=◌, ◌>>◌, ensure, or_throw, not_found, forbidden, conflict,
}
use wusuq_web.Store.{
  UserRole, super_admin, manager_admin, staff_admin, lead_admin, Ticket, TicketStatus, unpaid, paid,
  assigned, in_progress, waiting_approval, completed, delivered, Assignment, AssignmentStatus,
  active, accepted, Db, find_ticket, update_ticket, ◌is◌,
}

-- `STATUS_TRANSITIONS`.
unfoldable pub status_transitions : TicketStatus → List TicketStatus
status_transitions unpaid = paid ∷ []
status_transitions paid = assigned ∷ []
status_transitions assigned = in_progress ∷ []
status_transitions in_progress = waiting_approval ∷ []
status_transitions waiting_approval = completed ∷ in_progress ∷ []
status_transitions completed = delivered ∷ []
status_transitions delivered = []

-- `this.getAllowedTransitions(from).includes(to)`.
unfoldable pub is_allowed : TicketStatus → TicketStatus → Bool
unfolding status_transitions
is_allowed from to = any (λ s. s is to) (status_transitions from)

-- Who makes a call: the signed-in user and the role.
pub record Actor : Type 0 where
  pub user_id : Option ℕ
  pub role : Option UserRole

unfoldable pub is_staff_role : Option UserRole → Bool
is_staff_role (some super_admin) = true
is_staff_role (some manager_admin) = true
is_staff_role (some staff_admin) = true
is_staff_role (some lead_admin) = true
is_staff_role _ = false

abbrev pub is_active : AssignmentStatus → Bool
is_active active = true
is_active _ = false

abbrev pub is_open : AssignmentStatus → Bool
is_open active = true
is_open accepted = true
is_open _ = false

-- `findFirst({ where: { ticketId, status }, orderBy: { createdAt: 'desc' } })`.
abbrev pub last_assignment : (AssignmentStatus → Bool) → ℕ → Db → Option Assignment
last_assignment p ticket_id db =
    find_last (λ (a : Assignment). if a.ticket_id == ticket_id then p a.status else false)
      db.assignments

-- Staff, and calls without a user, are exempt; else the caller must hold the last open assignment.
unfoldable pub ensure_clerk_action_allowed : ℕ → Actor → Db → Result (Unit {0})
unfolding is_staff_role
ensure_clerk_action_allowed ticket_id actor db = elim actor.user_id [
  | none ↦ ok tt
  | some user_id ↦
      if is_staff_role actor.role then ok tt else elim (last_assignment is_open ticket_id db) [
        | none ↦ err forbidden
        | some current ↦ ensure (current.representative_id == user_id) forbidden
      ]
]

-- `updateMany({ where: { id, status }, data })` that must find its row.
unfoldable pub flip : ℕ → TicketStatus → (Ticket → Ticket) → Db → Result Db
flip id status change db = do
  ticket ← or_throw (find_ticket id db) conflict
  ensure (ticket.status is status) conflict
  ok (update_ticket id change db)

-- `ticketStatusHistory.create`.
abbrev pub add_history : ℕ → TicketStatus → TicketStatus → Db → Db
add_history ticket_id from to db = record db {
  history = db.history ++ (record { ticket_id = ticket_id; from = some from; to = to } ∷ []);
}

-- The flip of the status alone, with its row of history.
unfoldable pub transition : ℕ → TicketStatus → TicketStatus → Db → Result Db
unfolding flip
transition id from to db = do
  flipped ← flip id from (λ t. record t { status = to }) db
  ok (add_history id from to flipped)

-- `computePageCharges`.
unfoldable pub compute_page_charges : Option ℕ → Option ℕ → Option ℕ
compute_page_charges (some no_of_pages) (some cost_per_page) = some (no_of_pages * cost_per_page)
compute_page_charges _ _ = none
