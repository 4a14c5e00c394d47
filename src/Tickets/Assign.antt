-- ===== src/Tickets/Assign.antt =====
-- apps/api/src/tickets/tickets.service.ts: `assign`, `acceptAssignment` and `rejectAssignment`.
pub mod Active
use wusuq_web.Base.{
  ℕ, suc, ◌+◌, Bool, true, false, not, ◌&&◌, ◌||◌, Option, none, some, List, [], ◌∷◌, ◌++◌, map,
  any, length, ltb, leb, if◌then◌else◌, ◌==◌, ◌⁇◌, Result, ok, err, ◌>>=◌, ◌>>◌, throw_if, ensure,
  or_throw, bad_request, not_found, forbidden, conflict,
}
use wusuq_web.Base.Table
use wusuq_web.Base.Text.{lower, includes, given}
use wusuq_web.Shared.Money.{TicketMoneyResult, compute_ticket_total}
use wusuq_web.Store.{
  User, UserRole, representative, Ticket, TicketStatus, unpaid, paid, assigned, in_progress,
  Assignment, AssignmentStatus, active, accepted, rejected, superseded, assignment_key, Db,
  find_user, find_ticket, ◌is◌,
}
use wusuq_web.Tickets.{
  is_allowed, Actor, is_active, last_assignment, ensure_clerk_action_allowed, flip, transition,
  add_history,
}

-- Does one of the representative's cities name the ticket's, or the other way round? Asked only
-- when the representative has a court city and the ticket a city.
unfoldable pub city_matches : User → Ticket → Bool
city_matches rep ticket = elim (given rep.court_city) [
  | [] ↦ true
  | court ∷ _ ↦ elim (given ticket.service_city) [
    | [] ↦ true
    | city ∷ _ ↦
        any (λ c. includes (lower city) (lower c) || includes (lower c) (lower city))
          (court ∷ given rep.city)
  ]
]

abbrev pub is_representative : UserRole → Bool
is_representative representative = true
is_representative _ = false

unfoldable pub ensure_active_representative_exists : ℕ → Db → Result User
ensure_active_representative_exists id db = do
  user ← or_throw (find_user id db) not_found
  throw_if (not (is_representative user.role) || not user.is_active) bad_request
  ok user

-- The total of the ticket from its own columns.
unfoldable pub total_of : Ticket → TicketMoneyResult
total_of t = compute_ticket_total (record {
  charges = t.charges;
  discount_price = t.discount_price;
  promo_discount = t.promo_discount;
  tax_rate = t.tax_rate;
})

pub record AssignTicketDto : Type 0 where
  pub representative_id : ℕ
  pub clerk_cost : Option ℕ
  pub force_assign : Bool

-- `assignment.updateMany({ where: { ticketId, status: 'ACTIVE' }, data: { status: 'SUPERSEDED' } })`.
abbrev pub supersede : ℕ → Assignment → Assignment
supersede ticket_id a =
    if a.ticket_id == ticket_id && is_active a.status then record a { status = superseded } else a

abbrev pub new_assignment : ℕ → ℕ → ℕ → Assignment
new_assignment id ticket_id representative_id = record {
  id = id;
  ticket_id = ticket_id;
  representative_id = representative_id;
  status = active;
}

-- `assignment.create`, after the active ones are superseded.
abbrev pub replace_assignment : ℕ → ℕ → Db → Db
replace_assignment ticket_id representative_id db = record db {
  assignments =
      map (supersede ticket_id) db.assignments
      ++ (new_assignment db.next_id ticket_id representative_id ∷ []);
  next_id = suc db.next_id;
}

-- `assign`. The write-back of a default fee to the price rules is not kept.
unfoldable pub assign : ℕ → AssignTicketDto → Db → Result Db
unfolding city_matches ensure_active_representative_exists total_of
assign id dto db = do
  ticket ← or_throw (find_ticket id db) not_found
  rep ← ensure_active_representative_exists dto.representative_id db
  ensure (ticket.status is unpaid || is_allowed ticket.status assigned) bad_request
  ensure (city_matches rep ticket || dto.force_assign) conflict
  flipped ←
      flip id ticket.status
        (λ t. record t {
          clerk_cost = dto.clerk_cost ⁇ 0;
          total_amount = (total_of ticket).total_amount;
          status = assigned;
        })
        db
  ok (add_history id ticket.status assigned (replace_assignment id dto.representative_id flipped))

-- `assignment.update({ where: { id }, data: { status } })`.
abbrev pub set_assignment : ℕ → AssignmentStatus → Db → Db
set_assignment id status db = record db {
  assignments =
      Table.update_by assignment_key id (λ a. record a { status = status }) db.assignments;
}

abbrev is_holder : Option ℕ → ℕ → Bool
is_holder none _ = true
is_holder (some user_id) representative_id = representative_id == user_id

unfoldable pub accept_assignment : ℕ → Actor → Db → Result Db
accept_assignment id actor db = do
  ticket ← or_throw (find_ticket id db) not_found
  ensure (ticket.status is assigned) bad_request
  current ← or_throw (last_assignment is_active id db) bad_request
  ensure (is_holder actor.user_id current.representative_id) forbidden
  flipped ← flip id assigned (λ t. record t { status = in_progress }) db
  ok (add_history id assigned in_progress (set_assignment current.id accepted flipped))

-- The active assignment becomes `status`, if there is one.
abbrev pub close_active : Option Assignment → AssignmentStatus → Db → Db
close_active none status db = db
close_active (some a) status db = set_assignment a.id status db

-- The reason is given by the length of its trimmed text.
unfoldable pub reject_assignment : ℕ → ℕ → Actor → Db → Result Db
reject_assignment id reason_length actor db = do
  throw_if (ltb reason_length 3) bad_request
  ticket ← or_throw (find_ticket id db) not_found
  ensure (ticket.status is assigned) bad_request
  ensure_clerk_action_allowed id actor db
  flipped ← flip id assigned (λ t. record t { status = paid }) db
  ok (
      add_history id assigned paid
        (close_active (last_assignment is_active id db) rejected flipped))
