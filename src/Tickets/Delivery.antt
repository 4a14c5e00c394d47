-- ===== src/Tickets/Delivery.antt =====
-- apps/api/src/tickets/tickets.service.ts: the way of a digital ticket that is paid to its delivery.
use wusuq_web.Base.{
  ℕ, ◌≡◌, refl, Bool, true, false, ◌||◌, some, List, [], ◌∷◌, ◌++◌, map, arith, eqb_refl,
  find_last-append, Bool-cases, inl, inr, if◌then◌else◌, ◌==◌, ◌⁇◌, ok, ◌>>=◌, ◌>>◌, or_throw,
  ensure, throw_if,
}
use wusuq_web.Base.Table
use wusuq_web.Shared.Money.{is_fully_paid}
use wusuq_web.Store.{
  User, Ticket, TicketStatus, unpaid, paid, assigned, in_progress, waiting_approval, completed,
  delivered, Assignment, AssignmentStatus, active, accepted, assignment_key, Db, ticket_key,
  find_ticket, find_user, update_ticket, ◌is◌, rank,
}
use wusuq_web.Tickets.{
  Actor, is_allowed, is_staff_role, is_open, flip, add_history, transition, last_assignment,
  is_active, ensure_clerk_action_allowed,
}
use wusuq_web.Tickets.Flip.{moved}
use wusuq_web.Tickets.Assign.{
  AssignTicketDto, assign, city_matches, is_representative, ensure_active_representative_exists,
  replace_assignment, accept_assignment, set_assignment, total_of, new_assignment, supersede,
}
use wusuq_web.Tickets.Status.{is_physical}
use wusuq_web.Tickets.Work.{receipt, submit_clerk_receipt}
use wusuq_web.Tickets.Finalize.{
  FinalizeRemainderDto, review, review_and_complete, complete, auto_deliver, has_caps,
}

flip-runs :
    (id : ℕ) (s : TicketStatus) (f : Ticket → Ticket) (db : Db) (t : Ticket)
    → find_ticket id db ≡ some t
    → (t.status is s) ≡ true
    → flip id s f db ≡ ok (update_ticket id f db)
unfolding flip ◌>>=◌ ◌>>◌ or_throw ensure
flip-runs id s f db t e c = rw (e, flip, c) refl

transition-runs :
    (id : ℕ) (s to : TicketStatus) (db : Db) (t : Ticket)
    → find_ticket id db ≡ some t
    → (t.status is s) ≡ true
    → transition id s to db ≡ ok (moved id s to db)
unfolding transition ◌>>=◌
transition-runs id s to db t e c = rw (flip-runs id s (λ t. record t { status = to }) db t e c) refl

-- The row after a write.
row_after :
    (id : ℕ) (f : Ticket → Ticket) (db : Db) (t : Ticket)
    → ((t : Ticket) → (f t).id ≡ t.id)
    → find_ticket id db ≡ some t
    → find_ticket id (update_ticket id f db) ≡ some (f t)
row_after id f db t keeps e = Table.find_by-update_by_self ticket_key f keeps id db.tickets t e

-- A representative who can be given a ticket.
pub record CanWork (id : ℕ) (db : Db) : Type 0 where
  pub user : User
  pub found : find_user id db ≡ some user
  pub role : is_representative user.role ≡ true
  pub active : user.is_active ≡ true

representative-runs :
    (id : ℕ) (db : Db) (w : CanWork id db) → ensure_active_representative_exists id db ≡ ok w.user
unfolding ensure_active_representative_exists ◌>>=◌ ◌>>◌ or_throw throw_if
representative-runs id db w =
    rw (w.found, ensure_active_representative_exists, w.role, w.active) refl

-- The columns that an assignment writes.
abbrev given_out : AssignTicketDto → Ticket → Ticket → Ticket
given_out dto ticket t = record t {
  clerk_cost = dto.clerk_cost ⁇ 0;
  total_amount = (total_of ticket).total_amount;
  status = assigned;
}

abbrev assigned_db : ℕ → AssignTicketDto → Ticket → Db → Db
assigned_db id dto t db =
    add_history id t.status assigned
      (replace_assignment id dto.representative_id (update_ticket id (given_out dto t) db))

assign-runs :
    (id : ℕ) (dto : AssignTicketDto) (db : Db) (t : Ticket) (w : CanWork dto.representative_id db)
    → find_ticket id db ≡ some t
    → (t.status is unpaid || is_allowed t.status assigned) ≡ true
    → dto.force_assign ≡ true
    → assign id dto db ≡ ok (assigned_db id dto t db)
unfolding assign ◌>>=◌ ◌>>◌ or_throw ensure
assign-runs id dto db t w e c f =
    let any_city : (city_matches w.user t || dto.force_assign) ≡ true = ground (arith, f) in
    rw
      (
        e,
        assign,
        representative-runs dto.representative_id db w,
        c,
        any_city,
        flip-runs id t.status (given_out dto t) db t e (eqb_refl (rank t.status)),
      )
      refl

abbrev held_by : ℕ → ℕ → AssignmentStatus → ℕ → Assignment
held_by n id status user_id = record (new_assignment n id user_id) { status = status }

-- The last assignment of a list is that of a ticket to a representative, in some status.
record LastHeld (id : ℕ) (status : AssignmentStatus) (user_id : ℕ) (xs : List Assignment)
    : Type 0 where
  n : ℕ
  before : List Assignment
  shape : xs ≡ before ++ (held_by n id status user_id ∷ [])

LastHeld-last_assignment :
    (p : AssignmentStatus → Bool) (id : ℕ) (status : AssignmentStatus) (user_id : ℕ) (db : Db)
    (l : LastHeld id status user_id db.assignments)
    → p status ≡ true
    → last_assignment p id db ≡ some (held_by l.n id status user_id)
LastHeld-last_assignment p id status user_id db l y =
    let this : (if id == id then p status else false) ≡ true = rw (eqb_refl id) y in
    rw l.shape (
      find_last-append (λ a. if a.ticket_id == id then p a.status else false) l.before
        (held_by l.n id status user_id) this)

set_assignment-LastHeld :
    (id : ℕ) (from to : AssignmentStatus) (user_id : ℕ) (xs : List Assignment)
    (l : LastHeld id from user_id xs)
    → LastHeld id to user_id (Table.update_by assignment_key l.n (λ a. record a { status = to }) xs)
set_assignment-LastHeld id from to user_id xs l = record {
  n = l.n;
  before = Table.update_by assignment_key l.n (λ a. record a { status = to }) l.before;
  shape = rw l.shape (
      rw
        (
          Table.update_by-append assignment_key l.n (λ a. record a { status = to }) l.before
              (held_by l.n id from user_id),
          eqb_refl l.n,
        )
        refl);
}

-- Where a ticket stands: its row, and who holds it.
record Stands (id user_id : ℕ) (status : AssignmentStatus) (t : Ticket) (db : Db) : Type 0 where
  row : find_ticket id db ≡ some t
  holder : LastHeld id status user_id db.assignments

assign-moves :
    (id : ℕ) (dto : AssignTicketDto) (db : Db) (t : Ticket) (w : CanWork dto.representative_id db)
    → find_ticket id db ≡ some t
    → (t.status is unpaid || is_allowed t.status assigned) ≡ true
    → dto.force_assign ≡ true
    → (d : Db) × (assign id dto db ≡ ok d)
      × Stands id dto.representative_id active (given_out dto t t) d
assign-moves id dto db t w e c f = (
  assigned_db id dto t db,
  assign-runs id dto db t w e c f,
  record {
    row = row_after id (given_out dto t) db t (λ t. refl) e;
    holder = record { n = db.next_id; before = map (supersede id) db.assignments; shape = refl };
  },
)

accept-moves :
    (id user_id : ℕ) (actor : Actor) (db : Db) (t : Ticket)
    → Stands id user_id active t db
    → t.status ≡ assigned
    → actor.user_id ≡ some user_id
    → (d : Db) × (accept_assignment id actor db ≡ ok d)
      × Stands id user_id accepted (record t { status = in_progress }) d
unfolding accept_assignment ◌>>=◌ ◌>>◌ or_throw ensure
accept-moves id user_id actor db t s c a =
    let is_assigned : (t.status is assigned) ≡ true = rw c refl in
    (
      add_history id assigned in_progress (
          set_assignment s.holder.n accepted
            (update_ticket id (λ t. record t { status = in_progress }) db)),
      rw
          (
            s.row,
            accept_assignment,
            is_assigned,
            LastHeld-last_assignment is_active id active user_id db s.holder refl,
            a,
            eqb_refl user_id,
            flip-runs id assigned (λ t. record t { status = in_progress }) db t s.row is_assigned,
          )
          refl,
      record {
        row = row_after id (λ t. record t { status = in_progress }) db t (λ t. refl) s.row;
        holder = set_assignment-LastHeld id active accepted user_id db.assignments s.holder;
      },
    )

holder-allowed :
    (id user_id : ℕ) (actor : Actor) (db : Db)
    → LastHeld id accepted user_id db.assignments
    → actor.user_id ≡ some user_id
    → ensure_clerk_action_allowed id actor db ≡ ok tt
unfolding ensure_clerk_action_allowed ensure
holder-allowed id user_id actor db l a = elim (Bool-cases (is_staff_role actor.role)) [
  | inl y ↦ rw (a, ensure_clerk_action_allowed, y) refl
  | inr n ↦
      rw
        (
          a,
          ensure_clerk_action_allowed,
          n,
          LastHeld-last_assignment is_open id accepted user_id db l refl,
          eqb_refl user_id,
        )
        refl
]

abbrev received : ℕ → Ticket → Ticket
received url t = record (receipt url t) { status = waiting_approval }

receipt-moves :
    (id user_id url : ℕ) (actor : Actor) (db : Db) (t : Ticket)
    → Stands id user_id accepted t db
    → t.status ≡ in_progress
    → actor.user_id ≡ some user_id
    → (d : Db) × (submit_clerk_receipt id url actor db ≡ ok d)
      × Stands id user_id accepted (received url t) d
unfolding submit_clerk_receipt ◌>>=◌ ◌>>◌ or_throw ensure
receipt-moves id user_id url actor db t s c a =
    let at_work : (t.status is in_progress) ≡ true = rw c refl in
    (
      add_history id in_progress waiting_approval (update_ticket id (received url) db),
      rw
          (
            s.row,
            submit_clerk_receipt,
            holder-allowed id user_id actor db s.holder a,
            at_work,
            flip-runs id in_progress (received url) db t s.row at_work,
          )
          refl,
      record { row = row_after id (received url) db t (λ t. refl) s.row; holder = s.holder },
    )

review-moves :
    (id : ℕ) (dto : FinalizeRemainderDto) (db : Db) (t : Ticket)
    → find_ticket id db ≡ some t
    → t.status ≡ waiting_approval
    → has_caps t ≡ false
    → is_physical t ≡ false
    → is_fully_paid t.amount_paid t.total_amount ≡ true
    → (d : Db) × (review_and_complete id dto db ≡ ok d)
      × (find_ticket id d ≡ some (record (complete t t) { status = delivered }))
unfolding review_and_complete review auto_deliver complete ◌>>=◌ ◌>>◌ or_throw ensure is_physical
review-moves id dto db t e c caps digital full =
    let waiting : (t.status is waiting_approval) ≡ true = rw c refl in
    let mid : Db = add_history id waiting_approval completed (update_ticket id (complete t) db) in
    let row : find_ticket id mid ≡ some (complete t t) =
      row_after id (complete t) db t (λ t. refl) e in
    (
      moved id completed delivered mid,
      rw
          (
            e,
            review_and_complete,
            waiting,
            review,
            caps,
            flip-runs id waiting_approval (complete t) db t e waiting,
            auto_deliver,
            row,
            digital,
            full,
            transition-runs id completed delivered mid (complete t t) row refl,
          )
          refl,
      row_after id (λ t. record t { status = delivered }) mid (complete t t) (λ t. refl) row,
    )

-- The four calls that take a ticket from `db` to its delivery, each on the database that the one
-- before it left.
pub record WayToDelivery (id url : ℕ) (dto : AssignTicketDto) (clerk : Actor)
    (last : FinalizeRemainderDto) (db : Db) : Type 0 where
  pub given : Db
  pub taken : Db
  pub proven : Db
  pub final : Db
  pub ticket : Ticket
  pub assigns : assign id dto db ≡ ok given
  pub accepts : accept_assignment id clerk given ≡ ok taken
  pub submits : submit_clerk_receipt id url clerk taken ≡ ok proven
  pub reviews : review_and_complete id last proven ≡ ok final
  pub row : find_ticket id final ≡ some ticket
  pub is_delivered : ticket.status ≡ delivered

-- A paid ticket with nothing to send by post and no second-phase charges, fully paid at the total of
-- its own columns, reaches DELIVERED whatever else the database holds: when the staff gives it (by
-- force) to an active representative, and that representative accepts it and submits a receipt, then
-- each of the calls `assign`, `acceptAssignment`, `submitClerkReceipt` and `reviewAndComplete`
-- succeeds in turn, and the last leaves the ticket delivered.
pub WayToDelivery-paid :
    (id url : ℕ) (dto : AssignTicketDto) (clerk : Actor) (last : FinalizeRemainderDto) (db : Db)
    (t : Ticket)
    → CanWork dto.representative_id db
    → find_ticket id db ≡ some t
    → t.status ≡ paid
    → is_physical t ≡ false
    → has_caps t ≡ false
    → is_fully_paid t.amount_paid (total_of t).total_amount ≡ true
    → dto.force_assign ≡ true
    → clerk.user_id ≡ some dto.representative_id
    → WayToDelivery id url dto clerk last db
unfolding is_allowed has_caps is_physical total_of
WayToDelivery-paid id url dto clerk last db t w e c digital caps full f a =
    let (d1, x1, s1) = assign-moves id dto db t w e (rw c refl) f in
    let (d2, x2, s2) =
      accept-moves id dto.representative_id clerk d1 (given_out dto t t) s1 refl a in
    let t2 : Ticket = record (given_out dto t t) { status = in_progress } in
    let (d3, x3, s3) = receipt-moves id dto.representative_id url clerk d2 t2 s2 refl a in
    let (d4, x4, row) = review-moves id last d3 (received url t2) s3.row refl caps digital full in
    record {
      given = d1;
      taken = d2;
      proven = d3;
      final = d4;
      ticket = record (complete (received url t2) (received url t2)) { status = delivered };
      assigns = x1;
      accepts = x2;
      submits = x3;
      reviews = x4;
      row = row;
      is_delivered = refl;
    }
