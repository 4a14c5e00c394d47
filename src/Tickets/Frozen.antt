-- ===== src/Tickets/Frozen.antt =====
-- Delivered tickets, over the operations that ask for a status.
pub mod Settle
pub mod Steps
use wusuq_web.Base.{
  ℕ, ◌≡◌, Bool, true, false, not, ◌&&◌, ◌||◌, refl, sym, ap, ◌∙◌, subst, Option, none, some,
  some-injective, arith, ◌==◌, ltb, Bool-cases, eq_of_eqb, inl, inr, if◌then◌else◌, ◌≢◌, Result, ok,
  err, ◌-◌, Post, Post-of, Post-bind, Post-then, Post-or_throw, Post-ensure, Post-throw_if,
  Post-return, Post-result, not_found, bad_request, conflict, forbidden,
}
use wusuq_web.Base.Table
use wusuq_web.Store.{
  User, Assignment, AssignmentStatus, Ticket, TicketStatus, Db, delivered, assigned, in_progress,
  waiting_approval, completed, ticket_key, find_ticket, update_ticket, ◌is◌,
}
use wusuq_web.Tickets.{Actor, is_active, last_assignment, flip, transition, is_allowed}
use wusuq_web.Tickets.Flip.{flip-Flipped}
use wusuq_web.Tickets.Status.{update_status, check_status_update}
use wusuq_web.Tickets.Status.Gates.{update_status-gated}
use wusuq_web.Tickets.Assign.{
  AssignTicketDto, assign, accept_assignment, reject_assignment, close_active,
}
use wusuq_web.Tickets.Work.{
  ClerkCosts, submit_clerk_receipt, submit_clerk_costs, clerk_costs, send_back_to_clerk,
  dispatch_delivery,
}
use wusuq_web.Tickets.Finalize.{
  FinalizeRemainderDto, finalize_remainder_core, finalized, can_finalize, credit_surplus,
}
use wusuq_web.Tickets.Finalize.Settled.{credit_surplus-tickets}
use wusuq_web.Tickets.Finalize.Reprice.{Resolved, RepriceTicketDto, reprice_ticket, repriced}

-- The rows of delivered tickets are as they were.
abbrev pub Frozen : Db → Db → Type 0
Frozen db db' =
    (j : ℕ) (t : Ticket)
    → find_ticket j db ≡ some t
    → t.status ≡ delivered
    → find_ticket j db' ≡ some t

-- A change of a row that is not a delivered one.
pub update-Frozen :
    (id : ℕ) (change : Ticket → Ticket) (u : Ticket) (db db' : Db)
    → ((x : Ticket) → (change x).id ≡ x.id)
    → find_ticket id db ≡ some u
    → (u.status is delivered) ≡ false
    → db'.tickets ≡ Table.update_by ticket_key id change db.tickets
    → Frozen db db'
update-Frozen id change u db db' keeps e n w j t f s = elim (Bool-cases (j == id)) [
  | inl y ↦
      let same : u ≡ t =
        some-injective u t (sym e ∙ ap (λ k. find_ticket k db) (sym (eq_of_eqb j id y)) ∙ f) in
      let is_delivered : (u.status is delivered) ≡ true =
        ap (λ (v : Ticket). v.status is delivered) same ∙ ap (λ x. x is delivered) s in
      absurd (ground arith)
  | inr y ↦
      let other : j ≢ id = ground arith in
      ap (Table.find_by ticket_key j) w
      ∙ Table.find_by-update_by_ne ticket_key change keeps j id db.tickets other
      ∙ f
]

pub flip-Frozen :
    (id : ℕ) (from : TicketStatus) (change : Ticket → Ticket) (db db' : Db)
    → ((x : Ticket) → (change x).id ≡ x.id)
    → (from is delivered) ≡ false
    → flip id from change db ≡ ok db'
    → Frozen db db'
flip-Frozen id from change db db' keeps n h =
    let p = flip-Flipped id from change db db' h in
    update-Frozen id change p.ticket db db' keeps p.found (ap (λ s. s is delivered) p.was ∙ n)
      (ap (λ (d : Db). d.tickets) p.written)

pub update_status-Frozen :
    (id : ℕ) (to : TicketStatus) (db db' : Db) → update_status id to db ≡ ok db' → Frozen db db'
unfolding is_allowed
update_status-Frozen id to db db' h =
    let (t, e, a, d, w) = update_status-gated id to db db' h in
    update-Frozen id (λ t. record t { status = to }) t db db' (λ _. refl) e (ground arith)
      (ap (λ (d : Db). d.tickets) w)

pub assign-Frozen : (id : ℕ) (dto : AssignTicketDto) (db : Db) → Post (Frozen db) (assign id dto db)
unfolding assign is_allowed
assign-Frozen id dto db = Post-or_throw not_found λ (t : Ticket) e. Post-bind λ (rep : User) r.
    Post-ensure bad_request λ a. Post-ensure conflict λ c. Post-bind λ (flipped : Db) f.
      Post-return (flip-Frozen id t.status _ db flipped (λ _. refl) (ground arith) f)

pub accept_assignment-Frozen :
    (id : ℕ) (actor : Actor) (db : Db) → Post (Frozen db) (accept_assignment id actor db)
unfolding accept_assignment
accept_assignment-Frozen id actor db = Post-or_throw not_found λ (t : Ticket) e.
    Post-ensure bad_request λ a. Post-or_throw bad_request λ (current : Assignment) c.
      Post-ensure forbidden λ o.
        Post-bind
          λ (flipped : Db) f. Post-return (flip-Frozen id assigned _ db flipped (λ _. refl) refl f)

close_active-Frozen :
    (o : Option Assignment) (db db' : Db)
    → Frozen db db'
    → Frozen db (close_active o AssignmentStatus.rejected db')
close_active-Frozen none db db' f = f
close_active-Frozen (some a) db db' f = f

pub reject_assignment-Frozen :
    (id n : ℕ) (actor : Actor) (db : Db) → Post (Frozen db) (reject_assignment id n actor db)
unfolding reject_assignment
reject_assignment-Frozen id n actor db = Post-throw_if bad_request λ l.
    Post-or_throw not_found λ (t : Ticket) e. Post-ensure bad_request λ a. Post-then λ c.
      Post-bind λ (flipped : Db) f.
        let o = last_assignment is_active id db in
        Post-return (
          close_active-Frozen o db flipped
            (flip-Frozen id assigned _ db flipped (λ _. refl) refl f))
