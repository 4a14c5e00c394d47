-- ===== src/Tickets/Assign/Active.antt =====
-- How many representatives hold a ticket: the active assignments.
use wusuq_web.Base.{
  ℕ, ◌≤◌, ◌≡◌, Bool, true, false, ◌&&◌, Option, none, some, List, [], ◌∷◌, ◌++◌, map, countb,
  countb-append, arith, refl, sym, ap, ◌∙◌, subst, if◌then◌else◌, ◌==◌, ok, Post, Post-bind,
  Post-then, find_last, find_last-append, Post-or_throw, Post-ensure, Post-throw_if, Post-return,
  Post-result, not_found, bad_request, conflict, forbidden, Bool-cases, inl, inr, eqb_refl,
  eq_of_eqb,
}
use wusuq_web.Base.Table
use wusuq_web.Store.{
  User, Assignment, AssignmentStatus, Db, assignment_key, accepted, rejected, Ticket, TicketStatus,
}
use wusuq_web.Tickets.{Actor, is_active, flip, last_assignment}
use wusuq_web.Tickets.Flip.{flip-Flipped}
use wusuq_web.Tickets.Assign.{
  AssignTicketDto, assign, accept_assignment, reject_assignment, new_assignment, supersede,
  close_active,
}

abbrev pub holds : ℕ → Assignment → Bool
holds ticket_id a = a.ticket_id == ticket_id && is_active a.status

abbrev pub active_count : ℕ → Db → ℕ
active_count ticket_id db = countb (holds ticket_id) db.assignments

supersede-same : (id : ℕ) (xs : List Assignment) → countb (holds id) (map (supersede id) xs) ≡ 0
supersede-same id [] = refl
supersede-same id (a ∷ xs) = ground (arith, supersede-same id xs)

supersede-other :
    (id other_id : ℕ) (xs : List Assignment)
    → (id == other_id) ≡ false
    → countb (holds other_id) (map (supersede id) xs) ≡ countb (holds other_id) xs
supersede-other id other_id [] n = refl
supersede-other id other_id (a ∷ xs) n = ground (arith, supersede-other id other_id xs n)

update_le :
    (ticket_id id : ℕ) (s : AssignmentStatus) (xs : List Assignment)
    → is_active s ≡ false
    → countb
        (holds ticket_id)
        (Table.update_by assignment_key id (λ (a : Assignment). record a { status = s }) xs)
      ≤ countb (holds ticket_id) xs
update_le ticket_id id s [] n = omega arith
update_le ticket_id id s (a ∷ xs) n = ground (arith, update_le ticket_id id s xs n)

flip_assignments :
    (id : ℕ) (from : TicketStatus) (change : Ticket → Ticket) (db db' : Db)
    → flip id from change db ≡ ok db'
    → db'.assignments ≡ db.assignments
flip_assignments id from change db db' h =
    ap (λ (d : Db). d.assignments) (flip-Flipped id from change db db' h).written

-- The assignments after a successful assignment.
abbrev pub Replaced : ℕ → ℕ → Db → Db → Type 0
Replaced id representative_id db db' =
    (n : ℕ) × (db'.assignments
      ≡ map (supersede id) db.assignments ++ (new_assignment n id representative_id ∷ []))

pub assign-Replaced :
    (id : ℕ) (dto : AssignTicketDto) (db : Db)
    → Post (Replaced id dto.representative_id db) (assign id dto db)
unfolding assign
assign-Replaced id dto db = Post-or_throw not_found λ (t : Ticket) e. Post-bind λ (rep : User) r.
    Post-ensure bad_request λ a. Post-ensure conflict λ c. Post-bind λ (flipped : Db) f.
      let n = flipped.next_id in
      Post-return (
        n,
        ap (λ rows. map (supersede id) rows ++ (new_assignment n id dto.representative_id ∷ []))
            (flip_assignments id t.status _ db flipped f),
      )

-- What accepting or refusing does to the assignments.
abbrev Closed : Db → Db → Type 0
Closed db db' = (ticket_id : ℕ) → active_count ticket_id db' ≤ active_count ticket_id db

accept_assignment-Closed :
    (id : ℕ) (actor : Actor) (db : Db) → Post (Closed db) (accept_assignment id actor db)
unfolding accept_assignment
accept_assignment-Closed id actor db =
    let accept : Assignment → Assignment = λ a. record a { status = accepted } in
    Post-or_throw not_found λ (t : Ticket) e. Post-ensure bad_request λ a.
      Post-or_throw bad_request λ (current : Assignment) c. Post-ensure forbidden λ o.
        Post-bind λ (flipped : Db) f. Post-return λ ticket_id.
          subst
            (λ rows.
              countb (holds ticket_id) (Table.update_by assignment_key current.id accept rows)
              ≤ active_count ticket_id db)
            (sym (flip_assignments id _ _ db flipped f))
            (update_le ticket_id current.id accepted db.assignments refl)

close_active_le :
    (ticket_id : ℕ) (o : Option Assignment) (db : Db)
    → active_count ticket_id (close_active o rejected db) ≤ active_count ticket_id db
close_active_le ticket_id none db = omega arith
close_active_le ticket_id (some a) db = update_le ticket_id a.id rejected db.assignments refl

reject_assignment-Closed :
    (id n : ℕ) (actor : Actor) (db : Db) → Post (Closed db) (reject_assignment id n actor db)
unfolding reject_assignment
reject_assignment-Closed id n actor db = Post-throw_if bad_request λ l.
    Post-or_throw not_found λ (t : Ticket) e. Post-ensure bad_request λ a. Post-then λ c.
      Post-bind λ (flipped : Db) f.
        let o = last_assignment is_active id db in
        let closed : Closed db (close_active o rejected flipped) = λ ticket_id. omega (
          arith,
          close_active_le ticket_id o flipped,
          ap (λ rows. countb (holds ticket_id) rows) (flip_assignments id _ _ db flipped f),
        ) in
        Post-return closed

-- A call that changes who holds a ticket.
pub data AssignmentStep (db db' : Db) : Type 0 where
  by_assign : (id : ℕ) (dto : AssignTicketDto) → assign id dto db ≡ ok db' → AssignmentStep db db'
  by_accept :
      (id : ℕ) (actor : Actor) → accept_assignment id actor db ≡ ok db' → AssignmentStep db db'
  by_reject :
      (id reason_length : ℕ) (actor : Actor)
      → reject_assignment id reason_length actor db ≡ ok db'
      → AssignmentStep db db'

-- No ticket has two active assignments.
abbrev pub OneActive : Db → Type 0
OneActive db = (ticket_id : ℕ) → active_count ticket_id db ≤ 1

Replaced-count :
    (id representative_id ticket_id : ℕ) (db db' : Db)
    → Replaced id representative_id db db'
    → active_count ticket_id db ≤ 1
    → active_count ticket_id db' ≤ 1
Replaced-count id representative_id ticket_id db db' (n, e) h =
    let row = new_assignment n id representative_id in
    let split = countb-append (holds ticket_id) (map (supersede id) db.assignments) (row ∷ []) in
    let there = ap (λ rows. countb (holds ticket_id) rows) e in
    elim (Bool-cases (id == ticket_id)) [
      | inl y ↦
          let same = eq_of_eqb id ticket_id y in
          ground (
            arith,
            split,
            there,
            subst (λ i. countb (holds i) (map (supersede id) db.assignments) ≡ 0) same
                (supersede-same id db.assignments),
          )
      | inr y ↦ ground (arith, split, there, supersede-other id ticket_id db.assignments y)
    ]

-- Assigning, accepting and refusing keep it so that no ticket has two active assignments.
pub AssignmentStep-OneActive : (db db' : Db) → AssignmentStep db db' → OneActive db → OneActive db'
AssignmentStep-OneActive db db' (by_assign id dto e) one ticket_id =
    Replaced-count id dto.representative_id ticket_id db db'
      (Post-result (assign-Replaced id dto db) e) (one ticket_id)
AssignmentStep-OneActive db db' (by_accept id actor e) one ticket_id =
    omega (arith, Post-result (accept_assignment-Closed id actor db) e ticket_id, one ticket_id)
AssignmentStep-OneActive db db' (by_reject id n actor e) one ticket_id =
    omega (arith, Post-result (reject_assignment-Closed id n actor db) e ticket_id, one ticket_id)

-- After an assignment the ticket has exactly one active assignment, and it is the new
-- representative's, also when another one held the ticket before.
pub assign-active :
    (id : ℕ) (dto : AssignTicketDto) (db db' : Db)
    → assign id dto db ≡ ok db'
    → (active_count id db' ≡ 1)
      × ((n : ℕ) × (last_assignment is_active id db'
            ≡ some (new_assignment n id dto.representative_id)))
assign-active id dto db db' h =
    let (n, e) = Post-result (assign-Replaced id dto db) h in
    let row = new_assignment n id dto.representative_id in
    let split = countb-append (holds id) (map (supersede id) db.assignments) (row ∷ []) in
    let there = ap (λ rows. countb (holds id) rows) e in
    let p : Assignment → Bool = λ a. if a.ticket_id == id then is_active a.status else false in
    let fresh : (id == id) ≡ true = eqb_refl id in
    (
      ground (arith, split, there, supersede-same id db.assignments, fresh),
      (
        n,
        ap (find_last p) e
            ∙ find_last-append p (map (supersede id) db.assignments) row (rw fresh refl),
      ),
    )
