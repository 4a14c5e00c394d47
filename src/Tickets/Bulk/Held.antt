-- ===== src/Tickets/Bulk/Held.antt =====
-- What `assignBulk` leaves of the assignments.
use wusuq_web.Base.{
  ℕ, ◌+◌, ◌≡◌, Bool, false, some, List, [], ◌∷◌, ◌++◌, map, All, countb, arith, refl, ap, ◌∙◌,
  subst, if◌then◌else◌, ◌==◌, ok, find_last, Bool-cases, inl, inr, eq_of_eqb, Error, Result-cases,
  or_throw-ok, not_found, Post-result,
}
use wusuq_web.Store.{Assignment, Db, find_ticket}
use wusuq_web.Tickets.{is_active, last_assignment}
use wusuq_web.Tickets.Assign.{AssignTicketDto, assign, new_assignment, supersede}
use wusuq_web.Tickets.Assign.Active.{
  assign-Replaced, assign-active, OneActive, by_assign, AssignmentStep-OneActive,
}
use wusuq_web.Tickets.Bulk.{BulkResult, Skipped, assign_one, for_each, assign_bulk}

-- The last active assignment of a ticket is that of the representative.
abbrev pub HeldBy : ℕ → Db → ℕ → Type 0
HeldBy representative_id db id =
    (n : ℕ) × (last_assignment is_active id db ≡ some (new_assignment n id representative_id))

other_kept :
    (id other_id n representative_id : ℕ) (xs : List Assignment)
    → (id == other_id) ≡ false
    → let p : Assignment → Bool =
        λ a. if a.ticket_id == other_id then is_active a.status else false in
      find_last p (map (supersede id) xs ++ (new_assignment n id representative_id ∷ []))
      ≡ find_last p xs
other_kept id other_id n representative_id [] h = ground (arith, h)
other_kept id other_id n representative_id (a ∷ xs) h =
    ground (arith, h, other_kept id other_id n representative_id xs h)

assign-HeldBy :
    (id other_id : ℕ) (dto : AssignTicketDto) (db db' : Db)
    → assign id dto db ≡ ok db'
    → HeldBy dto.representative_id db other_id
    → HeldBy dto.representative_id db' other_id
assign-HeldBy id other_id dto db db' h (m, held) = elim (Bool-cases (id == other_id)) [
  | inl y ↦
      subst (HeldBy dto.representative_id db') (eq_of_eqb id other_id y)
        (assign-active id dto db db' h).1
  | inr y ↦
      let (n, e) = Post-result (assign-Replaced id dto db) h in
      let p : Assignment → Bool =
        λ a. if a.ticket_id == other_id then is_active a.status else false in
      (
        m,
        ap (find_last p) e ∙ other_kept id other_id n dto.representative_id db.assignments y ∙ held,
      )
]

-- How often a report names a ticket.
abbrev pub reports : ℕ → BulkResult → ℕ
reports id r =
    countb (λ i. i == id) r.succeeded + countb (λ (s : Skipped). s.ticket_id == id) r.failed

-- What a run of the loop keeps, and what it brings about for the tickets that it reports.
record Kept (representative_id : ℕ) (ids : List ℕ) (db : Db) (r : BulkResult) : Type 0 where
  reported : (id : ℕ) → reports id r ≡ countb (λ i. i == id) ids
  one : OneActive db → OneActive r.db
  old : (id : ℕ) → HeldBy representative_id db id → HeldBy representative_id r.db id
  new : All (HeldBy representative_id r.db) r.succeeded

assign_one-Assigned :
    (representative_id : ℕ) (force : Bool) (id : ℕ) (db db' : Db)
    → assign_one representative_id force id db ≡ ok db'
    → (dto : AssignTicketDto) × (dto.representative_id ≡ representative_id)
      × (assign id dto db ≡ ok db')
unfolding assign_one
assign_one-Assigned representative_id force id db db' h =
    let (t, _, e) = or_throw-ok (find_ticket id db) not_found _ db' h in
    (
      record {
        representative_id = representative_id;
        clerk_cost = t.default_clerk_cost;
        force_assign = force;
      },
      refl,
      e,
    )

-- One more round that succeeds.
Kept-assigned :
    (id : ℕ) (dto : AssignTicketDto) (ids : List ℕ) (db d : Db) (r : BulkResult)
    → assign id dto db ≡ ok d
    → Kept dto.representative_id ids d r
    → Kept dto.representative_id (id ∷ ids) db (record r { succeeded = id ∷ r.succeeded })
Kept-assigned id dto ids db d r e k = record {
  reported = λ other_id. omega (arith, k.reported other_id);
  one = λ h. k.one (AssignmentStep-OneActive db d (by_assign id dto e) h);
  old = λ other_id h. k.old other_id (assign-HeldBy id other_id dto db d e h);
  new = (k.old id (assign-active id dto db d e).1, k.new);
}

Kept-skipped :
    (representative_id id : ℕ) (reason : Error) (ids : List ℕ) (db : Db) (r : BulkResult)
    → Kept representative_id ids db r
    → Kept representative_id
        (id ∷ ids)
        db
        (record r { failed = record { ticket_id = id; reason = reason } ∷ r.failed })
Kept-skipped representative_id id reason ids db r k = record {
  reported = λ other_id. omega (arith, k.reported other_id);
  one = k.one;
  old = k.old;
  new = k.new;
}

for_each-Kept :
    (representative_id : ℕ) (force : Bool) (ids : List ℕ) (db : Db)
    → Kept representative_id ids db (for_each (assign_one representative_id force) ids db)
unfolding for_each
for_each-Kept r force [] db = record {
  reported = λ id. refl;
  one = λ h. h;
  old = λ id h. h;
  new = tt;
}
for_each-Kept r force (id ∷ ids) db = elim (Result-cases (assign_one r force id db)) [
  | inl (d, e) ↦
      let rest = for_each (assign_one r force) ids d in
      let (dto, same, assigned) = assign_one-Assigned r force id db d e in
      let k : Kept dto.representative_id ids d rest = rw same (for_each-Kept r force ids d) in
      rw (for_each, e)
        (subst (λ i. Kept i (id ∷ ids) db (record rest { succeeded = id ∷ rest.succeeded })) same
          (Kept-assigned id dto ids db d rest assigned k))
  | inr (reason, e) ↦
      rw (for_each, e)
        (Kept-skipped r id reason ids db (for_each (assign_one r force) ids db)
          (for_each-Kept r force ids db))
]

-- A bulk assignment names every ticket, as assigned or as skipped, just as often as it was sent, so
-- each of a list without repetitions once, and no other ticket. At its end
-- every ticket that it reports as assigned is actively held by the representative, whatever came
-- after it in the list, and no ticket has two active assignments if none had before.
pub assign_bulk-HeldBy :
    (ids : List ℕ) (representative_id : ℕ) (force : Bool) (db : Db)
    → let r = assign_bulk ids representative_id force db in
      ((id : ℕ) → reports id r ≡ countb (λ i. i == id) ids)
      × All (HeldBy representative_id r.db) r.succeeded
      × (OneActive db → OneActive r.db)
unfolding assign_bulk
assign_bulk-HeldBy ids representative_id force db =
    let k = for_each-Kept representative_id force ids db in (k.reported, k.new, k.one)
