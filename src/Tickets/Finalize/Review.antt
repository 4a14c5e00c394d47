-- ===== src/Tickets/Finalize/Review.antt =====
-- The outcome of a review.
use wusuq_web.Base.{
  ℕ, ◌≡◌, ◌≤◌, Bool, true, false, not, ◌&&◌, refl, ap, ◌∙◌, some, arith, Bool-cases, inl, inr, ok,
  Post, Post-of, Post-bind, Post-return, Post-result,
}
use wusuq_web.Base.Table
use wusuq_web.Shared.Money.{is_fully_paid}
use wusuq_web.Store.{Ticket, Db, ticket_key, find_ticket, completed, delivered, waiting_approval}
use wusuq_web.Tickets.{transition, add_history}
use wusuq_web.Tickets.Flip.{transition-moved, flip-Flipped}
use wusuq_web.Tickets.Status.{is_physical}
use wusuq_web.Tickets.Finalize.{FinalizeRemainderDto, complete, auto_deliver, review}

-- The ticket is completed; or it is delivered, and then it is digital and fully paid.
pub data Reviewed (id : ℕ) (db : Db) : Type 0 where
  is_completed : (t : Ticket) → find_ticket id db ≡ some t → t.status ≡ completed → Reviewed id db
  is_delivered :
      (t : Ticket)
      → find_ticket id db ≡ some t
      → t.status ≡ delivered
      → t.total_amount ≤ t.amount_paid
      → is_physical t ≡ false
      → Reviewed id db

same_physical :
    (t : Ticket) → is_physical t ≡ false → is_physical (record t { status = delivered }) ≡ false
unfolding is_physical
same_physical t h = h

-- A digital ticket that is fully paid.
abbrev ready : Ticket → Bool
ready t = not (is_physical t) && is_fully_paid t.amount_paid t.total_amount

deliver-Reviewed :
    (id : ℕ) (db db' : Db) (t : Ticket)
    → find_ticket id db ≡ some t
    → ready t ≡ true
    → transition id completed delivered db ≡ ok db'
    → Reviewed id db'
deliver-Reviewed id db db' t e r h =
    let change : Ticket → Ticket = λ t. record t { status = delivered } in
    let now =
      ap (find_ticket id) (transition-moved id completed delivered db db' h)
      ∙ Table.find_by-update_by_self ticket_key change (λ _. refl) id db.tickets t e in
    is_delivered (change t) now refl (ground arith) (same_physical t (ground arith))

auto_deliver-Reviewed :
    (id : ℕ) (db : Db) (t : Ticket)
    → find_ticket id db ≡ some t
    → t.status ≡ completed
    → Post (Reviewed id) (auto_deliver id db)
unfolding auto_deliver
auto_deliver-Reviewed id db t e c = elim (Bool-cases (ready t)) [
  | inl r ↦ rw (e, auto_deliver, r) (Post-of _ λ db' h. deliver-Reviewed id db db' t e r h)
  | inr r ↦ rw (e, auto_deliver, r) (Post-return (is_completed t e c))
]

-- When a review succeeds, its ticket is completed; or it is delivered, and then it is a digital one
-- that is fully paid.
review-Reviewed :
    (id : ℕ) (dto : FinalizeRemainderDto) (ticket : Ticket) (db db' : Db)
    → review id dto ticket db ≡ ok db'
    → Reviewed id db'
unfolding review complete
review-Reviewed id dto ticket db db' h =
    Post-result {P = Reviewed id}
      (Post-bind λ (charged : Db) g. Post-bind λ (done : Db) f.
        let p = flip-Flipped id waiting_approval (complete ticket) charged done f in
        let now : find_ticket id done ≡ some (complete ticket p.ticket) =
          ap (find_ticket id) p.written
          ∙ Table.find_by-update_by_self ticket_key (complete ticket) (λ _. refl) id charged.tickets
              p.ticket p.found in
        auto_deliver-Reviewed id (add_history id waiting_approval completed done)
          (complete ticket p.ticket) now refl)
      h
