-- ===== src/Tickets/Finalize/Settled.antt =====
-- The ticket after a finalization.
use wusuq_web.Base.{
  ℕ, ◌≡◌, true, false, refl, ap, ◌∙◌, some, arith, ltb, min, Bool-cases, inl, inr, ok, err,
  or_throw, throw_if, ◌>>=◌, ◌>>◌, Post-or_throw, Post-throw_if, Post-ensure, Post-return,
  Post-result, not_found, conflict, bad_request,
}
use wusuq_web.Base.Table
use wusuq_web.Store.{Ticket, Db, ticket_key, find_ticket, update_ticket}
use wusuq_web.Tickets.Assign.{total_of}
use wusuq_web.Tickets.Finalize.{
  FinalizeRemainderDto, credit_surplus, finalized, finalize_remainder_core,
}

-- The row before and the row after.
pub record Final (id : ℕ) (db db' : Db) : Type 0 where
  pub before : Ticket
  pub after : Ticket
  pub found : find_ticket id db ≡ some before
  pub written : find_ticket id db' ≡ some after
  pub was_open : before.remainder_finalized ≡ false
  pub closed : after.remainder_finalized ≡ true
  pub total : after.total_amount ≡ (total_of after).total_amount
  pub paid : after.amount_paid ≡ min before.amount_paid after.total_amount
  pub clerk : after.clerk ≡ before.clerk
  pub status : after.status ≡ before.status

pub credit_surplus-tickets :
    (t : Ticket) (n : ℕ) (db : Db) → (credit_surplus t n db).tickets ≡ db.tickets
unfolding credit_surplus
credit_surplus-tickets t n db = elim (Bool-cases (ltb 0 n)) [
  | inl x ↦ rw x refl
  | inr x ↦ rw x refl
]

pub finalized_row :
    (id n : ℕ) (dto : FinalizeRemainderDto) (db : Db) (t : Ticket)
    → find_ticket id db ≡ some t
    → find_ticket id (update_ticket id (finalized dto t) (credit_surplus t n db))
      ≡ some (finalized dto t t)
unfolding finalized
finalized_row id n dto db t e =
    Table.find_by-update_by_self ticket_key (finalized dto t) (λ _. refl) id
      (credit_surplus t n db).tickets t
      (ap (Table.find_by ticket_key id) (credit_surplus-tickets t n db) ∙ e)

finalized_paid :
    (dto : FinalizeRemainderDto) (t : Ticket)
    → (finalized dto t t).amount_paid ≡ min t.amount_paid (finalized dto t t).total_amount
unfolding finalized
finalized_paid dto t = ground arith

-- A finalization happens to a ticket that had none. Afterwards the total is the one that the
-- ticket's own columns give, of what was paid the part up to the total stays on the ticket, and what
-- the representative submitted and the status are as they were.
pub finalize_remainder_core-Final :
    (id : ℕ) (dto : FinalizeRemainderDto) (db db' : Db)
    → finalize_remainder_core id dto db ≡ ok db'
    → Final id db db'
unfolding finalize_remainder_core finalized total_of
finalize_remainder_core-Final id dto db db' h =
    Post-result {P = Final id db}
      (Post-or_throw not_found λ (t : Ticket) e. Post-throw_if conflict λ x.
        Post-ensure bad_request λ c. Post-return (record {
          before = t;
          after = finalized dto t t;
          found = e;
          written = finalized_row id _ dto db t e;
          was_open = x;
          closed = refl;
          total = refl;
          paid = finalized_paid dto t;
          clerk = refl;
          status = refl;
        }))
      h

-- The charges of a ticket are finalized at most once: a second call is refused with a conflict,
-- whatever charges it brings.
finalize_remainder_core_once :
    (id : ℕ) (dto dto_too : FinalizeRemainderDto) (db db' : Db)
    → finalize_remainder_core id dto db ≡ ok db'
    → finalize_remainder_core id dto_too db' ≡ err conflict
unfolding finalize_remainder_core ◌>>=◌ ◌>>◌ or_throw throw_if
finalize_remainder_core_once id dto dto_too db db' h =
    let f = finalize_remainder_core-Final id dto db db' h in
    rw (f.written, finalize_remainder_core, f.closed) refl
