-- ===== src/Tickets/Flip.antt =====
-- apps/api/src/tickets/tickets.service.ts: the conditional writes of a status.
use wusuq_web.Base.{
  ℕ, ◌≡◌, refl, sym, ap, ◌∙◌, some, false, ok, err, or_throw, ensure, ◌>>=◌, ◌>>◌, conflict,
  bind-ok, or_throw-ok, ensure-ok, ok-injective,
}
use wusuq_web.Store.{Ticket, TicketStatus, Db, find_ticket, update_ticket, ◌is◌, eq_of_is}
use wusuq_web.Tickets.{flip, transition, add_history}

-- The write found the status that it expects, and changed the row.
pub record Flipped (id : ℕ) (from : TicketStatus) (change : Ticket → Ticket) (db db' : Db)
    : Type 0 where
  pub ticket : Ticket
  pub found : find_ticket id db ≡ some ticket
  pub was : ticket.status ≡ from
  pub written : db' ≡ update_ticket id change db

pub flip-Flipped :
    (id : ℕ) (from : TicketStatus) (change : Ticket → Ticket) (db db' : Db)
    → flip id from change db ≡ ok db'
    → Flipped id from change db db'
unfolding flip
flip-Flipped id from change db db' h =
    let (t, e, r) =
      or_throw-ok (find_ticket id db) conflict
        (λ t. ensure (t.status is from) conflict >> ok (update_ticket id change db)) db' h in
    let (c, o) = ensure-ok (t.status is from) conflict (ok (update_ticket id change db)) db' r in
    record {
      ticket = t;
      found = e;
      was = eq_of_is t.status from c;
      written = sym (ok-injective _ _ o);
    }

-- The tables after a change of the status alone.
abbrev pub moved : ℕ → TicketStatus → TicketStatus → Db → Db
moved id from to db = add_history id from to (update_ticket id (λ t. record t { status = to }) db)

pub transition-moved :
    (id : ℕ) (from to : TicketStatus) (db db' : Db)
    → transition id from to db ≡ ok db'
    → db' ≡ moved id from to db
unfolding transition
transition-moved id from to db db' h =
    let change : Ticket → Ticket = λ t. record t { status = to } in
    let (d, f, g) = bind-ok (flip id from change db) (λ d. ok (add_history id from to d)) db' h in
    let p = flip-Flipped id from change db d f in
    sym (ok-injective _ _ g) ∙ ap (add_history id from to) p.written

-- A write that expects a status that the ticket no longer has is refused.
pub flip_stale :
    (id : ℕ) (from : TicketStatus) (change : Ticket → Ticket) (db : Db) (t : Ticket)
    → find_ticket id db ≡ some t
    → (t.status is from) ≡ false
    → flip id from change db ≡ err conflict
unfolding flip ◌>>=◌ ◌>>◌ or_throw ensure
flip_stale id from change db t e n = rw (e, n, flip) refl
