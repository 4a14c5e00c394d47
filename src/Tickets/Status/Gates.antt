-- ===== src/Tickets/Status/Gates.antt =====
-- What a successful change of status has passed.
use wusuq_web.Base.{
  ℕ, Bool, true, false, not, ◌&&◌, ◌≡◌, ◌≤◌, refl, sym, ap, ◌∙◌, some, arith, Result, ok, err,
  ensure, throw_if, ◌>>=◌, ◌>>◌, conflict, not_found, bad_request, forbidden, Post-result,
  Post-or_throw, Post-then, Post-of, ensure-ok, subst, some-injective,
}
use wusuq_web.Shared.Money.{is_fully_paid}
use wusuq_web.Base.Table
use wusuq_web.Store.{
  ticket_key, Ticket, TicketStatus, delivered, Db, find_ticket, is_dispatched, ◌is◌,
}
use wusuq_web.Tickets.{Actor, is_allowed, transition, add_history}
use wusuq_web.Tickets.Flip.{flip_stale, moved, transition-moved}
use wusuq_web.Tickets.Status.{
  is_physical, ensure_deliverable, check_status_update, update_status, is_super_admin,
  override_status,
}

-- The due is paid, and a parcel has left.
pub record IsDeliverable (t : Ticket) : Type 0 where
  pub is_paid : t.total_amount ≤ t.amount_paid
  pub is_sent : (is_physical t && not (is_dispatched t.delivery_status)) ≡ false

pub ensure_deliverable-IsDeliverable : (t : Ticket) → ensure_deliverable t ≡ ok tt → IsDeliverable t
unfolding ensure_deliverable ◌>>=◌ ◌>>◌ ensure throw_if
ensure_deliverable-IsDeliverable t h =
    let (p, r) =
      ensure-ok (is_fully_paid t.amount_paid t.total_amount) forbidden
        (throw_if (is_physical t && not (is_dispatched t.delivery_status)) bad_request) tt h in
    record { is_paid = ground arith; is_sent = ground arith }

-- The ticket is deliverable, when that is asked.
abbrev pub IsDeliverableIf : Bool → Ticket → Type 0
IsDeliverableIf true t = IsDeliverable t
IsDeliverableIf false t = Unit

abbrev gate : Bool → Ticket → Result (Unit {0})
gate b t = elim b [ true ↦ ensure_deliverable t | false ↦ ok tt ]

gate_passes : (b : Bool) (t : Ticket) → gate b t ≡ ok tt → IsDeliverableIf b t
gate_passes true t h = ensure_deliverable-IsDeliverable t h
gate_passes false t h = tt

check_passes :
    (t : Ticket) (to : TicketStatus)
    → check_status_update t to ≡ ok tt
    → (is_allowed t.status to ≡ true) × IsDeliverableIf (to is delivered) t
unfolding check_status_update
check_passes t to h =
    let (a, r) = ensure-ok (is_allowed t.status to) bad_request (gate (to is delivered) t) tt h in
    (a, gate_passes (to is delivered) t r)

abbrev Gated : ℕ → TicketStatus → Db → Db → Type 0
Gated id to db db' =
    (t : Ticket) × (find_ticket id db ≡ some t)
    × (is_allowed t.status to ≡ true)
    × IsDeliverableIf (to is delivered) t
    × (db' ≡ moved id t.status to db)

-- A status changes only along an edge of the transition map, from what the ticket's status is, and
-- to DELIVERED only when the ticket is fully paid and its parcel, if it has one, has left. The call
-- writes the status and one row of history, and nothing else.
pub update_status-gated :
    (id : ℕ) (to : TicketStatus) (db db' : Db)
    → update_status id to db ≡ ok db'
    → (t : Ticket) × (find_ticket id db ≡ some t)
      × (is_allowed t.status to ≡ true)
      × IsDeliverableIf (to is delivered) t
      × (db' ≡ moved id t.status to db)
unfolding update_status
update_status-gated id to db db' h =
    Post-result {P = Gated id to db}
      (Post-or_throw not_found λ (t : Ticket) e. Post-then λ c.
        let (a, d) = check_passes t to c in
        Post-of _ λ done w. (t, e, a, d, transition-moved id t.status to db done w))
      h

-- No edge of the transition map is a loop.
allowed_moves : (from to : TicketStatus) → is_allowed from to ≡ true → (to is from) ≡ false
unfolding is_allowed
allowed_moves from to a = ground arith

-- Of two calls that read the same ticket, one wins: after the first has written, the write of the
-- second finds another status than it read, and is refused with a conflict.
update_status_race :
    (id : ℕ) (to to_too : TicketStatus) (db db' : Db) (t : Ticket)
    → find_ticket id db ≡ some t
    → update_status id to db ≡ ok db'
    → transition id t.status to_too db' ≡ err conflict
unfolding transition ◌>>=◌
update_status_race id to to_too db db' t e h =
    let (u, e', a, d, w) = update_status-gated id to db db' h in
    let change : Ticket → Ticket = λ t. record t { status = to } in
    let same : t ≡ u = some-injective t u (sym e ∙ e') in
    let now : find_ticket id db' ≡ some (change t) =
      ap (find_ticket id) w
      ∙ Table.find_by-update_by_self ticket_key change (λ _. refl) id db.tickets t e in
    let other : (to is t.status) ≡ false =
      allowed_moves t.status to
        (subst (λ (v : Ticket). is_allowed v.status to ≡ true) (sym same) a) in
    ap (λ r. r >>= λ d. ok (add_history id t.status to_too d))
      (flip_stale id t.status (λ t. record t { status = to_too }) db' (change t) now other)

abbrev Overridden : ℕ → TicketStatus → Actor → Db → Db → Type 0
Overridden id to actor db db' =
    (t : Ticket) × (find_ticket id db ≡ some t)
    × IsDeliverableIf (to is delivered && not (is_super_admin actor.role)) t
    × (db' ≡ moved id t.status to db)

-- An override may skip the transition map, yet unless a super-admin asks it reaches DELIVERED only
-- when the ticket is fully paid and its parcel, if it has one, has left. It writes the status and
-- one row of history, and nothing else.
override_status-gated :
    (id : ℕ) (to : TicketStatus) (actor : Actor) (db db' : Db)
    → override_status id to actor db ≡ ok db'
    → (t : Ticket) × (find_ticket id db ≡ some t)
      × IsDeliverableIf (to is delivered && not (is_super_admin actor.role)) t
      × (db' ≡ moved id t.status to db)
unfolding override_status
override_status-gated id to actor db db' h =
    Post-result {P = Overridden id to actor db}
      (Post-or_throw not_found λ (t : Ticket) e. Post-then λ c.
        let d = gate_passes (to is delivered && not (is_super_admin actor.role)) t c in
        Post-of _ λ done w. (t, e, d, transition-moved id t.status to db done w))
      h
