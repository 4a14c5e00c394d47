-- ===== src/Tickets/Intake/Replay.antt =====
-- apps/api/src/tickets/tickets.service.ts, `createIntakeTicket`: a request that is sent again.
use wusuq_web.Base.{
  ℕ, ◌≡◌, refl, sym, ap, ◌∙◌, subst, Bool, true, false, none, some, some-injective, List, [], ◌∷◌,
  ◌++◌, arith, if◌then◌else◌, find, ◌==◌, eqb_refl, Bool-cases, inl, inr, ok, Post, Post-result,
  Post-bind, Post-then, Post-ensure, Post-or_throw, Post-throw_if, Post-return, bad_request,
  not_found, internal, ensure-ok, ok-injective,
}
use wusuq_web.Base.Table
use wusuq_web.Shared.Fx.{PaymentMode}
use wusuq_web.Store.{User, Ticket, Db, ticket_key, IsWellFormed}
use wusuq_web.Tickets.{Actor}
use wusuq_web.Wallet.{credit_ticket, apply_payment_to_ticket, settle_tickets_for_user}
use wusuq_web.Wallet.Keeps.{settle_tickets_for_user-keeps}
use wusuq_web.Tickets.Intake.{
  IntakeEnv, CreateTicketIntakeDto, PromoUse, key_is, has_request, find_request, Opened,
  open_intake, settle_opened, new_ticket, create_intake_ticket,
}
use wusuq_web.Tickets.Intake.Ordered.{
  TicketsBelow, Outcome, create_intake_ticket-Outcome, settle_replayed,
}

-- A request that has its ticket: whatever the rest says, an accepted one answers that ticket.
answered_again :
    (env : IntakeEnv) (dto : CreateTicketIntakeDto) (actor : Actor) (db : Db) (old : Ticket)
    → find_request dto.request_id db ≡ some old
    → Post (λ (s : ℕ × Db). s ≡ (old.id, db)) (create_intake_ticket env dto actor db)
unfolding create_intake_ticket open_intake new_ticket
answered_again env dto actor db old e = Post-bind λ (consumer_id : ℕ) c.
    Post-ensure bad_request λ _. Post-ensure bad_request λ _. Post-ensure not_found λ _.
      Post-or_throw not_found λ (user : User) u. Post-then λ _. Post-throw_if bad_request λ _.
        Post-bind λ (promo : PromoUse) p.
          rw (e, open_intake)
            (Post-bind λ (o : Opened) x.
              let (_, answer) = ensure-ok _ internal _ o x in
              Post-return (
                subst
                  (λ (o : Opened).
                    settle_opened dto.use_wallet_balance consumer_id o ≡ (old.id, db))
                  (ok-injective _ _ answer)
                  (settle_replayed dto.use_wallet_balance consumer_id old.id db)))

-- The ticket of a request, by its key, and its owner.
abbrev pub RequestHas : ℕ → ℕ → ℕ → Db → Type 0
RequestHas key id own db =
    (t : Ticket) × (find_request (some key) db ≡ some t) × (t.id ≡ id) × (t.consumer_id ≡ own)

find-update_by :
    (key id : ℕ) (f : Ticket → Ticket) (ts : List Ticket) (t : Ticket)
    → ((t : Ticket) → has_request key (f t) ≡ has_request key t)
    → ((t : Ticket) → (f t).id ≡ t.id)
    → ((t : Ticket) → (f t).consumer_id ≡ t.consumer_id)
    → find (has_request key) ts ≡ some t
    → (u : Ticket) × (find (has_request key) (Table.update_by ticket_key id f ts) ≡ some u)
      × (u.id ≡ t.id)
      × (u.consumer_id ≡ t.consumer_id)
find-update_by key id f [] t same same_id same_own h = absurd (ground (arith, h))
find-update_by key id f (x ∷ ts) t same same_id same_own h = elim (Bool-cases (has_request key x)) [
  | inl y ↦
      let first = some-injective _ _ (rw y at h) in
      elim (Bool-cases (x.id == id)) [
        | inl z ↦ rw z (
          f x,
          rw (same x, y) refl,
          same_id x ∙ ap (λ (t : Ticket). t.id) first,
          same_own x ∙ ap (λ (t : Ticket). t.consumer_id) first,
        )
        | inr z ↦ rw z (
          x,
          rw y refl,
          ap (λ (t : Ticket). t.id) first,
          ap (λ (t : Ticket). t.consumer_id) first,
        )
      ]
  | inr n ↦
      let later = find-update_by key id f ts t same same_id same_own (rw n at h) in
      elim (Bool-cases (x.id == id)) [ inl z ↦ rw (z, same x, n) later | inr z ↦ rw (z, n) later ]
]

-- A payment of a ticket keeps the ticket of a request.
pay-RequestHas :
    (key id own : ℕ) (t : Ticket) (n : ℕ) (mode : PaymentMode) (user_id : ℕ) (db : Db)
    → RequestHas key id own db
    → RequestHas key id own (apply_payment_to_ticket t n mode user_id db)
unfolding apply_payment_to_ticket
pay-RequestHas key id own t n mode user_id db (old, e, same, mine) =
    let (u, f, kept, owned) =
      find-update_by key t.id (credit_ticket t n) db.tickets old (λ _. refl) (λ _. refl) (λ _. refl)
        e in
    (u, f, kept ∙ same, owned ∙ mine)

find-append :
    (key : ℕ) (t : Ticket) (ts : List Ticket)
    → find (has_request key) ts ≡ none
    → has_request key t ≡ true
    → find (has_request key) (ts ++ (t ∷ [])) ≡ some t
find-append key t [] h y = rw y refl
find-append key t (x ∷ ts) h y = ground (arith, find-append key t ts, h, y)

settled-RequestHas :
    (use_wallet : Bool) (consumer_id key id own : ℕ) (db : Db)
    → RequestHas key id own db
    → RequestHas key id own (if use_wallet then settle_tickets_for_user consumer_id db else db)
settled-RequestHas false consumer_id key id own db h = h
settled-RequestHas true consumer_id key id own db h =
    settle_tickets_for_user-keeps (RequestHas key id own) (pay-RequestHas key id own) (λ _ _ _ p. p)
      consumer_id db h

pub answered :
    (dto : CreateTicketIntakeDto) (key id : ℕ) (db db' : Db)
    → dto.request_id ≡ some key
    → Outcome dto dto.consumer_id db (id, db')
    → RequestHas key id dto.consumer_id db'
answered dto key id db db' k (inl r) =
    subst (RequestHas key id dto.consumer_id) (sym r.same)
      (r.ticket, ap (λ o. find_request o db) (sym k) ∙ r.found, sym r.same_id, r.own)
answered dto key id db db' k (inr o) =
    let mine : o.ticket.intake_request_id ≡ some key = o.request ∙ k in
    let before : find (has_request key) db.tickets ≡ none =
      ap (λ o. find_request o db) (sym k) ∙ o.new in
    let here : has_request key o.ticket ≡ true =
      subst (λ r. key_is key r ≡ true) (sym mine) (eqb_refl key) in
    subst (RequestHas key id dto.consumer_id) (sym o.settled) (
      settled-RequestHas dto.use_wallet_balance dto.consumer_id key id dto.consumer_id o.tables (
        o.ticket,
        ap (find (has_request key)) o.rows.tickets
            ∙ find-append key o.ticket db.tickets before here,
        o.same_id,
        o.own,
      ))

-- In well-formed tables whose next key is above those of the tickets: an order that carries a key of
-- its request was accepted. When the same or another order with that key is sent by the same caller
-- to the tables that it left, whatever the prices and settings are by then, and is accepted as well,
-- it is answered by the ticket of the first, and nothing changes: no second ticket is created and no
-- credit is spent.
pub create_intake_ticket_replay :
    (env later : IntakeEnv) (dto again : CreateTicketIntakeDto) (actor : Actor) (key id : ℕ)
    (db db' : Db) (s : ℕ × Db)
    → IsWellFormed db
    → TicketsBelow db
    → dto.request_id ≡ some key
    → again.request_id ≡ some key
    → create_intake_ticket env dto actor db ≡ ok (id, db')
    → create_intake_ticket later again actor db' ≡ ok s
    → s ≡ (id, db')
create_intake_ticket_replay env later dto again actor key id db db' s w below k k' h h' =
    let (t, e, same, _) : RequestHas key id dto.consumer_id db' =
      answered dto key id db db' k
        (create_intake_ticket-Outcome env dto actor db (id, db') w below h) in
    Post-result {P = λ (s : ℕ × Db). s ≡ (id, db')}
      (subst
        (λ (n : ℕ).
          Post (λ (s : ℕ × Db). s ≡ (n, db')) (create_intake_ticket later again actor db'))
        same (answered_again later again actor db' t (ap (λ o. find_request o db') k' ∙ e)))
      h'
