-- ===== src/Tickets/Intake/Resent.antt =====
-- apps/api/src/tickets/tickets.service.ts, `createIntakeTicket`: a request without a promo code that
-- is sent again is accepted.
use wusuq_web.Base.{
  ℕ, ◌≡◌, refl, sym, ap, ◌∙◌, subst, Bool, true, false, ◌&&◌, some, [], ◌==◌, eqb_refl, arith,
  if◌then◌else◌, Bool-cases, inl, inr, ok, ◌>>=◌, ◌>>◌, ensure, Post, Post-result, Post-bind,
  Post-then, Post-ensure, Post-or_throw, Post-throw_if, Post-return, bad_request, not_found,
  eq_of_eqb, run-bind, run-then, run-or_throw, run-ensure, run-throw_if,
}
use wusuq_web.Base.Table
use wusuq_web.Base.Text.{given}
use wusuq_web.Shared.Flows.{Currency, is_flow_key}
use wusuq_web.Store.{User, Ticket, Db, user_key, find_user, update_user, IsWellFormed}
use wusuq_web.Tickets.{Actor}
use wusuq_web.Wallet.{apply_payment_to_ticket, settle_tickets_for_user}
use wusuq_web.Wallet.Keeps.{settle_tickets_for_user-keeps}
use wusuq_web.Tickets.Intake.{
  IntakeEnv, CreateTicketIntakeDto, PromoUse, Quote, quote_of, no_promo, promo_for, find_request,
  Opened, open_intake, new_ticket, answer_for, is_usd, has_code, check_priced, bind_consumer,
  create_intake_ticket,
}
use wusuq_web.Tickets.Intake.Ordered.{
  TicketsBelow, Outcome, create_intake_ticket-Outcome, settle_replayed, bind_consumer-own,
}
use wusuq_web.Tickets.Intake.Replay.{RequestHas, answered}

-- The users of the tables are there with their currencies.
KeepsCurrency : Db → Db → Type 0
KeepsCurrency db db' =
    (i : ℕ) (u : User)
    → find_user i db ≡ some u
    → (v : User) × (find_user i db' ≡ some v) × (v.currency ≡ u.currency)

write-KeepsCurrency :
    (db : Db) (id n : ℕ) (db' : Db)
    → KeepsCurrency db db'
    → KeepsCurrency db (update_user id (λ u. record u { wallet_balance = n }) db')
unfolding KeepsCurrency
write-KeepsCurrency db id n db' k i u e =
    let (v, f, c) = k i u e in
    let change : User → User = λ u. record u { wallet_balance = n } in
    elim (Bool-cases (i == id)) [
      | inl y ↦
          let same = eq_of_eqb i id y in
          (
            change v,
            subst (λ j. find_user j (update_user id change db') ≡ some (change v)) (sym same)
                (Table.find_by-update_by_self user_key change (λ _. refl) id db'.users v
                  (subst (λ j. find_user j db' ≡ some v) same f)),
            c,
          )
      | inr m ↦ (
        v,
        Table.find_by-update_by_ne user_key change (λ _. refl) i id db'.users (ground arith) ∙ f,
        c,
      )
    ]

settle-KeepsCurrency :
    (db : Db) (use_wallet : Bool) (consumer_id : ℕ) (db' : Db)
    → KeepsCurrency db db'
    → KeepsCurrency db (if use_wallet then settle_tickets_for_user consumer_id db' else db')
unfolding KeepsCurrency apply_payment_to_ticket
settle-KeepsCurrency db false consumer_id db' k = k
settle-KeepsCurrency db true consumer_id db' k =
    settle_tickets_for_user-keeps (KeepsCurrency db) (λ t n mode user_id d k. k)
      (write-KeepsCurrency db) consumer_id db' k

ordered-KeepsCurrency :
    (dto : CreateTicketIntakeDto) (id : ℕ) (db db' : Db)
    → Outcome dto dto.consumer_id db (id, db')
    → KeepsCurrency db db'
unfolding KeepsCurrency
ordered-KeepsCurrency dto id db db' (inl r) = λ i u e. (u, ap (find_user i) r.same ∙ e, refl)
ordered-KeepsCurrency dto id db db' (inr o) = subst (KeepsCurrency db) (sym o.settled) (
    settle-KeepsCurrency db dto.use_wallet_balance dto.consumer_id o.tables
      (λ i u e. (u, ap (Table.find_by user_key i) o.rows.users ∙ e, refl)))

-- Tables that answer the request: with its ticket, and its consumer in the currency as before.
AnswersIn : IntakeEnv → CreateTicketIntakeDto → Actor → ℕ → Db → Type 0
AnswersIn env dto actor key db =
    (id : ℕ) (db' : Db)
    → KeepsCurrency db db'
    → RequestHas key id dto.consumer_id db'
    → create_intake_ticket env dto actor db' ≡ ok (id, db')

answers_request :
    (key id : ℕ) (ticket : Ticket) (promo : PromoUse) (db : Db)
    → ticket.intake_request_id ≡ some key
    → RequestHas key id ticket.consumer_id db
    → open_intake ticket promo db ≡ ok (record { replayed = true; ticket_id = id; tables = db })
unfolding open_intake ◌>>=◌ ◌>>◌ ensure
answers_request key id ticket promo db k (t, e, same, own) =
    rw (ap (λ r. find_request r db) k ∙ e, open_intake, own, eqb_refl ticket.consumer_id, same) refl

carries :
    (env : IntakeEnv) (dto : CreateTicketIntakeDto) (consumer_id : ℕ) (currency : Currency)
    (quote : Quote) (db : Db) {key : ℕ}
    → dto.request_id ≡ some key
    → (new_ticket env dto consumer_id currency quote no_promo db.next_id).intake_request_id
      ≡ some key
unfolding new_ticket
carries env dto consumer_id currency quote db k = k

no_code :
    (env : IntakeEnv) (dto : CreateTicketIntakeDto) (consumer_id : ℕ) (currency : Currency)
    (quote : Quote) (db : Db)
    → given dto.promo_code ≡ []
    → promo_for env dto consumer_id currency quote db ≡ ok no_promo
unfolding promo_for
no_code env dto consumer_id currency quote db n = rw (n, promo_for) refl

accepted :
    (env : IntakeEnv) (dto : CreateTicketIntakeDto) (actor : Actor) (key id consumer_id : ℕ)
    (user : User) (db : Db)
    → dto.request_id ≡ some key
    → given dto.promo_code ≡ []
    → bind_consumer actor dto.consumer_id ≡ ok consumer_id
    → is_flow_key dto.flow ≡ true
    → dto.payload_valid ≡ true
    → env.service_exists dto.service_id ≡ true
    → find_user consumer_id db ≡ some user
    → check_priced (answer_for env dto user.currency) env.allow_unpriced_intake ≡ ok tt
    → (is_usd user.currency && has_code dto) ≡ false
    → RequestHas key id dto.consumer_id db
    → create_intake_ticket env dto actor db ≡ ok (id, db)
unfolding create_intake_ticket
accepted env dto actor key id consumer_id user db k n c flow payload service u priced code has =
    let own = bind_consumer-own actor dto.consumer_id consumer_id c in
    let quote = quote_of (answer_for env dto user.currency) in
    let t = new_ticket env dto consumer_id user.currency quote no_promo db.next_id in
    let answer =
      answers_request key id t no_promo db (carries env dto consumer_id user.currency quote db k)
        (subst (λ i. RequestHas key id i db) (sym own) has) in
    run-bind _ c (
      run-ensure bad_request flow (
        run-ensure bad_request payload (
          run-ensure not_found service (
            run-or_throw _ not_found u (
              run-then priced (
                run-throw_if bad_request code (
                  run-bind _ (no_code env dto consumer_id user.currency quote db n) (
                    run-bind _ answer
                      (ap ok (settle_replayed dto.use_wallet_balance consumer_id id db))))))))))

accepts_again :
    (env : IntakeEnv) (dto : CreateTicketIntakeDto) (actor : Actor) (key : ℕ) (db : Db)
    → dto.request_id ≡ some key
    → given dto.promo_code ≡ []
    → Post (λ (s : ℕ × Db). AnswersIn env dto actor key db) (create_intake_ticket env dto actor db)
unfolding create_intake_ticket AnswersIn KeepsCurrency
accepts_again env dto actor key db k n = Post-bind λ (consumer_id : ℕ) c.
    Post-ensure bad_request λ flow. Post-ensure bad_request λ payload.
      Post-ensure not_found λ service. Post-or_throw not_found λ (user : User) u.
        Post-then λ priced. Post-throw_if bad_request λ code. Post-bind λ (promo : PromoUse) p.
          Post-bind λ (o : Opened) x. Post-return λ id db' keeps has.
            let (v, f, same) = keeps consumer_id user u in
            let now =
              subst
                (λ k.
                  (check_priced (answer_for env dto k) env.allow_unpriced_intake ≡ ok tt)
                  × ((is_usd k && has_code dto) ≡ false))
                (sym same) (priced, code) in
            accepted env dto actor key id consumer_id v db' k n c flow payload service f now.0 now.1
              has

-- In well-formed tables whose next key is above those of the tickets: an order without a promo code
-- that carries a key of its request and is accepted, is accepted when the caller sends it again to the
-- tables that it left, and answered by the same ticket; and nothing changes.
pub create_intake_ticket_resent :
    (env : IntakeEnv) (dto : CreateTicketIntakeDto) (actor : Actor) (key id : ℕ) (db db' : Db)
    → IsWellFormed db
    → TicketsBelow db
    → dto.request_id ≡ some key
    → given dto.promo_code ≡ []
    → create_intake_ticket env dto actor db ≡ ok (id, db')
    → create_intake_ticket env dto actor db' ≡ ok (id, db')
unfolding AnswersIn
create_intake_ticket_resent env dto actor key id db db' w below k n h =
    let o = create_intake_ticket-Outcome env dto actor db (id, db') w below h in
    Post-result (accepts_again env dto actor key db k n) h id db'
      (ordered-KeepsCurrency dto id db db' o) (answered dto key id db db' k o)
