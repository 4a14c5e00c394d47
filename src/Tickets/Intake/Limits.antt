-- ===== src/Tickets/Intake/Limits.antt =====
-- apps/api/src/tickets/tickets.service.ts and apps/api/src/promos/promos.service.ts: the limits of
-- the promo codes over all that touches them.
use wusuq_web.Base.{
  ℕ, ◌≡◌, refl, Bool, true, false, Option, none, some, arith, if◌then◌else◌, ok, Post, Post-result,
  Post-bind, Post-then, Post-ensure, Post-or_throw, Post-throw_if, Post-return, Post-of,
  bad_request, not_found, internal, Option-cases, inl, inr, not, ◌&&◌,
}
use wusuq_web.Shared.Fx.{PaymentMode}
use wusuq_web.Store.{User, Ticket, Db}
use wusuq_web.Promos.{CreatePromoDto, create, deactivate, redeem}
use wusuq_web.Promos.Limits.{
  LimitsKept, redeem-LimitsKept, create-LimitsKept, deactivate-LimitsKept, LimitsKept-later,
}
use wusuq_web.Tickets.{Actor}
use wusuq_web.Wallet.{apply_payment_to_ticket, settle_tickets_for_user}
use wusuq_web.Wallet.Keeps.{settle_tickets_for_user-keeps}
use wusuq_web.Tickets.Intake.{
  IntakeEnv, CreateTicketIntakeDto, PromoUse, find_request, insert_ticket, redeem_promo, Opened,
  open_intake, settle_opened, create_intake_ticket,
}

pay-LimitsKept :
    (t : Ticket) (n : ℕ) (mode : PaymentMode) (user_id : ℕ) (db : Db)
    → LimitsKept db
    → LimitsKept (apply_payment_to_ticket t n mode user_id db)
unfolding apply_payment_to_ticket
pay-LimitsKept t n mode user_id db k = LimitsKept-later db _ refl refl (omega arith) k

write-LimitsKept :
    (db db' : Db)
    → db'.promos ≡ db.promos
    → db'.redemptions ≡ db.redemptions
    → db'.next_id ≡ db.next_id
    → LimitsKept db
    → LimitsKept db'
write-LimitsKept db db' ps rs n k = LimitsKept-later db db' ps rs (omega (arith, n)) k

settle_opened-LimitsKept :
    (use_wallet : Bool) (consumer_id : ℕ) (o : Opened)
    → LimitsKept o.tables
    → LimitsKept (settle_opened use_wallet consumer_id o).1
unfolding settle_opened
settle_opened-LimitsKept use_wallet consumer_id o k = go (use_wallet && not o.replayed)
  where
    go :
        (b : Bool)
        → LimitsKept (if b then settle_tickets_for_user consumer_id o.tables else o.tables)
    go false = k
    go true =
        settle_tickets_for_user-keeps LimitsKept pay-LimitsKept
          (λ id n db k. write-LimitsKept db _ refl refl refl k) consumer_id o.tables k

redeem_promo-LimitsKept :
    (promo : PromoUse) (consumer_id ticket_id : ℕ) (db : Db)
    → LimitsKept db
    → Post LimitsKept (redeem_promo promo consumer_id ticket_id db)
unfolding redeem_promo
redeem_promo-LimitsKept promo consumer_id ticket_id db k = go promo.promo_code_id
  where
    go :
        (o : Option ℕ)
        → Post LimitsKept
            (redeem_promo (record promo { promo_code_id = o }) consumer_id ticket_id db)
    go none = Post-return k
    go (some id) =
        Post-of (redeem id consumer_id ticket_id promo.promo_discount db)
          λ db' h. redeem-LimitsKept id consumer_id ticket_id promo.promo_discount db db' k h

open_intake-LimitsKept :
    (t : Ticket) (promo : PromoUse) (db : Db)
    → LimitsKept db
    → Post (λ (o : Opened). LimitsKept o.tables) (open_intake t promo db)
unfolding open_intake
open_intake-LimitsKept t promo db k = elim (Option-cases (find_request t.intake_request_id db)) [
  | inr (old, e) ↦ rw (e, open_intake) (Post-ensure internal λ _. Post-return k)
  | inl e ↦
      rw (e, open_intake)
        (Post-bind λ (tables : Db) r. Post-return (
          Post-result {P = LimitsKept}
            (redeem_promo-LimitsKept promo t.consumer_id t.id (insert_ticket t db)
              (LimitsKept-later db (insert_ticket t db) refl refl (omega arith) k))
            r))
]

create_intake_ticket-LimitsKept :
    (env : IntakeEnv) (dto : CreateTicketIntakeDto) (actor : Actor) (db : Db)
    → LimitsKept db
    → Post (λ (s : ℕ × Db). LimitsKept s.1) (create_intake_ticket env dto actor db)
unfolding create_intake_ticket
create_intake_ticket-LimitsKept env dto actor db k = Post-bind λ (consumer_id : ℕ) c.
    Post-ensure bad_request λ _. Post-ensure bad_request λ _. Post-ensure not_found λ _.
      Post-or_throw not_found λ (user : User) u. Post-then λ _. Post-throw_if bad_request λ _.
        Post-bind λ (promo : PromoUse) p. Post-bind λ (opened : Opened) o. Post-return (
          settle_opened-LimitsKept dto.use_wallet_balance consumer_id opened (
            Post-result {P = λ (o : Opened). LimitsKept o.tables}
              (open_intake-LimitsKept _ promo db k) o))

-- A step that concerns the codes: an order, a new code, the end of a code.
pub data PromoStep (db db' : Db) : Type 0 where
  orders :
      (env : IntakeEnv) (dto : CreateTicketIntakeDto) (actor : Actor) (id : ℕ)
      → create_intake_ticket env dto actor db ≡ ok (id, db')
      → PromoStep db db'
  creates : (dto : CreatePromoDto) → create dto db ≡ ok db' → PromoStep db db'
  deactivates : (id : ℕ) → deactivate id db ≡ ok db' → PromoStep db db'

-- Orders, and the creation and deactivation of codes, never let a code be used more often than its
-- limits say, in all or by one user, when none was before.
pub PromoStep-LimitsKept : (db db' : Db) → PromoStep db db' → LimitsKept db → LimitsKept db'
PromoStep-LimitsKept db db' (orders env dto actor id h) k =
    Post-result {P = λ (s : ℕ × Db). LimitsKept s.1}
      (create_intake_ticket-LimitsKept env dto actor db k) h
PromoStep-LimitsKept db db' (creates dto h) k = create-LimitsKept dto db db' k h
PromoStep-LimitsKept db db' (deactivates id h) k = deactivate-LimitsKept id db db' k h
