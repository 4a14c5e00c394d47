-- ===== src/Ledger/Orders.antt =====
-- The calls of apps/api/src/tickets/tickets.service.ts that create a ticket keep the keys and the
-- foreign keys.
use wusuq_web.Base.{
  ℕ, ◌≡◌, refl, Bool, true, false, ◌&&◌, not, Option, none, some, if◌then◌else◌, Option-cases, inl,
  inr, Post, Post-bind, Post-then, Post-or_throw, Post-throw_if, Post-ensure, Post-return,
  Post-result, not_found, bad_request, internal,
}
use wusuq_web.Store.{User, Ticket, Db}
use wusuq_web.Wallet.{settle_tickets_for_user}
use wusuq_web.Pricing.{ResolvePricingDto}
use wusuq_web.Tickets.{Actor}
use wusuq_web.Tickets.Intake.{
  IntakeEnv, CreateTicketIntakeDto, PromoUse, new_ticket, find_request, insert_ticket, redeem_promo,
  Opened, open_intake, settle_opened, create_intake_ticket,
}
use wusuq_web.Tickets.Regenerate.{PricingData, regenerate}
use wusuq_web.Tickets.Finalize.Held.{consumer_of}
use wusuq_web.Promos.{redeem}
use wusuq_web.Ledger.{HasUser, IsLedger, insert_ticket-IsLedger}
use wusuq_web.Ledger.Calls.{settle_tickets_for_user-IsLedger}

redeem_promo-IsLedger :
    (promo : PromoUse) (consumer_id ticket_id : ℕ) (db : Db)
    → IsLedger db
    → Post IsLedger (redeem_promo promo consumer_id ticket_id db)
unfolding redeem_promo redeem
redeem_promo-IsLedger promo consumer_id ticket_id db l = go promo.promo_code_id
  where
    go :
        (o : Option ℕ)
        → Post IsLedger (redeem_promo (record promo { promo_code_id = o }) consumer_id ticket_id db)
    go none = Post-return l
    go (some id) = Post-then λ _. Post-return (record {
      sound = record {
        well_formed = record {
          users = l.sound.well_formed.users;
          tickets = l.sound.well_formed.tickets;
        };
        consumers = l.sound.consumers;
      };
      below = l.below;
      pending = l.pending;
      payments = l.payments;
    })

open_intake-IsLedger :
    (t : Ticket) (promo : PromoUse) (db : Db)
    → t.id ≡ db.next_id
    → HasUser t.consumer_id db
    → IsLedger db
    → Post (λ (o : Opened). IsLedger o.tables) (open_intake t promo db)
unfolding open_intake
open_intake-IsLedger t promo db same u l =
    elim (Option-cases (find_request t.intake_request_id db)) [
      | inr (old, e) ↦ rw (e, open_intake) (Post-ensure internal λ _. Post-return l)
      | inl e ↦
          rw (e, open_intake)
            (Post-bind λ (tables : Db) r. Post-return (
              Post-result {P = IsLedger}
                (redeem_promo-IsLedger promo t.consumer_id t.id (insert_ticket t db)
                  (insert_ticket-IsLedger t db same u l))
                r))
    ]

settle_opened-IsLedger :
    (b : Bool) (consumer_id : ℕ) (o : Opened)
    → IsLedger o.tables
    → IsLedger (settle_opened b consumer_id o).1
unfolding settle_opened
settle_opened-IsLedger b consumer_id o l = go (b && not o.replayed)
  where
    go :
        (b : Bool) → IsLedger (if b then settle_tickets_for_user consumer_id o.tables else o.tables)
    go false = l
    go true = settle_tickets_for_user-IsLedger consumer_id o.tables l

pub create_intake_ticket-IsLedger :
    (env : IntakeEnv) (dto : CreateTicketIntakeDto) (actor : Actor) (db : Db)
    → IsLedger db
    → Post (λ (s : ℕ × Db). IsLedger s.1) (create_intake_ticket env dto actor db)
unfolding create_intake_ticket new_ticket
create_intake_ticket-IsLedger env dto actor db l = Post-bind λ (consumer_id : ℕ) c.
    Post-ensure bad_request λ _. Post-ensure bad_request λ _. Post-ensure not_found λ _.
      Post-or_throw not_found λ (user : User) u. Post-then λ _. Post-throw_if bad_request λ _.
        Post-bind λ (promo : PromoUse) p. Post-bind λ (opened : Opened) o. Post-return (
          settle_opened-IsLedger dto.use_wallet_balance consumer_id opened (
            Post-result {P = λ (o : Opened). IsLedger o.tables}
              (open_intake-IsLedger _ promo db refl (user, u) l) o))

pub regenerate-IsLedger :
    (id : ℕ) (env : IntakeEnv) (order : Option ResolvePricingDto) (db : Db)
    → IsLedger db
    → Post IsLedger (regenerate id env order db)
unfolding regenerate
regenerate-IsLedger id env order db l = Post-or_throw not_found λ (original : Ticket) e.
    Post-bind λ (prices : PricingData) p.
      Post-return (insert_ticket-IsLedger _ db refl (consumer_of id db original l.sound e) l)
