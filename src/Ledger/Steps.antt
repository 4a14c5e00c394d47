-- ===== src/Ledger/Steps.antt =====
-- The money over any sequence of the calls that concern it.
use wusuq_web.Base.{ℕ, ◌+◌, ◌≡◌, refl, sym, ap, ◌∙◌, subst, Bool, Option, arith, ok, Post-result}
use wusuq_web.Base.Int.{ℤ, pos_part, neg_part}
use wusuq_web.Store.{TicketStatus, Db}
use wusuq_web.Wallet.{
  TopupWalletDto, topup, verify_topup, reject_topup, pay_ticket_from_wallet, adjust_wallet,
  settle_tickets_for_user,
}
use wusuq_web.Wallet.Money.{held}
use wusuq_web.Wallet.Settle.{settle_tickets_for_user-held}
use wusuq_web.Wallet.Pay.{pay_ticket_from_wallet-Paid, adjust_wallet-held}
use wusuq_web.Pricing.{ResolvePricingDto}
use wusuq_web.Tickets.{Actor}
use wusuq_web.Tickets.Status.{update_status, override_status}
use wusuq_web.Tickets.Intake.{IntakeEnv, CreateTicketIntakeDto, create_intake_ticket}
use wusuq_web.Tickets.Intake.Ordered.{create_intake_ticket-Outcome}
use wusuq_web.Tickets.Regenerate.{regenerate}
use wusuq_web.Tickets.Regenerate.Clone.{regenerate-Regenerated}
use wusuq_web.Tickets.Finalize.{FinalizeRemainderDto, finalize_remainder, review_and_complete}
use wusuq_web.Tickets.Finalize.Reprice.{Resolved, RepriceTicketDto, reprice_ticket}
use wusuq_web.Tickets.Finalize.Held.{finalize_remainder-held, reprice_ticket-held}
use wusuq_web.Payments.{PaymentProvider, initiate, handle_webhook}
use wusuq_web.Finance.{ReconcilePaymentDto, reconcile_payment}
use wusuq_web.Finance.Reconcile.{reconcile_payment-Reconciled}
use wusuq_web.Ledger.{IsLedger}
use wusuq_web.Ledger.Calls.{
  topup-IsLedger, verify_topup-IsLedger, reject_topup-IsLedger, pay_ticket_from_wallet-IsLedger,
  adjust_wallet-IsLedger, settle_tickets_for_user-IsLedger, finalize_remainder-IsLedger,
  reprice_ticket-IsLedger, reconcile_payment-IsLedger,
}
use wusuq_web.Ledger.Gateway.{initiate-IsLedger, handle_webhook-IsLedger}
use wusuq_web.Ledger.Reviews.{
  update_status-Steady, override_status-Steady, review_and_complete-Steady,
}
use wusuq_web.Ledger.Orders.{create_intake_ticket-IsLedger, regenerate-IsLedger}
use wusuq_web.Ledger.Balance.{
  topped_up, collected, verified-held, topup-held, rejected-held, ordered-held, initiated-held,
  collected-held,
}

-- A call that concerns money, with what comes in from outside and what goes out.
pub data MoneyStep {Body : Type 0} (provider : PaymentProvider Body) (db db' : Db)
    : ℕ → ℕ → Type 0 where
  tops_up : (dto : TopupWalletDto) → topup dto db ≡ ok db' → MoneyStep provider db db' 0 0
  verifies :
      (id : ℕ) (reviewer : Option ℕ) (processed : Bool)
      → verify_topup id reviewer db ≡ ok (processed, db')
      → MoneyStep provider db db' (topped_up id db) 0
  rejects :
      (id : ℕ) (reviewer : Option ℕ) (processed : Bool)
      → reject_topup id reviewer db ≡ ok (processed, db')
      → MoneyStep provider db db' 0 0
  pays :
      (user_id ticket_id applied : ℕ)
      → pay_ticket_from_wallet user_id ticket_id db ≡ ok (applied, db')
      → MoneyStep provider db db' 0 0
  adjusts :
      (user_id : ℕ) (amount : ℤ)
      → adjust_wallet user_id amount db ≡ ok db'
      → MoneyStep provider db db' (pos_part amount) (neg_part amount)
  settles : (user_id : ℕ) → settle_tickets_for_user user_id db ≡ db' → MoneyStep provider db db' 0 0
  orders :
      (env : IntakeEnv) (dto : CreateTicketIntakeDto) (actor : Actor) (id : ℕ)
      → create_intake_ticket env dto actor db ≡ ok (id, db')
      → MoneyStep provider db db' 0 0
  regenerates :
      (id : ℕ) (env : IntakeEnv) (order : Option ResolvePricingDto)
      → regenerate id env order db ≡ ok db'
      → MoneyStep provider db db' 0 0
  finalizes :
      (id : ℕ) (dto : FinalizeRemainderDto)
      → finalize_remainder id dto db ≡ ok db'
      → MoneyStep provider db db' 0 0
  reprices :
      (id : ℕ) (resolved : Resolved) (rate : ℕ) (dto : RepriceTicketDto)
      → reprice_ticket id resolved rate dto db ≡ ok db'
      → MoneyStep provider db db' 0 0
  changes_status :
      (id : ℕ) (status : TicketStatus)
      → update_status id status db ≡ ok db'
      → MoneyStep provider db db' 0 0
  overrides :
      (id : ℕ) (status : TicketStatus) (actor : Actor)
      → override_status id status actor db ≡ ok db'
      → MoneyStep provider db db' 0 0
  reviews :
      (id : ℕ) (dto : FinalizeRemainderDto)
      → review_and_complete id dto db ≡ ok db'
      → MoneyStep provider db db' 0 0
  initiates :
      (ticket_id consumer_id : ℕ)
      → (initiate provider ticket_id consumer_id db).0 ≡ db'
      → MoneyStep provider db db' 0 0
  calls_back :
      (name : ℕ) (body : Body) (repeated : Bool)
      → handle_webhook provider name body db ≡ ok (repeated, db')
      → MoneyStep provider db db' (collected provider body db) 0
  reconciles :
      (id left : ℕ) (dto : ReconcilePaymentDto)
      → reconcile_payment id dto db ≡ ok (left, db')
      → MoneyStep provider db db' dto.amount 0

MoneyStep-IsLedger :
    {Body : Type 0} (provider : PaymentProvider Body) (db db' : Db) (n m : ℕ)
    → MoneyStep provider db db' n m
    → IsLedger db
    → IsLedger db'
MoneyStep-IsLedger provider db db' n m (tops_up dto h) l = Post-result (topup-IsLedger dto db l) h
MoneyStep-IsLedger provider db db' n m (verifies id reviewer processed h) l =
    Post-result {P = λ (s : Bool × Db). IsLedger s.1} (verify_topup-IsLedger id reviewer db l) h
MoneyStep-IsLedger provider db db' n m (rejects id reviewer processed h) l =
    Post-result {P = λ (s : Bool × Db). IsLedger s.1} (reject_topup-IsLedger id reviewer db l) h
MoneyStep-IsLedger provider db db' n m (pays user_id ticket_id applied h) l =
    Post-result {P = λ (s : ℕ × Db). IsLedger s.1}
      (pay_ticket_from_wallet-IsLedger user_id ticket_id db l) h
MoneyStep-IsLedger provider db db' n m (adjusts user_id amount h) l =
    Post-result (adjust_wallet-IsLedger user_id amount db l) h
MoneyStep-IsLedger provider db db' n m (settles user_id e) l =
    subst IsLedger e (settle_tickets_for_user-IsLedger user_id db l)
MoneyStep-IsLedger provider db db' n m (orders env dto actor id h) l =
    Post-result {P = λ (s : ℕ × Db). IsLedger s.1}
      (create_intake_ticket-IsLedger env dto actor db l) h
MoneyStep-IsLedger provider db db' n m (regenerates id env order h) l =
    Post-result (regenerate-IsLedger id env order db l) h
MoneyStep-IsLedger provider db db' n m (finalizes id dto h) l =
    Post-result (finalize_remainder-IsLedger id dto db l) h
MoneyStep-IsLedger provider db db' n m (reprices id resolved rate dto h) l =
    Post-result (reprice_ticket-IsLedger id resolved rate dto db l) h
MoneyStep-IsLedger provider db db' n m (changes_status id status h) l =
    (Post-result (update_status-Steady id status db l) h).0
MoneyStep-IsLedger provider db db' n m (overrides id status actor h) l =
    (Post-result (override_status-Steady id status actor db l) h).0
MoneyStep-IsLedger provider db db' n m (reviews id dto h) l =
    (Post-result (review_and_complete-Steady id dto db l) h).0
MoneyStep-IsLedger provider db db' n m (initiates ticket_id consumer_id e) l =
    subst IsLedger e (initiate-IsLedger provider ticket_id consumer_id db l)
MoneyStep-IsLedger provider db db' n m (calls_back name body repeated h) l =
    Post-result {P = λ (s : Bool × Db). IsLedger s.1}
      (handle_webhook-IsLedger provider name body db l) h
MoneyStep-IsLedger provider db db' n m (reconciles id left dto h) l =
    Post-result {P = λ (s : ℕ × Db). IsLedger s.1} (reconcile_payment-IsLedger id dto db l) h

MoneyStep-held :
    {Body : Type 0} (provider : PaymentProvider Body) (db db' : Db) (n m : ℕ)
    → MoneyStep provider db db' n m
    → IsLedger db
    → held db' + m ≡ held db + n
MoneyStep-held provider db db' n m (tops_up dto h) l =
    omega (arith, Post-result {P = λ (d : Db). held d ≡ held db} (topup-held dto db) h)
MoneyStep-held provider db db' n m (verifies id reviewer processed h) l = omega (
  arith,
  Post-result {P = λ (s : Bool × Db). held s.1 ≡ held db + topped_up id db}
      (verified-held id reviewer db l) h,
)
MoneyStep-held provider db db' n m (rejects id reviewer processed h) l = omega (
  arith,
  Post-result {P = λ (s : Bool × Db). held s.1 ≡ held db} (rejected-held id reviewer db) h,
)
MoneyStep-held provider db db' n m (pays user_id ticket_id applied h) l = omega (
  arith,
  (pay_ticket_from_wallet-Paid user_id ticket_id db applied db' l.sound.well_formed h).held_kept,
)
MoneyStep-held provider db db' n m (adjusts user_id amount h) l =
    (adjust_wallet-held user_id amount db db' l.sound.well_formed h).0
MoneyStep-held provider db db' n m (settles user_id e) l =
    omega (arith, ap held (sym e) ∙ (settle_tickets_for_user-held user_id db l.sound.well_formed).0)
MoneyStep-held provider db db' n m (orders env dto actor id h) l = omega (
  arith,
  ordered-held dto id db db'
      (create_intake_ticket-Outcome env dto actor db (id, db') l.sound.well_formed l.below h),
)
MoneyStep-held provider db db' n m (regenerates id env order h) l =
    omega (arith, (regenerate-Regenerated id env order db db' h).held_same)
MoneyStep-held provider db db' n m (finalizes id dto h) l =
    omega (arith, (finalize_remainder-held id dto db db' l.sound h).0)
MoneyStep-held provider db db' n m (reprices id resolved rate dto h) l =
    omega (arith, (reprice_ticket-held id resolved rate dto db db' l.sound h).0)
MoneyStep-held provider db db' n m (changes_status id status h) l =
    omega (arith, (Post-result (update_status-Steady id status db l) h).1)
MoneyStep-held provider db db' n m (overrides id status actor h) l =
    omega (arith, (Post-result (override_status-Steady id status actor db l) h).1)
MoneyStep-held provider db db' n m (reviews id dto h) l =
    omega (arith, (Post-result (review_and_complete-Steady id dto db l) h).1)
MoneyStep-held provider db db' n m (initiates ticket_id consumer_id e) l =
    omega (arith, ap held (sym e) ∙ initiated-held provider ticket_id consumer_id db)
MoneyStep-held provider db db' n m (calls_back name body repeated h) l =
    omega (arith, collected-held provider name body db repeated db' l h)
MoneyStep-held provider db db' n m (reconciles id left dto h) l =
    omega (arith, (reconcile_payment-Reconciled id dto db (left, db') l.sound.well_formed h).money)

-- Any number of calls, with all that came in and all that went out.
pub data MoneySteps {Body : Type 0} (provider : PaymentProvider Body) (db : Db)
    : Db → ℕ → ℕ → Type 0 where
  done : MoneySteps provider db db 0 0
  next :
      (mid after : Db) (n m received withdrawn : ℕ)
      → MoneySteps provider db mid n m
      → MoneyStep provider mid after received withdrawn
      → MoneySteps provider db after (n + received) (m + withdrawn)

-- No money appears or is lost: in tables with their keys and foreign keys, over any sequence of
-- top-ups, reviews of them, payments from the wallet, adjustments, settlements, orders,
-- regenerations, changes and overrides of a status, finalizations, reviews of a ticket, repricings,
-- attempts to pay, callbacks of the gateway and bookings, the credit and the paid amounts together grow
-- by exactly what came in (the top-ups that waited for their verification, the open payments that
-- succeeded, the bookings and the credits of the staff) less what the staff debited; and the keys and
-- foreign keys stay.
pub MoneySteps-held :
    {Body : Type 0} (provider : PaymentProvider Body) (db db' : Db) (received withdrawn : ℕ)
    → MoneySteps provider db db' received withdrawn
    → IsLedger db
    → IsLedger db' × (held db' + withdrawn ≡ held db + received)
MoneySteps-held provider db db' i o done l = (l, refl)
MoneySteps-held provider db db' i o (next mid after n m received withdrawn steps step) l =
    let (k, e) = MoneySteps-held provider db mid n m steps l in
    (
      MoneyStep-IsLedger provider mid after received withdrawn step k,
      omega (arith, e, MoneyStep-held provider mid after received withdrawn step k),
    )
