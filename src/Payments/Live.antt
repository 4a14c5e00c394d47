-- ===== src/Payments/Live.antt =====
-- apps/api/src/payments/payments.service.ts: the open payments of a ticket.
use wusuq_web.Base.{
  ℕ, ◌-◌, ◌≤◌, ◌≡◌, refl, ap, Bool, false, ◌&&◌, List, [], ◌∷◌, ◌++◌, map, arith, ◌==◌, eq_of_eqb,
  Bool-cases, inl, inr, Option-cases, Result, ok, err, Post, Post-result, Post-or_throw,
  Post-ensure, Post-return, bad_request, forbidden, not_found, countb, countb-append,
}
use wusuq_web.Base.Table
use wusuq_web.Store.{
  Ticket, Payment, PaymentStatus, success, failed, cancelled, Db, payment_key, find_payment,
  is_initiated,
}
use wusuq_web.Payments.{
  CallbackStatus, succeeded, has_failed, was_cancelled, VerifyCallbackResult, PaymentProvider,
  cancel, cancel_live, new_payment, create_payment, after_create, start_payment, check_payable,
  after_checks, initiate, set_payment, apply_success, apply_failure, settle_callback,
  settle_payment, handle_webhook,
}

-- Is the payment an open one of the ticket?
abbrev pub is_live : ℕ → Payment → Bool
is_live ticket_id p = p.ticket_id == ticket_id && is_initiated p.status

abbrev pub live_count : ℕ → Db → ℕ
live_count ticket_id db = countb (is_live ticket_id) db.payments

-- No ticket has two payments that are open.
abbrev pub OneLive : Db → Type 0
OneLive db = (ticket_id : ℕ) → live_count ticket_id db ≤ 1

countb-cancel_self : (id : ℕ) (ps : List Payment) → countb (is_live id) (map (cancel id) ps) ≡ 0
countb-cancel_self id [] = refl
countb-cancel_self id (p ∷ ps) = ground (arith, countb-cancel_self id ps)

countb-cancel :
    (id j : ℕ) (ps : List Payment) → countb (is_live j) (map (cancel id) ps) ≤ countb (is_live j) ps
countb-cancel id j [] = omega arith
countb-cancel id j (p ∷ ps) = ground (arith, countb-cancel id j ps)

countb-set_payment :
    (txn_id j : ℕ) (s : PaymentStatus) (ps : List Payment)
    → is_initiated s ≡ false
    → countb (is_live j) (Table.update_by payment_key txn_id (λ p. record p { status = s }) ps)
      ≤ countb (is_live j) ps
countb-set_payment txn_id j s [] n = omega arith
countb-set_payment txn_id j s (p ∷ ps) n = ground (arith, countb-set_payment txn_id j s ps n, n)

-- The tables have no more open payments for any ticket than others.
Fewer : Db → Db → Type 0
Fewer db db' = (j : ℕ) → live_count j db' ≤ live_count j db

created-live :
    (txn_id ticket_id amount j : ℕ) (ps : List Payment)
    → countb (is_live j) ps ≤ 1
    → countb (is_live j) (map (cancel ticket_id) ps ++ (new_payment txn_id ticket_id amount ∷ []))
      ≤ 1
created-live txn_id ticket_id amount j ps one =
    let fewer = countb-cancel ticket_id j ps in
    let none_left = countb-cancel_self ticket_id ps in
    let added =
      countb-append (is_live j) (map (cancel ticket_id) ps)
        (new_payment txn_id ticket_id amount ∷ []) in
    elim (Bool-cases (ticket_id == j)) [
      | inl y ↦
          let same =
            ap (λ i. countb (is_live i) (map (cancel ticket_id) ps)) (eq_of_eqb ticket_id j y) in
          rw (added, y) (omega (arith, none_left, same))
      | inr y ↦ rw (added, y) (omega (arith, fewer, one))
    ]

started-OneLive :
    (txn_id ticket_id amount : ℕ) (db : Db)
    → OneLive db
    → OneLive
        (after_create txn_id
          (cancel_live ticket_id db)
          (create_payment (new_payment txn_id ticket_id amount) (cancel_live ticket_id db))).0
unfolding create_payment
started-OneLive txn_id ticket_id amount db one j =
    elim (Option-cases (find_payment txn_id (cancel_live ticket_id db))) [
      | inr (p, e) ↦
          let fewer = countb-cancel ticket_id j db.payments in
          rw (e, create_payment) (omega (arith, fewer, one j))
      | inl e ↦ rw (e, create_payment) (created-live txn_id ticket_id amount j db.payments (one j))
    ]

initiate-OneLive {ℓ} :
    {Body : Type ℓ} (provider : PaymentProvider Body) (ticket_id consumer_id : ℕ) (db : Db)
    → OneLive db
    → OneLive (initiate provider ticket_id consumer_id db).0
unfolding initiate start_payment
initiate-OneLive provider ticket_id consumer_id db one = go (check_payable ticket_id consumer_id db)
  where
    go : (r : Result Ticket) → OneLive (after_checks provider db r).0
    go (err e) = one
    go (ok t) =
        let due = t.total_amount - t.amount_paid in
        started-OneLive (provider.next_txn_id t.id due) t.id due db one

set_payment-Fewer :
    (txn_id : ℕ) (s : PaymentStatus) (db : Db)
    → is_initiated s ≡ false
    → Fewer db (set_payment txn_id s db)
unfolding Fewer
set_payment-Fewer txn_id s db n j = countb-set_payment txn_id j s db.payments n

apply_success-Fewer : (p : Payment) (n : ℕ) (db : Db) → Fewer db (apply_success p n db).1
unfolding apply_success Fewer
apply_success-Fewer p n db j = elim (Option-cases (find_payment p.provider_txn_id db)) [
  | inl e ↦ rw (e, apply_success) (omega arith)
  | inr (q, e) ↦ elim (Bool-cases (is_initiated q.status)) [
    | inl x ↦ rw (e, apply_success, x) (set_payment-Fewer p.provider_txn_id success db refl j)
    | inr x ↦ rw (e, apply_success, x) (omega arith)
  ]
]

apply_failure-Fewer :
    (p : Payment) (s : PaymentStatus) (db : Db)
    → is_initiated s ≡ false
    → Fewer db (apply_failure p s db)
unfolding apply_failure Fewer
apply_failure-Fewer p s db n j = elim (Option-cases (find_payment p.provider_txn_id db)) [
  | inl e ↦ rw (e, apply_failure) (omega arith)
  | inr (q, e) ↦ elim (Bool-cases (is_initiated q.status)) [
    | inl x ↦ rw (e, apply_failure, x) (set_payment-Fewer p.provider_txn_id s db n j)
    | inr x ↦ rw (e, apply_failure, x) (omega arith)
  ]
]

settle_payment-Fewer :
    (p : Payment) (v : VerifyCallbackResult) (db : Db)
    → Post (λ (s : Bool × Db). Fewer db s.1) (settle_payment p v db)
unfolding settle_payment settle_callback Fewer
settle_payment-Fewer p v db = elim (Bool-cases (is_initiated p.status)) [
  | inl x ↦ rw x (go v.status)
  | inr x ↦ rw x (Post-return λ j. omega arith)
]
  where
    go :
        (s : CallbackStatus)
        → Post (λ (s : Bool × Db). Fewer db s.1) (settle_callback p (record v { status = s }) db)
    go succeeded = Post-ensure bad_request λ _. Post-return (apply_success-Fewer p v.amount db)
    go has_failed = Post-return (apply_failure-Fewer p failed db refl)
    go was_cancelled = Post-return (apply_failure-Fewer p cancelled db refl)

handle_webhook-Fewer {ℓ} :
    {Body : Type ℓ} (provider : PaymentProvider Body) (name : ℕ) (body : Body) (db : Db)
    → Post (λ (s : Bool × Db). Fewer db s.1) (handle_webhook provider name body db)
unfolding handle_webhook
handle_webhook-Fewer provider name body db = Post-ensure bad_request λ _. Post-ensure forbidden λ _.
    Post-or_throw not_found
      λ (p : Payment) e. settle_payment-Fewer p (provider.verify_callback body) db

-- A step of the module: an attempt to pay, also one that throws halfway, or an accepted callback.
pub data PaymentStep {ℓ} {Body : Type ℓ} (provider : PaymentProvider Body) (db : Db)
    : Db → Type ℓ where
  initiates :
      (ticket_id consumer_id : ℕ)
      → PaymentStep provider db (initiate provider ticket_id consumer_id db).0
  hears :
      (name : ℕ) (body : Body) (repeated : Bool) (db' : Db)
      → handle_webhook provider name body db ≡ ok (repeated, db')
      → PaymentStep provider db db'

-- Any number of steps.
pub data PaymentSteps {ℓ} {Body : Type ℓ} (provider : PaymentProvider Body) (db : Db)
    : Db → Type ℓ where
  done : PaymentSteps provider db db
  next :
      (mid after : Db)
      → PaymentSteps provider db mid
      → PaymentStep provider mid after
      → PaymentSteps provider db after

-- No sequence of payment attempts and callbacks leaves a ticket with two open payments, when it
-- starts with at most one on every ticket.
pub PaymentSteps-OneLive {ℓ} :
    {Body : Type ℓ} (provider : PaymentProvider Body) (db db' : Db)
    → PaymentSteps provider db db'
    → OneLive db
    → OneLive db'
unfolding Fewer
PaymentSteps-OneLive provider db db' done one = one
PaymentSteps-OneLive provider db db' (next mid after before (initiates ticket_id consumer_id)) one =
    initiate-OneLive provider ticket_id consumer_id mid
      (PaymentSteps-OneLive provider db mid before one)
PaymentSteps-OneLive provider db db' (next mid after before (hears name body repeated d h)) one =
    λ j.
      let fewer =
        Post-result {P = λ (s : Bool × Db). Fewer mid s.1}
          (handle_webhook-Fewer provider name body mid) h j in
      omega (arith, fewer, PaymentSteps-OneLive provider db mid before one j)
