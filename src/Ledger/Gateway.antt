-- ===== src/Ledger/Gateway.antt =====
-- apps/api/src/payments/payments.service.ts keeps the keys and the foreign keys.
use wusuq_web.Base.{
  ℕ, ◌-◌, ◌≡◌, refl, Bool, ◌&&◌, some, List, [], ◌∷◌, map, All, All-append, arith, ◌==◌, Bool-cases,
  Option-cases, inl, inr, Result, ok, err, Post, Post-or_throw, Post-throw_if, Post-ensure,
  Post-return, Post-result, Post-of, not_found, bad_request, forbidden, internal,
}
use wusuq_web.Base.Table
use wusuq_web.Store.{
  Ticket, Payment, PaymentStatus, Db, ticket_key, payment_key, find_ticket, is_initiated,
  find_payment,
}
use wusuq_web.Payments.{
  PaymentProvider, cancel, cancel_live, new_payment, create_payment, start_payment, check_payable,
  after_create, after_checks, initiate, set_payment, paid_by_gateway, apply_success, apply_failure,
  CallbackStatus, VerifyCallbackResult, succeeded, has_failed, was_cancelled, settle_callback,
  settle_payment, handle_webhook,
}
use wusuq_web.Ledger.{HasTicket, IsLedger, write_ticket, write_payments}

-- A change of statuses.
cancel_live-IsLedger : (id : ℕ) (db : Db) → IsLedger db → IsLedger (cancel_live id db)
cancel_live-IsLedger id db l = write_payments _ db (go db.payments l.payments) l
  where
    one : (p : Payment) → HasTicket p.ticket_id db → HasTicket (cancel id p).ticket_id db
    one p h = elim (Bool-cases (p.ticket_id == id && is_initiated p.status)) [
      | inl y ↦ rw y h
      | inr n ↦ rw n h
    ]

    go :
        (ps : List Payment)
        → All (λ (p : Payment). HasTicket p.ticket_id db) ps
        → All (λ (p : Payment). HasTicket p.ticket_id db) (map (cancel id) ps)
    go [] k = tt
    go (p ∷ ps) (h, k) = (one p h, go ps k)

set_payment-IsLedger :
    (txn_id : ℕ) (status : PaymentStatus) (db : Db)
    → IsLedger db
    → IsLedger (set_payment txn_id status db)
set_payment-IsLedger txn_id status db l =
    write_payments _ db
      (Table.All-update_by payment_key (λ (p : Payment). HasTicket p.ticket_id db) txn_id _
        db.payments (λ p h. h) l.payments)
      l

create_payment-IsLedger :
    (p : Payment) (db : Db)
    → HasTicket p.ticket_id db
    → IsLedger db
    → Post IsLedger (create_payment p db)
unfolding create_payment
create_payment-IsLedger p db h l = elim (Option-cases (find_payment p.provider_txn_id db)) [
  | inl e ↦
      rw (e, create_payment)
        (Post-return (
          write_payments _ db
            (All-append (λ (p : Payment). HasTicket p.ticket_id db) db.payments (p ∷ []) l.payments
              (h, tt))
            l))
  | inr (q, e) ↦ rw (e, create_payment) (Post-of (err internal) λ d f. absurd (ground (arith, f)))
]

started-IsLedger :
    (txn_id : ℕ) (t : Ticket) (amount : ℕ) (db : Db)
    → find_ticket t.id db ≡ some t
    → IsLedger db
    → IsLedger
        (after_create txn_id
          (cancel_live t.id db)
          (create_payment (new_payment txn_id t.id amount) (cancel_live t.id db))).0
started-IsLedger txn_id t amount db e l =
    go (create_payment p (cancel_live t.id db)) (create_payment-IsLedger p _ (t, e) cancelled)
  where
    p : Payment
    p = new_payment txn_id t.id amount

    cancelled : IsLedger (cancel_live t.id db)
    cancelled = cancel_live-IsLedger t.id db l

    go :
        (r : Result Db) → Post IsLedger r → IsLedger (after_create txn_id (cancel_live t.id db) r).0
    go (ok d) k = Post-result k refl
    go (err _) k = cancelled

-- The ticket that a payment is started for stands in the tables.
check_payable-own :
    (ticket_id consumer_id : ℕ) (db : Db)
    → Post (λ (t : Ticket). find_ticket t.id db ≡ some t) (check_payable ticket_id consumer_id db)
unfolding check_payable
check_payable-own ticket_id consumer_id db = Post-or_throw not_found λ (t : Ticket) e.
    Post-ensure forbidden λ _. Post-throw_if bad_request λ _. Post-ensure bad_request λ _.
      Post-throw_if bad_request
        λ _. Post-return (Table.find_by_own ticket_key ticket_id db.tickets t e)

pub initiate-IsLedger {ℓ} :
    {Body : Type ℓ} (provider : PaymentProvider Body) (ticket_id consumer_id : ℕ) (db : Db)
    → IsLedger db
    → IsLedger (initiate provider ticket_id consumer_id db).0
unfolding initiate start_payment
initiate-IsLedger provider ticket_id consumer_id db l =
    go (check_payable ticket_id consumer_id db) (check_payable-own ticket_id consumer_id db)
  where
    go :
        (r : Result Ticket)
        → Post (λ (t : Ticket). find_ticket t.id db ≡ some t) r
        → IsLedger (after_checks provider db r).0
    go (err _) k = l
    go (ok t) k =
        let due = t.total_amount - t.amount_paid in
        started-IsLedger (provider.next_txn_id t.id due) t due db (Post-result k refl) l

apply_success-IsLedger :
    (p : Payment) (n : ℕ) (db : Db) → IsLedger db → IsLedger (apply_success p n db).1
unfolding apply_success
apply_success-IsLedger p n db l = elim (Option-cases (find_payment p.provider_txn_id db)) [
  | inl e ↦ rw (e, apply_success) l
  | inr (q, e) ↦ elim (Bool-cases (is_initiated q.status)) [
    | inl x ↦
        rw (e, apply_success, x)
          (write_ticket p.ticket_id (paid_by_gateway n) _ (λ _. refl) (λ _. refl)
            (set_payment-IsLedger p.provider_txn_id PaymentStatus.success db l))
    | inr x ↦ rw (e, apply_success, x) l
  ]
]

apply_failure-IsLedger :
    (p : Payment) (s : PaymentStatus) (db : Db) → IsLedger db → IsLedger (apply_failure p s db)
unfolding apply_failure
apply_failure-IsLedger p s db l = elim (Option-cases (find_payment p.provider_txn_id db)) [
  | inl e ↦ rw (e, apply_failure) l
  | inr (q, e) ↦ elim (Bool-cases (is_initiated q.status)) [
    | inl x ↦ rw (e, apply_failure, x) (set_payment-IsLedger p.provider_txn_id s db l)
    | inr x ↦ rw (e, apply_failure, x) l
  ]
]

settle_payment-IsLedger :
    (p : Payment) (v : VerifyCallbackResult) (db : Db)
    → IsLedger db
    → Post (λ (s : Bool × Db). IsLedger s.1) (settle_payment p v db)
unfolding settle_payment settle_callback
settle_payment-IsLedger p v db l = elim (Bool-cases (is_initiated p.status)) [
  | inl x ↦ rw x (go v.status)
  | inr x ↦ rw x (Post-return l)
]
  where
    go :
        (s : CallbackStatus)
        → Post (λ (s : Bool × Db). IsLedger s.1) (settle_callback p (record v { status = s }) db)
    go succeeded = Post-ensure bad_request λ _. Post-return (apply_success-IsLedger p v.amount db l)
    go has_failed = Post-return (apply_failure-IsLedger p PaymentStatus.failed db l)
    go was_cancelled = Post-return (apply_failure-IsLedger p PaymentStatus.cancelled db l)

pub handle_webhook-IsLedger {ℓ} :
    {Body : Type ℓ} (provider : PaymentProvider Body) (name : ℕ) (body : Body) (db : Db)
    → IsLedger db
    → Post (λ (s : Bool × Db). IsLedger s.1) (handle_webhook provider name body db)
unfolding handle_webhook
handle_webhook-IsLedger provider name body db l = Post-ensure bad_request λ _.
    Post-ensure forbidden λ _.
      Post-or_throw not_found
        λ (p : Payment) _. settle_payment-IsLedger p (provider.verify_callback body) db l
