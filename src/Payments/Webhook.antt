-- ===== src/Payments/Webhook.antt =====
-- apps/api/src/payments/payments.service.ts, `handleWebhook`: what a callback of the gateway does to
-- the money that is held, and that a payment is credited once, whatever the deliveries.
use wusuq_web.Base.{
  ℕ, ◌+◌, ◌≡◌, refl, Bool, true, false, ◌&&◌, some, arith, if◌then◌else◌, ◌==◌, Bool-cases, inl,
  inr, Option-cases, subst, sym, ◌∙◌, some-injective, ok, ◌>>=◌, ◌>>◌, or_throw, ensure, Post,
  Post-result, Post-or_throw, Post-ensure, Post-return, ensure-ok, or_throw-ok, bad_request,
  forbidden, not_found, eq_of_eqb,
}
use wusuq_web.Base.Table
use wusuq_web.Store.{
  Ticket, Payment, PaymentStatus, success, failed, cancelled, Db, payment_key, find_payment,
  find_ticket, is_initiated, IsWellFormed,
}
use wusuq_web.Wallet.Money.{held, paid_total-update_ticket, update_ticket-IsWellFormed}
use wusuq_web.Payments.{
  CallbackStatus, succeeded, has_failed, was_cancelled, VerifyCallbackResult, PaymentProvider,
  set_payment, paid_by_gateway, apply_success, apply_failure, settle_callback, settle_payment,
  handle_webhook,
}

-- Does the callback say that the payment succeeded?
abbrev pub is_success : CallbackStatus → Bool
is_success succeeded = true
is_success _ = false

-- What a callback adds to the money that is held: the amount of a payment that was open.
abbrev pub credited : Payment → CallbackStatus → ℕ
credited payment status =
    if is_initiated payment.status && is_success status then payment.amount else 0

abbrev Credited : ℕ → Db → Bool × Db → Type 0
Credited n db s = (held s.1 ≡ held db + n) × IsWellFormed s.1

apply_success-Credited :
    (p : Payment) (t : Ticket) (db : Db)
    → IsWellFormed db
    → find_payment p.provider_txn_id db ≡ some p
    → is_initiated p.status ≡ true
    → find_ticket p.ticket_id db ≡ some t
    → Credited p.amount db (apply_success p p.amount db)
unfolding apply_success
apply_success-Credited p t db w e live f =
    let marked = set_payment p.provider_txn_id success db in
    let w' : IsWellFormed marked = record { users = w.users; tickets = w.tickets } in
    let total = paid_total-update_ticket p.ticket_id (paid_by_gateway p.amount) marked t w' f in
    rw (e, apply_success, live)
      (
        omega (arith, total),
        update_ticket-IsWellFormed p.ticket_id (paid_by_gateway p.amount) marked (λ _. refl) w',
      )

apply_failure-held :
    (p : Payment) (s : PaymentStatus) (db : Db)
    → IsWellFormed db
    → Credited 0 db (false, apply_failure p s db)
unfolding apply_failure
apply_failure-held p s db w = elim (Option-cases (find_payment p.provider_txn_id db)) [
  | inl e ↦ rw (e, apply_failure) (omega arith, w)
  | inr (row, e) ↦ elim (Bool-cases (is_initiated row.status)) [
    | inl x ↦
        rw (e, apply_failure, x) (omega arith, record { users = w.users; tickets = w.tickets })
    | inr x ↦ rw (e, apply_failure, x) (omega arith, w)
  ]
]

settle_callback-held :
    (p : Payment) (t : Ticket) (v : VerifyCallbackResult) (db : Db)
    → IsWellFormed db
    → find_payment p.provider_txn_id db ≡ some p
    → is_initiated p.status ≡ true
    → find_ticket p.ticket_id db ≡ some t
    → Post (Credited (if is_success v.status then p.amount else 0) db) (settle_callback p v db)
unfolding settle_callback
settle_callback-held p t v db w e live f = go v.status
  where
    go :
        (s : CallbackStatus)
        → Post
            (Credited (if is_success s then p.amount else 0) db)
            (settle_callback p (record v { status = s }) db)
    go succeeded = Post-ensure bad_request λ same.
        subst (λ n. Post (Credited p.amount db) (ok (apply_success p n db)))
          (sym (eq_of_eqb v.amount p.amount same))
          (Post-return (apply_success-Credited p t db w e live f))
    go has_failed = Post-return (apply_failure-held p failed db w)
    go was_cancelled = Post-return (apply_failure-held p cancelled db w)

settle_payment-held :
    (p : Payment) (t : Ticket) (v : VerifyCallbackResult) (db : Db)
    → IsWellFormed db
    → find_payment p.provider_txn_id db ≡ some p
    → find_ticket p.ticket_id db ≡ some t
    → Post (Credited (credited p v.status) db) (settle_payment p v db)
unfolding settle_payment
settle_payment-held p t v db w e f = elim (Bool-cases (is_initiated p.status)) [
  | inl live ↦ rw live (settle_callback-held p t v db w e live f)
  | inr dead ↦ rw dead (Post-return (omega arith, w))
]

-- In well-formed tables, for a payment that stands in them and whose ticket exists: an accepted
-- callback adds to the money that is held the amount of the payment if the payment was open and the
-- callback is a success, and nothing otherwise.
pub handle_webhook-held {ℓ} :
    {Body : Type ℓ} (provider : PaymentProvider Body) (name : ℕ) (body : Body) (p : Payment)
    (t : Ticket) (db : Db) (repeated : Bool) (db' : Db)
    → IsWellFormed db
    → find_payment (provider.verify_callback body).provider_txn_id db ≡ some p
    → find_ticket p.ticket_id db ≡ some t
    → handle_webhook provider name body db ≡ ok (repeated, db')
    → (held db' ≡ held db + credited p (provider.verify_callback body).status) × IsWellFormed db'
unfolding handle_webhook
handle_webhook-held provider name body p t db repeated db' w e f h =
    let v = provider.verify_callback body in
    Post-result {P = Credited (credited p v.status) db}
      (Post-ensure bad_request λ _. Post-ensure forbidden λ _.
        Post-or_throw not_found λ (q : Payment) g.
          subst (λ (q : Payment). Post (Credited (credited p v.status) db) (settle_payment q v db))
            (some-injective _ _ (sym e ∙ g))
            (settle_payment-held p t v db w
              (Table.find_by_own payment_key v.provider_txn_id db.payments p e) f))
      h

-- The payment of a key is in the tables, and closed.
Closed : ℕ → Db → Type 0
Closed txn_id db =
    (p : Payment) × (find_payment txn_id db ≡ some p) × (is_initiated p.status ≡ false)

set_payment-Closed :
    (txn_id : ℕ) (s : PaymentStatus) (db : Db) (p : Payment)
    → find_payment txn_id db ≡ some p
    → is_initiated s ≡ false
    → Closed txn_id (set_payment txn_id s db)
unfolding Closed
set_payment-Closed txn_id s db p e n = (
  record p { status = s },
  Table.find_by-update_by_self payment_key (λ p. record p { status = s }) (λ _. refl) txn_id
      db.payments p e,
  n,
)

apply_success-Closed :
    (p : Payment) (n : ℕ) (db : Db)
    → find_payment p.provider_txn_id db ≡ some p
    → Closed p.provider_txn_id (apply_success p n db).1
unfolding apply_success Closed
apply_success-Closed p n db e = elim (Bool-cases (is_initiated p.status)) [
  | inl x ↦ rw (e, apply_success, x) (set_payment-Closed p.provider_txn_id success db p e refl)
  | inr x ↦ rw (e, apply_success, x) (p, e, x)
]

apply_failure-Closed :
    (p : Payment) (s : PaymentStatus) (db : Db)
    → find_payment p.provider_txn_id db ≡ some p
    → is_initiated s ≡ false
    → Closed p.provider_txn_id (apply_failure p s db)
unfolding apply_failure Closed
apply_failure-Closed p s db e n = elim (Bool-cases (is_initiated p.status)) [
  | inl x ↦ rw (e, apply_failure, x) (set_payment-Closed p.provider_txn_id s db p e n)
  | inr x ↦ rw (e, apply_failure, x) (p, e, x)
]

settle_callback-Closed :
    (p : Payment) (v : VerifyCallbackResult) (db : Db)
    → find_payment p.provider_txn_id db ≡ some p
    → Post (λ (s : Bool × Db). Closed p.provider_txn_id s.1) (settle_callback p v db)
unfolding settle_callback
settle_callback-Closed p v db e = go v.status
  where
    go :
        (s : CallbackStatus)
        → Post
            (λ (s : Bool × Db). Closed p.provider_txn_id s.1)
            (settle_callback p (record v { status = s }) db)
    go succeeded = Post-ensure bad_request λ _. Post-return (apply_success-Closed p v.amount db e)
    go has_failed = Post-return (apply_failure-Closed p failed db e refl)
    go was_cancelled = Post-return (apply_failure-Closed p cancelled db e refl)

settle_payment-Closed :
    (p : Payment) (v : VerifyCallbackResult) (db : Db)
    → find_payment p.provider_txn_id db ≡ some p
    → Post (λ (s : Bool × Db). Closed p.provider_txn_id s.1) (settle_payment p v db)
unfolding settle_payment Closed
settle_payment-Closed p v db e = elim (Bool-cases (is_initiated p.status)) [
  | inl live ↦ rw live (settle_callback-Closed p v db e)
  | inr dead ↦ rw dead (Post-return (p, e, dead))
]

-- A payment is settled at most once: after an accepted callback, every later delivery for the same
-- payment that is signed, whatever it says, is answered as a repeated one and changes nothing.
pub handle_webhook_once {ℓ} :
    {Body : Type ℓ} (provider : PaymentProvider Body) (name : ℕ) (body later : Body) (db : Db)
    (repeated : Bool) (db' : Db)
    → handle_webhook provider name body db ≡ ok (repeated, db')
    → (provider.verify_callback later).provider_txn_id
      ≡ (provider.verify_callback body).provider_txn_id
    → (provider.verify_callback later).signature_valid ≡ true
    → handle_webhook provider name later db' ≡ ok (true, db')
unfolding handle_webhook settle_payment Closed ◌>>=◌ ◌>>◌ or_throw ensure
handle_webhook_once provider name body later db repeated db' h same valid =
    let v = provider.verify_callback body in
    let (n, rest) = ensure-ok (name == provider.name) bad_request _ (repeated, db') h in
    let (_, found) = ensure-ok v.signature_valid forbidden _ (repeated, db') rest in
    let (p, e, r) =
      or_throw-ok (find_payment v.provider_txn_id db) not_found (λ p. settle_payment p v db)
        (repeated, db') found in
    let key = Table.key_of_find_by payment_key v.provider_txn_id db.payments p e in
    let (q, g, dead) : Closed p.provider_txn_id db' =
      Post-result {P = λ (s : Bool × Db). Closed p.provider_txn_id s.1}
        (settle_payment-Closed p v db
          (Table.find_by_own payment_key v.provider_txn_id db.payments p e))
        r in
    rw (n, valid, same, sym key, g, handle_webhook, dead) refl

Closed-unchanged :
    (p : Payment) (v : VerifyCallbackResult) (db : Db)
    → Closed p.provider_txn_id db
    → Post (λ (s : Bool × Db). s.1 ≡ db) (settle_callback p v db)
unfolding settle_callback apply_success apply_failure Closed
Closed-unchanged p v db (q, e, dead) = go v.status
  where
    go :
        (s : CallbackStatus)
        → Post (λ (s : Bool × Db). s.1 ≡ db) (settle_callback p (record v { status = s }) db)
    go succeeded = Post-ensure bad_request λ _. Post-return (rw (e, apply_success, dead) refl)
    go has_failed = Post-return (rw (e, apply_failure, dead) refl)
    go was_cancelled = Post-return (rw (e, apply_failure, dead) refl)

-- Two deliveries that both have read a payment while it was open: when the first to write goes
-- through, the second, if it is not refused for its amount, changes nothing.
settle_callback_race :
    (p : Payment) (first second : VerifyCallbackResult) (db : Db) (s t : Bool × Db)
    → find_payment p.provider_txn_id db ≡ some p
    → settle_callback p first db ≡ ok s
    → settle_callback p second s.1 ≡ ok t
    → t.1 ≡ s.1
settle_callback_race p first second db s t e h k =
    Post-result {P = λ (t : Bool × Db). t.1 ≡ s.1}
      (Closed-unchanged p second s.1 (
        Post-result {P = λ (s : Bool × Db). Closed p.provider_txn_id s.1}
          (settle_callback-Closed p first db e) h))
      k
