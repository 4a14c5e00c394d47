-- ===== src/Payments.antt =====
-- apps/api/src/payments/payments.service.ts: payments through a gateway. The gateway is a parameter;
-- the return and notification addresses, and the raw requests and callbacks, are not kept.
pub mod Webhook
pub mod Live
use wusuq_web.Base.{
  ℕ, ◌+◌, ◌-◌, Bool, true, false, not, ◌&&◌, Option, none, some, List, [], ◌∷◌, ◌++◌, map, leb,
  ◌==◌, if◌then◌else◌, Result, ok, err, ◌>>=◌, ◌>>◌, throw_if, ensure, or_throw, bad_request,
  not_found, forbidden, internal,
}
use wusuq_web.Base.Table
use wusuq_web.Store.{
  Ticket, unpaid, paid, Payment, PaymentStatus, initiated, success, failed, cancelled, Db,
  payment_key, find_ticket, find_payment, is_initiated, update_ticket, ◌is◌,
}

-- `VerifyCallbackResult`; its status is one of the three that end a payment.
pub data CallbackStatus : Type 0 where
  succeeded has_failed was_cancelled : CallbackStatus

pub record VerifyCallbackResult : Type 0 where
  pub provider_txn_id : ℕ
  pub status : CallbackStatus
  pub amount : ℕ
  pub signature_valid : Bool

-- `PaymentProvider`: what the gateway answers to an initiation of an amount for a ticket (the state
-- of the gateway shows in its next key), and how it reads a callback.
pub record PaymentProvider {ℓ} (Body : Type ℓ) : Type ℓ where
  pub name : ℕ
  pub next_txn_id : ℕ → ℕ → ℕ
  pub verify_callback : Body → VerifyCallbackResult

-- What `initiate` checks of the ticket.
unfoldable pub check_payable : ℕ → ℕ → Db → Result Ticket
check_payable ticket_id consumer_id db = do
  ticket ← or_throw (find_ticket ticket_id db) not_found
  ensure (ticket.consumer_id == consumer_id) forbidden
  throw_if ticket.archived bad_request
  ensure (ticket.status is unpaid) bad_request
  throw_if (leb ticket.total_amount ticket.amount_paid) bad_request
  ok ticket

-- `updateMany({ where: { ticketId, status: 'INITIATED' }, data: { status: 'CANCELLED' } })`.
abbrev pub cancel : ℕ → Payment → Payment
cancel ticket_id p =
    if p.ticket_id == ticket_id && is_initiated p.status then record p { status = cancelled } else p

abbrev pub cancel_live : ℕ → Db → Db
cancel_live ticket_id db = record db { payments = map (cancel ticket_id) db.payments }

abbrev pub new_payment : ℕ → ℕ → ℕ → Payment
new_payment txn_id ticket_id amount = record {
  provider_txn_id = txn_id;
  ticket_id = ticket_id;
  status = initiated;
  amount = amount;
}

-- `payment.create`, whose key is unique.
unfoldable pub create_payment : Payment → Db → Result Db
create_payment p db = elim (find_payment p.provider_txn_id db) [
  | some _ ↦ err internal
  | none ↦ ok (record db { payments = db.payments ++ (p ∷ []) })
]

-- The outcome of a creation after the tables have been written to.
abbrev pub after_create : ℕ → Db → Result Db → Db × Result ℕ
after_create txn_id before (ok db) = (db, ok txn_id)
after_create txn_id before (err e) = (before, err e)

module _ {ℓ} {Body : Type ℓ} (provider : PaymentProvider Body) where
  -- `initiate` after its checks: the live payments are cancelled first, outside of a transaction.
  unfoldable pub start_payment : Ticket → Db → Db × Result ℕ
  unfolding create_payment
  start_payment ticket db =
      let due = ticket.total_amount - ticket.amount_paid in
      let txn_id = provider.next_txn_id ticket.id due in
      let cancelled_db = cancel_live ticket.id db in
      after_create txn_id cancelled_db
        (create_payment (new_payment txn_id ticket.id due) cancelled_db)

  abbrev pub after_checks : Db → Result Ticket → Db × Result ℕ
  after_checks db (err e) = (db, err e)
  after_checks db (ok ticket) = start_payment ticket db

  -- `initiate`, with the tables that it leaves also when it throws.
  unfoldable pub initiate : ℕ → ℕ → Db → Db × Result ℕ
  unfolding check_payable start_payment
  initiate ticket_id consumer_id db = after_checks db (check_payable ticket_id consumer_id db)

-- `payment.update`, by the key of the gateway.
abbrev pub set_payment : ℕ → PaymentStatus → Db → Db
set_payment txn_id status db = record db {
  payments = Table.update_by payment_key txn_id (λ p. record p { status = status }) db.payments;
}

-- The ticket's columns: the amount is added, and an UNPAID ticket whose base is covered is PAID.
abbrev pub paid_by_gateway : ℕ → Ticket → Ticket
paid_by_gateway amount t = record t {
  amount_paid = t.amount_paid + amount;
  status =
      if t.status is unpaid && leb t.charges.service_cost (t.amount_paid + amount)
      then paid
      else t.status;
}

-- The transaction of a success: the conditional flip of the payment decides whether the ticket is
-- credited. The result says whether the delivery was a repeated one.
unfoldable pub apply_success : Payment → ℕ → Db → Bool × Db
apply_success payment amount db = elim (find_payment payment.provider_txn_id db) [
  | none ↦ (true, db)
  | some row ↦
      if is_initiated row.status
      then (
        false,
        update_ticket payment.ticket_id (paid_by_gateway amount)
            (set_payment payment.provider_txn_id success db),
      )
      else (true, db)
]

-- The conditional update of a payment that did not succeed.
unfoldable pub apply_failure : Payment → PaymentStatus → Db → Db
apply_failure payment status db = elim (find_payment payment.provider_txn_id db) [
  | none ↦ db
  | some row ↦ if is_initiated row.status then set_payment payment.provider_txn_id status db else db
]

-- The part of `handleWebhook` that writes, on the payment as it was read.
unfoldable pub settle_callback : Payment → VerifyCallbackResult → Db → Result (Bool × Db)
unfolding apply_success apply_failure
settle_callback payment verified db = elim verified.status [
  | succeeded ↦ do
    ensure (verified.amount == payment.amount) bad_request
    ok (apply_success payment verified.amount db)
  | has_failed ↦ ok (false, apply_failure payment failed db)
  | was_cancelled ↦ ok (false, apply_failure payment cancelled db)
]

-- The payment is looked at before anything else: a closed one is left as it is.
unfoldable pub settle_payment : Payment → VerifyCallbackResult → Db → Result (Bool × Db)
unfolding settle_callback
settle_payment payment verified db =
    if is_initiated payment.status then settle_callback payment verified db else ok (true, db)

module _ {ℓ} {Body : Type ℓ} (provider : PaymentProvider Body) where
  unfoldable pub handle_webhook : ℕ → Body → Db → Result (Bool × Db)
  unfolding settle_payment
  handle_webhook provider_name body db = do
    ensure (provider_name == provider.name) bad_request
    ensure (provider.verify_callback body).signature_valid forbidden
    payment ← or_throw (find_payment (provider.verify_callback body).provider_txn_id db) not_found
    settle_payment payment (provider.verify_callback body) db
