-- ===== src/Ledger/Balance.antt =====
-- What the calls that concern money add to the money that is held.
use wusuq_web.Base.{
  ℕ, ◌+◌, ◌≡◌, refl, sym, ap, ◌∙◌, Bool, Option, none, some, arith, if◌then◌else◌, Bool-cases,
  Option-cases, inl, inr, Result, ok, err, ◌>>=◌, or_throw, ◌>>=◌, or_throw, Post, Post-bind,
  Post-or_throw, Post-ensure, Post-return, Post-result, Post-of, not_found, bad_request, forbidden,
}
use wusuq_web.Base.Int.{pos_part}
use wusuq_web.Base.Table
use wusuq_web.Store.{
  Ticket, WalletTransaction, Payment, Db, transaction_key, payment_key, find_transaction,
  find_payment, is_pending,
}
use wusuq_web.Wallet.{TopupWalletDto, topup, verify_locked, verify_topup, reject_topup}
use wusuq_web.Wallet.Money.{held}
use wusuq_web.Wallet.Topup.{verify_topup-held}
use wusuq_web.Tickets.Intake.{CreateTicketIntakeDto}
use wusuq_web.Tickets.Intake.Ordered.{Outcome}
use wusuq_web.Payments.{
  PaymentProvider, create_payment, after_create, after_checks, cancel_live, check_payable,
  start_payment, initiate, handle_webhook, settle_payment,
}
use wusuq_web.Payments.Webhook.{credited, handle_webhook-held}
use wusuq_web.Ledger.{IsLedger}

-- What the verification of a transaction brings in: its amount while it waits for it.
abbrev pub awaited : WalletTransaction → ℕ
awaited row = if is_pending row.status then pos_part row.amount else 0

abbrev pub topped_up : ℕ → Db → ℕ
topped_up id db = elim (find_transaction id db) [ none ↦ 0 | some row ↦ awaited row ]

-- What a callback brings in: the amount of an open payment that succeeded.
abbrev pub collected : {Body : Type 0} → PaymentProvider Body → Body → Db → ℕ
collected provider body db =
    let v = provider.verify_callback body in
    elim (find_payment v.provider_txn_id db) [ none ↦ 0 | some p ↦ credited p v.status ]

verify_topup_found :
    (id : ℕ) (reviewer : Option ℕ) (row : WalletTransaction) (db : Db)
    → find_transaction id db ≡ some row
    → verify_topup id reviewer db ≡ ok (verify_locked id reviewer row db)
unfolding verify_topup ◌>>=◌ or_throw
verify_topup_found id reviewer row db e = rw (e, verify_topup) refl

locked-held :
    (id : ℕ) (reviewer : Option ℕ) (row : WalletTransaction) (db : Db)
    → IsLedger db
    → find_transaction id db ≡ some row
    → held (verify_locked id reviewer row db).1 ≡ held db + awaited row
unfolding verify_locked
locked-held id reviewer row db l e = elim (Bool-cases (is_pending row.status)) [
  | inl y ↦
      let (n, (u, f)) = Table.All-find_by transaction_key _ id db.transactions row l.pending e y in
      let s = verify_locked id reviewer row db in
      (verify_topup-held id reviewer row u db s.0 s.1 l.sound.well_formed e n f
        (verify_topup_found id reviewer row db e)).1
  | inr n ↦ rw n (omega arith)
]

pub verified-held :
    (id : ℕ) (reviewer : Option ℕ) (db : Db)
    → IsLedger db
    → Post (λ (s : Bool × Db). held s.1 ≡ held db + topped_up id db) (verify_topup id reviewer db)
unfolding verify_topup
verified-held id reviewer db l = Post-or_throw not_found λ (row : WalletTransaction) e.
    Post-return (
      locked-held id reviewer row db l e
      ∙ ap
          (λ (o : Option WalletTransaction). held db + elim o [ none ↦ 0 | some row ↦ awaited row ])
          (sym e))

pub topup-held :
    (dto : TopupWalletDto) (db : Db) → Post (λ (d : Db). held d ≡ held db) (topup dto db)
unfolding topup
topup-held dto db = Post-bind λ c _. Post-bind λ t _. Post-bind λ a _. Post-return refl

pub rejected-held :
    (id : ℕ) (reviewer : Option ℕ) (db : Db)
    → Post (λ (s : Bool × Db). held s.1 ≡ held db) (reject_topup id reviewer db)
unfolding reject_topup
rejected-held id reviewer db = Post-or_throw not_found λ (row : WalletTransaction) e.
    Post-return
      (elim (Bool-cases (is_pending row.status)) [ inl y ↦ rw y refl | inr n ↦ rw n refl ])

pub ordered-held :
    (dto : CreateTicketIntakeDto) (id : ℕ) (db db' : Db)
    → Outcome dto dto.consumer_id db (id, db')
    → held db' ≡ held db
ordered-held dto id db db' (inl r) = ap held r.same
ordered-held dto id db db' (inr o) = o.money

created-held :
    (txn_id : ℕ) (p : Payment) (db : Db)
    → held (after_create txn_id db (create_payment p db)).0 ≡ held db
unfolding create_payment
created-held txn_id p db = elim (Option-cases (find_payment p.provider_txn_id db)) [
  | inl e ↦ rw (e, create_payment) refl
  | inr (q, e) ↦ rw (e, create_payment) refl
]

pub initiated-held :
    {Body : Type 0} (provider : PaymentProvider Body) (ticket_id consumer_id : ℕ) (db : Db)
    → held (initiate provider ticket_id consumer_id db).0 ≡ held db
unfolding initiate start_payment
initiated-held provider ticket_id consumer_id db = go (check_payable ticket_id consumer_id db)
  where
    go : (r : Result Ticket) → held (after_checks provider db r).0 ≡ held db
    go (err e) = refl
    go (ok t) = created-held _ _ (cancel_live t.id db)

-- An accepted callback is of a payment in the tables.
callback_found :
    {Body : Type 0} (provider : PaymentProvider Body) (name : ℕ) (body : Body) (db : Db)
    → Post
        (λ (_ : Bool × Db).
          (p : Payment) × (find_payment (provider.verify_callback body).provider_txn_id db
            ≡ some p))
        (handle_webhook provider name body db)
unfolding handle_webhook
callback_found provider name body db = Post-ensure bad_request λ _. Post-ensure forbidden λ _.
    Post-or_throw not_found
      λ (p : Payment) e. Post-of (settle_payment p (provider.verify_callback body) db) λ s _. (p, e)

pub collected-held :
    {Body : Type 0} (provider : PaymentProvider Body) (name : ℕ) (body : Body) (db : Db)
    (repeated : Bool) (db' : Db)
    → IsLedger db
    → handle_webhook provider name body db ≡ ok (repeated, db')
    → held db' ≡ held db + collected provider body db
collected-held provider name body db repeated db' l h =
    let v = provider.verify_callback body in
    let (p, e) = Post-result (callback_found provider name body db) h in
    let (t, f) = Table.All-find_by payment_key _ v.provider_txn_id db.payments p l.payments e in
    rw (e, collected)
      (handle_webhook-held provider name body p t db repeated db' l.sound.well_formed e f h).0
