-- ===== src/Wallet/Topup.antt =====
-- The review of a top-up: what it adds to the money that is held, and that it does so once.
use wusuq_web.Base.{
  ℕ, ◌+◌, ◌-◌, ◌≡◌, Bool, true, false, refl, Option, some, arith, not, if◌then◌else◌, List, [], ◌∷◌,
  Bool-cases, inl, inr, ok, or_throw, ◌>>=◌, Option-cases, leb, min, subst, not_found, or_throw-ok,
  ok-injective,
}
use wusuq_web.Base.Int.{ℤ, pos_part, neg_part}
use wusuq_web.Base.Table
use wusuq_web.Store.{
  User, Ticket, Db, user_key, transaction_key, WalletTransaction, verified, find_user,
  find_transaction, update_user, update_transaction, IsWellFormed, is_pending, ◌is◌, delivered,
  find_ticket,
}
use wusuq_web.Shared.Fx.{PaymentMode}
use wusuq_web.Wallet.{
  balance_of, add_signed, apply_payment_to_ticket, settle_fresh, settle_ticket, settle_tickets,
  candidate_ids, clear_pending_tickets, verify_locked, verify_topup, reject_topup,
}
use wusuq_web.Wallet.Money.{held, credit_total-update_user, update_user-IsWellFormed}
use wusuq_web.Wallet.Settle.{clear_pending_tickets-held}

-- Rows of the ledger are only added to.
abbrev Grows : Db → Db → Type 0
Grows db db' =
    (id : ℕ) (t : WalletTransaction)
    → find_transaction id db ≡ some t
    → find_transaction id db' ≡ some t

-- A credit of a wallet, and the settlement of the tickets from it.
pub credited-held :
    (user_id : ℕ) (amount : ℤ) (mode : PaymentMode) (db : Db) (u : User)
    → IsWellFormed db
    → find_user user_id db ≡ some u
    → neg_part amount ≡ 0
    → let credited =
        update_user user_id
          (λ u. record u { wallet_balance = add_signed u.wallet_balance amount })
          db in
      let db' = clear_pending_tickets user_id (balance_of user_id credited) mode credited in
      (held db' ≡ held db + pos_part amount) × IsWellFormed db'
credited-held user_id amount mode db u w e no_debit =
    let add : User → User = λ u. record u { wallet_balance = add_signed u.wallet_balance amount } in
    let credited = update_user user_id add db in
    let total = credit_total-update_user user_id add db u w e in
    let there : find_user user_id credited ≡ some (add u) =
      Table.find_by-update_by_self user_key add (λ _. refl) user_id db.users u e in
    let well = update_user-IsWellFormed user_id add db (λ _. refl) w in
    let settled = clear_pending_tickets-held user_id mode credited (add u) well there in
    rw (balance_of, there) (omega (arith, settled.0, total, no_debit), settled.1)

same-Grows : (db : Db) → Grows db db
same-Grows db id t e = e

apply-Grows :
    (t : Ticket) (n : ℕ) (mode : PaymentMode) (user_id : ℕ) (db : Db)
    → Grows db (apply_payment_to_ticket t n mode user_id db)
unfolding apply_payment_to_ticket
apply-Grows t n mode user_id db id r e =
    Table.find_by-append transaction_key id db.transactions _ r e

settle_fresh-Grows :
    (user_id : ℕ) (mode : PaymentMode) (t : Ticket) (s : ℕ × Db)
    → Grows s.1 (settle_fresh user_id mode t s).1
unfolding settle_fresh
settle_fresh-Grows user_id mode t (r, db) =
    let pays = apply-Grows t (min r (t.total_amount - t.amount_paid)) mode user_id db in
    elim (Bool-cases (t.status is delivered)) [
      | inl x ↦ rw x (same-Grows db)
      | inr x ↦ elim (Bool-cases (leb t.total_amount 0)) [
        | inl y ↦ rw (x, y) (same-Grows db)
        | inr y ↦ elim (Bool-cases (leb t.total_amount t.amount_paid)) [
          | inl z ↦ rw (x, y, z) (same-Grows db)
          | inr z ↦ rw (x, y, z) pays
        ]
      ]
    ]

settle_ticket-Grows :
    (user_id : ℕ) (mode : PaymentMode) (id : ℕ) (s : ℕ × Db)
    → Grows s.1 (settle_ticket user_id mode id s).1
unfolding settle_ticket
settle_ticket-Grows user_id mode id s = elim (Option-cases (find_ticket id s.1)) [
  | inl e ↦ rw (e, settle_ticket) (same-Grows s.1)
  | inr (t, e) ↦ rw (e, settle_ticket) (settle_fresh-Grows user_id mode t s)
]

settle_tickets-Grows :
    (user_id : ℕ) (mode : PaymentMode) (ids : List ℕ) (s : ℕ × Db)
    → Grows s.1 (settle_tickets user_id mode ids s).1
unfolding settle_tickets
settle_tickets-Grows user_id mode [] s = same-Grows s.1
settle_tickets-Grows user_id mode (id ∷ ids) s =
    let next = settle_ticket user_id mode id s in
    let all : Grows s.1 (settle_tickets user_id mode ids next).1 = λ k r e.
      settle_tickets-Grows user_id mode ids next k r
        (settle_ticket-Grows user_id mode id s k r e) in
    elim (Bool-cases (leb s.0 0)) [ inl x ↦ rw x (same-Grows s.1) | inr x ↦ rw x all ]

clear_pending_tickets-Grows :
    (user_id n : ℕ) (mode : PaymentMode) (db : Db)
    → Grows db (clear_pending_tickets user_id n mode db)
unfolding clear_pending_tickets
clear_pending_tickets-Grows user_id n mode db =
    settle_tickets-Grows user_id mode (candidate_ids user_id db) (n, db)

-- What verifying a transaction has done, by its status before.
abbrev Verification : WalletTransaction → Db → Bool × Db → Type 0
Verification row db (processed, db') =
    (processed ≡ not (is_pending row.status))
    × (held db' ≡ held db + (if is_pending row.status then pos_part row.amount else 0))
    × IsWellFormed db'

verify_locked-Verification :
    (id : ℕ) (reviewer : Option ℕ) (row : WalletTransaction) (u : User) (db : Db)
    → IsWellFormed db
    → neg_part row.amount ≡ 0
    → find_user row.user_id db ≡ some u
    → Verification row db (verify_locked id reviewer row db)
unfolding verify_locked
verify_locked-Verification id reviewer row u db w a f =
    let mark : WalletTransaction → WalletTransaction =
      λ t. record t { status = verified; reviewed_by = reviewer } in
    let marked = update_transaction id mark db in
    let w' : IsWellFormed marked = record { users = w.users; tickets = w.tickets } in
    elim (Bool-cases (is_pending row.status)) [
      | inl x ↦
          let c = credited-held row.user_id row.amount row.payment_mode marked u w' f a in
          rw x (refl, c.0, c.1)
      | inr x ↦ rw x (refl, omega arith, w)
    ]

-- In well-formed tables, for an existing user and an amount that is not negative: verifying a
-- pending top-up adds its amount, and no more, to the money that is held, also when tickets are
-- settled from it; verifying one that was processed before adds nothing. The answer says which it
-- was.
pub verify_topup-held :
    (id : ℕ) (reviewer : Option ℕ) (row : WalletTransaction) (u : User) (db : Db) (processed : Bool)
    (db' : Db)
    → IsWellFormed db
    → find_transaction id db ≡ some row
    → neg_part row.amount ≡ 0
    → find_user row.user_id db ≡ some u
    → verify_topup id reviewer db ≡ ok (processed, db')
    → (processed ≡ not (is_pending row.status))
      × (held db' ≡ held db + (if is_pending row.status then pos_part row.amount else 0))
      × IsWellFormed db'
unfolding verify_topup ◌>>=◌ or_throw
verify_topup-held id reviewer row u db processed db' w e a f h =
    let done : ok (verify_locked id reviewer row db) ≡ ok (processed, db') =
      rw (e, verify_topup) at h in
    subst (Verification row db) (ok-injective _ _ done)
      (verify_locked-Verification id reviewer row u db w a f)

-- A processed transaction is one that is not pending.
Processed : ℕ → Db → Type 0
Processed id db =
    (row : WalletTransaction) × (find_transaction id db ≡ some row)
    × (is_pending row.status ≡ false)

again :
    (id : ℕ) (reviewer : Option ℕ) (db : Db)
    → Processed id db
    → (verify_topup id reviewer db ≡ ok (true, db)) × (reject_topup id reviewer db ≡ ok (true, db))
unfolding Processed verify_topup verify_locked reject_topup ◌>>=◌ or_throw
again id reviewer db (row, e, p) = (rw (e, verify_topup, p) refl, rw (e, reject_topup, p) refl)

verify_locked-Processed :
    (id : ℕ) (reviewer : Option ℕ) (row : WalletTransaction) (db : Db)
    → find_transaction id db ≡ some row
    → Processed id (verify_locked id reviewer row db).1
unfolding Processed verify_locked
verify_locked-Processed id reviewer row db e =
    let mark : WalletTransaction → WalletTransaction =
      λ t. record t { status = verified; reviewed_by = reviewer } in
    let add : User → User =
      λ u. record u { wallet_balance = add_signed u.wallet_balance row.amount } in
    let credited = update_user row.user_id add (update_transaction id mark db) in
    let there =
      Table.find_by-update_by_self transaction_key mark (λ _. refl) id db.transactions row e in
    elim (Bool-cases (is_pending row.status)) [
      | inl x ↦ rw x (
        mark row,
        clear_pending_tickets-Grows row.user_id (balance_of row.user_id credited) row.payment_mode
            credited id (mark row) there,
        refl,
      )
      | inr x ↦ rw x (row, e, x)
    ]

-- A transaction is processed at most once: after a successful verification, verifying it again and
-- rejecting it both answer that it was processed before, and change nothing.
pub verify_topup_once :
    (id : ℕ) (reviewer reviewer_too : Option ℕ) (db : Db) (processed : Bool) (db' : Db)
    → verify_topup id reviewer db ≡ ok (processed, db')
    → (verify_topup id reviewer_too db' ≡ ok (true, db'))
      × (reject_topup id reviewer_too db' ≡ ok (true, db'))
unfolding verify_topup
verify_topup_once id reviewer reviewer_too db processed db' h =
    let (row, e, r) =
      or_throw-ok (find_transaction id db) not_found
        (λ locked. ok (verify_locked id reviewer locked db)) (processed, db') h in
    let done = ok-injective (verify_locked id reviewer row db) (processed, db') r in
    again id reviewer_too db' (
      subst (λ (s : Bool × Db). Processed id s.1) done
        (verify_locked-Processed id reviewer row db e))
