-- ===== src/Wallet/Pay.antt =====
-- Paying a ticket from the wallet, and adjusting a wallet.
use wusuq_web.Base.{
  ℕ, ◌+◌, ◌-◌, ◌≡◌, ◌≤◌, ◌<◌, false, refl, ap, none, some, arith, if◌then◌else◌, Bool-cases, inl,
  inr, ok, ltb, min, sum, not_found, bad_request, Post, Post-or_throw, Post-throw_if, Post-return,
  Post-result,
}
use wusuq_web.Base.Int.{ℤ, pos_part, neg_part}
use wusuq_web.Base.Table
use wusuq_web.Store.{
  User, Ticket, Db, user_key, ticket_key, find_user, find_ticket, update_user, IsWellFormed,
  TransactionStatus, TransactionType,
}
use wusuq_web.Shared.Fx.{bank_transfer}
use wusuq_web.Shared.Money.{round2, round2_one}
use wusuq_web.Wallet.{
  balance_of, add_signed, apply_payment_to_ticket, clear_pending_tickets, due_now,
  pay_ticket_from_wallet, adjust_wallet, create_transaction,
}
use wusuq_web.Wallet.Money.{
  held, credit_total-update_user, update_user-IsWellFormed, apply_payment_to_ticket-Applied,
}
use wusuq_web.Wallet.Settle.{clear_pending_tickets-held}

-- What a payment has done.
pub record Paid (user_id ticket_id : ℕ) (db : Db) (result : ℕ × Db) : Type 0 where
  pub user : User
  pub ticket : Ticket
  pub found_user : find_user user_id db ≡ some user
  pub found_ticket : find_ticket ticket_id db ≡ some ticket
  pub applied : result.0 ≡ min user.wallet_balance (due_now ticket)
  pub is_positive : 0 < result.0
  pub balance : balance_of user_id result.1 ≡ user.wallet_balance - result.0
  pub held_kept : held result.1 ≡ held db
  pub well_formed : IsWellFormed result.1

-- The tables after the payment.
pay_state :
    (user_id : ℕ) (u : User) (t : Ticket) (n : ℕ) (db : Db)
    → IsWellFormed db
    → find_user user_id db ≡ some u
    → find_ticket t.id db ≡ some t
    → n ≤ u.wallet_balance
    → let db' =
        update_user user_id
          (λ v. record v { wallet_balance = round2 (u.wallet_balance - n) 1 })
          (apply_payment_to_ticket t n bank_transfer user_id db) in
      (balance_of user_id db' ≡ u.wallet_balance - n) × (held db' ≡ held db) × IsWellFormed db'
pay_state user_id u t n db w e f le =
    let debit : User → User = λ v. record v { wallet_balance = round2 (u.wallet_balance - n) 1 } in
    let paid = apply_payment_to_ticket t n bank_transfer user_id db in
    let a = apply_payment_to_ticket-Applied t n bank_transfer user_id db w f in
    let there : find_user user_id paid ≡ some u = rw a.users e in
    let now = Table.find_by-update_by_self user_key debit (λ _. refl) user_id paid.users u there in
    let total = credit_total-update_user user_id debit paid u a.well_formed there in
    let exact = round2_one (u.wallet_balance - n) in
    let users = ap (λ us. sum (λ (u : User). u.wallet_balance) us) a.users in
    (
      rw (balance_of, now) exact,
      omega (arith, total, exact, a.paid, users),
      update_user-IsWellFormed user_id debit paid (λ _. refl) a.well_formed,
    )

-- In well-formed tables, a payment from the wallet that succeeds applies the least of the balance
-- and of what is due now, and more than nothing; the balance goes down by just that, and all the
-- money that is held stays as it was.
pub pay_ticket_from_wallet-Paid :
    (user_id ticket_id : ℕ) (db : Db) (applied : ℕ) (db' : Db)
    → IsWellFormed db
    → pay_ticket_from_wallet user_id ticket_id db ≡ ok (applied, db')
    → Paid user_id ticket_id db (applied, db')
unfolding pay_ticket_from_wallet
pay_ticket_from_wallet-Paid user_id ticket_id db applied db' w h =
    Post-result {P = Paid user_id ticket_id db}
      (Post-or_throw not_found λ (u : User) e. Post-or_throw not_found λ (t : Ticket) f.
        Post-throw_if not_found λ x. Post-throw_if bad_request λ y. Post-throw_if bad_request λ z.
          let exact = round2_one (min u.wallet_balance (due_now t)) in
          let own = Table.find_by_own ticket_key ticket_id db.tickets t f in
          let n = round2 (min u.wallet_balance (due_now t)) 1 in
          let s = pay_state user_id u t n db w e own (omega (arith, exact)) in
          Post-return (record {
            user = u;
            ticket = t;
            found_user = e;
            found_ticket = f;
            applied = exact;
            is_positive = ground (arith, exact, y, z);
            balance = s.0;
            held_kept = s.1;
            well_formed = s.2;
          }))
      h

abbrev Adjusted : ℤ → Db → Db → Type 0
Adjusted amount db db' = (held db' + neg_part amount ≡ held db + pos_part amount) × IsWellFormed db'

adjusted :
    (user_id : ℕ) (amount : ℤ) (u : User) (db : Db)
    → IsWellFormed db
    → find_user user_id db ≡ some u
    → ltb (u.wallet_balance + pos_part amount) (neg_part amount) ≡ false
    → Adjusted amount db (
        update_user user_id
          (λ u. record u { wallet_balance = add_signed u.wallet_balance amount })
          db)
adjusted user_id amount u db w e x =
    let add : User → User = λ u. record u { wallet_balance = add_signed u.wallet_balance amount } in
    (
      ground (arith, credit_total-update_user user_id add db u w e, x),
      update_user-IsWellFormed user_id add db (λ _. refl) w,
    )

-- The same after the row of the ledger and the settlement.
new_row :
    (user_id : ℕ) (amount : ℤ) (u : User) (db : Db)
    → IsWellFormed db
    → find_user user_id db ≡ some u
    → ltb (u.wallet_balance + pos_part amount) (neg_part amount) ≡ false
    → let recorded =
        create_transaction none user_id amount bank_transfer u.currency TransactionStatus.verified
          TransactionType.admin_adjustment
          (update_user user_id
            (λ u. record u { wallet_balance = add_signed u.wallet_balance amount })
            db) in
      Adjusted amount db (
        if ltb 0 (pos_part amount)
        then clear_pending_tickets user_id (balance_of user_id recorded) bank_transfer recorded
        else recorded)
unfolding create_transaction
new_row user_id amount u db w e x =
    let add : User → User = λ u. record u { wallet_balance = add_signed u.wallet_balance amount } in
    let recorded =
      create_transaction none user_id amount bank_transfer u.currency TransactionStatus.verified
        TransactionType.admin_adjustment (update_user user_id add db) in
    let (total, well) = adjusted user_id amount u db w e x in
    let w' : IsWellFormed recorded = record { users = well.users; tickets = well.tickets } in
    let there : find_user user_id recorded ≡ some (add u) =
      Table.find_by-update_by_self user_key add (λ _. refl) user_id db.users u e in
    let settled = clear_pending_tickets-held user_id bank_transfer recorded (add u) w' there in
    elim (Bool-cases (ltb 0 (pos_part amount))) [
      | inl y ↦ rw (y, balance_of, there) (omega (arith, settled.0, total), settled.1)
      | inr y ↦ rw y (total, w')
    ]

adjust_wallet-Adjusted :
    (user_id : ℕ) (amount : ℤ) (db : Db)
    → IsWellFormed db
    → Post (Adjusted amount db) (adjust_wallet user_id amount db)
unfolding adjust_wallet create_transaction
adjust_wallet-Adjusted user_id amount db w =
    Post-or_throw not_found
      λ (u : User) e. Post-throw_if bad_request λ x. Post-return (new_row user_id amount u db w e x)

-- In well-formed tables, an adjustment that succeeds adds its signed amount to the money that is
-- held, also when tickets are settled from it.
pub adjust_wallet-held :
    (user_id : ℕ) (amount : ℤ) (db db' : Db)
    → IsWellFormed db
    → adjust_wallet user_id amount db ≡ ok db'
    → (held db' + neg_part amount ≡ held db + pos_part amount) × IsWellFormed db'
adjust_wallet-held user_id amount db db' w h =
    Post-result (adjust_wallet-Adjusted user_id amount db w) h
