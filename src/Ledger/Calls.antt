-- ===== src/Ledger/Calls.antt =====
-- The calls that concern money keep the keys and the foreign keys: apps/api/src/wallet,
-- apps/api/src/tickets, apps/api/src/payments and apps/api/src/finance.
use wusuq_web.Base.{
  ℕ, ◌≡◌, refl, Bool, Option, none, ltb, Bool-cases, inl, inr, ok, Post, Post-bind, Post-or_throw,
  Post-throw_if, Post-ensure, Post-return, Post-result, not_found, bad_request, conflict,
}
use wusuq_web.Base.Int.{ℤ, pos_part}
use wusuq_web.Shared.Flows.{Currency}
use wusuq_web.Shared.Fx.{PaymentMode, bank_transfer}
use wusuq_web.Store.{
  User, Ticket, WalletTransaction, TransactionStatus, TransactionType, Db, update_user, is_pending,
}
use wusuq_web.Wallet.{
  TopupWalletDto, topup, ensure_user_exists_and_active, credit_ticket, apply_payment_to_ticket,
  clear_pending_tickets, settle_tickets_for_user, verify_locked, verify_topup, reject_topup,
  pay_ticket_from_wallet, adjust_wallet, TopupAmount,
}
use wusuq_web.Wallet.Keeps.{clear_pending_tickets-keeps, settle_tickets_for_user-keeps}
use wusuq_web.Tickets.Finalize.{
  FinalizeRemainderDto, credit_surplus, finalized, finalize_remainder_core, finalize_remainder,
}
use wusuq_web.Tickets.Finalize.Reprice.{Resolved, RepriceTicketDto, repriced, reprice_ticket}
use wusuq_web.Finance.{ReconcilePaymentDto, reconciled, reconcile_payment}
use wusuq_web.Ledger.{
  HasUser, IsLedger, write_user, write_ticket, add_transaction, create_transaction-IsLedger,
  mark_transaction,
}

pay-IsLedger :
    (t : Ticket) (n : ℕ) (mode : PaymentMode) (user_id : ℕ) (db : Db)
    → IsLedger db
    → IsLedger (apply_payment_to_ticket t n mode user_id db)
unfolding apply_payment_to_ticket
pay-IsLedger t n mode user_id db l =
    create_transaction-IsLedger _ _ _ _ _ _ _ _ refl
      (write_ticket t.id (credit_ticket t n) db (λ _. refl) (λ _. refl) l)

write-IsLedger :
    (id n : ℕ) (db : Db)
    → IsLedger db
    → IsLedger (update_user id (λ u. record u { wallet_balance = n }) db)
write-IsLedger id n db l = write_user id _ db (λ _. refl) l

clear-IsLedger :
    (user_id n : ℕ) (mode : PaymentMode) (db : Db)
    → IsLedger db
    → IsLedger (clear_pending_tickets user_id n mode db)
clear-IsLedger user_id n mode db l =
    clear_pending_tickets-keeps IsLedger pay-IsLedger write-IsLedger user_id n mode db l

pub settle_tickets_for_user-IsLedger :
    (user_id : ℕ) (db : Db) → IsLedger db → IsLedger (settle_tickets_for_user user_id db)
settle_tickets_for_user-IsLedger user_id db l =
    settle_tickets_for_user-keeps IsLedger pay-IsLedger write-IsLedger user_id db l

pub verify_topup-IsLedger :
    (id : ℕ) (reviewer : Option ℕ) (db : Db)
    → IsLedger db
    → Post (λ (s : Bool × Db). IsLedger s.1) (verify_topup id reviewer db)
unfolding verify_topup verify_locked
verify_topup-IsLedger id reviewer db l = Post-or_throw not_found λ (row : WalletTransaction) e.
    Post-return (elim (Bool-cases (is_pending row.status)) [
      | inl y ↦ rw y (
          clear-IsLedger row.user_id _ row.payment_mode _
            (write_user row.user_id _ _ (λ _. refl) (mark_transaction id _ db (λ _. refl) l)))
      | inr n ↦ rw n l
    ])

pub reject_topup-IsLedger :
    (id : ℕ) (reviewer : Option ℕ) (db : Db)
    → IsLedger db
    → Post (λ (s : Bool × Db). IsLedger s.1) (reject_topup id reviewer db)
unfolding reject_topup
reject_topup-IsLedger id reviewer db l = Post-or_throw not_found λ (row : WalletTransaction) e.
    Post-return (elim (Bool-cases (is_pending row.status)) [
      | inl y ↦ rw y (mark_transaction id _ db (λ _. refl) l)
      | inr n ↦ rw n l
    ])

pub pay_ticket_from_wallet-IsLedger :
    (user_id ticket_id : ℕ) (db : Db)
    → IsLedger db
    → Post (λ (s : ℕ × Db). IsLedger s.1) (pay_ticket_from_wallet user_id ticket_id db)
unfolding pay_ticket_from_wallet
pay_ticket_from_wallet-IsLedger user_id ticket_id db l = Post-or_throw not_found λ (u : User) e.
    Post-or_throw not_found λ (t : Ticket) f. Post-throw_if not_found λ _.
      Post-throw_if bad_request λ _.
        Post-throw_if bad_request λ _.
          Post-return (write-IsLedger user_id _ _ (pay-IsLedger t _ bank_transfer user_id db l))

pub adjust_wallet-IsLedger :
    (user_id : ℕ) (amount : ℤ) (db : Db)
    → IsLedger db
    → Post IsLedger (adjust_wallet user_id amount db)
unfolding adjust_wallet
adjust_wallet-IsLedger user_id amount db l = Post-or_throw not_found λ (u : User) e.
    Post-throw_if bad_request λ _.
      let recorded =
        create_transaction-IsLedger none user_id amount bank_transfer u.currency
          TransactionStatus.verified TransactionType.admin_adjustment _ refl
          (write_user user_id _ db (λ _. refl) l) in
      Post-return (elim (Bool-cases (ltb 0 (pos_part amount))) [
        | inl y ↦ rw y (clear-IsLedger user_id _ bank_transfer _ recorded)
        | inr n ↦ rw n recorded
      ])

surplus-IsLedger : (t : Ticket) (n : ℕ) (db : Db) → IsLedger db → IsLedger (credit_surplus t n db)
unfolding credit_surplus
surplus-IsLedger t n db l = elim (Bool-cases (ltb 0 n)) [
  | inl y ↦ rw y (
      create_transaction-IsLedger _ _ _ _ _ _ _ _ refl
        (write_user t.consumer_id _ db (λ _. refl) l))
  | inr m ↦ rw m l
]

pub finalize_remainder_core-IsLedger :
    (id : ℕ) (dto : FinalizeRemainderDto) (db : Db)
    → IsLedger db
    → Post IsLedger (finalize_remainder_core id dto db)
unfolding finalize_remainder_core finalized
finalize_remainder_core-IsLedger id dto db l = Post-or_throw not_found λ (t : Ticket) _.
    Post-throw_if conflict λ _. Post-ensure bad_request λ _.
      Post-return
        (write_ticket id (finalized dto t) _ (λ _. refl) (λ _. refl) (surplus-IsLedger t _ db l))

pub finalize_remainder-IsLedger :
    (id : ℕ) (dto : FinalizeRemainderDto) (db : Db)
    → IsLedger db
    → Post IsLedger (finalize_remainder id dto db)
unfolding finalize_remainder
finalize_remainder-IsLedger id dto db l = Post-or_throw not_found λ (t : Ticket) _.
    Post-bind λ (written : Db) f. Post-return (
      settle_tickets_for_user-IsLedger t.consumer_id written
        (Post-result (finalize_remainder_core-IsLedger id dto db l) f))

pub reprice_ticket-IsLedger :
    (id : ℕ) (resolved : Resolved) (rate : ℕ) (dto : RepriceTicketDto) (db : Db)
    → IsLedger db
    → Post IsLedger (reprice_ticket id resolved rate dto db)
unfolding reprice_ticket repriced
reprice_ticket-IsLedger id resolved rate dto db l = Post-or_throw not_found λ (t : Ticket) _.
    Post-throw_if bad_request λ _. Post-ensure bad_request λ _. Post-return (
      write_ticket id (repriced t resolved rate dto) _ (λ _. refl) (λ _. refl)
        (surplus-IsLedger t _ db l))

pub reconcile_payment-IsLedger :
    (id : ℕ) (dto : ReconcilePaymentDto) (db : Db)
    → IsLedger db
    → Post (λ (s : ℕ × Db). IsLedger s.1) (reconcile_payment id dto db)
unfolding reconcile_payment
reconcile_payment-IsLedger id dto db l = Post-or_throw not_found λ (t : Ticket) _.
    Post-throw_if bad_request λ _. Post-return (
      create_transaction-IsLedger _ _ _ _ _ _ _ _ refl
        (write_ticket id (reconciled t dto.amount) db (λ _. refl) (λ _. refl) l))

pub topup-IsLedger : (dto : TopupWalletDto) (db : Db) → IsLedger db → Post IsLedger (topup dto db)
unfolding topup ensure_user_exists_and_active
topup-IsLedger dto db l = Post-bind λ (c : Currency) e.
    Post-bind λ (t : Option (Currency × Option ℕ)) _.
      Post-bind λ (a : TopupAmount) _. Post-return (add_transaction _ db (λ _. (refl, user e)) l)
  where
    user :
        {c : Currency}
        → ensure_user_exists_and_active dto.user_id db ≡ ok c
        → HasUser dto.user_id db
    user e =
        Post-result {P = λ (_ : Currency). HasUser dto.user_id db}
          (Post-or_throw not_found λ (u : User) f. Post-ensure bad_request λ _. Post-return (u, f))
          e
