-- ===== src/Wallet.antt =====
-- apps/api/src/wallet/wallet.service.ts: prepaid credit, its top-ups and its use for tickets.
-- A throw leaves the tables as they were: every throw comes before the first write of its call, or
-- inside the one database transaction that the call makes.
pub mod Money
pub mod Settle
pub mod Keeps
pub mod Dues
pub mod Fifo
pub mod Topup
pub mod Pay
use wusuq_web.Base.{
  ℕ, suc, ◌+◌, ◌-◌, ◌*◌, Bool, true, false, not, ◌&&◌, ◌||◌, Option, none, some, List, [], ◌∷◌,
  ◌++◌, map, min, ltb, leb, ◌==◌, if◌then◌else◌, filterb, sum, Result, ok, err, ◌>>=◌, ◌>>◌,
  throw_if, ensure, or_throw, bad_request, not_found,
}
use wusuq_web.Base.Int.{ℤ, pos, pos_part, neg_part, sub_ℕ}
use wusuq_web.Shared.Flows.{Currency, is_usd, is_split, payment_model_for}
use wusuq_web.Shared.Money.{million, round2}
use wusuq_web.Shared.Fx.{PaymentMode, bank_transfer, is_pkr_rail}
use wusuq_web.Store.{
  Ticket, unpaid, paid, delivered, WalletTransaction, TransactionStatus, TransactionType, Db,
  find_user, find_ticket, find_transaction, update_user, update_ticket, update_transaction,
  is_pending, ◌is◌,
}

-- `resolveTopupAmount`: the native amount to credit, and the PKR figure and rate it came from.
pub record TopupAmount : Type 0 where
  pub amount : ℕ
  pub pkr_amount_entered : Option ℕ
  pub fx_rate_to_pkr : Option ℕ

as_entered : ℕ → TopupAmount
as_entered entered = record { amount = entered; pkr_amount_entered = none; fx_rate_to_pkr = none }

converted : ℕ → Option ℕ → Result TopupAmount
converted entered none = err bad_request
converted entered (some rate) =
    if rate == 0
    then err bad_request
    else ok (record {
      amount = round2 (entered * million) rate;
      pkr_amount_entered = some entered;
      fx_rate_to_pkr = some rate;
    })

-- The ticket is given by its currency and its stamped rate.
unfoldable pub resolve_topup_amount :
    ℕ → PaymentMode → Option (Currency × Option ℕ) → Result TopupAmount
unfolding as_entered converted is_pkr_rail
resolve_topup_amount entered mode none = ok (as_entered entered)
resolve_topup_amount entered mode (some (currency, rate)) =
    if is_usd currency && is_pkr_rail mode then converted entered rate else ok (as_entered entered)

-- The `TopupWalletDto`, once the controller has set `userId`; `receiptUrl` is not kept.
pub record TopupWalletDto : Type 0 where
  pub user_id : ℕ
  pub amount : ℕ
  pub payment_mode : PaymentMode
  pub ticket_id : Option ℕ

-- The rows' columns that every path fills.
abbrev transaction :
    ℕ
    → ℕ
    → Option ℕ
    → ℤ
    → PaymentMode
    → Currency
    → TransactionStatus
    → TransactionType
    → WalletTransaction
transaction id user_id ticket_id amount mode currency status type = record {
  id = id;
  user_id = user_id;
  ticket_id = ticket_id;
  amount = amount;
  payment_mode = mode;
  currency = currency;
  pkr_amount_entered = none;
  fx_rate_to_pkr = none;
  status = status;
  type = type;
  reviewed_by = none;
}

-- `walletTransaction.create`, with the next key.
unfoldable pub create_transaction :
    Option ℕ → ℕ → ℤ → PaymentMode → Currency → TransactionStatus → TransactionType → Db → Db
create_transaction ticket_id user_id amount mode currency status type db = record db {
  transactions =
      db.transactions
      ++ (transaction db.next_id user_id ticket_id amount mode currency status type ∷ []);
  next_id = suc db.next_id;
}

unfoldable pub ensure_user_exists_and_active : ℕ → Db → Result Currency
ensure_user_exists_and_active id db = do
  user ← or_throw (find_user id db) not_found
  ensure user.is_active bad_request
  ok user.currency

-- The ticket that a top-up names, which must exist.
topup_ticket : Option ℕ → Db → Result (Option (Currency × Option ℕ))
topup_ticket none db = ok none
topup_ticket (some id) db = do
  ticket ← or_throw (find_ticket id db) not_found
  ok (some (ticket.currency, ticket.fx_rate_to_pkr))

abbrev topup_type : Option ℕ → TransactionType
topup_type none = TransactionType.topup
topup_type (some _) = TransactionType.ticket_payment

unfoldable pub topup : TopupWalletDto → Db → Result Db
unfolding ensure_user_exists_and_active topup_ticket resolve_topup_amount
topup dto db = do
  currency ← ensure_user_exists_and_active dto.user_id db
  ticket ← topup_ticket dto.ticket_id db
  resolved ← resolve_topup_amount dto.amount dto.payment_mode ticket
  let row =
      transaction db.next_id dto.user_id dto.ticket_id (pos resolved.amount) dto.payment_mode
        currency TransactionStatus.pending_verification (topup_type dto.ticket_id)
  ok (record db {
    transactions =
        db.transactions
        ++ (record row {
          pkr_amount_entered = resolved.pkr_amount_entered;
          fx_rate_to_pkr = resolved.fx_rate_to_pkr;
        }
            ∷ []);
    next_id = suc db.next_id;
  })

-- The ticket's columns that a payment writes: an UNPAID ticket whose base is covered becomes PAID.
abbrev pub credit_ticket : Ticket → ℕ → Ticket → Ticket
credit_ticket ticket deducted t = record t {
  amount_paid = t.amount_paid + deducted;
  status =
      if ticket.status is unpaid && leb ticket.charges.service_cost (ticket.amount_paid + deducted)
      then paid
      else t.status;
}

-- `applyPaymentToTicket`, on the ticket as the caller read it under its lock.
unfoldable pub apply_payment_to_ticket : Ticket → ℕ → PaymentMode → ℕ → Db → Db
unfolding create_transaction
apply_payment_to_ticket ticket deducted mode user_id db =
    create_transaction (some ticket.id) user_id (pos deducted) mode ticket.currency
      TransactionStatus.verified TransactionType.ticket_debit
      (update_ticket ticket.id (credit_ticket ticket deducted) db)

-- One round of the loop of `clearPendingTickets`, on the credit that is left and the ticket as it
-- is read under its lock.
unfoldable pub settle_fresh : ℕ → PaymentMode → Ticket → ℕ × Db → ℕ × Db
settle_fresh user_id mode fresh (remaining, db) =
    if fresh.status is delivered
    then (remaining, db)
    else if leb fresh.total_amount 0
    then (remaining, db)
    else if leb fresh.total_amount fresh.amount_paid
    then (remaining, db)
    else let deducted = min remaining (fresh.total_amount - fresh.amount_paid) in
      (remaining - deducted, apply_payment_to_ticket fresh deducted mode user_id db)

unfoldable pub settle_ticket : ℕ → PaymentMode → ℕ → ℕ × Db → ℕ × Db
settle_ticket user_id mode id s = elim (find_ticket id s.1) [
  | none ↦ s
  | some fresh ↦ settle_fresh user_id mode fresh s
]

-- The loop, which stops when the credit is used up.
unfoldable pub settle_tickets : ℕ → PaymentMode → List ℕ → ℕ × Db → ℕ × Db
settle_tickets user_id mode [] s = s
settle_tickets user_id mode (id ∷ ids) s =
    let rest = settle_tickets user_id mode ids (settle_ticket user_id mode id s) in
    if leb s.0 0 then s else rest

-- `where: { consumerId, status: { notIn: ['DELIVERED'] }, archivedAt: null }`.
abbrev pub is_open_for : ℕ → Ticket → Bool
is_open_for user_id t = t.consumer_id == user_id && (not (t.status is delivered) && not t.archived)

-- The ids of the consumer's open tickets, oldest first.
abbrev pub candidate_ids : ℕ → Db → List ℕ
candidate_ids user_id db = map (λ t. t.id) (filterb (is_open_for user_id) db.tickets)

unfoldable pub clear_pending_tickets : ℕ → ℕ → PaymentMode → Db → Db
unfolding settle_tickets
clear_pending_tickets user_id post_topup_balance mode db =
    let (remaining, db') =
      settle_tickets user_id mode (candidate_ids user_id db) (post_topup_balance, db) in
    update_user user_id (λ u. record u { wallet_balance = remaining }) db'

unfoldable pub settle_tickets_for_user : ℕ → Db → Db
unfolding clear_pending_tickets
settle_tickets_for_user user_id db = elim (find_user user_id db) [
  | none ↦ db
  | some user ↦ clear_pending_tickets user_id user.wallet_balance bank_transfer db
]

-- `{ increment: amount }` on a balance. No path takes the sum below zero.
abbrev pub add_signed : ℕ → ℤ → ℕ
add_signed balance amount = balance + pos_part amount - neg_part amount

abbrev pub balance_of : ℕ → Db → ℕ
balance_of user_id db = elim (find_user user_id db) [ none ↦ 0 | some u ↦ u.wallet_balance ]

-- What `verifyTopup` does with the transaction that it has locked. The row stays locked, so the
-- conditional update always finds it as it was read.
unfoldable pub verify_locked : ℕ → Option ℕ → WalletTransaction → Db → Bool × Db
unfolding clear_pending_tickets
verify_locked transaction_id reviewer locked db =
    let verified =
      update_transaction transaction_id
        (λ t. record t { status = TransactionStatus.verified; reviewed_by = reviewer }) db in
    let credited =
      update_user locked.user_id
        (λ u. record u { wallet_balance = add_signed u.wallet_balance locked.amount }) verified in
    if is_pending locked.status
    then (
      false,
      clear_pending_tickets locked.user_id (balance_of locked.user_id credited) locked.payment_mode
          credited,
    )
    else (true, db)

-- `verifyTopup`: the result says whether the transaction had been processed before.
unfoldable pub verify_topup : ℕ → Option ℕ → Db → Result (Bool × Db)
unfolding verify_locked
verify_topup transaction_id reviewer db = do
  locked ← or_throw (find_transaction transaction_id db) not_found
  ok (verify_locked transaction_id reviewer locked db)

unfoldable pub reject_topup : ℕ → Option ℕ → Db → Result (Bool × Db)
reject_topup transaction_id reviewer db = do
  locked ← or_throw (find_transaction transaction_id db) not_found
  let rejected =
      update_transaction transaction_id
        (λ t. record t { status = TransactionStatus.rejected; reviewed_by = reviewer }) db
  ok (if is_pending locked.status then (false, rejected) else (true, db))

-- What the consumer owes now: of a split flow only the base, until the remainder is finalized.
unfoldable pub due_now : Ticket → ℕ
due_now ticket =
    if is_split (payment_model_for ticket.intake_flow ticket.currency)
      && not ticket.remainder_finalized
    then round2 (ticket.charges.service_cost - ticket.amount_paid) 1
    else round2 (ticket.total_amount - ticket.amount_paid) 1

-- `payTicketFromWallet`, with the amount that it applied.
unfoldable pub pay_ticket_from_wallet : ℕ → ℕ → Db → Result (ℕ × Db)
unfolding due_now apply_payment_to_ticket
pay_ticket_from_wallet user_id ticket_id db = do
  user ← or_throw (find_user user_id db) not_found
  ticket ← or_throw (find_ticket ticket_id db) not_found
  throw_if (ticket.archived || not (ticket.consumer_id == user_id)) not_found
  throw_if (leb ticket.total_amount 0 || leb (due_now ticket) 0) bad_request
  throw_if (leb user.wallet_balance 0) bad_request
  let applied = round2 (min user.wallet_balance (due_now ticket)) 1
  ok (
    applied,
    update_user user_id
        (λ u. record u { wallet_balance = round2 (user.wallet_balance - applied) 1 })
        (apply_payment_to_ticket ticket applied bank_transfer user_id db),
  )

-- `adjustWallet`, with the balance that it returns.
unfoldable pub adjust_wallet : ℕ → ℤ → Db → Result Db
unfolding clear_pending_tickets create_transaction
adjust_wallet user_id amount db = do
  current ← or_throw (find_user user_id db) not_found
  throw_if (ltb (current.wallet_balance + pos_part amount) (neg_part amount)) bad_request
  let adjusted =
      update_user user_id (λ u. record u { wallet_balance = add_signed u.wallet_balance amount }) db
  let recorded =
      create_transaction none user_id amount bank_transfer current.currency
        TransactionStatus.verified TransactionType.admin_adjustment adjusted
  ok (
      if ltb 0 (pos_part amount)
      then clear_pending_tickets user_id (balance_of user_id recorded) bank_transfer recorded
      else recorded)

-- `outstandingDuesForUser`.
abbrev pub remaining_due : Ticket → ℕ
remaining_due t = if leb t.total_amount 0 then 0 else t.total_amount - t.amount_paid

unfoldable pub outstanding_dues_for_user : ℕ → Db → ℕ
outstanding_dues_for_user user_id db = sum remaining_due (filterb (is_open_for user_id) db.tickets)

-- The balance of `getMyWallet`, which goes below zero when more is due than was topped up.
unfoldable pub my_wallet_balance : ℕ → Db → Result ℤ
unfolding outstanding_dues_for_user
my_wallet_balance user_id db = do
  user ← or_throw (find_user user_id db) not_found
  ok (sub_ℕ user.wallet_balance (outstanding_dues_for_user user_id db))
