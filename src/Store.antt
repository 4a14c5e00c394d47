-- ===== src/Store.antt =====
-- apps/api/prisma/schema.prisma: the tables that the money and lifecycle operations read and write.
-- A key (a cuid in the database) is a number, drawn in order from `next_id`; a table lists its rows
-- in the order of their creation; an amount is a whole number of hundredths.
pub mod Billing
use wusuq_web.Base.{ℕ, ◌≡◌, Bool, true, false, Option, List, arith, ◌==◌}
use wusuq_web.Base.Int.{ℤ}
use wusuq_web.Base.Table
use wusuq_web.Shared.Flows.{Flow, Currency}
use wusuq_web.Shared.Money.{TicketChargeComponents}
use wusuq_web.Shared.Fx.{PaymentMode}
use wusuq_web.Store.Billing.{PromoCode, PromoRedemption, Invoice, InvoiceItem}

pub data UserRole : Type 0 where
  super_admin manager_admin staff_admin lead_admin : UserRole
  lawyer consumer representative investor company : UserRole

pub record User : Type 0 where
  pub id : ℕ
  pub role : UserRole
  pub is_active : Bool
  pub currency : Currency
  pub wallet_balance : ℕ
  pub city : Option (List ℕ)
  pub court_city : Option (List ℕ)
  pub phone : Option (List ℕ)
  pub country : Option (List ℕ)

pub data TicketStatus : Type 0 where
  unpaid paid assigned in_progress waiting_approval completed delivered : TicketStatus

pub data ClerkApprovalStatus : Type 0 where
  pending submitted verified rejected : ClerkApprovalStatus

pub data DeliveryStatus : Type 0 where
  pending dispatched : DeliveryStatus

-- The page counts behind three of the charges.
pub record PageCounts : Type 0 where
  pub no_of_pages : Option ℕ
  pub cost_per_page : Option ℕ
  pub attested_pages : Option ℕ
  pub attested_cost_per_page : Option ℕ
  pub non_attested_pages : Option ℕ
  pub non_attested_cost_per_page : Option ℕ

-- What the clerk submitted (`clerk*Charges`).
pub record ClerkSnapshot : Type 0 where
  pub attested : Option ℕ
  pub non_attested : Option ℕ
  pub printing : Option ℕ
  pub delivery : Option ℕ

-- `remainder_finalized` and `archived` say whether the date column is set, and
-- `want_pdf` what the intake's payload says of it.
pub record Ticket : Type 0 where
  pub id : ℕ
  pub consumer_id : ℕ
  pub status : TicketStatus
  pub intake_flow : Option Flow
  pub currency : Currency
  pub fx_rate_to_pkr : Option ℕ
  pub service_city : Option (List ℕ)
  pub charges : TicketChargeComponents
  pub pages : PageCounts
  pub clerk : ClerkSnapshot
  pub discount_price : ℕ
  pub promo_discount : ℕ
  pub tax_rate : ℕ
  pub tax_amount : ℕ
  pub clerk_cost : ℕ
  pub default_clerk_cost : Option ℕ
  pub clerk_approval_status : ClerkApprovalStatus
  pub clerk_receipt_url : Option ℕ
  pub delivery_status : DeliveryStatus
  pub dispatch_proof_url : Option ℕ
  pub tracking_no : Option ℕ
  pub remainder_finalized : Bool
  pub total_amount : ℕ
  pub amount_paid : ℕ
  pub archived : Bool
  pub want_pdf : Bool
  pub promo_code_id : Option ℕ
  pub intake_request_id : Option ℕ
  pub scheduled_date : Option ℕ
  pub previous_hearing_date : Option ℕ

pub data TransactionStatus : Type 0 where
  pending_verification verified rejected : TransactionStatus

pub data TransactionType : Type 0 where
  topup ticket_payment ticket_debit admin_adjustment : TransactionType

pub record WalletTransaction : Type 0 where
  pub id : ℕ
  pub user_id : ℕ
  pub ticket_id : Option ℕ
  pub amount : ℤ
  pub payment_mode : PaymentMode
  pub currency : Currency
  pub pkr_amount_entered : Option ℕ
  pub fx_rate_to_pkr : Option ℕ
  pub status : TransactionStatus
  pub type : TransactionType
  pub reviewed_by : Option ℕ

pub data AssignmentStatus : Type 0 where
  active accepted rejected superseded : AssignmentStatus

pub record Assignment : Type 0 where
  pub id : ℕ
  pub ticket_id : ℕ
  pub representative_id : ℕ
  pub status : AssignmentStatus

pub record StatusHistory : Type 0 where
  pub ticket_id : ℕ
  pub from : Option TicketStatus
  pub to : TicketStatus

pub data PaymentStatus : Type 0 where
  initiated success failed cancelled : PaymentStatus

-- `provider_txn_id` is the unique key under which the gateway's callbacks find the row.
pub record Payment : Type 0 where
  pub provider_txn_id : ℕ
  pub ticket_id : ℕ
  pub status : PaymentStatus
  pub amount : ℕ

-- `ticket_id` is `metadata.ticketId`.
pub record Notification : Type 0 where
  pub id : ℕ
  pub user_id : ℕ
  pub ticket_id : Option ℕ

pub record Db : Type 0 where
  pub users : List User
  pub tickets : List Ticket
  pub transactions : List WalletTransaction
  pub assignments : List Assignment
  pub history : List StatusHistory
  pub payments : List Payment
  pub promos : List PromoCode
  pub redemptions : List PromoRedemption
  pub invoices : List Invoice
  pub invoice_items : List InvoiceItem
  pub notifications : List Notification
  pub next_id : ℕ

abbrev pub user_key : User → ℕ
user_key u = u.id

abbrev pub ticket_key : Ticket → ℕ
ticket_key t = t.id

abbrev pub transaction_key : WalletTransaction → ℕ
transaction_key t = t.id

abbrev pub payment_key : Payment → ℕ
payment_key p = p.provider_txn_id

abbrev pub assignment_key : Assignment → ℕ
assignment_key a = a.id

-- `findUnique` on the tables.
abbrev pub find_user : ℕ → Db → Option User
find_user id db = Table.find_by user_key id db.users

abbrev pub find_ticket : ℕ → Db → Option Ticket
find_ticket id db = Table.find_by ticket_key id db.tickets

abbrev pub find_transaction : ℕ → Db → Option WalletTransaction
find_transaction id db = Table.find_by transaction_key id db.transactions

abbrev pub find_payment : ℕ → Db → Option Payment
find_payment id db = Table.find_by payment_key id db.payments

abbrev pub is_initiated : PaymentStatus → Bool
is_initiated initiated = true
is_initiated _ = false

-- `update` on the tables.
abbrev pub update_user : ℕ → (User → User) → Db → Db
update_user id f db = record db { users = Table.update_by user_key id f db.users }

abbrev pub update_ticket : ℕ → (Ticket → Ticket) → Db → Db
update_ticket id f db = record db { tickets = Table.update_by ticket_key id f db.tickets }

abbrev pub update_transaction : ℕ → (WalletTransaction → WalletTransaction) → Db → Db
update_transaction id f db = record db {
  transactions = Table.update_by transaction_key id f db.transactions;
}

-- The statuses in the order of the lifecycle.
abbrev pub rank : TicketStatus → ℕ
rank unpaid = 0
rank paid = 1
rank assigned = 2
rank in_progress = 3
rank waiting_approval = 4
rank completed = 5
rank delivered = 6

infix 50 ◌is◌
abbrev pub ◌is◌ : TicketStatus → TicketStatus → Bool
s is t = rank s == rank t

pub eq_of_is : (s t : TicketStatus) → (s is t) ≡ true → s ≡ t
eq_of_is s t h = ground arith

abbrev pub is_pending : TransactionStatus → Bool
is_pending pending_verification = true
is_pending _ = false

abbrev pub is_dispatched : DeliveryStatus → Bool
is_dispatched dispatched = true
is_dispatched pending = false

-- No two users share their key, and no two tickets.
pub record IsWellFormed (db : Db) : Type 0 where
  pub users : Table.Distinct user_key db.users
  pub tickets : Table.Distinct ticket_key db.tickets
