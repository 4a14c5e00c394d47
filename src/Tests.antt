-- ===== src/Tests.antt =====
-- Test data: one consumer, two representatives, and a few tickets.
pub mod Money
pub mod Payments
pub mod Orders
pub mod Auth
pub mod Sessions
pub mod Users
pub mod Cases
pub mod Ledger
pub mod Wallet
pub mod Tickets
use wusuq_web.Base.{ℕ, Bool, true, false, Option, none, some, List, [], ◌∷◌, refl}
use wusuq_web.Base.Int.{pos}
use wusuq_web.Shared.Flows.{Flow, judicial_case_files, pkr}
use wusuq_web.Shared.Fx.{jazz_cash}
use wusuq_web.Shared.Money.{TicketChargeComponents}
use wusuq_web.Store.{
  User, UserRole, consumer, representative, Ticket, TicketStatus, unpaid, paid, completed,
  delivered, waiting_approval, in_progress, ClerkApprovalStatus, DeliveryStatus, PageCounts,
  ClerkSnapshot, WalletTransaction, TransactionStatus, TransactionType, Assignment,
  AssignmentStatus, Db, IsWellFormed,
}

abbrev pub user : ℕ → UserRole → ℕ → User
user id role balance = record {
  id = id;
  role = role;
  is_active = true;
  currency = pkr;
  wallet_balance = balance;
  city = none;
  court_city = none;
  phone = none;
  country = none;
}

abbrev pub charges : ℕ → ℕ → TicketChargeComponents
charges service_cost printing = record {
  service_cost = service_cost;
  delivery_charges = 0;
  printing_charges = printing;
  attested_charges = 0;
  non_attested_charges = 0;
  additional_charges = 0;
  additional_service_cost = 0;
}

abbrev pub pages : PageCounts
pages = record {
  no_of_pages = none;
  cost_per_page = none;
  attested_pages = none;
  attested_cost_per_page = none;
  non_attested_pages = none;
  non_attested_cost_per_page = none;
}

abbrev pub ticket : ℕ → TicketStatus → ℕ → ℕ → Ticket
ticket id status total received = record {
  id = id;
  consumer_id = 1;
  status = status;
  intake_flow = some judicial_case_files;
  currency = pkr;
  fx_rate_to_pkr = none;
  service_city = none;
  charges = charges total 0;
  pages = pages;
  clerk = record { attested = none; non_attested = none; printing = none; delivery = none };
  discount_price = 0;
  promo_discount = 0;
  tax_rate = 0;
  tax_amount = 0;
  clerk_cost = 0;
  default_clerk_cost = none;
  clerk_approval_status = ClerkApprovalStatus.pending;
  clerk_receipt_url = none;
  delivery_status = DeliveryStatus.dispatched;
  dispatch_proof_url = none;
  tracking_no = none;
  remainder_finalized = false;
  total_amount = total;
  amount_paid = received;
  archived = false;
  want_pdf = false;
  promo_code_id = none;
  intake_request_id = none;
  scheduled_date = none;
  previous_hearing_date = none;
}

abbrev pub customer : User
customer = user 1 consumer 70_00

abbrev pub topup_row : WalletTransaction
topup_row = record {
  id = 5;
  user_id = 1;
  ticket_id = none;
  amount = pos 30_00;
  payment_mode = jazz_cash;
  currency = pkr;
  pkr_amount_entered = none;
  fx_rate_to_pkr = none;
  status = TransactionStatus.pending_verification;
  type = TransactionType.topup;
  reviewed_by = none;
}

-- Ticket 10 waits to be paid, 11 is partly paid, 12 is paid and 13 is delivered; 14 is worked on,
-- 15 is in review with more paid than its total, and 16 is completed.
abbrev pub rows : List Ticket
rows =
    ticket 10 unpaid 50_00 0
    ∷ ticket 11 unpaid 40_00 10_00
    ∷ ticket 12 paid 20_00 20_00
    ∷ ticket 13 delivered 20_00 20_00
    ∷ ticket 14 in_progress 20_00 20_00
    ∷ ticket 15 waiting_approval 20_00 25_00
    ∷ ticket 16 completed 20_00 20_00
    ∷ []

abbrev pub db : Db
db = record {
  users = customer ∷ user 2 representative 0 ∷ user 3 representative 0 ∷ [];
  tickets = rows;
  transactions = topup_row ∷ [];
  assignments =
      record { id = 7; ticket_id = 12; representative_id = 2; status = AssignmentStatus.active }
      ∷ [];
  history = [];
  payments = [];
  promos = [];
  redemptions = [];
  invoices = [];
  invoice_items = [];
  notifications = [];
  next_id = 20;
}

pub db-IsWellFormed : IsWellFormed db
db-IsWellFormed = record {
  users = (refl, (refl, (refl, tt)));
  tickets = (refl, (refl, (refl, (refl, (refl, (refl, (refl, tt)))))));
}
