-- ===== src/Tickets/Intake.antt =====
-- apps/api/src/tickets/tickets.service.ts: `createIntakeTicket` and `assembleIntakeMoney`.
mod Order
pub mod Created
pub mod Ordered
pub mod Replay
pub mod Resent
pub mod Limits
unfoldable pub use Order.*
use wusuq_web.Base.{
  ℕ, suc, Bool, true, false, not, ◌&&◌, Option, none, some, List, [], ◌∷◌, ◌++◌, find, ◌==◌, ◌⁇◌,
  if◌then◌else◌, Result, ok, err, ◌>>=◌, ◌>>◌, throw_if, ensure, or_throw, bad_request, not_found,
  forbidden, internal,
}
use wusuq_web.Base.Text.{Text, given}
use wusuq_web.Shared.Flows.{
  Flow, is_flow_key, Currency, pkr, usd, is_usd, is_split, payment_model_for,
}
use wusuq_web.Shared.Money.{TicketChargeComponents, TicketMoneyResult, compute_ticket_total}
use wusuq_web.Store.{
  UserRole, lawyer, consumer, company, Ticket, unpaid, ClerkApprovalStatus, DeliveryStatus, Db,
  find_user,
}
use wusuq_web.Promos.{PromoValidation, valid, invalid, ValidateArgs, validate, redeem}
use wusuq_web.Pricing.{
  PricingRule, PricingMode, ResolvePricingDto, Resolution, unmatched, unavailable, priced, resolve,
}
use wusuq_web.Tickets.{Actor}
use wusuq_web.Wallet.{settle_tickets_for_user}

-- The row that the intake creates. Without a price the charges of the quote are 0, and so are the
-- columns.
unfoldable pub new_ticket :
    IntakeEnv → CreateTicketIntakeDto → ℕ → Currency → Quote → PromoUse → ℕ → Ticket
unfolding assemble_intake_charges assemble_intake_money
new_ticket env dto consumer_id currency quote promo id =
    let tax_rate = if is_usd currency then 0 else env.tax_rate in
    let charges = assemble_intake_charges dto.flow currency quote in
    let money = assemble_intake_money charges tax_rate promo.promo_discount in
    record {
      id = id;
      consumer_id = consumer_id;
      status = unpaid;
      intake_flow = some dto.flow;
      currency = currency;
      fx_rate_to_pkr = if is_usd currency then env.rate_to_pkr else none;
      service_city = dto.service_city;
      charges = charges;
      pages = record {
        no_of_pages = none;
        cost_per_page = none;
        attested_pages = none;
        attested_cost_per_page = none;
        non_attested_pages = none;
        non_attested_cost_per_page = none;
      };
      clerk = record { attested = none; non_attested = none; printing = none; delivery = none };
      discount_price = 0;
      promo_discount = promo.promo_discount;
      tax_rate = tax_rate;
      tax_amount = if quote.matched then money.tax_amount else 0;
      clerk_cost = 0;
      default_clerk_cost = quote.clerk_base_cost;
      clerk_approval_status = ClerkApprovalStatus.pending;
      clerk_receipt_url = none;
      delivery_status = DeliveryStatus.pending;
      dispatch_proof_url = none;
      tracking_no = none;
      remainder_finalized = false;
      total_amount = if quote.matched then money.total_amount else 0;
      amount_paid = 0;
      archived = false;
      want_pdf = dto.want_pdf;
      promo_code_id = promo.promo_code_id;
      intake_request_id = dto.request_id;
      scheduled_date = none;
      previous_hearing_date = none;
    }

-- Has the ticket the client's key of the request?
abbrev pub key_is : ℕ → Option ℕ → Bool
key_is key none = false
key_is key (some own) = own == key

abbrev pub has_request : ℕ → Ticket → Bool
has_request key t = key_is key t.intake_request_id

abbrev pub find_request : Option ℕ → Db → Option Ticket
find_request none db = none
find_request (some key) db = find (has_request key) db.tickets

abbrev pub insert_ticket : Ticket → Db → Db
insert_ticket t db = record db {
  tickets = db.tickets ++ (t ∷ []);
  history = db.history ++ (record { ticket_id = t.id; from = none; to = unpaid } ∷ []);
  next_id = suc db.next_id;
}

-- The code of an order is redeemed in the transaction that creates its ticket.
unfoldable pub redeem_promo : PromoUse → ℕ → ℕ → Db → Result Db
unfolding redeem
redeem_promo promo consumer_id ticket_id db = elim promo.promo_code_id [
  | none ↦ ok db
  | some id ↦ redeem id consumer_id ticket_id promo.promo_discount db
]

-- What the transaction gives: whether the request was answered before, the ticket, the tables.
pub record Opened : Type 0 where
  pub replayed : Bool
  pub ticket_id : ℕ
  pub tables : Db

-- The transaction and its `catch`: the key of a request is unique, so that a second one finds the
-- ticket of the first, and fails when that is another consumer's.
unfoldable pub open_intake : Ticket → PromoUse → Db → Result Opened
unfolding redeem_promo
open_intake ticket promo db = elim (find_request ticket.intake_request_id db) [
  | some existing ↦ do
    ensure (existing.consumer_id == ticket.consumer_id) internal
    ok (record { replayed = true; ticket_id = existing.id; tables = db })
  | none ↦ do
    redeemed ← redeem_promo promo ticket.consumer_id ticket.id (insert_ticket ticket db)
    ok (record { replayed = false; ticket_id = ticket.id; tables = redeemed })
]

-- The credit is applied to a new ticket when the consumer asks for it.
unfoldable pub settle_opened : Bool → ℕ → Opened → ℕ × Db
unfolding settle_tickets_for_user
settle_opened use_wallet_balance consumer_id opened = (
  opened.ticket_id,
  if use_wallet_balance && not opened.replayed
      then settle_tickets_for_user consumer_id opened.tables
      else opened.tables,
)

abbrev pub has_code : CreateTicketIntakeDto → Bool
has_code dto = elim (given dto.promo_code) [ [] ↦ false | _ ∷ _ ↦ true ]

-- The answer of the resolver for the order, in the currency of the consumer.
abbrev pub answer_for : IntakeEnv → CreateTicketIntakeDto → Currency → Resolution
answer_for env dto currency =
    resolve env.mode env.rules env.current_year
      (record dto.order { flow = dto.flow; currency = some currency })

-- `createIntakeTicket`, with the key of the ticket that it answers.
unfoldable pub create_intake_ticket :
    IntakeEnv → CreateTicketIntakeDto → Actor → Db → Result (ℕ × Db)
unfolding bind_consumer resolve check_priced promo_for new_ticket open_intake settle_opened
create_intake_ticket env dto actor db = do
  consumer_id ← bind_consumer actor dto.consumer_id
  ensure (is_flow_key dto.flow) bad_request
  ensure dto.payload_valid bad_request
  ensure (env.service_exists dto.service_id) not_found
  user ← or_throw (find_user consumer_id db) not_found
  let quote = quote_of (answer_for env dto user.currency)
  check_priced (answer_for env dto user.currency) env.allow_unpriced_intake
  throw_if (is_usd user.currency && has_code dto) bad_request
  promo ← promo_for env dto consumer_id user.currency quote db
  opened ←
      open_intake (new_ticket env dto consumer_id user.currency quote promo db.next_id) promo db
  ok (settle_opened dto.use_wallet_balance consumer_id opened)
