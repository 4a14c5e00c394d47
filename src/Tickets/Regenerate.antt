-- ===== src/Tickets/Regenerate.antt =====
-- apps/api/src/tickets/tickets.service.ts: `regenerate`.
pub mod Clone
use wusuq_web.Base.{
  ℕ, Bool, true, false, not, ◌&&◌, Option, none, some, if◌then◌else◌, Result, ok, err, ◌>>=◌, ◌>>◌,
  or_throw, not_found,
}
use wusuq_web.Shared.Flows.{Flow, Currency, is_usd, is_split, payment_model_for}
use wusuq_web.Shared.Money.{TicketChargeComponents}
use wusuq_web.Store.{Ticket, unpaid, ClerkApprovalStatus, DeliveryStatus, Db, find_ticket}
use wusuq_web.Pricing.{ResolvePricingDto, Resolution, resolve}
use wusuq_web.Tickets.Intake.{IntakeEnv, Quote, quote_of, check_priced, insert_ticket}

-- `pricingData`: the columns of money that the clone starts with.
pub record PricingData : Type 0 where
  pub charges : TicketChargeComponents
  pub discount_price : ℕ
  pub clerk_cost : ℕ
  pub default_clerk_cost : Option ℕ
  pub total_amount : ℕ

-- The columns of the original, for a ticket that cannot be priced again.
abbrev pub copied : Ticket → PricingData
copied original = record {
  charges = original.charges;
  discount_price = original.discount_price;
  clerk_cost = original.clerk_cost;
  default_clerk_cost = original.default_clerk_cost;
  total_amount = original.total_amount;
}

-- The columns from the current price list, with the second-phase charges clean.
unfoldable pub priced_again : Flow → Currency → Quote → PricingData
priced_again flow currency q =
    let split = is_split (payment_model_for (some flow) currency) in
    record {
      charges = record {
        service_cost = if q.matched then q.service_cost else 0;
        delivery_charges = if q.matched && not split then q.delivery_charge else 0;
        printing_charges = 0;
        attested_charges = 0;
        non_attested_charges = 0;
        additional_charges = 0;
        additional_service_cost = 0;
      };
      discount_price = 0;
      clerk_cost = 0;
      default_clerk_cost = if q.matched then q.clerk_base_cost else none;
      total_amount = if q.matched then (if split then q.service_cost else q.total) else 0;
    }

-- The answer of the resolver to `buildPricingResolveInput` of the original's payload.
abbrev pub answer_again : IntakeEnv → Flow → Currency → ResolvePricingDto → Resolution
answer_again env flow currency order =
    resolve env.mode env.rules env.current_year
      (record order { flow = flow; currency = some currency })

-- `order` is that input without the flow and the currency, and absent without a payload.
unfoldable pub pricing_data : IntakeEnv → Option ResolvePricingDto → Ticket → Result PricingData
unfolding priced_again resolve check_priced
pricing_data env none original = ok (copied original)
pricing_data env (some order) original = elim original.intake_flow [
  | none ↦ ok (copied original)
  | some flow ↦ do
    let answer = answer_again env flow original.currency order
    check_priced answer env.allow_unpriced_intake
    ok (priced_again flow original.currency (quote_of answer))
]

-- The row of the clone; the columns that `create` does not name have their defaults.
abbrev pub clone : IntakeEnv → Ticket → PricingData → ℕ → Ticket
clone env original prices id = record {
  id = id;
  consumer_id = original.consumer_id;
  status = unpaid;
  intake_flow = original.intake_flow;
  currency = original.currency;
  fx_rate_to_pkr = if is_usd original.currency then env.rate_to_pkr else none;
  service_city = original.service_city;
  charges = prices.charges;
  pages = record {
    no_of_pages = none;
    cost_per_page = none;
    attested_pages = none;
    attested_cost_per_page = none;
    non_attested_pages = none;
    non_attested_cost_per_page = none;
  };
  clerk = record { attested = none; non_attested = none; printing = none; delivery = none };
  discount_price = prices.discount_price;
  promo_discount = 0;
  tax_rate = 0;
  tax_amount = 0;
  clerk_cost = prices.clerk_cost;
  default_clerk_cost = prices.default_clerk_cost;
  clerk_approval_status = ClerkApprovalStatus.pending;
  clerk_receipt_url = none;
  delivery_status = DeliveryStatus.pending;
  dispatch_proof_url = none;
  tracking_no = none;
  remainder_finalized = false;
  total_amount = prices.total_amount;
  amount_paid = 0;
  archived = false;
  want_pdf = false;
  promo_code_id = none;
  intake_request_id = none;
  scheduled_date = none;
  previous_hearing_date = none;
}

-- `regenerate`.
unfoldable pub regenerate : ℕ → IntakeEnv → Option ResolvePricingDto → Db → Result Db
unfolding pricing_data
regenerate id env order db = do
  original ← or_throw (find_ticket id db) not_found
  prices ← pricing_data env order original
  ok (insert_ticket (clone env original prices db.next_id) db)
