-- ===== src/Tickets/Intake/Order.antt =====
-- apps/api/src/tickets/tickets.service.ts: an order, and what it is billed at intake.
use wusuq_web.Base.{
  ℕ, Bool, true, false, not, ◌&&◌, Option, none, some, List, [], ◌∷◌, ◌==◌, if◌then◌else◌, Result,
  ok, err, ensure, bad_request, forbidden,
}
use wusuq_web.Base.Text.{Text, given}
use wusuq_web.Shared.Flows.{Flow, Currency, is_split, payment_model_for}
use wusuq_web.Shared.Money.{TicketChargeComponents, TicketMoneyResult, compute_ticket_total}
use wusuq_web.Store.{UserRole, lawyer, consumer, company, Db}
use wusuq_web.Promos.{PromoValidation, valid, invalid, ValidateArgs, validate}
use wusuq_web.Pricing.{
  PricingRule, PricingMode, ResolvePricingDto, Resolution, unmatched, unavailable, priced,
}
use wusuq_web.Tickets.{Actor}

-- What the call reads beside the tables: the rules and the mode of the prices, the year and the
-- moment, the services, the tax rate and the exchange rate of the settings, and the switch
-- ALLOW_UNPRICED_INTAKE.
pub record IntakeEnv : Type 0 where
  pub mode : PricingMode
  pub rules : List PricingRule
  pub current_year : ℕ
  pub now : ℕ
  pub service_exists : ℕ → Bool
  pub tax_rate : ℕ
  pub rate_to_pkr : Option ℕ
  pub allow_unpriced_intake : Bool

-- `CreateTicketIntakeDto`: in place of the payload stand the verdict of `validateFlowPayload`, the
-- city that is read from it, whether it wants a PDF, and `buildPricingResolveInput` of it.
pub record CreateTicketIntakeDto : Type 0 where
  pub flow : Flow
  pub request_id : Option ℕ
  pub use_wallet_balance : Bool
  pub consumer_id : ℕ
  pub service_id : ℕ
  pub service_city : Option Text
  pub promo_code : Option Text
  pub payload_valid : Bool
  pub want_pdf : Bool
  pub order : ResolvePricingDto

unfoldable pub is_consumer_role : Option UserRole → Bool
is_consumer_role (some consumer) = true
is_consumer_role (some lawyer) = true
is_consumer_role (some company) = true
is_consumer_role _ = false

-- A consumer orders for himself only.
unfoldable pub bind_consumer : Actor → ℕ → Result ℕ
unfolding is_consumer_role
bind_consumer actor consumer_id = elim actor.user_id [
  | none ↦ ok consumer_id
  | some user_id ↦
      if is_consumer_role actor.role && not (consumer_id == user_id)
      then err forbidden
      else ok consumer_id
]

-- What the intake reads of an answer of the resolver; nothing is due for an order that cannot be had.
pub record Quote : Type 0 where
  pub matched : Bool
  pub service_cost : ℕ
  pub delivery_charge : ℕ
  pub total : ℕ
  pub clerk_base_cost : Option ℕ

abbrev pub quote_of : Resolution → Quote
quote_of (unmatched _) = record {
  matched = false;
  service_cost = 0;
  delivery_charge = 0;
  total = 0;
  clerk_base_cost = none;
}
quote_of (unavailable _) = record {
  matched = true;
  service_cost = 0;
  delivery_charge = 0;
  total = 0;
  clerk_base_cost = none;
}
quote_of (priced _ p) = record {
  matched = true;
  service_cost = p.service_cost;
  delivery_charge = p.delivery_charge;
  total = p.total;
  clerk_base_cost = p.clerk_base_cost;
}

-- An order without a price is refused, unless the flow has no rules and free intake is allowed.
unfoldable pub check_priced : Resolution → Bool → Result (Unit {0})
check_priced (unmatched true) allow = err bad_request
check_priced (unmatched false) allow = ensure allow bad_request
check_priced (unavailable _) allow = ok tt
check_priced (priced _ _) allow = ok tt

-- The code and the discount that an order uses.
pub record PromoUse : Type 0 where
  pub promo_code_id : Option ℕ
  pub promo_discount : ℕ

abbrev pub no_promo : PromoUse
no_promo = record { promo_code_id = none; promo_discount = 0 }

abbrev pub use_of : PromoValidation → Result PromoUse
use_of (invalid _) = err bad_request
use_of (valid discount id) = ok (record { promo_code_id = some id; promo_discount = discount })

-- Without a price the code is not looked at.
abbrev pub use_code : Bool → PromoValidation → Result PromoUse
use_code true v = use_of v
use_code false v = ok no_promo

-- What is validated: a code, for the part of the price that is billed at intake.
abbrev pub promo_args : CreateTicketIntakeDto → ℕ → Currency → Quote → Text → ValidateArgs
promo_args dto consumer_id currency quote code = record {
  code = code;
  user_id = consumer_id;
  flow = dto.flow;
  subtotal =
      if is_split (payment_model_for (some dto.flow) currency)
      then quote.service_cost
      else quote.total;
}

unfoldable pub promo_for :
    IntakeEnv → CreateTicketIntakeDto → ℕ → Currency → Quote → Db → Result PromoUse
unfolding validate payment_model_for
promo_for env dto consumer_id currency quote db = elim (given dto.promo_code) [
  | [] ↦ ok no_promo
  | code ∷ _ ↦
      use_code quote.matched (validate (promo_args dto consumer_id currency quote code) env.now db)
]

-- `assembleIntakeMoney`: a SPLIT flow defers its delivery.
unfoldable pub assemble_intake_charges : Flow → Currency → Quote → TicketChargeComponents
unfolding payment_model_for
assemble_intake_charges flow currency quote = record {
  service_cost = quote.service_cost;
  delivery_charges =
      if is_split (payment_model_for (some flow) currency) then 0 else quote.delivery_charge;
  printing_charges = 0;
  attested_charges = 0;
  non_attested_charges = 0;
  additional_charges = 0;
  additional_service_cost = 0;
}

unfoldable pub assemble_intake_money : TicketChargeComponents → ℕ → ℕ → TicketMoneyResult
assemble_intake_money charges tax_rate promo_discount = compute_ticket_total (record {
  charges = charges;
  discount_price = 0;
  promo_discount = promo_discount;
  tax_rate = tax_rate;
})
