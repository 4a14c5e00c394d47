-- ===== src/Tests/Orders.antt =====
-- Tests of the prices, the promo codes and the intake.
use wusuq_web.Base.{
  ℕ, ◌≡◌, ◌⊎◌, refl, true, false, none, some, List, [], ◌∷◌, arith, Result, ok, ◌>>=◌, ◌>>◌,
  or_throw, throw_if, ensure,
}
use wusuq_web.Base.Text.{Text, trim, upper}
use wusuq_web.Shared.Flows.{
  judicial_case_search, pkr, is_flow_key, payment_model_for, charge_capabilities_for,
}
use wusuq_web.Shared.Money.{round2, compute_ticket_total}
use wusuq_web.Shared.Cases.{
  compute_case_search_base, compute_decided_age_surcharge, case_info_bundle_base, derive_year_band,
}
use wusuq_web.Store.{Db, consumer, IsWellFormed}
use wusuq_web.Store.Billing.{PromoCode, percent}
use wusuq_web.Promos.{
  ValidateArgs, validate, validate_promo, valid, discount_of, find_code, redeem,
  assert_within_limits,
}
use wusuq_web.Promos.Discount.{Granted, validate-Granted}
use wusuq_web.Promos.Limits.{LimitsKept}
use wusuq_web.Pricing.{
  PricingRule, ResolvePricingDto, legacy, SearchMethod, Price, resolve, candidates, flow_rules,
  request_of, derive_region, price_of, base_of, delivery_needed, is_state_vs,
}
use wusuq_web.Pricing.Best.{rule_of, BestRule, resolve-BestRule}
use wusuq_web.Tickets.{Actor}
use wusuq_web.Tickets.Intake.{
  IntakeEnv, CreateTicketIntakeDto, create_intake_ticket, bind_consumer, is_consumer_role,
  check_priced, promo_for, new_ticket, assemble_intake_charges, assemble_intake_money, open_intake,
  redeem_promo, settle_opened,
}
use wusuq_web.Tickets.Intake.Ordered.{TicketsBelow, Replayed, Ordered, create_intake_ticket-Outcome}
use wusuq_web.Tickets.Intake.Replay.{create_intake_ticket_replay}
use wusuq_web.Tickets.Intake.Resent.{create_intake_ticket_resent}
use wusuq_web.Wallet.{
  settle_tickets_for_user, clear_pending_tickets, settle_tickets, settle_ticket, settle_fresh,
  apply_payment_to_ticket, create_transaction,
}
use wusuq_web.Tickets.Intake.Limits.{PromoStep, PromoStep-LimitsKept}
use wusuq_web.Tickets.Regenerate.{regenerate}
use wusuq_web.Tests.{db, db-IsWellFormed}

-- Two rules for searches, of which the second one has the higher priority.
abbrev rule : ℕ → ℕ → PricingRule
rule id priority = record {
  id = id;
  flow = judicial_case_search;
  court_level = none;
  case_status = none;
  year_from = none;
  year_to = none;
  year_band = none;
  set_type = none;
  region = none;
  currency = pkr;
  is_legacy = true;
  availability = true;
  base_price = 900_00;
  delivery_charge = 50_00;
  pdf_surcharge_amount = 300_00;
  delivery_guy_fee = 100_00;
  clerk_base_cost = some 400_00;
  priority = priority;
  is_active = true;
}

abbrev rules : List PricingRule
rules = rule 1 0 ∷ rule 2 5 ∷ []

-- A search in two cities for a case of 2021, with both methods and a PDF.
abbrev search : ResolvePricingDto
search = record {
  flow = judicial_case_search;
  court_level = none;
  case_status = none;
  case_year = some 2021;
  year_band = none;
  set_type = none;
  region = none;
  province = none;
  currency = some pkr;
  delivery_method = none;
  want_pdf = true;
  case_title = none;
  city_count = some 2;
  search_method = some SearchMethod.both;
  doc_bundle = none;
}

abbrev price : Price
price = price_of search (request_of search 2026) (rule 2 5) 2026

-- Both methods and the PDF count in each city: 2 * (10000 + 1000 + 300).
total : price.total ≡ 22_600_00
unfolding price_of base_of compute_case_search_base compute_decided_age_surcharge is_state_vs
    delivery_needed case_info_bundle_base payment_model_for request_of charge_capabilities_for
total = refl

resolves_rule : rule_of (resolve legacy rules 2026 search) ≡ some (rule 2 5)
unfolding resolve candidates flow_rules request_of derive_region derive_year_band
resolves_rule = refl

resolve-BestRule_example :
    BestRule legacy rules (request_of search 2026) judicial_case_search (rule 2 5)
resolve-BestRule_example = resolve-BestRule legacy rules 2026 search (rule 2 5) resolves_rule

-- 'SAVE', ten percent, at most 1500.00, once by each user.
abbrev save : Text
save = 83 ∷ 65 ∷ 86 ∷ 69 ∷ []

abbrev promo : PromoCode
promo = record {
  id = 5;
  code = save;
  type = percent;
  value = 10_00;
  max_discount = some 1_500_00;
  starts_at = none;
  ends_at = some 9_000;
  total_usage_limit = some 100;
  per_user_limit = some 1;
  service_scope = judicial_case_search ∷ [];
  active = true;
}

abbrev selling : Db
selling = record db { promos = promo ∷ [] }

-- ' save'.
abbrev typed : Text
typed = 32 ∷ 115 ∷ 97 ∷ 118 ∷ 101 ∷ []

abbrev args : ValidateArgs
args = record { code = typed; user_id = 1; flow = judicial_case_search; subtotal = 22_600_00 }

validates : validate args 8_000 selling ≡ valid 1_500_00 5
unfolding validate validate_promo discount_of round2
validates = refl

validate-Granted_example :
    (p : PromoCode) × (find_code (upper (trim typed)) selling ≡ some p)
    × Granted p args 8_000 1_500_00 5 selling
validate-Granted_example = validate-Granted args 8_000 1_500_00 5 selling validates

abbrev env : IntakeEnv
env = record {
  mode = legacy;
  rules = rules;
  current_year = 2026;
  now = 8_000;
  service_exists = λ _. true;
  tax_rate = 160_000;
  rate_to_pkr = none;
  allow_unpriced_intake = false;
}

abbrev order : CreateTicketIntakeDto
order = record {
  flow = judicial_case_search;
  request_id = some 99;
  use_wallet_balance = false;
  consumer_id = 1;
  service_id = 3;
  service_city = none;
  promo_code = some typed;
  payload_valid = true;
  want_pdf = true;
  order = search;
}

-- The same key, without the code that the first order has used up.
abbrev repeated : CreateTicketIntakeDto
repeated = record order { promo_code = none }

abbrev self : Actor
self = record { user_id = some 1; role = some consumer }

abbrev pair_of : Result (ℕ × Db) → ℕ × Db
pair_of (ok s) = s
pair_of _ = (0, db)

abbrev ordered : ℕ × Db
ordered = pair_of (create_intake_ticket env order self selling)

orders : create_intake_ticket env order self selling ≡ ok (20, ordered.1)
unfolding create_intake_ticket bind_consumer is_consumer_role is_flow_key check_priced promo_for
    new_ticket assemble_intake_charges assemble_intake_money open_intake redeem_promo redeem
    assert_within_limits settle_opened resolve candidates flow_rules request_of derive_region
    derive_year_band validate validate_promo discount_of price_of base_of compute_case_search_base
    compute_decided_age_surcharge is_state_vs delivery_needed case_info_bundle_base
    payment_model_for round2 compute_ticket_total ◌>>=◌ ◌>>◌ or_throw ensure throw_if
orders = refl

abbrev answered : ℕ × Db
answered = pair_of (create_intake_ticket env repeated self ordered.1)

orders_again : create_intake_ticket env repeated self ordered.1 ≡ ok answered
unfolding create_intake_ticket bind_consumer is_consumer_role is_flow_key check_priced promo_for
    new_ticket assemble_intake_charges assemble_intake_money open_intake redeem_promo redeem
    assert_within_limits settle_opened resolve candidates flow_rules request_of derive_region
    derive_year_band validate validate_promo discount_of price_of base_of compute_case_search_base
    compute_decided_age_surcharge is_state_vs delivery_needed case_info_bundle_base
    payment_model_for round2 compute_ticket_total ◌>>=◌ ◌>>◌ or_throw ensure throw_if
orders_again = refl

selling-IsWellFormed : IsWellFormed selling
selling-IsWellFormed = record { users = db-IsWellFormed.users; tickets = db-IsWellFormed.tickets }

selling-TicketsBelow : TicketsBelow selling
selling-TicketsBelow = (
  omega arith,
  (omega arith, (omega arith, (omega arith, (omega arith, (omega arith, (omega arith, tt)))))),
)

create_intake_ticket-Outcome_example :
    Replayed (some 99) 1 20 selling ordered.1 ⊎ Ordered order 1 20 selling ordered.1
create_intake_ticket-Outcome_example =
    create_intake_ticket-Outcome env order self selling (20, ordered.1) selling-IsWellFormed
      selling-TicketsBelow orders

abbrev first_answer : ℕ × Db
first_answer = (20, ordered.1)

create_intake_ticket_replay_example : answered ≡ first_answer
create_intake_ticket_replay_example =
    create_intake_ticket_replay env env order repeated self 99 20 selling ordered.1 answered
      selling-IsWellFormed selling-TicketsBelow refl refl orders orders_again

-- The order without a code, paid from the wallet.
abbrev plain : CreateTicketIntakeDto
plain = record order { promo_code = none; use_wallet_balance = true }

abbrev plain_ordered : ℕ × Db
plain_ordered = pair_of (create_intake_ticket env plain self selling)

orders_plain : create_intake_ticket env plain self selling ≡ ok (20, plain_ordered.1)
unfolding create_intake_ticket bind_consumer is_consumer_role is_flow_key check_priced promo_for
    new_ticket assemble_intake_charges assemble_intake_money open_intake redeem_promo settle_opened
    resolve candidates flow_rules request_of derive_region derive_year_band price_of base_of
    compute_case_search_base compute_decided_age_surcharge is_state_vs delivery_needed
    case_info_bundle_base payment_model_for round2 compute_ticket_total settle_tickets_for_user
    clear_pending_tickets settle_tickets settle_ticket settle_fresh apply_payment_to_ticket
    create_transaction ◌>>=◌ ◌>>◌ or_throw ensure throw_if
orders_plain = refl

create_intake_ticket_resent_example :
    create_intake_ticket env plain self plain_ordered.1 ≡ ok (20, plain_ordered.1)
create_intake_ticket_resent_example =
    create_intake_ticket_resent env plain self 99 20 selling plain_ordered.1 selling-IsWellFormed
      selling-TicketsBelow refl refl orders_plain

selling-LimitsKept : LimitsKept selling
selling-LimitsKept = record {
  total = λ id p f m e. omega arith;
  per_user = λ id user_id p f m e. omega arith;
  promos = (omega arith, tt);
  redemptions = tt;
}

PromoStep-LimitsKept_example : LimitsKept ordered.1
PromoStep-LimitsKept_example =
    PromoStep-LimitsKept selling ordered.1 (PromoStep.orders env order self 20 orders)
      selling-LimitsKept

-- The same search again, at the price of the day.
abbrev db_of : Result Db → Db
db_of (ok d) = d
db_of _ = db

abbrev regenerated : Db
regenerated = db_of (regenerate 20 env (some search) ordered.1)
