-- ===== src/Pricing/Total.antt =====
-- apps/api/src/pricing/pricing.service.ts: what the answer of the resolver adds up to.
use wusuq_web.Base.{
  ℕ, ◌+◌, ◌≡◌, refl, Bool, true, false, not, Option, some, arith, List, if◌then◌else◌, none,
  some-injective, subst, sym, ap, ◌∙◌,
}
use wusuq_web.Shared.Flows.{
  Flow, judicial_case_files, judicial_case_information, judicial_case_search, judicial_case_filing,
  judicial_power_of_attorney, non_judicial_copy_of_fir, non_judicial_registry_deed,
  non_judicial_criminal_record_search, other, Currency, pkr, usd, is_usd, is_split,
  payment_model_for, charge_capabilities_for,
}
use wusuq_web.Pricing.{
  PricingRule, ResolvePricingDto, Request, Price, PricingMode, Resolution, unavailable, priced,
  price_of, flat_price, price_with, resolve, request_of, delivery_needed,
}
use wusuq_web.Pricing.Best.{rule_of, resolve-Decided}

-- The parts of a price.
pub record AddsUp (flow : Flow) (currency : Currency) (p : Price) : Type 0 where
  pub parts : p.total ≡ p.service_cost + p.delivery_charge
  pub one_time : is_split (payment_model_for (some flow) currency) ≡ false → p.delivery_charge ≡ 0

price_of-AddsUp :
    (dto : ResolvePricingDto) (q : Request) (best : PricingRule) (now : ℕ)
    → AddsUp dto.flow pkr (price_of dto q best now)
unfolding price_of delivery_needed payment_model_for charge_capabilities_for
price_of-AddsUp dto q best now = go dto.flow
  where
    go : (f : Flow) → AddsUp f pkr (price_of (record dto { flow = f }) q best now)
    go judicial_case_files = record {
      parts = omega arith;
      one_time = λ h. absurd (ground (arith, h));
    }
    go non_judicial_copy_of_fir = record {
      parts = omega arith;
      one_time = λ h. absurd (ground (arith, h));
    }
    go non_judicial_registry_deed = record {
      parts = omega arith;
      one_time = λ h. absurd (ground (arith, h));
    }
    go non_judicial_criminal_record_search = record {
      parts = omega arith;
      one_time = λ h. absurd (ground (arith, h));
    }
    go judicial_case_information = record { parts = omega arith; one_time = λ _. refl }
    go judicial_case_search = record { parts = omega arith; one_time = λ _. refl }
    go judicial_case_filing = record { parts = omega arith; one_time = λ _. refl }
    go judicial_power_of_attorney = record { parts = omega arith; one_time = λ _. refl }
    go (other n) = record { parts = omega arith; one_time = λ _. refl }

flat_price-AddsUp : (flow : Flow) (r : PricingRule) → AddsUp flow usd (flat_price r)
flat_price-AddsUp flow r = record { parts = omega arith; one_time = λ _. refl }

-- The price of an answer, where there is one.
abbrev pub price_in : Resolution → Option Price
price_in (priced _ p) = some p
price_in _ = none

AddsUpIn : Flow → Currency → Resolution → Type 0
AddsUpIn flow currency answer = (p : Price) → price_in answer ≡ some p → AddsUp flow currency p

price_with-AddsUp :
    (dto : ResolvePricingDto) (q : Request) (now : ℕ) (best : PricingRule)
    → AddsUpIn dto.flow q.currency (price_with dto q now best)
unfolding AddsUpIn
price_with-AddsUp dto q now best = go best.availability q.currency
  where
    go :
        (b : Bool) (c : Currency)
        → AddsUpIn dto.flow c (
            if not b
            then unavailable best
            else if is_usd c
            then priced best (flat_price best)
            else priced best (price_of dto q best now))
    go false c = λ p h. absurd (ground (arith, h))
    go true usd =
        λ p h. subst (AddsUp dto.flow usd) (some-injective _ _ h) (flat_price-AddsUp dto.flow best)
    go true pkr =
        λ p h. subst (AddsUp dto.flow pkr) (some-injective _ _ h) (price_of-AddsUp dto q best now)

-- A price of the resolver adds up: its total is the base that a SPLIT flow bills at intake and the
-- delivery, and an order whose flow and currency are billed at once has no delivery, so that its
-- base is its total.
pub resolve-AddsUp :
    (mode : PricingMode) (rules : List PricingRule) (now : ℕ) (dto : ResolvePricingDto)
    (best : PricingRule) (p : Price)
    → resolve mode rules now dto ≡ priced best p
    → AddsUp dto.flow (request_of dto now).currency p
unfolding AddsUpIn
resolve-AddsUp mode rules now dto best p h =
    let q = request_of dto now in
    let d = resolve-Decided mode rules now dto best (ap rule_of h) in
    price_with-AddsUp dto q now best p (ap price_in (sym d.answers ∙ h))
