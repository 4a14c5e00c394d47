-- ===== src/Pricing.antt =====
-- apps/api/src/pricing/pricing.service.ts: the price of an order. The rules, the pricing mode of the
-- settings and the current year are arguments; the province is the one that `deriveProvinceName`
-- answers. The rates of a clerk's report, which are in no total, and the turnaround are not kept.
mod Match
pub mod Best
pub mod Total
unfoldable pub use Match.*
use wusuq_web.Base.{
  ℕ, ◌+◌, ◌*◌, Bool, true, false, not, ◌&&◌, ◌||◌, Option, none, some, List, [], ◌∷◌, any, filterb,
  max, leb, ltb, ◌==◌, if◌then◌else◌, ◌⁇◌, or_else,
}
use wusuq_web.Base.Text.{Text, lower, given, is_space, without_prefix, trim_start, same_text}
use wusuq_web.Shared.Flows.{
  Flow, judicial_case_search, same_flow, Currency, pkr, is_usd, same_currency, is_split,
  payment_model_for, charge_capabilities_for,
}
use wusuq_web.Shared.Cases.{
  YearBand, pending, current, y2025, y2024_2023, y2022_2020, y2019_2017, y2016_back, punjab,
  is_text, derive_year_band, compute_case_search_base, compute_decided_age_surcharge, DocBundle,
  case_info_bundle_base,
}

-- The amounts of the answer.
pub record Price : Type 0 where
  pub base_price : ℕ
  pub pdf_surcharge : ℕ
  pub delivery_fee : ℕ
  pub title_surcharge : ℕ
  pub age_surcharge : ℕ
  pub search_both_surcharge : ℕ
  pub city_count : ℕ
  pub clerk_base_cost : Option ℕ
  pub delivery_charge : ℕ
  pub service_cost : ℕ
  pub total : ℕ

-- A flat USD price is the base of the rule and nothing else.
abbrev pub flat_price : PricingRule → Price
flat_price r = record {
  base_price = r.base_price;
  pdf_surcharge = 0;
  delivery_fee = 0;
  title_surcharge = 0;
  age_surcharge = 0;
  search_both_surcharge = 0;
  city_count = 1;
  clerk_base_cost = none;
  delivery_charge = 0;
  service_cost = r.base_price;
  total = r.base_price;
}

-- `STATE_VS_PATTERN`: after spaces the word state, a space or more, and the word vs, which no letter,
-- digit or underscore follows.
abbrev pub is_word_char : ℕ → Bool
is_word_char c =
    (leb 48 c && leb c 57) || ((leb 65 c && leb c 90) || (leb 97 c && leb c 122 || c == 95))

-- 'state' and 'vs'.
abbrev state_text : Text
state_text = 115 ∷ 116 ∷ 97 ∷ 116 ∷ 101 ∷ []

abbrev vs_text : Text
vs_text = 118 ∷ 115 ∷ []

abbrev pub at_word_end : Option Text → Bool
at_word_end none = false
at_word_end (some []) = true
at_word_end (some (c ∷ _)) = not (is_word_char c)

abbrev pub spaced_vs : Option Text → Bool
spaced_vs none = false
spaced_vs (some []) = false
spaced_vs (some (c ∷ rest)) = is_space c && at_word_end (without_prefix vs_text (trim_start rest))

unfoldable pub is_state_vs : Option Text → Bool
is_state_vs none = false
is_state_vs (some title) = spaced_vs (without_prefix state_text (trim_start (lower title)))

-- The delivery modes without a courier: 'pickup', 'none', 'portal', 'whatsapp' and 'other_no'.
abbrev pub non_physical_delivery : List Text
non_physical_delivery =
    (112 ∷ 105 ∷ 99 ∷ 107 ∷ 117 ∷ 112 ∷ [])
    ∷ (110 ∷ 111 ∷ 110 ∷ 101 ∷ [])
    ∷ (112 ∷ 111 ∷ 114 ∷ 116 ∷ 97 ∷ 108 ∷ [])
    ∷ (119 ∷ 104 ∷ 97 ∷ 116 ∷ 115 ∷ 97 ∷ 112 ∷ 112 ∷ [])
    ∷ (111 ∷ 116 ∷ 104 ∷ 101 ∷ 114 ∷ 95 ∷ 110 ∷ 111 ∷ [])
    ∷ []

unfoldable pub delivery_needed : ResolvePricingDto → Bool
delivery_needed dto =
    (charge_capabilities_for (some dto.flow) pkr).delivery && (elim (given dto.delivery_method) [
      | [] ↦ false
      | method ∷ _ ↦ not (any (same_text (lower method)) non_physical_delivery)
    ])

abbrev pub is_both : Option SearchMethod → Bool
is_both (some both) = true
is_both _ = false

abbrev pub state_vs_surcharge : ℕ
state_vs_surcharge = 1_000_00

abbrev pub search_both_fee : ℕ
search_both_fee = 1_000_00

-- The base: by age for a search, by documents for an information, and else the rule's.
unfoldable pub base_of : ResolvePricingDto → Request → PricingRule → ℕ → ℕ
unfolding compute_case_search_base case_info_bundle_base
base_of dto q best current_year =
    let info = case_info_bundle_base dto.flow q.region dto.doc_bundle in
    if same_flow dto.flow judicial_case_search
    then compute_case_search_base dto.case_year current_year
    else if ltb 0 info
    then info
    else best.base_price

-- The amounts of a PKR order.
unfoldable pub price_of : ResolvePricingDto → Request → PricingRule → ℕ → Price
unfolding base_of delivery_needed is_state_vs compute_decided_age_surcharge payment_model_for
price_of dto q best current_year =
    let is_search = same_flow dto.flow judicial_case_search in
    let base = base_of dto q best current_year in
    let pdf = if dto.want_pdf then best.pdf_surcharge_amount else 0 in
    let fee = if delivery_needed dto then best.delivery_guy_fee else 0 in
    let title = if is_state_vs dto.case_title then state_vs_surcharge else 0 in
    let age =
      if is_search
      then 0
      else compute_decided_age_surcharge dto.case_status dto.case_year current_year in
    let cities = if is_search then max 1 (dto.city_count ⁇ 1) else 1 in
    let search_both = if is_search && is_both dto.search_method then search_both_fee else 0 in
    let delivered =
      if (charge_capabilities_for (some dto.flow) pkr).delivery then best.delivery_charge else 0 in
    let block = base + search_both + title + age + pdf + fee in
    record {
      base_price = base;
      pdf_surcharge = pdf;
      delivery_fee = fee;
      title_surcharge = title;
      age_surcharge = age;
      search_both_surcharge = search_both;
      city_count = cities;
      clerk_base_cost = best.clerk_base_cost;
      delivery_charge = delivered + fee;
      service_cost =
          if is_split (payment_model_for (some dto.flow) pkr)
          then base + title + age + pdf
          else block * cities;
      total = block * cities + delivered;
    }

-- The answer: nothing matched, a rule that says that the order cannot be had, or a price.
pub data Resolution : Type 0 where
  unmatched : (rules_exist_for_flow : Bool) → Resolution
  unavailable : PricingRule → Resolution
  priced : PricingRule → Price → Resolution

abbrev pub price_with : ResolvePricingDto → Request → ℕ → PricingRule → Resolution
price_with dto q current_year best =
    if not best.availability
    then unavailable best
    else if is_usd q.currency
    then priced best (flat_price best)
    else priced best (price_of dto q best current_year)

abbrev pub resolve_with :
    ResolvePricingDto → Request → ℕ → List PricingRule → List PricingRule → Resolution
resolve_with dto q current_year [] [] = unmatched false
resolve_with dto q current_year (_ ∷ _) [] = unmatched true
resolve_with dto q current_year _ (c ∷ cs) = price_with dto q current_year (best_from c cs)

unfoldable pub resolve : PricingMode → List PricingRule → ℕ → ResolvePricingDto → Resolution
unfolding candidates flow_rules request_of price_of
resolve mode rules current_year dto =
    let q = request_of dto current_year in
    let own = flow_rules mode dto.flow rules in
    resolve_with dto q current_year own (candidates q own)
