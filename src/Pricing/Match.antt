-- ===== src/Pricing/Match.antt =====
-- apps/api/src/pricing/pricing.service.ts: the rules of the prices, a request for one, and the rules
-- that fit it.
use wusuq_web.Base.{
  ℕ, Bool, true, false, not, ◌&&◌, ◌||◌, Option, none, some, List, [], ◌∷◌, any, filterb, leb, ◌==◌,
  if◌then◌else◌, ◌⁇◌, or_else,
}
use wusuq_web.Base.Text.{Text, given, same_text}
use wusuq_web.Shared.Flows.{Flow, same_flow, Currency, pkr, is_usd, same_currency}
use wusuq_web.Shared.Cases.{
  YearBand, pending, current, y2025, y2024_2023, y2022_2020, y2019_2017, y2016_back, punjab,
  is_text, derive_year_band, DocBundle,
}

-- The dimensions of a rule and its amounts.
pub record PricingRule : Type 0 where
  pub id : ℕ
  pub flow : Flow
  pub court_level : Option Text
  pub case_status : Option Text
  pub year_from : Option ℕ
  pub year_to : Option ℕ
  pub year_band : Option YearBand
  pub set_type : Option Text
  pub region : Option Text
  pub currency : Currency
  pub is_legacy : Bool
  pub availability : Bool
  pub base_price : ℕ
  pub delivery_charge : ℕ
  pub pdf_surcharge_amount : ℕ
  pub delivery_guy_fee : ℕ
  pub clerk_base_cost : Option ℕ
  pub priority : ℕ
  pub is_active : Bool

pub data SearchMethod : Type 0 where
  cnic details both : SearchMethod

-- `ResolvePricingDto`, with the province in place of the ways to find it.
pub record ResolvePricingDto : Type 0 where
  pub flow : Flow
  pub court_level : Option Text
  pub case_status : Option Text
  pub case_year : Option ℕ
  pub year_band : Option YearBand
  pub set_type : Option Text
  pub region : Option Text
  pub province : Option Text
  pub currency : Option Currency
  pub delivery_method : Option Text
  pub want_pdf : Bool
  pub case_title : Option Text
  pub city_count : Option ℕ
  pub search_method : Option SearchMethod
  pub doc_bundle : Option DocBundle

-- 'other'.
abbrev pub other_region : Text
other_region = 111 ∷ 116 ∷ 104 ∷ 101 ∷ 114 ∷ []

unfoldable pub derive_region : Option Text → Option Text
derive_region province = elim (given province) [
  | [] ↦ none
  | name ∷ _ ↦ some (if same_text punjab name then punjab else other_region)
]

abbrev pub band_code : YearBand → ℕ
band_code pending = 0
band_code current = 1
band_code y2025 = 2
band_code y2024_2023 = 3
band_code y2022_2020 = 4
band_code y2019_2017 = 5
band_code y2016_back = 6

-- A dimension of a rule, which an absent or empty one leaves open.
abbrev pub dimension : Option Text → Option Text → Bool
dimension rule wanted = elim (given rule) [ [] ↦ true | text ∷ _ ↦ is_text text wanted ]

abbrev pub band_is : Option YearBand → YearBand → Bool
band_is none band = true
band_is (some own) band = band_code own == band_code band

abbrev pub no_set_type : PricingRule → Bool
no_set_type r = elim (given r.set_type) [ [] ↦ true | _ ∷ _ ↦ false ]

-- What a request asks for, as `resolve` derives it; an empty set type is none.
pub record Request : Type 0 where
  pub court_level : Option Text
  pub case_status : Option Text
  pub region : Option Text
  pub currency : Currency
  pub band : YearBand
  pub set_type : List Text
  pub year : ℕ

-- The dimensions that every stage compares.
abbrev pub fits : Request → PricingRule → Bool
fits q r =
    same_currency r.currency q.currency
    && (dimension r.court_level q.court_level
        && (dimension r.case_status q.case_status && dimension r.region q.region))

-- A wanted set type is met by that one only, and no set type by none.
abbrev pub set_type_is : List Text → PricingRule → Bool
set_type_is [] r = no_set_type r
set_type_is (text ∷ _) r = is_text text r.set_type

abbrev pub strict : Request → YearBand → PricingRule → Bool
strict q band r = fits q r && (band_is r.year_band band && set_type_is q.set_type r)

-- The fallback to the rules without a set type.
abbrev pub without_set_type : Request → PricingRule → Bool
without_set_type q r =
    fits q r && ((band_is r.year_band q.band || band_is r.year_band current) && no_set_type r)

abbrev pub from_year : Option ℕ → ℕ → Bool
from_year none year = true
from_year (some first) year = leb first year

abbrev pub to_year : Option ℕ → ℕ → Bool
to_year none year = true
to_year (some last) year = leb year last

abbrev pub open_set_type : List Text → PricingRule → Bool
open_set_type wanted r = elim (given r.set_type) [
  | [] ↦ true
  | text ∷ _ ↦ any (same_text text) wanted
]

-- The fallback to the years of a rule.
abbrev pub by_years : Request → PricingRule → Bool
by_years q r =
    fits q r
    && (from_year r.year_from q.year && (to_year r.year_to q.year && open_set_type q.set_type r))

abbrev pub or_next : List PricingRule → List PricingRule → List PricingRule
or_next [] next = next
or_next (r ∷ rs) next = r ∷ rs

abbrev pub is_current : YearBand → Bool
is_current band = band_code band == band_code current

-- The candidates: the first stage that finds any rule decides.
unfoldable pub candidates : Request → List PricingRule → List PricingRule
candidates q rules = or_next (filterb (strict q q.band) rules) (
    or_next (if is_current q.band then [] else filterb (strict q current) rules) (
      or_next (elim q.set_type [ [] ↦ [] | _ ∷ _ ↦ filterb (without_set_type q) rules ])
        (filterb (by_years q) rules)))

-- `reduce((a, b) => a.priority >= b.priority ? a : b)`, from a first rule.
abbrev pub best_from : PricingRule → List PricingRule → PricingRule
best_from a [] = a
best_from a (b ∷ rules) = best_from (if leb b.priority a.priority then a else b) rules

pub data PricingMode : Type 0 where
  legacy custom : PricingMode

abbrev pub in_mode : PricingMode → PricingRule → Bool
in_mode legacy r = r.is_legacy
in_mode custom r = not r.is_legacy

-- The active rules of the mode and the flow.
unfoldable pub flow_rules : PricingMode → Flow → List PricingRule → List PricingRule
flow_rules mode flow rules =
    filterb (λ r. r.is_active && (in_mode mode r && same_flow r.flow flow)) rules

unfoldable pub request_of : ResolvePricingDto → ℕ → Request
unfolding derive_region derive_year_band
request_of dto current_year =
    let currency = dto.currency ⁇ pkr in
    record {
      court_level = dto.court_level;
      case_status = dto.case_status;
      region = or_else dto.region (derive_region dto.province);
      currency = currency;
      band = dto.year_band ⁇ derive_year_band dto.case_status dto.case_year current_year;
      set_type = if is_usd currency then [] else given dto.set_type;
      year = dto.case_year ⁇ current_year;
    }
