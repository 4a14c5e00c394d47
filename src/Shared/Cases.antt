-- ===== src/Shared/Cases.antt =====
-- packages/shared/src/index.ts: the parts of a price that come from the case itself, its status, its
-- year and its documents. The current year is an argument; rates are in hundredths of a rupee.
pub mod Order
use wusuq_web.Base.{
  ℕ, ◌+◌, ◌-◌, ◌*◌, Bool, true, false, not, ◌&&◌, ◌||◌, Option, none, some, List, [], ◌∷◌, max, leb,
  ltb, ◌==◌, if◌then◌else◌,
}
use wusuq_web.Base.Text.{Text, lower, includes, same_text}
use wusuq_web.Shared.Flows.{Flow, judicial_case_information, same_flow}

pub data YearBand : Type 0 where
  pending current y2025 y2024_2023 y2022_2020 y2019_2017 y2016_back : YearBand

-- 'pending', 'Decided Case' and 'Punjab'.
abbrev pub pending_text : Text
pending_text = 112 ∷ 101 ∷ 110 ∷ 100 ∷ 105 ∷ 110 ∷ 103 ∷ []

abbrev pub decided_case : Text
decided_case = 68 ∷ 101 ∷ 99 ∷ 105 ∷ 100 ∷ 101 ∷ 100 ∷ 32 ∷ 67 ∷ 97 ∷ 115 ∷ 101 ∷ []

abbrev pub punjab : Text
punjab = 80 ∷ 117 ∷ 110 ∷ 106 ∷ 97 ∷ 98 ∷ []

-- `value === text` for a value that may be absent.
abbrev pub is_text : Text → Option Text → Bool
is_text text none = false
is_text text (some value) = same_text text value

-- `/pending/i.test(caseStatus)`.
abbrev pub is_pending_case_status : Option Text → Bool
is_pending_case_status none = false
is_pending_case_status (some status) = includes pending_text (lower status)

-- The band of a year that is there.
abbrev pub band_of_year : ℕ → ℕ → YearBand
band_of_year year current_year =
    if year == 0
    then current
    else if leb current_year year
    then current
    else if year == 2025
    then y2025
    else if leb 2023 year && leb year 2024
    then y2024_2023
    else if leb 2020 year && leb year 2022
    then y2022_2020
    else if leb 2017 year && leb year 2019
    then y2019_2017
    else if leb year 2016
    then y2016_back
    else current

unfoldable pub derive_year_band : Option Text → Option ℕ → ℕ → YearBand
derive_year_band status case_year current_year =
    if is_pending_case_status status
    then pending
    else elim case_year [ none ↦ current | some year ↦ band_of_year year current_year ]

abbrev pub case_search_per_year_rate : ℕ
case_search_per_year_rate = 2_000_00

abbrev age_for_search : Option ℕ → ℕ → ℕ
age_for_search none current_year = 1
age_for_search (some year) current_year =
    if not (year == 0) && ltb year current_year then current_year - year else 1

unfoldable pub compute_case_search_base : Option ℕ → ℕ → ℕ
compute_case_search_base case_year current_year =
    max 1 (age_for_search case_year current_year) * case_search_per_year_rate

abbrev pub decided_age_surcharge_per_year : ℕ
decided_age_surcharge_per_year = 1_000_00

abbrev pub decided_age_threshold_years : ℕ
decided_age_threshold_years = 10

-- The surcharge of a year that is there.
abbrev surcharge_of_year : ℕ → ℕ → ℕ
surcharge_of_year year current_year =
    if year == 0 || leb current_year year
    then 0
    else (current_year - year - decided_age_threshold_years) * decided_age_surcharge_per_year

unfoldable pub compute_decided_age_surcharge : Option Text → Option ℕ → ℕ → ℕ
compute_decided_age_surcharge status case_year current_year =
    if is_text decided_case status
    then elim case_year [ none ↦ 0 | some year ↦ surcharge_of_year year current_year ]
    else 0

-- The keys of the document bundles, and any other text.
pub data DocBundle : Type 0 where
  only_petition petition_plus_last_order petition_plus_complete_order : DocBundle
  only_last_order only_complete_order_sheet other_bundle : DocBundle

-- `CASE_INFO_BUNDLE_BASE`.
abbrev pub bundle_base_punjab : DocBundle → ℕ
bundle_base_punjab only_petition = 500_00
bundle_base_punjab petition_plus_last_order = 700_00
bundle_base_punjab petition_plus_complete_order = 800_00
bundle_base_punjab only_last_order = 350_00
bundle_base_punjab only_complete_order_sheet = 500_00
bundle_base_punjab other_bundle = 0

abbrev pub bundle_base_other : DocBundle → ℕ
bundle_base_other only_petition = 1_200_00
bundle_base_other petition_plus_last_order = 1_500_00
bundle_base_other petition_plus_complete_order = 1_500_00
bundle_base_other only_last_order = 750_00
bundle_base_other only_complete_order_sheet = 1_200_00
bundle_base_other other_bundle = 0

unfoldable pub case_info_bundle_base : Flow → Option Text → Option DocBundle → ℕ
case_info_bundle_base flow region none = 0
case_info_bundle_base flow region (some bundle) =
    if same_flow flow judicial_case_information
    then if is_text punjab region then bundle_base_punjab bundle else bundle_base_other bundle
    else 0
