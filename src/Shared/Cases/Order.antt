-- ===== src/Shared/Cases/Order.antt =====
-- packages/shared/src/index.ts: the age of a case and its price.
use wusuq_web.Base.{ℕ, ◌≤◌, Option, some, arith, Bool-cases, inl, inr}
use wusuq_web.Base.Text.{Text}
use wusuq_web.Shared.Cases.{
  YearBand, pending, current, y2025, y2024_2023, y2022_2020, y2019_2017, y2016_back, band_of_year,
  derive_year_band, compute_case_search_base, compute_decided_age_surcharge, is_text,
  is_pending_case_status, decided_case,
}

-- The bands from the oldest years to the current one; a pending case has no year.
abbrev pub band_rank : YearBand → ℕ
band_rank y2016_back = 0
band_rank y2019_2017 = 1
band_rank y2022_2020 = 2
band_rank y2024_2023 = 3
band_rank y2025 = 4
band_rank current = 5
band_rank pending = 6

band_of_year_mono :
    (year later now : ℕ)
    → 1 ≤ year
    → year ≤ later
    → band_rank (band_of_year year now) ≤ band_rank (band_of_year later now)
band_of_year_mono year later now some_year h = ground arith

derive_year_band_mono :
    (status : Option Text) (year later now : ℕ)
    → 1 ≤ year
    → year ≤ later
    → band_rank (derive_year_band status (some year) now)
      ≤ band_rank (derive_year_band status (some later) now)
unfolding derive_year_band
derive_year_band_mono status year later now some_year h =
    elim (Bool-cases (is_pending_case_status status)) [
      | inl y ↦ rw y (omega arith)
      | inr n ↦ rw n (band_of_year_mono year later now some_year h)
    ]

compute_case_search_base_mono :
    (year later now : ℕ)
    → 1 ≤ year
    → year ≤ later
    → compute_case_search_base (some later) now ≤ compute_case_search_base (some year) now
unfolding compute_case_search_base
compute_case_search_base_mono year later now some_year h = ground arith

compute_decided_age_surcharge_mono :
    (status : Option Text) (year later now : ℕ)
    → 1 ≤ year
    → year ≤ later
    → compute_decided_age_surcharge status (some later) now
      ≤ compute_decided_age_surcharge status (some year) now
unfolding compute_decided_age_surcharge
compute_decided_age_surcharge_mono status year later now some_year h =
    elim (Bool-cases (is_text decided_case status)) [
      | inl y ↦ rw y (ground arith)
      | inr n ↦ rw n (omega arith)
    ]

-- Of two cases of the same status with a year, the older one is in the same price band or in an
-- older one, and neither its search fee nor its age surcharge is less.
older_costs_more :
    (status : Option Text) (year later now : ℕ)
    → 1 ≤ year
    → year ≤ later
    → (band_rank (derive_year_band status (some year) now)
        ≤ band_rank (derive_year_band status (some later) now))
      × (compute_case_search_base (some later) now ≤ compute_case_search_base (some year) now)
      × (compute_decided_age_surcharge status (some later) now
          ≤ compute_decided_age_surcharge status (some year) now)
older_costs_more status year later now some_year h = (
  derive_year_band_mono status year later now some_year h,
  compute_case_search_base_mono year later now some_year h,
  compute_decided_age_surcharge_mono status year later now some_year h,
)
