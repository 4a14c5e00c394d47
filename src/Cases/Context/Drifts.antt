-- ===== src/Cases/Context/Drifts.antt =====
-- apps/api/src/tickets/tickets.service.ts, `applyTicketCompletionToCase`: the drifts of one column.
use wusuq_web.Base.{
  ℕ, ◌≡◌, refl, sym, ap, ◌∙◌, Bool, true, Option, none, some, List, [], ◌∷◌, ◌++◌, filterb, arith,
  eq_of_eqb, ◌==◌, if◌then◌else◌, Bool-cases, Option-cases, inl, inr,
}
use wusuq_web.Cases.Context.{
  CaseColumn, column_rank, ◌same_column◌, Payload, CaseValue, reported, CaseContext, is_empty,
  same_value, Drift, Told, silent, fills, agrees, conflicts, met, told, drift_of, drifts_of, drifts,
  all_columns, case_year,
}

column_at : ℕ → CaseColumn
column_at n = at n all_columns
  where
    at : ℕ → List CaseColumn → CaseColumn
    at n [] = case_year
    at n (c ∷ cs) = if n == column_rank c then c else at n cs

column_at-rank : (c : CaseColumn) → column_at (column_rank c) ≡ c
unfolding column_at
column_at-rank CaseColumn.case_no = refl
column_at-rank c = ground arith

pub eq_of_same_column : (c d : CaseColumn) → (c same_column d) ≡ true → c ≡ d
eq_of_same_column c d h =
    sym (column_at-rank c)
    ∙ ap column_at (eq_of_eqb (column_rank c) (column_rank d) h)
    ∙ column_at-rank d

-- What is told of a column is about that column.
AboutColumn : CaseColumn → Told → Type 0
AboutColumn column (conflicts d) = d.field ≡ column
AboutColumn column _ = Unit

met-AboutColumn :
    (column : CaseColumn) (old : Option CaseValue) (v : CaseValue)
    → AboutColumn column (met column old v)
unfolding AboutColumn
met-AboutColumn column none v = tt
met-AboutColumn column (some x) v = elim (Bool-cases (is_empty (some x))) [
  | inl y ↦ rw y tt
  | inr n ↦ elim (Bool-cases (same_value x v)) [ inl y ↦ rw (n, y) tt | inr m ↦ rw (n, m) refl ]
]

told-AboutColumn :
    (context : CaseContext) (payload : Payload) (column : CaseColumn)
    → AboutColumn column (told context payload column)
unfolding AboutColumn told
told-AboutColumn context payload column = elim (Option-cases (reported payload column)) [
  | inl e ↦ rw (e, told) tt
  | inr (v, e) ↦ rw (e, told) (met-AboutColumn column (context column) v)
]

abbrev pub about : CaseColumn → Drift → Bool
about column d = d.field same_column column

told-about :
    (column other : CaseColumn) (t : Told) (rest : List Drift)
    → AboutColumn other t
    → filterb (about column) (drift_of t ++ rest) ≡ (
        if other same_column column
        then drift_of t ++ filterb (about column) rest
        else filterb (about column) rest)
unfolding AboutColumn
told-about column other (conflicts d) rest a = rw a refl
told-about column other silent rest a = ground arith
told-about column other (fills v) rest a = ground arith
told-about column other agrees rest a = ground arith

drifts_of-about :
    (context : CaseContext) (payload : Payload) (column : CaseColumn) (columns : List CaseColumn)
    → filterb (about column) (drifts_of columns context payload)
      ≡ drifts_of (filterb (λ c. c same_column column) columns) context payload
drifts_of-about context payload column [] = refl
drifts_of-about context payload column (c ∷ cs) =
    told-about column c (told context payload c) (drifts_of cs context payload)
      (told-AboutColumn context payload c)
    ∙ elim (Bool-cases (c same_column column)) [
      | inl y ↦ rw (y, drifts_of-about context payload column cs) refl
      | inr n ↦ rw n (drifts_of-about context payload column cs)
    ]

listed_once : (column : CaseColumn) → filterb (λ c. c same_column column) all_columns ≡ column ∷ []
listed_once CaseColumn.case_no = refl
listed_once case_year = refl
listed_once CaseColumn.court = refl
listed_once CaseColumn.court_city = refl
listed_once CaseColumn.case_category = refl
listed_once CaseColumn.court_case_status = refl
listed_once CaseColumn.judge_designation = refl
listed_once CaseColumn.province = refl
listed_once CaseColumn.district = refl
listed_once CaseColumn.police_station = refl
listed_once CaseColumn.fir_no = refl
listed_once CaseColumn.offence = refl
listed_once CaseColumn.doc_no = refl
listed_once CaseColumn.office_city = refl

-- The drifts of a column are those that its own round of the loop says.
pub drifts-about :
    (context : CaseContext) (payload : Payload) (column : CaseColumn)
    → filterb (about column) (drifts context payload) ≡ drift_of (told context payload column) ++ []
drifts-about context payload column =
    drifts_of-about context payload column all_columns
    ∙ ap (λ cs. drifts_of cs context payload) (listed_once column)
