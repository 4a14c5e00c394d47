-- ===== src/Cases/Context.antt =====
-- apps/api/src/tickets/tickets.service.ts, `applyTicketCompletionToCase`: what a completed ticket
-- tells its case; and the aliases of packages/shared/src/index.ts. A payload's values are texts.
pub mod Drifts
use wusuq_web.Base.{
  ℕ, suc, ◌+◌, ◌*◌, ◌-◌, Bool, true, false, not, ◌&&◌, Option, none, some, List, [], ◌∷◌, ◌++◌, map,
  leb, ◌==◌, if◌then◌else◌,
}
use wusuq_web.Base.Int.{ℤ, pos, negsuc}
use wusuq_web.Base.Text.{Text, trim, lower, same_text, given}

-- The columns of `Case` that a ticket can tell.
pub data CaseColumn : Type 0 where
  case_no case_year court court_city case_category court_case_status judge_designation : CaseColumn
  province district police_station fir_no offence doc_no office_city : CaseColumn

abbrev pub column_rank : CaseColumn → ℕ
column_rank case_no = 0
column_rank case_year = 1
column_rank court = 2
column_rank court_city = 3
column_rank case_category = 4
column_rank court_case_status = 5
column_rank judge_designation = 6
column_rank province = 7
column_rank district = 8
column_rank police_station = 9
column_rank fir_no = 10
column_rank offence = 11
column_rank doc_no = 12
column_rank office_city = 13

infix 50 ◌same_column◌
abbrev pub ◌same_column◌ : CaseColumn → CaseColumn → Bool
c same_column d = column_rank c == column_rank d

-- The keys of a payload that are read.
pub data PayloadKey : Type 0 where
  case_petition_no_key case_no_key case_year_key year_key select_court_key : PayloadKey
  select_court_city_key case_type_key case_status_key judge_designation_key : PayloadKey
  province_key province_capital_key district_id_key select_district_key : PayloadKey
  district_name_key station_id_key police_station_key fir_no_key offence_key : PayloadKey
  doc_no_key office_city_key : PayloadKey

abbrev pub Payload : Type 0
Payload = PayloadKey → Option Text

-- `PAYLOAD_FIELD_ALIASES` and `aliasesFor`.
unfoldable pub aliases_for : PayloadKey → List PayloadKey
aliases_for case_petition_no_key = case_petition_no_key ∷ case_no_key ∷ []
aliases_for case_year_key = case_year_key ∷ year_key ∷ []
aliases_for province_key = province_key ∷ province_capital_key ∷ []
aliases_for district_id_key = district_id_key ∷ select_district_key ∷ district_name_key ∷ []
aliases_for station_id_key = station_id_key ∷ police_station_key ∷ []
aliases_for key = key ∷ []

-- The first of the keys that has a text.
abbrev pub first_given : List PayloadKey → Payload → Option Text
first_given [] payload = none
first_given (key ∷ keys) payload = elim (given (payload key)) [
  | [] ↦ first_given keys payload
  | text ∷ _ ↦ some text
]

-- `readAliased`.
unfoldable pub read_aliased : Payload → PayloadKey → Option Text
unfolding aliases_for
read_aliased payload canonical = first_given (aliases_for canonical) payload

-- The value of a column: a text, or the number of the year.
pub data CaseValue : Type 0 where
  text : Text → CaseValue
  number : ℤ → CaseValue

abbrev is_digit : ℕ → Bool
is_digit c = leb 48 c && leb c 57

abbrev digits_value : ℕ → Text → ℕ
digits_value n [] = n
digits_value n (c ∷ rest) = if is_digit c then digits_value (n * 10 + (c - 48)) rest else n

-- The number that a text starts with.
abbrev leading_number : Text → Option ℕ
leading_number [] = none
leading_number (c ∷ rest) = if is_digit c then some (digits_value (c - 48) rest) else none

abbrev negative : ℕ → ℤ
negative n = if n == 0 then pos 0 else negsuc (n - 1)

abbrev signed : (ℕ → ℤ) → Option ℕ → Option ℤ
signed f none = none
signed f (some n) = some (f n)

-- `parseInt(text, 10)` of a trimmed text, `none` for NaN.
unfoldable pub parse_int : Text → Option ℤ
parse_int [] = none
parse_int (c ∷ rest) =
    if c == 45
    then signed negative (leading_number rest)
    else if c == 43
    then signed pos (leading_number rest)
    else signed pos (leading_number (c ∷ rest))

-- `mappings`: the column, and the canonical key that tells it.
abbrev pub canonical_key : CaseColumn → PayloadKey
canonical_key case_no = case_petition_no_key
canonical_key case_year = case_year_key
canonical_key court = select_court_key
canonical_key court_city = select_court_city_key
canonical_key case_category = case_type_key
canonical_key court_case_status = case_status_key
canonical_key judge_designation = judge_designation_key
canonical_key province = province_key
canonical_key district = district_id_key
canonical_key police_station = station_id_key
canonical_key fir_no = fir_no_key
canonical_key offence = offence_key
canonical_key doc_no = doc_no_key
canonical_key office_city = office_city_key

abbrev pub all_columns : List CaseColumn
all_columns =
    case_no ∷ case_year ∷ court ∷ court_city ∷ case_category ∷ court_case_status ∷ judge_designation
    ∷ province ∷ district ∷ police_station ∷ fir_no ∷ offence ∷ doc_no ∷ office_city ∷ []

abbrev text_value : Text → Option CaseValue
text_value [] = none
text_value (c ∷ rest) = some (text (c ∷ rest))

abbrev number_value : Option ℤ → Option CaseValue
number_value none = none
number_value (some n) = some (number n)

-- The value that a text stands for in a column: `parse`, or the trimmed text; `none` for null or ''.
unfoldable pub parsed : CaseColumn → Text → Option CaseValue
unfolding parse_int
parsed case_year raw = number_value (parse_int (trim raw))
parsed column raw = text_value (trim raw)

-- What the payload tells of a column.
unfoldable pub reported : Payload → CaseColumn → Option CaseValue
unfolding read_aliased parsed
reported payload column = elim (read_aliased payload (canonical_key column)) [
  | none ↦ none
  | some raw ↦ parsed column raw
]

-- The columns of a case.
abbrev pub CaseContext : Type 0
CaseContext = CaseColumn → Option CaseValue

abbrev pub is_empty : Option CaseValue → Bool
is_empty none = true
is_empty (some (text [])) = true
is_empty (some _) = false

abbrev same_int : ℤ → ℤ → Bool
same_int (pos m) (pos n) = m == n
same_int (negsuc m) (negsuc n) = m == n
same_int _ _ = false

-- `a.toLowerCase() === b.toLowerCase()` of the trimmed texts; two numbers have one text if they are
-- equal.
abbrev pub same_value : CaseValue → CaseValue → Bool
same_value (text s) (text t) = same_text (lower (trim s)) (lower (trim t))
same_value (number m) (number n) = same_int m n
same_value _ _ = false

-- A conflict between a case and a ticket. The texts of the event are the values: a text, or the
-- digits of the year, which `parseInt` reads back.
pub record Drift : Type 0 where
  pub field : CaseColumn
  pub case_value : CaseValue
  pub ticket_value : CaseValue

abbrev pub trimmed : CaseValue → CaseValue
trimmed (text s) = text (trim s)
trimmed (number n) = number n

-- What one round of the loop says of a column.
pub data Told : Type 0 where
  silent : Told
  fills : CaseValue → Told
  agrees : Told
  conflicts : Drift → Told

abbrev pub compared : CaseColumn → CaseValue → CaseValue → Told
compared column existing value =
    if same_value existing value
    then agrees
    else conflicts
        (record { field = column; case_value = trimmed existing; ticket_value = trimmed value })

-- The value is written where the case has none.
abbrev pub met : CaseColumn → Option CaseValue → CaseValue → Told
met column none value = fills value
met column (some existing) value =
    if is_empty (some existing) then fills value else compared column existing value

unfoldable pub told : CaseContext → Payload → CaseColumn → Told
unfolding reported
told context payload column = elim (reported payload column) [
  | none ↦ silent
  | some value ↦ met column (context column) value
]

-- `updateData`: the columns after the update.
abbrev pub filled_column : Told → Option CaseValue → Option CaseValue
filled_column (fills value) old = some value
filled_column _ old = old

abbrev pub drift_of : Told → List Drift
drift_of (conflicts d) = d ∷ []
drift_of _ = []

abbrev pub drifts_of : List CaseColumn → CaseContext → Payload → List Drift
drifts_of [] context payload = []
drifts_of (column ∷ columns) context payload =
    drift_of (told context payload column) ++ drifts_of columns context payload

-- `drifts`, in the order of the mappings.
abbrev pub drifts : CaseContext → Payload → List Drift
drifts context payload = drifts_of all_columns context payload
