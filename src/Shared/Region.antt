-- ===== src/Shared/Region.antt =====
-- packages/shared/src/index.ts, `deriveCurrency`, and apps/api/src/common/utils/phone.util.ts.
use wusuq_web.Base.{
  ℕ, Bool, not, ◌&&◌, ◌||◌, Option, none, some, [], ◌∷◌, ◌++◌, any, filterb, length, leb, ◌==◌,
  if◌then◌else◌,
}
use wusuq_web.Base.Text.{Text, is_space, is_prefix, without_prefix, same_text, upper, given}
use wusuq_web.Shared.Flows.{Currency, pkr, usd}

abbrev is_digit : ℕ → Bool
is_digit c = leb 48 c && leb c 57

abbrev all_digits : Text → Bool
all_digits text = not (any (λ c. not (is_digit c)) text)

-- `replace(/^…/, '')`.
abbrev drop_prefix : Text → Text → Text
drop_prefix part text = elim (without_prefix part text) [ none ↦ text | some rest ↦ rest ]

-- '+', '00', '92', '0' and '3'.
abbrev pub plus : Text
plus = 43 ∷ []

abbrev pub double_zero : Text
double_zero = 48 ∷ 48 ∷ []

abbrev pub country_code : Text
country_code = 57 ∷ 50 ∷ []

abbrev pub zero_digit : Text
zero_digit = 48 ∷ []

abbrev pub three_digit : Text
three_digit = 51 ∷ []

-- Without spaces and hyphens, a leading + and a leading 00.
abbrev pub raw_phone : Text → Text
raw_phone phone =
    drop_prefix double_zero (drop_prefix plus (filterb (λ c. not (is_space c || c == 45)) phone))

-- The number starts with 92 or 0, or is a bare local mobile (`/^3\d{9}$/`).
abbrev pub is_pakistani : Text → Bool
is_pakistani raw =
    is_prefix country_code raw
    || is_prefix zero_digit raw
    || (is_prefix three_digit raw && (length raw == 10 && all_digits raw))

-- 'PK'.
abbrev pub pk : Text
pk = 80 ∷ 75 ∷ []

abbrev pub currency_of_country : Option Text → Currency
currency_of_country country = elim (given country) [
  | [] ↦ pkr
  | code ∷ _ ↦ if same_text (upper code) pk then pkr else usd
]

-- `deriveCurrency`: the phone decides, and the country where there is no phone.
unfoldable pub derive_currency : Option Text → Option Text → Currency
derive_currency phone country = elim (given phone) [
  | [] ↦ currency_of_country country
  | number ∷ _ ↦ elim (raw_phone number) [
    | [] ↦ currency_of_country country
    | c ∷ raw ↦ if is_pakistani (c ∷ raw) then pkr else usd
  ]
]

-- `[\s\-().+]`.
abbrev is_mark : ℕ → Bool
is_mark c = is_space c || c == 45 || c == 40 || c == 41 || c == 46 || c == 43

-- The number after a leading 0.
abbrev local_part : Text → Option Text
local_part digits = without_prefix zero_digit digits

-- `formatPakistaniPhone`. Its third test cannot pass: a text that passes it has passed the first.
unfoldable pub format_pakistani_phone : Text → Option Text
format_pakistani_phone raw =
    let digits = filterb (λ c. not (is_mark c)) raw in
    if is_prefix country_code digits && (length digits == 12 && all_digits digits)
    then some (plus ++ digits)
    else if is_prefix zero_digit digits && (length digits == 11 && all_digits digits)
    then elim (local_part digits) [
      | none ↦ none
      | some number ↦ some (plus ++ country_code ++ number)
    ]
    else none
