-- ===== src/Auth/Otp.antt =====
-- apps/api/src/auth/otp.service.ts: one-time codes. The clock and the drawn code are arguments; the
-- message and the tokens are not kept.
pub mod Live
pub mod Guarded
pub mod Once
pub mod Phone
use wusuq_web.Base.{
  ℕ, suc, ◌+◌, ◌-◌, ◌*◌, Bool, true, false, not, ◌&&◌, Option, none, some, List, [], ◌∷◌, ◌++◌, map,
  any, countb, find, find_last, filterb, length, ltb, leb, ◌==◌, if◌then◌else◌, Result, ok, err,
  ◌>>=◌, ◌>>◌, throw_if, ensure, bad_request, unauthorized, gone, too_many_requests,
}
use wusuq_web.Base.Table
use wusuq_web.Base.Text.{Text, is_space, is_prefix, same_text}

-- A row of `OtpCode`; moments are in milliseconds.
pub record OtpCode : Type 0 where
  pub id : ℕ
  pub phone : Text
  pub code : Text
  pub expires_at : ℕ
  pub attempts : ℕ
  pub consumed : Bool
  pub created_at : ℕ

-- The columns of a user that the sign-in touches; a new user is an active consumer in PKR.
pub record PhoneUser : Type 0 where
  pub id : ℕ
  pub phone : Text
  pub phone_verified : Bool

pub record AuthDb : Type 0 where
  pub codes : List OtpCode
  pub users : List PhoneUser
  pub next_id : ℕ

abbrev otp_ttl_ms : ℕ
otp_ttl_ms = 300_000

abbrev pub max_attempts : ℕ
max_attempts = 3

abbrev per_phone_cooldown_ms : ℕ
per_phone_cooldown_ms = 30_000

abbrev pub per_phone_hourly_limit : ℕ
per_phone_hourly_limit = 5

abbrev pub hour_ms : ℕ
hour_ms = 3_600_000

-- The leading character is dropped when it is the given one.
abbrev pub drop_leading : ℕ → Text → Text
drop_leading c [] = []
drop_leading c (d ∷ text) = if c == d then text else d ∷ text

abbrev pub is_digit : ℕ → Bool
is_digit c = leb 48 c && leb c 57

abbrev pub all_digits : Text → Bool
all_digits text = not (any (λ c. not (is_digit c)) text)

-- '3', '923' and '+92'.
abbrev pub local_prefix : Text
local_prefix = 51 ∷ []

abbrev pub country_prefix : Text
country_prefix = 57 ∷ 50 ∷ 51 ∷ []

abbrev pub plus : ℕ
plus = 43

abbrev pub pakistan : Text
pakistan = 43 ∷ 57 ∷ 50 ∷ []

-- `/^3\d{9}$/` and `/^923\d{9}$/`.
abbrev pub is_local : Text → Bool
is_local digits = is_prefix local_prefix digits && (length digits == 10 && all_digits digits)

abbrev pub is_international : Text → Bool
is_international digits =
    is_prefix country_prefix digits && (length digits == 12 && all_digits digits)

-- What is left of an input without spaces, a leading + and a leading 0.
abbrev pub digits_of : Text → Text
digits_of input = drop_leading 48 (drop_leading plus (filterb (λ c. not (is_space c)) input))

unfoldable pub normalize_phone : Text → Result Text
normalize_phone input =
    if is_local (digits_of input)
    then ok (pakistan ++ digits_of input)
    else if is_international (digits_of input)
    then ok (plus ∷ digits_of input)
    else err bad_request

abbrev pub of_phone : Text → OtpCode → Bool
of_phone phone c = same_text c.phone phone

-- A code of the phone that is not consumed.
abbrev pub is_live : Text → OtpCode → Bool
is_live phone c = of_phone phone c && not c.consumed

-- The codes of the phone that are not older than an age.
abbrev pub since : Text → ℕ → OtpCode → Bool
since phone from c = of_phone phone c && leb from c.created_at

-- `updateMany({ where: { phone, consumed: false }, data: { consumed: true } })`.
abbrev pub consume : Text → OtpCode → OtpCode
consume phone c = if of_phone phone c then record c { consumed = true } else c

abbrev pub new_code : ℕ → Text → Text → ℕ → OtpCode
new_code id phone code now = record {
  id = id;
  phone = phone;
  code = code;
  expires_at = now + otp_ttl_ms;
  attempts = 0;
  consumed = false;
  created_at = now;
}

abbrev pub requested : Text → Text → ℕ → AuthDb → AuthDb
requested phone code now db = record db {
  codes = map (consume phone) db.codes ++ (new_code db.next_id phone code now ∷ []);
  next_id = suc db.next_id;
}

-- `request`: the code that is sent replaces the live one.
unfoldable pub request : Text → Text → ℕ → AuthDb → Result AuthDb
unfolding normalize_phone
request raw_phone code now db = do
  phone ← normalize_phone raw_phone
  throw_if (any (since phone (now - per_phone_cooldown_ms)) db.codes) too_many_requests
  throw_if (leb per_phone_hourly_limit (countb (since phone (now - hour_ms)) db.codes))
      too_many_requests
  ok (requested phone code now db)

abbrev pub code_key : OtpCode → ℕ
code_key c = c.id

abbrev pub update_code : ℕ → (OtpCode → OtpCode) → AuthDb → AuthDb
update_code id f db = record db { codes = Table.update_by code_key id f db.codes }

abbrev pub user_key : PhoneUser → ℕ
user_key u = u.id

-- The user of a verified phone: created, marked as verified, or left as it is; and is it a new one?
abbrev pub sign_in : Text → AuthDb → AuthDb × (ℕ × Bool)
sign_in phone db = elim (find (λ (u : PhoneUser). same_text u.phone phone) db.users) [
  | none ↦ (
    record db {
      users = db.users ++ (record { id = db.next_id; phone = phone; phone_verified = true } ∷ []);
      next_id = suc db.next_id;
    },
    (db.next_id, true),
  )
  | some u ↦ (
    record db {
      users = Table.update_by user_key u.id (λ u. record u { phone_verified = true }) db.users;
    },
    (u.id, false),
  )
]

-- The outcome of a verification: the tables that it leaves, also when it throws, and the answer.
abbrev pub Answer : Type 0
Answer = AuthDb × Result (ℕ × Bool)

abbrev pub signed_in : AuthDb × (ℕ × Bool) → Answer
signed_in (db, user) = (db, ok user)

-- What `verify` does with the live code of the phone: a wrong guess is counted, although it throws.
unfoldable pub check_code : OtpCode → Text → ℕ → AuthDb → Answer
check_code otp code now db =
    if ltb otp.expires_at now
    then (db, err gone)
    else if leb max_attempts otp.attempts
    then (db, err unauthorized)
    else if not (same_text otp.code code)
    then (update_code otp.id (λ c. record c { attempts = c.attempts + 1 }) db, err unauthorized)
    else signed_in (sign_in otp.phone (update_code otp.id (λ c. record c { consumed = true }) db))

abbrev pub verify_phone : Result Text → Text → ℕ → AuthDb → Answer
verify_phone (err e) code now db = (db, err e)
verify_phone (ok phone) code now db = elim (find_last (is_live phone) db.codes) [
  | none ↦ (db, err unauthorized)
  | some otp ↦ check_code otp code now db
]

unfoldable pub verify : Text → Text → ℕ → AuthDb → Answer
unfolding normalize_phone check_code
verify raw_phone code now db = verify_phone (normalize_phone raw_phone) code now db
