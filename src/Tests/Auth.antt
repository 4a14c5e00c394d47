-- ===== src/Tests/Auth.antt =====
-- Tests of the one-time codes.
use wusuq_web.Base.{
  ℕ, ◌≡◌, refl, true, [], ◌∷◌, arith, Result, ok, err, ◌>>=◌, ◌>>◌, ensure, throw_if, unauthorized,
}
use wusuq_web.Base.Text.{Text}
use wusuq_web.Auth.Otp.{AuthDb, normalize_phone, request, verify, check_code}
use wusuq_web.Auth.Otp.Guarded.{Guarded, OtpSteps, OtpStep, OtpSteps-Guarded}
use wusuq_web.Auth.Otp.Once.{Accepted, verify-Accepted}

-- '0300 1234567', '+923001234567' and '4711'.
abbrev raw : Text
raw = 48 ∷ 51 ∷ 48 ∷ 48 ∷ 32 ∷ 49 ∷ 50 ∷ 51 ∷ 52 ∷ 53 ∷ 54 ∷ 55 ∷ []

abbrev phone : Text
phone = 43 ∷ 57 ∷ 50 ∷ 51 ∷ 48 ∷ 48 ∷ 49 ∷ 50 ∷ 51 ∷ 52 ∷ 53 ∷ 54 ∷ 55 ∷ []

abbrev code : Text
code = 52 ∷ 55 ∷ 49 ∷ 49 ∷ []

abbrev empty : AuthDb
empty = record { codes = []; users = []; next_id = 1 }

empty-Guarded : Guarded empty
empty-Guarded = record { keys = tt; below = tt; attempts = tt; one_live = λ _. omega arith }

normalizes : normalize_phone raw ≡ ok phone
unfolding normalize_phone
normalizes = refl

abbrev tables_of : Result AuthDb → AuthDb
tables_of (ok d) = d
tables_of _ = empty

abbrev sent : AuthDb
sent = tables_of (request raw code 1_000 empty)

requests : request raw code 1_000 empty ≡ ok sent
unfolding request normalize_phone ◌>>=◌ ◌>>◌ ensure throw_if
requests = refl

-- A code, and then a wrong guess.
OtpSteps-Guarded_example : Guarded (verify raw phone 2_000 sent).0
OtpSteps-Guarded_example =
    OtpSteps-Guarded empty (verify raw phone 2_000 sent).0
      (OtpSteps.next sent (verify raw phone 2_000 sent).0
        (OtpSteps.next empty sent OtpSteps.done (OtpStep.requests raw code 1_000 sent requests))
        (OtpStep.verifies raw phone 2_000))
      empty-Guarded

sent-Guarded : Guarded sent
sent-Guarded =
    OtpSteps-Guarded empty sent
      (OtpSteps.next empty sent OtpSteps.done (OtpStep.requests raw code 1_000 sent requests))
      empty-Guarded

abbrev signed : AuthDb
signed = (verify raw code 3_000 sent).0

verifies : verify raw code 3_000 sent ≡ (signed, ok (2, true))
unfolding verify normalize_phone check_code request ◌>>=◌ ◌>>◌ ensure throw_if
verifies = refl

verify-Accepted_example :
    (p : Text) × (normalize_phone raw ≡ ok p)
    × Accepted p code 3_000 sent signed
    × ((again guess : Text) (later : ℕ)
        → normalize_phone again ≡ ok p
        → verify again guess later signed ≡ (signed, err unauthorized))
verify-Accepted_example = verify-Accepted raw code 3_000 sent signed (2, true) sent-Guarded verifies
