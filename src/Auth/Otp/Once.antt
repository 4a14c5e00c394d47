-- ===== src/Auth/Otp/Once.antt =====
-- apps/api/src/auth/otp.service.ts, `verify`: the code that is accepted, and what is left of it.
use wusuq_web.Base.{
  ℕ, ◌≤◌, ◌<◌, ◌≡◌, refl, sym, ap, ◌∙◌, subst, Bool, true, Option, none, some, List, arith, ltb,
  leb, countb, find, find_last, find_last-none, Bool-cases, Option-cases, inl, inr, Result, ok, err,
  unauthorized, Error,
}
use wusuq_web.Base.Text.{Text, same_text, eq_of_same_text}
use wusuq_web.Auth.Otp.{
  OtpCode, PhoneUser, AuthDb, max_attempts, normalize_phone, is_live, update_code, sign_in, Answer,
  check_code, verify_phone, verify,
}
use wusuq_web.Auth.Otp.Live.{countb-update_at}
use wusuq_web.Auth.Otp.Guarded.{Guarded, Live, find_last-Live}

-- What an accepted code was, and that none of the phone is left.
pub record Accepted (phone code : Text) (now : ℕ) (db db' : AuthDb) : Type 0 where
  pub otp : OtpCode
  pub latest : find_last (is_live phone) db.codes ≡ some otp
  pub same : otp.code ≡ code
  pub in_time : now ≤ otp.expires_at
  pub guesses_left : otp.attempts < max_attempts
  pub none_left : countb (is_live phone) db'.codes ≡ 0

-- The outcome of a check: only an answer with a user says something.
data Checked (phone code : Text) (now : ℕ) (db : AuthDb) : Answer → Type 0 where
  accepted :
      (db' : AuthDb) (user : ℕ × Bool)
      → Accepted phone code now db db'
      → Checked phone code now db (db', ok user)
  refused : (db' : AuthDb) (a : Answer) (e : Error) → a ≡ (db', err e) → Checked phone code now db a

sign_in-codes : (phone : Text) (db : AuthDb) → (sign_in phone db).0.codes ≡ db.codes
sign_in-codes phone db =
    elim (Option-cases (find (λ (u : PhoneUser). same_text u.phone phone) db.users)) [
      | inl e ↦ rw (e, sign_in) refl
      | inr (u, e) ↦ rw (e, sign_in) refl
    ]

consumed-none :
    (phone : Text) (otp : OtpCode) (db : AuthDb)
    → Guarded db
    → Live phone otp db
    → countb (is_live phone) (update_code otp.id (λ c. record c { consumed = true }) db).codes ≡ 0
consumed-none phone otp db g l = omega (
  arith,
  g.one_live phone,
  countb-update_at phone otp.id (λ c. record c { consumed = true }) db.codes otp g.keys l.found
      l.live (ground arith),
)

check_code-Checked :
    (phone : Text) (otp : OtpCode) (code : Text) (now : ℕ) (db : AuthDb)
    → Guarded db
    → find_last (is_live phone) db.codes ≡ some otp
    → Checked phone code now db (check_code otp code now db)
unfolding check_code
check_code-Checked phone otp code now db g e =
    let l = find_last-Live phone otp db g e in
    let used = update_code otp.id (λ c. record c { consumed = true }) db in
    elim (Bool-cases (ltb otp.expires_at now)) [
      | inl x ↦ rw (x, check_code) (refused _ _ _ refl)
      | inr x ↦ elim (Bool-cases (leb max_attempts otp.attempts)) [
        | inl y ↦ rw (x, y, check_code) (refused _ _ _ refl)
        | inr y ↦ elim (Bool-cases (same_text otp.code code)) [
          | inr z ↦ rw (x, y, z, check_code) (refused _ _ _ refl)
          | inl z ↦
              rw (x, y, z, check_code)
                (accepted (sign_in otp.phone used).0 (sign_in otp.phone used).1 (record {
                  otp = otp;
                  latest = e;
                  same = eq_of_same_text otp.code code z;
                  in_time = ground (arith, x);
                  guesses_left = ground (arith, y);
                  none_left =
                      ap (λ (cs : List OtpCode). countb (is_live phone) cs)
                        (sign_in-codes otp.phone used)
                      ∙ consumed-none phone otp db g l;
                }))
        ]
      ]
    ]

verify_phone-Checked :
    (phone code : Text) (now : ℕ) (db : AuthDb)
    → Guarded db
    → Checked phone code now db (verify_phone (ok phone) code now db)
verify_phone-Checked phone code now db g =
    elim (Option-cases (find_last (is_live phone) db.codes)) [
      | inl e ↦ rw (e, verify_phone) (refused _ _ _ refl)
      | inr (otp, e) ↦ rw (e, verify_phone) (check_code-Checked phone otp code now db g e)
    ]

answer : Answer → Option (ℕ × Bool)
answer (_, ok user) = some user
answer (_, err _) = none

Checked-Accepted :
    (phone code : Text) (now : ℕ) (db db' : AuthDb) (user : ℕ × Bool) (a : Answer)
    → Checked phone code now db a
    → a ≡ (db', ok user)
    → Accepted phone code now db db'
unfolding answer
Checked-Accepted phone code now db db' user a (accepted d u k) h =
    subst (Accepted phone code now db) (ap (λ (a : Answer). a.0) h) k
Checked-Accepted phone code now db db' user a (refused d b e r) h =
    absurd (ground (arith, ap answer (sym r ∙ h)))

-- In guarded tables, a verification that succeeds was given the latest code of the phone that was not
-- consumed, in time, and after less than three wrong guesses. After it no code of the phone can be
-- used: until another is requested, every verification for the phone is refused and changes nothing.
pub verify-Accepted :
    (raw code : Text) (now : ℕ) (db db' : AuthDb) (user : ℕ × Bool)
    → Guarded db
    → verify raw code now db ≡ (db', ok user)
    → (phone : Text) × (normalize_phone raw ≡ ok phone)
      × Accepted phone code now db db'
      × ((raw' guess : Text) (later : ℕ)
          → normalize_phone raw' ≡ ok phone
          → verify raw' guess later db' ≡ (db', err unauthorized))
unfolding verify answer
verify-Accepted raw code now db db' user g h = go (normalize_phone raw) refl h
  where
    go :
        (r : Result Text)
        → normalize_phone raw ≡ r
        → verify_phone r code now db ≡ (db', ok user)
        → (phone : Text) × (normalize_phone raw ≡ ok phone)
          × Accepted phone code now db db'
          × ((raw' guess : Text) (later : ℕ)
              → normalize_phone raw' ≡ ok phone
              → verify_phone (normalize_phone raw') guess later db' ≡ (db', err unauthorized))
    go (err e) n h = absurd (ground (arith, ap answer h))
    go (ok phone) n h =
        let a =
          Checked-Accepted phone code now db db' user _ (verify_phone-Checked phone code now db g)
            h in
        (
          phone,
          n,
          a,
          λ raw' guess later m.
              rw (m, find_last-none (is_live phone) db'.codes a.none_left, verify_phone) refl,
        )
