-- ===== src/Auth/Otp/Guarded.antt =====
-- apps/api/src/auth/otp.service.ts: guesses are limited.
use wusuq_web.Base.{
  ℕ, suc, ◌+◌, ◌≤◌, ◌<◌, ◌≡◌, refl, true, false, some, [], ◌∷◌, map, arith, ltb, leb, countb, find,
  find_last, find_last-All, All, All-mono, All-append, Bool-cases, Option-cases, inl, inr, Result,
  ok, err, Post, Post-result, Post-bind, Post-throw_if, Post-return, too_many_requests,
}
use wusuq_web.Base.Table
use wusuq_web.Base.Text.{Text, same_text}
use wusuq_web.Auth.Otp.{
  OtpCode, PhoneUser, AuthDb, max_attempts, normalize_phone, is_live, consume, new_code, requested,
  request, code_key, update_code, sign_in, check_code, verify_phone, verify,
}
use wusuq_web.Auth.Otp.Live.{consume-Distinct, consume-All, requested-one_live, countb-update}

-- No code has been guessed more than three times, and no phone has two codes that are not consumed;
-- keys are drawn in order.
pub record Guarded (db : AuthDb) : Type 0 where
  pub keys : Table.Distinct code_key db.codes
  pub below : All (λ (c : OtpCode). c.id < db.next_id) db.codes
  pub attempts : All (λ (c : OtpCode). c.attempts ≤ max_attempts) db.codes
  pub one_live : (phone : Text) → countb (is_live phone) db.codes ≤ 1

requested-Guarded :
    (phone code : Text) (now : ℕ) (db : AuthDb) → Guarded db → Guarded (requested phone code now db)
requested-Guarded phone code now db g =
    let new = new_code db.next_id phone code now in
    let keys = consume-Distinct phone db.codes g.keys in
    let below =
      consume-All (λ (c : OtpCode). c.id < db.next_id) phone db.codes (λ _ l. l) g.below in
    record {
      keys =
          Table.Distinct-append code_key new (map (consume phone) db.codes)
            (Table.find_by-fresh code_key db.next_id (map (consume phone) db.codes) below) keys;
      below =
          All-append (λ (c : OtpCode). c.id < suc db.next_id) (map (consume phone) db.codes)
            (new ∷ [])
            (All-mono (λ (c : OtpCode). c.id < db.next_id) (λ (c : OtpCode). c.id < suc db.next_id)
              (map (consume phone) db.codes) (λ c l. omega (arith, l)) below)
            (omega arith, tt);
      attempts =
          All-append (λ (c : OtpCode). c.attempts ≤ max_attempts) (map (consume phone) db.codes)
            (new ∷ [])
            (consume-All (λ (c : OtpCode). c.attempts ≤ max_attempts) phone db.codes (λ _ l. l)
              g.attempts)
            (omega arith, tt);
      one_live =
          λ other. requested-one_live phone code other db.next_id now db.codes (g.one_live other);
    }

request-Guarded :
    (raw code : Text) (now : ℕ) (db : AuthDb) → Guarded db → Post Guarded (request raw code now db)
unfolding request
request-Guarded raw code now db g = Post-bind λ (phone : Text) n.
    Post-throw_if too_many_requests
      λ _. Post-throw_if too_many_requests λ _. Post-return (requested-Guarded phone code now db g)

update_code-Guarded :
    (id : ℕ) (f : OtpCode → OtpCode) (db : AuthDb) (c : OtpCode)
    → ((c : OtpCode) → (f c).id ≡ c.id)
    → ((phone : Text) (c : OtpCode) → is_live phone c ≡ false → is_live phone (f c) ≡ false)
    → Table.find_by code_key id db.codes ≡ some c
    → (f c).attempts ≤ max_attempts
    → Guarded db
    → Guarded (update_code id f db)
update_code-Guarded id f db c keeps dead e few g = record {
  keys = Table.update_by-Distinct code_key f keeps id db.codes g.keys;
  below =
      Table.All-update_by code_key (λ (c : OtpCode). c.id < db.next_id) id f db.codes
        (λ c l. omega (arith, l, keeps c)) g.below;
  attempts =
      Table.All-update_by_at code_key (λ (c : OtpCode). c.attempts ≤ max_attempts) id f db.codes c
        g.keys e few g.attempts;
  one_live =
      λ phone. omega (arith, countb-update phone id f db.codes (dead phone), g.one_live phone);
}

-- Signing in draws a key at most, and leaves the codes.
sign_in-Guarded : (phone : Text) (db : AuthDb) → Guarded db → Guarded (sign_in phone db).0
sign_in-Guarded phone db g =
    elim (Option-cases (find (λ (u : PhoneUser). same_text u.phone phone) db.users)) [
      | inl e ↦
          rw (e, sign_in)
            (record {
              keys = g.keys;
              below =
                  All-mono (λ (c : OtpCode). c.id < db.next_id)
                    (λ (c : OtpCode). c.id < suc db.next_id) db.codes (λ c l. omega (arith, l))
                    g.below;
              attempts = g.attempts;
              one_live = g.one_live;
            })
      | inr (u, e) ↦
          rw (e, sign_in)
            (record {
              keys = g.keys;
              below = g.below;
              attempts = g.attempts;
              one_live = g.one_live;
            })
    ]

check_code-Guarded :
    (otp : OtpCode) (code : Text) (now : ℕ) (db : AuthDb)
    → Table.find_by code_key otp.id db.codes ≡ some otp
    → otp.attempts ≤ max_attempts
    → Guarded db
    → Guarded (check_code otp code now db).0
unfolding check_code
check_code-Guarded otp code now db e few g = elim (Bool-cases (ltb otp.expires_at now)) [
  | inl x ↦ rw (x, check_code) g
  | inr x ↦ elim (Bool-cases (leb max_attempts otp.attempts)) [
    | inl y ↦ rw (x, y, check_code) g
    | inr y ↦ elim (Bool-cases (same_text otp.code code)) [
      | inr z ↦
          rw (x, y, z, check_code)
            (update_code-Guarded otp.id (λ c. record c { attempts = c.attempts + 1 }) db otp
              (λ _. refl) (λ _ _ h. h) e (ground (arith, y)) g)
      | inl z ↦
          rw (x, y, z, check_code)
            (sign_in-Guarded otp.phone _ (
              update_code-Guarded otp.id (λ c. record c { consumed = true }) db otp (λ _. refl)
                (λ phone c h. ground arith) e few g))
    ]
  ]
]

-- The live code of a phone is in the tables, under its key.
pub record Live (phone : Text) (otp : OtpCode) (db : AuthDb) : Type 0 where
  pub found : Table.find_by code_key otp.id db.codes ≡ some otp
  pub few : otp.attempts ≤ max_attempts
  pub live : is_live phone otp ≡ true

pub find_last-Live :
    (phone : Text) (otp : OtpCode) (db : AuthDb)
    → Guarded db
    → find_last (is_live phone) db.codes ≡ some otp
    → Live phone otp db
find_last-Live phone otp db g e =
    let there =
      find_last-All (λ c. Table.find_by code_key (code_key c) db.codes ≡ some c) (is_live phone)
        db.codes otp (Table.Distinct-found code_key db.codes g.keys) e in
    let few =
      find_last-All (λ (c : OtpCode). c.attempts ≤ max_attempts) (is_live phone) db.codes otp
        g.attempts e in
    record { found = there.0; few = few.0; live = there.1 }

verify_phone-Guarded :
    (phone : Result Text) (code : Text) (now : ℕ) (db : AuthDb)
    → Guarded db
    → Guarded (verify_phone phone code now db).0
verify_phone-Guarded (err e) code now db g = g
verify_phone-Guarded (ok phone) code now db g =
    elim (Option-cases (find_last (is_live phone) db.codes)) [
      | inl e ↦ rw (e, verify_phone) g
      | inr (otp, e) ↦
          let l = find_last-Live phone otp db g e in
          rw (e, verify_phone) (check_code-Guarded otp code now db l.found l.few g)
    ]

-- A step of the sign-in: a code that is sent, or a verification, also one that is refused.
pub data OtpStep (db : AuthDb) : AuthDb → Type 0 where
  requests :
      (raw code : Text) (now : ℕ) (db' : AuthDb) → request raw code now db ≡ ok db' → OtpStep db db'
  verifies : (raw code : Text) (now : ℕ) → OtpStep db (verify raw code now db).0

-- Any number of steps.
pub data OtpSteps (db : AuthDb) : AuthDb → Type 0 where
  done : OtpSteps db db
  next : (mid after : AuthDb) → OtpSteps db mid → OtpStep mid after → OtpSteps db after

-- Over any sequence of requests and verifications, by anyone and at any time: no code is guessed
-- wrongly more than three times, and no phone has two codes that can still be used, when this was so
-- at the start.
pub OtpSteps-Guarded : (db db' : AuthDb) → OtpSteps db db' → Guarded db → Guarded db'
unfolding verify
OtpSteps-Guarded db db' done g = g
OtpSteps-Guarded db db' (next mid after before (requests raw code now d h)) g =
    Post-result {P = Guarded} (request-Guarded raw code now mid (OtpSteps-Guarded db mid before g))
      h
OtpSteps-Guarded db db' (next mid after before (verifies raw code now)) g =
    verify_phone-Guarded (normalize_phone raw) code now mid (OtpSteps-Guarded db mid before g)
