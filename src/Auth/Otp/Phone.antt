-- ===== src/Auth/Otp/Phone.antt =====
-- apps/api/src/auth/otp.service.ts, `normalizePhone`.
use wusuq_web.Base.{
  ℕ, ◌≡◌, refl, sym, ap, subst, true, false, not, [], ◌∷◌, arith, filterb, Bool-cases, inl, inr, ok,
  ok-injective,
}
use wusuq_web.Base.Text.{Text, is_space}
use wusuq_web.Auth.Otp.{
  all_digits, is_digit, is_local, is_international, digits_of, drop_leading, plus, normalize_phone,
}

-- The form of a normalized number.
record Normal (phone : Text) : Type 0 where
  pub digits : Text
  pub form : phone ≡ plus ∷ digits
  pub international : is_international digits ≡ true

digit-space : (c : ℕ) → is_digit c ≡ true → is_space c ≡ false
digit-space c h = ground (arith, h)

-- Digits have no spaces among them.
all_digits-spaces : (s : Text) → all_digits s ≡ true → filterb (λ c. not (is_space c)) s ≡ s
all_digits-spaces [] h = refl
all_digits-spaces (c ∷ s) h =
    let one : is_digit c ≡ true = ground (arith, h) in
    let rest = all_digits-spaces s (ground (arith, h)) in
    rw (digit-space c one) (ap (λ s. c ∷ s) rest)

local-international : (d : Text) → is_local d ≡ true → is_international (57 ∷ 50 ∷ d) ≡ true
local-international d h = ground (arith, h)

normalize_phone-Normal : (raw phone : Text) → normalize_phone raw ≡ ok phone → Normal phone
unfolding normalize_phone
normalize_phone-Normal raw phone h = elim (Bool-cases (is_local (digits_of raw))) [
  | inl x ↦
      let same = ok-injective _ _ (rw (x, normalize_phone) at h) in
      record {
        digits = 57 ∷ 50 ∷ digits_of raw;
        form = sym same;
        international = local-international (digits_of raw) x;
      }
  | inr x ↦ elim (Bool-cases (is_international (digits_of raw))) [
    | inl y ↦ record {
      digits = digits_of raw;
      form = sym (ok-injective _ _ (rw (x, y, normalize_phone) at h));
      international = y;
    }
    | inr y ↦ absurd (ground (arith, rw (x, y, normalize_phone) at h))
  ]
]

drop-international : (d : Text) → is_international d ≡ true → drop_leading 48 d ≡ d
drop-international [] h = refl
drop-international (c ∷ d) h = ground (arith, h)

not_local : (d : Text) → is_international d ≡ true → is_local d ≡ false
not_local [] h = refl
not_local (c ∷ d) h = ground (arith, h)

digits-international : (d : Text) → is_international d ≡ true → all_digits d ≡ true
digits-international d h = ground (arith, h)

digits_of-plus : (d : Text) → is_international d ≡ true → digits_of (plus ∷ d) ≡ d
digits_of-plus d h = rw (all_digits-spaces d (digits-international d h)) (drop-international d h)

normalize-plus : (d : Text) → is_international d ≡ true → normalize_phone (plus ∷ d) ≡ ok (plus ∷ d)
unfolding normalize_phone
normalize-plus d h = rw (normalize_phone, digits_of-plus d h, not_local d h, h) refl

-- A normalized number is its own normal form.
normalize_phone_idempotent :
    (raw phone : Text) → normalize_phone raw ≡ ok phone → normalize_phone phone ≡ ok phone
normalize_phone_idempotent raw phone h =
    let n = normalize_phone-Normal raw phone h in
    subst (λ p. normalize_phone p ≡ ok p) (sym n.form) (normalize-plus n.digits n.international)
