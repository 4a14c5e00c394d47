-- ===== src/Promos/Discount.antt =====
-- apps/api/src/promos/promos.service.ts, `validate`: what an accepted code gives.
use wusuq_web.Base.{ℕ, ◌*◌, ◌≤◌, ◌≡◌, true, false, some, arith, min, Option-cases, inl, inr}
use wusuq_web.Base.Text.{trim, upper}
use wusuq_web.Shared.Money.{round2, round2_one}
use wusuq_web.Store.{Db}
use wusuq_web.Store.Billing.{PromoType, percent, fixed, PromoCode}
use wusuq_web.Promos.{
  valid, ValidateArgs, find_code, used, used_by, reached, capped, out_of_scope, too_early, too_late,
  discount_of, validate_promo, validate,
}

discount_of-subtotal : (p : PromoCode) (n : ℕ) → discount_of p n ≤ n
unfolding discount_of
discount_of-subtotal p n = go p.type
  where
    go : (t : PromoType) → discount_of (record p { type = t }) n ≤ n
    go percent =
        rw (round2_one (min (capped p.max_discount (round2 (n * p.value) 10_000)) n)) (omega arith)
    go fixed = rw (round2_one (min p.value n)) (omega arith)

discount_of-cap :
    (p : PromoCode) (n cap : ℕ)
    → p.type ≡ percent
    → p.max_discount ≡ some cap
    → discount_of p n ≤ cap
unfolding discount_of
discount_of-cap p n cap t c =
    rw (t, discount_of, c, round2_one (min (min (round2 (n * p.value) 10_000) cap) n)) (omega arith)

-- What an accepted code and its discount satisfy.
pub record Granted (promo : PromoCode) (args : ValidateArgs) (now discount id : ℕ) (db : Db)
    : Type 0 where
  pub same_id : id ≡ promo.id
  pub active : promo.active ≡ true
  pub in_time : (too_early promo.starts_at now ≡ false) × (too_late promo.ends_at now ≡ false)
  pub in_scope : out_of_scope promo.service_scope args.flow ≡ false
  pub left : reached promo.total_usage_limit (used promo.id db) ≡ false
  pub left_for_user : reached promo.per_user_limit (used_by promo.id args.user_id db) ≡ false
  pub bounded : discount ≤ args.subtotal
  pub under_cap : (cap : ℕ) → promo.type ≡ percent → promo.max_discount ≡ some cap → discount ≤ cap

validate_promo-Granted :
    (p : PromoCode) (args : ValidateArgs) (now discount id : ℕ) (db : Db)
    → validate_promo p args now db ≡ valid discount id
    → Granted p args now discount id db
unfolding validate_promo
validate_promo-Granted p args now discount id db h =
    let same : discount ≡ discount_of p args.subtotal = ground (arith, h) in
    record {
      same_id = ground (arith, h);
      active = ground (arith, h);
      in_time = (ground (arith, h), ground (arith, h));
      in_scope = ground (arith, h);
      left = ground (arith, h);
      left_for_user = ground (arith, h);
      bounded = omega (arith, discount_of-subtotal p args.subtotal, same);
      under_cap = λ cap t c. omega (arith, discount_of-cap p args.subtotal cap t c, same);
    }

-- A code that is accepted exists, is active, in its time and its scope, and below both of its
-- limits. Its discount is at most the subtotal, and at most the cap of a percentage that has one.
pub validate-Granted :
    (args : ValidateArgs) (now discount id : ℕ) (db : Db)
    → validate args now db ≡ valid discount id
    → (promo : PromoCode) × (find_code (upper (trim args.code)) db ≡ some promo)
      × Granted promo args now discount id db
unfolding validate
validate-Granted args now discount id db h =
    elim (Option-cases (find_code (upper (trim args.code)) db)) [
      | inl e ↦ absurd (ground (arith, h, e))
      | inr (p, e) ↦
          (p, e, validate_promo-Granted p args now discount id db (rw (e, validate) at h))
    ]
