-- ===== src/Promos.antt =====
-- apps/api/src/promos/promos.service.ts: promo codes, their discounts and their limits. The clock is
-- an argument.
pub mod Discount
pub mod Limits
use wusuq_web.Base.{
  ℕ, suc, ◌*◌, Bool, true, false, not, ◌&&◌, ◌||◌, Option, none, some, List, [], ◌∷◌, ◌++◌, any,
  countb, find, min, ltb, leb, ◌==◌, if◌then◌else◌, Result, ok, err, ◌>>=◌, ◌>>◌, throw_if, ensure,
  or_throw, bad_request, not_found, conflict, internal,
}
use wusuq_web.Base.Table
use wusuq_web.Base.Text.{Text, trim, upper, same_text}
use wusuq_web.Shared.Flows.{Flow, same_flow}
use wusuq_web.Shared.Money.{round2}
use wusuq_web.Store.{Db}
use wusuq_web.Store.Billing.{PromoType, percent, fixed, PromoCode, PromoRedemption, promo_key}

-- Why a code is refused.
pub data Reason : Type 0 where
  unknown not_started expired wrong_service used_up used_up_by_user : Reason

-- `PromoValidation`.
pub data PromoValidation : Type 0 where
  invalid : Reason → PromoValidation
  valid : (discount promo_code_id : ℕ) → PromoValidation

pub record ValidateArgs : Type 0 where
  pub code : Text
  pub user_id : ℕ
  pub flow : Flow
  pub subtotal : ℕ

abbrev pub find_promo : ℕ → Db → Option PromoCode
find_promo id db = Table.find_by promo_key id db.promos

-- `promoCode.findUnique({ where: { code } })`.
abbrev pub find_code : Text → Db → Option PromoCode
find_code code db = find (λ p. same_text p.code code) db.promos

-- `promoRedemption.count`, in all and of one user.
abbrev pub used : ℕ → Db → ℕ
used id db = countb (λ (r : PromoRedemption). r.promo_code_id == id) db.redemptions

abbrev pub used_by : ℕ → ℕ → Db → ℕ
used_by id user_id db =
    countb (λ (r : PromoRedemption). r.promo_code_id == id && r.user_id == user_id) db.redemptions

-- Has a count reached a limit that may be absent?
abbrev pub reached : Option ℕ → ℕ → Bool
reached none n = false
reached (some limit) n = leb limit n

-- `now < startsAt`, and `now > endsAt`.
abbrev pub too_early : Option ℕ → ℕ → Bool
too_early none now = false
too_early (some at) now = ltb now at

abbrev pub too_late : Option ℕ → ℕ → Bool
too_late none now = false
too_late (some at) now = ltb at now

-- Does a scope that is not empty leave out the flow?
abbrev pub out_of_scope : List Flow → Flow → Bool
out_of_scope [] flow = false
out_of_scope (f ∷ scope) flow = not (any (same_flow flow) (f ∷ scope))

-- A value of a hundredth of a percent is a ten-thousandth.
abbrev pub capped : Option ℕ → ℕ → ℕ
capped none n = n
capped (some cap) n = min n cap

unfoldable pub discount_of : PromoCode → ℕ → ℕ
unfolding round2
discount_of promo subtotal = elim promo.type [
  | percent ↦
      round2 (min (capped promo.max_discount (round2 (subtotal * promo.value) 10_000)) subtotal) 1
  | fixed ↦ round2 (min promo.value subtotal) 1
]

-- The checks of `validate` on a code that exists, in the order of the source.
unfoldable pub validate_promo : PromoCode → ValidateArgs → ℕ → Db → PromoValidation
unfolding discount_of
validate_promo promo args now db =
    if not promo.active
    then invalid unknown
    else if too_early promo.starts_at now
    then invalid not_started
    else if too_late promo.ends_at now
    then invalid expired
    else if out_of_scope promo.service_scope args.flow
    then invalid wrong_service
    else if reached promo.total_usage_limit (used promo.id db)
    then invalid used_up
    else if reached promo.per_user_limit (used_by promo.id args.user_id db)
    then invalid used_up_by_user
    else valid (discount_of promo args.subtotal) promo.id

unfoldable pub validate : ValidateArgs → ℕ → Db → PromoValidation
unfolding validate_promo
validate args now db = elim (find_code (upper (trim args.code)) db) [
  | none ↦ invalid unknown
  | some promo ↦ validate_promo promo args now db
]

-- `assertWithinLimits`, under the lock of the code.
unfoldable pub assert_within_limits : ℕ → ℕ → Db → Result (Unit {0})
assert_within_limits id user_id db = do
  promo ← or_throw (find_promo id db) not_found
  throw_if (reached promo.total_usage_limit (used id db)) conflict
  throw_if (reached promo.per_user_limit (used_by id user_id db)) conflict
  ok tt

-- The row that the intake adds in the same transaction.
unfoldable pub redeem : ℕ → ℕ → ℕ → ℕ → Db → Result Db
unfolding assert_within_limits
redeem id user_id ticket_id amount db = do
  assert_within_limits id user_id db
  ok (record db {
    redemptions =
        db.redemptions
        ++ (record { promo_code_id = id; user_id = user_id; ticket_id = ticket_id; amount = amount }
            ∷ []);
  })

-- `CreatePromoDto`.
pub record CreatePromoDto : Type 0 where
  pub code : Text
  pub type : PromoType
  pub value : ℕ
  pub max_discount : Option ℕ
  pub starts_at : Option ℕ
  pub ends_at : Option ℕ
  pub total_usage_limit : Option ℕ
  pub per_user_limit : Option ℕ
  pub service_scope : List Flow

abbrev pub is_percent : PromoType → Bool
is_percent percent = true
is_percent fixed = false

abbrev pub new_promo : CreatePromoDto → ℕ → PromoCode
new_promo dto id = record {
  id = id;
  code = upper (trim dto.code);
  type = dto.type;
  value = dto.value;
  max_discount = dto.max_discount;
  starts_at = dto.starts_at;
  ends_at = dto.ends_at;
  total_usage_limit = dto.total_usage_limit;
  per_user_limit = dto.per_user_limit;
  service_scope = dto.service_scope;
  active = true;
}

-- `create`; the code is unique.
unfoldable pub create : CreatePromoDto → Db → Result Db
create dto db = do
  throw_if (is_percent dto.type && ltb 100_00 dto.value) bad_request
  let promo = new_promo dto db.next_id
  elim (find_code promo.code db) [
    | some _ ↦ err internal
    | none ↦ ok (record db { promos = db.promos ++ (promo ∷ []); next_id = suc db.next_id })
  ]

unfoldable pub deactivate : ℕ → Db → Result Db
deactivate id db = do
  promo ← or_throw (find_promo id db) not_found
  ok (record db {
    promos = Table.update_by promo_key id (λ p. record p { active = false }) db.promos;
  })
