-- ===== src/Users.antt =====
-- apps/api/src/auth/auth.service.ts, `completeProfile`: the profile, whose country and phone decide
-- the currency of the account until it is in use. The columns that hold but a text are not kept.
pub mod OneCurrency
pub mod Mixed
use wusuq_web.Base.{
  ℕ, ltb, Bool, true, false, not, ◌&&◌, ◌||◌, Option, none, some, List, [], ◌∷◌, countb, is_some,
  or_else, ◌==◌, if◌then◌else◌, Result, ok, err, ◌>>=◌, or_throw, not_found,
}
use wusuq_web.Base.Text.{Text, given}
use wusuq_web.Shared.Region.{derive_currency}
use wusuq_web.Shared.Flows.{Currency}
use wusuq_web.Store.{User, Ticket, Db, find_user, update_user}

-- `ProfileCompleteDto`, as far as it is kept.
pub record ProfileCompleteDto : Type 0 where
  pub country : Option Text
  pub phone : Option Text

-- A ticket of the user that is not archived.
abbrev pub is_live_of : ℕ → Ticket → Bool
is_live_of user_id t = t.consumer_id == user_id && not t.archived

-- The account is in use: it has such a ticket, or credit.
abbrev pub is_locked : User → Db → Bool
is_locked existing db =
    ltb 0 (countb (is_live_of existing.id) db.tickets) || ltb 0 existing.wallet_balance

-- `dto.x ? { x: dto.x } : {}`.
abbrev pub written : Option Text → Option Text → Option Text
written sent column = elim (given sent) [ [] ↦ column | text ∷ _ ↦ some text ]

abbrev pub currency_after : ProfileCompleteDto → User → Bool → Currency
currency_after dto existing locked =
    if not (is_some dto.country || is_some dto.phone) || locked
    then existing.currency
    else derive_currency (or_else dto.phone existing.phone) (or_else dto.country existing.country)

-- The columns that the call writes, from the user as it was read.
abbrev pub profiled : ProfileCompleteDto → User → Bool → User → User
profiled dto existing locked u = record u {
  country = written dto.country u.country;
  phone = written dto.phone u.phone;
  currency = currency_after dto existing locked;
}

unfoldable pub complete_profile : ℕ → ProfileCompleteDto → Db → Result Db
unfolding derive_currency
complete_profile user_id dto db = do
  existing ← or_throw (find_user user_id db) not_found
  ok (update_user user_id (profiled dto existing (is_locked existing db)) db)
