-- ===== src/Tests/Users.antt =====
-- Tests of the profile and of the currency of an account.
use wusuq_web.Base.{
  ◌≡◌, refl, sym, ap, true, some, some-injective, none, [], ◌∷◌, arith, Result, ok, err, ◌>>=◌,
  or_throw,
}
use wusuq_web.Shared.Flows.{pkr, usd}
use wusuq_web.Shared.Region.{derive_currency}
use wusuq_web.Store.{User, Ticket, Db, find_ticket, consumer, unpaid}
use wusuq_web.Tickets.Bulk.{delete, restore, bulk_action}
use wusuq_web.Tickets.NextHearing.{generate_next_hearing}
use wusuq_web.Users.{ProfileCompleteDto, complete_profile}
use wusuq_web.Users.OneCurrency.{
  OneCurrency, CurrencyStep, CurrencySteps, CurrencySteps-OneCurrency,
}
use wusuq_web.Users.Mixed.{HasForeign, next_hearing-HasForeign, restore-HasForeign}
use wusuq_web.Tests.{db, user, ticket}

abbrev small : Db
small = record db { users = user 1 consumer 0 ∷ []; tickets = ticket 30 unpaid 20_00 0 ∷ [] }

small-OneCurrency : OneCurrency small
small-OneCurrency =
    ((λ live u e. sym (ap (λ (u : User). u.currency) (some-injective (user 1 consumer 0) u e))), tt)

-- 'us'.
abbrev abroad : ProfileCompleteDto
abroad = record { country = some (117 ∷ 115 ∷ []); phone = none }

abbrev tables : Result Db → Db
tables (ok d) = d
tables (err _) = small

abbrev archived : Db
archived = record small { tickets = record (ticket 30 unpaid 20_00 0) { archived = true } ∷ [] }

archives : (bulk_action delete (30 ∷ []) small).db ≡ archived
unfolding bulk_action
archives = refl

abbrev moved : Db
moved = tables (complete_profile 1 abroad archived)

moves : complete_profile 1 abroad archived ≡ ok moved
unfolding complete_profile ◌>>=◌ or_throw
moves = refl

CurrencySteps-OneCurrency_example : OneCurrency moved
CurrencySteps-OneCurrency_example =
    CurrencySteps-OneCurrency small moved
      (CurrencySteps.next
        (CurrencySteps.next CurrencySteps.done (CurrencyStep.archives (30 ∷ []) archives))
        (CurrencyStep.completes_profile 1 abroad moves))
      small-OneCurrency

us_currency : derive_currency none (some (117 ∷ 115 ∷ [])) ≡ usd
unfolding derive_currency
us_currency = refl

restore-HasForeign_example :
    (d : Db) × (complete_profile 1 abroad archived ≡ ok d)
    × HasForeign 1 30 (bulk_action restore (30 ∷ []) d).db
restore-HasForeign_example =
    restore-HasForeign 1 30 abroad archived (user 1 consumer 0)
      (record (ticket 30 unpaid 20_00 0) { archived = true }) refl refl refl refl refl refl refl
      (λ e. absurd (ground (arith, e, us_currency)))

abbrev hearing : Ticket
hearing = record (ticket 31 unpaid 20_00 0) { currency = usd; scheduled_date = some 7 }

abbrev dollars : Db
dollars = record db {
  users = record (user 1 consumer 0) { currency = usd } ∷ [];
  tickets = hearing ∷ [];
}

next_hearing-HasForeign_example :
    (d : Db) × (n : Ticket) × (generate_next_hearing 31 dollars ≡ ok d)
    × (find_ticket 20 d ≡ some n)
    × (n.currency ≡ pkr)
    × (n.total_amount ≡ 20_00)
    × (find_ticket 31 d ≡ some hearing)
    × HasForeign 1 20 d
next_hearing-HasForeign_example =
    next_hearing-HasForeign 31 7 dollars hearing (record (user 1 consumer 0) { currency = usd })
      refl refl refl refl refl refl
