-- ===== src/Tests/Wallet.antt =====
-- Tests of the wallet.
use wusuq_web.Base.{
  ℕ, ◌+◌, ◌-◌, ◌≡◌, refl, true, false, none, some, [], ◌∷◌, map, Result, ok, ◌>>=◌, ◌>>◌, or_throw,
  throw_if,
}
use wusuq_web.Store.{Db, IsWellFormed}
use wusuq_web.Wallet.{
  settle_tickets_for_user, apply_payment_to_ticket, outstanding_dues_for_user, balance_of,
  verify_topup, verify_locked, reject_topup, pay_ticket_from_wallet, due_now,
}
use wusuq_web.Wallet.Money.{held}
use wusuq_web.Wallet.Dues.{due_at}
use wusuq_web.Wallet.Fifo.{settle_tickets_for_user-fifo}
use wusuq_web.Wallet.Topup.{verify_topup-held, verify_topup_once}
use wusuq_web.Wallet.Pay.{Paid, pay_ticket_from_wallet-Paid}
use wusuq_web.Shared.Money.{round2}
use wusuq_web.Shared.Flows.{payment_model_for}
use wusuq_web.Tests.{db, db-IsWellFormed, customer, topup_row}

abbrev settled : Db
settled = settle_tickets_for_user 1 db

dues : outstanding_dues_for_user 1 db ≡ 80_00
unfolding outstanding_dues_for_user
dues = refl

settle_tickets_for_user-fifo_example :
    (map (due_at settled) (10 ∷ 11 ∷ 12 ∷ 14 ∷ 15 ∷ 16 ∷ []) ≡ 0 ∷ 10_00 ∷ 0 ∷ 0 ∷ 0 ∷ 0 ∷ [])
    × (balance_of 1 settled ≡ 70_00 - outstanding_dues_for_user 1 db)
settle_tickets_for_user-fifo_example =
    settle_tickets_for_user-fifo 1 db customer db-IsWellFormed refl

abbrev verified : Db
verified = (verify_locked 5 none topup_row db).1

verify_run : verify_topup 5 none db ≡ ok (false, verified)
unfolding verify_topup verify_locked ◌>>=◌ or_throw
verify_run = refl

verify_topup-held_example :
    (false ≡ false) × (held verified ≡ held db + 30_00) × IsWellFormed verified
verify_topup-held_example =
    verify_topup-held 5 none topup_row customer db false verified db-IsWellFormed refl refl refl
      verify_run

verify_topup_once_example :
    (verify_topup 5 (some 9) verified ≡ ok (true, verified))
    × (reject_topup 5 (some 9) verified ≡ ok (true, verified))
verify_topup_once_example = verify_topup_once 5 none (some 9) db false verified verify_run

abbrev value : Result (ℕ × Db) → Db
value (ok (n, d)) = d
value _ = db

abbrev paid_db : Db
paid_db = value (pay_ticket_from_wallet 1 10 db)

pay : pay_ticket_from_wallet 1 10 db ≡ ok (50_00, paid_db)
unfolding pay_ticket_from_wallet due_now payment_model_for round2 ◌>>=◌ ◌>>◌ or_throw throw_if
    apply_payment_to_ticket
pay = refl

pay_ticket_from_wallet-Paid_example : Paid 1 10 db (50_00, paid_db)
pay_ticket_from_wallet-Paid_example =
    pay_ticket_from_wallet-Paid 1 10 db 50_00 paid_db db-IsWellFormed pay
