-- ===== src/Tests/Ledger.antt =====
-- Tests of the money over several calls.
use wusuq_web.Base.{◌+◌, ◌≡◌, refl, false, none, arith, Result, ok, ◌>>=◌, ◌>>◌, or_throw, throw_if}
use wusuq_web.Base.Int.{negsuc}
use wusuq_web.Store.{Db}
use wusuq_web.Wallet.{verify_topup, verify_locked, create_transaction, adjust_wallet}
use wusuq_web.Wallet.Money.{held}
use wusuq_web.Payments.{PaymentProvider, VerifyCallbackResult}
use wusuq_web.Ledger.{HasUser, IsLedger}
use wusuq_web.Ledger.Steps.{MoneyStep, MoneySteps, MoneySteps-held}
use wusuq_web.Tests.{db, db-IsWellFormed, customer, topup_row}

abbrev provider : PaymentProvider VerifyCallbackResult
provider = record { name = 1; next_txn_id = λ id due. 100 + id; verify_callback = λ body. body }

db-IsLedger : IsLedger db
db-IsLedger = record {
  sound = record {
    well_formed = db-IsWellFormed;
    consumers =
        let own : HasUser 1 db = (customer, refl) in
        (own, (own, (own, (own, (own, (own, (own, tt)))))));
  };
  below = (
    omega arith,
    (omega arith, (omega arith, (omega arith, (omega arith, (omega arith, (omega arith, tt)))))),
  );
  pending = ((λ _. (refl, (customer, refl))), tt);
  payments = tt;
}

-- A part of the credit is taken back, and then a top-up is verified.
abbrev tables : Result Db → Db
tables (ok d) = d
tables _ = db

abbrev adjusted : Db
adjusted = tables (adjust_wallet 1 (negsuc 4_99) db)

adjusts : adjust_wallet 1 (negsuc 4_99) db ≡ ok adjusted
unfolding adjust_wallet ◌>>=◌ ◌>>◌ or_throw throw_if
adjusts = refl

abbrev verified : Db
verified = (verify_locked 5 none topup_row adjusted).1

verifies : verify_topup 5 none adjusted ≡ ok (false, verified)
unfolding verify_topup verify_locked adjust_wallet ◌>>=◌ ◌>>◌ or_throw throw_if create_transaction
verifies = refl

MoneySteps-held_example : IsLedger verified × (held verified + 5_00 ≡ held db + 30_00)
unfolding adjust_wallet ◌>>=◌ ◌>>◌ or_throw throw_if
MoneySteps-held_example =
    MoneySteps-held provider db verified 30_00 5_00
      (MoneySteps.next adjusted verified 0 5_00 30_00 0
        (MoneySteps.next db adjusted 0 0 0 5_00 MoneySteps.done
          (MoneyStep.adjusts 1 (negsuc 4_99) adjusts))
        (MoneyStep.verifies 5 none false verifies))
      db-IsLedger
