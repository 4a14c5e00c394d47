-- ===== src/Shared/Fx.antt =====
-- packages/shared/src/index.ts, `convertToPkr` and `sumMixedCurrencyToPkr`, and the conversions of
-- apps/web/lib/pay-amount.ts.
pub mod Sums
pub mod RoundTrip
use wusuq_web.Base.{ℕ, zero, suc, ◌+◌, ◌*◌, Bool, true, false, Option, none, some, List, [], ◌∷◌}
use wusuq_web.Shared.Flows.{Currency, pkr, usd}
use wusuq_web.Shared.Money.{million, round2}

-- A missing rate, or one that is not positive, converts nothing.
unfoldable pub convert_to_pkr : ℕ → Option ℕ → Option ℕ
convert_to_pkr amount none = none
convert_to_pkr amount (some zero) = none
convert_to_pkr amount (some (suc r)) = some (round2 (amount * suc r) million)

unfoldable pub payable_in_pkr : ℕ → Currency → Option ℕ → Option ℕ
payable_in_pkr due_now pkr rate = some due_now
payable_in_pkr due_now usd rate = convert_to_pkr due_now rate

unfoldable pub submit_amount_from_pkr : ℕ → Currency → Option ℕ → Option ℕ
submit_amount_from_pkr entered pkr rate = some entered
submit_amount_from_pkr entered usd none = none
submit_amount_from_pkr entered usd (some zero) = none
submit_amount_from_pkr entered usd (some (suc r)) = some (round2 (entered * million) (suc r))

pub data PaymentMode : Type 0 where
  jazz_cash easy_paisa bank_transfer : PaymentMode

unfoldable pub is_pkr_rail : PaymentMode → Bool
is_pkr_rail jazz_cash = true
is_pkr_rail easy_paisa = true
is_pkr_rail bank_transfer = false

-- A row of a mixed-currency sum.
pub record MoneyRow : Type 0 where
  pub total_amount : ℕ
  pub amount_paid : ℕ
  pub currency : Currency
  pub fx_rate_to_pkr : Option ℕ

-- The running totals: PKR billed, PKR paid, rows left out.
pub record MixedSum : Type 0 where
  pub total_amount_pkr : ℕ
  pub amount_paid_pkr : ℕ
  pub unconverted_count : ℕ

-- Both legs must convert.
add_legs : MixedSum → Option ℕ → Option ℕ → MixedSum
add_legs s (some total) (some paid) = record s {
  total_amount_pkr = s.total_amount_pkr + total;
  amount_paid_pkr = s.amount_paid_pkr + paid;
}
add_legs s _ _ = record s { unconverted_count = s.unconverted_count + 1 }

-- One round of the loop.
add_row : MixedSum → Currency → MoneyRow → MixedSum
unfolding add_legs convert_to_pkr
add_row s pkr r = add_legs s (some r.total_amount) (some r.amount_paid)
add_row s usd r =
    add_legs s (convert_to_pkr r.total_amount r.fx_rate_to_pkr)
      (convert_to_pkr r.amount_paid r.fx_rate_to_pkr)

sum_rows : MixedSum → List MoneyRow → MixedSum
sum_rows s [] = s
sum_rows s (r ∷ rs) = sum_rows (add_row s r.currency r) rs

unfoldable pub sum_mixed_currency_to_pkr : List MoneyRow → MixedSum
unfolding sum_rows add_row
sum_mixed_currency_to_pkr rows =
    let s =
      sum_rows (record { total_amount_pkr = 0; amount_paid_pkr = 0; unconverted_count = 0 }) rows in
    record s {
      total_amount_pkr = round2 s.total_amount_pkr 1;
      amount_paid_pkr = round2 s.amount_paid_pkr 1;
    }
