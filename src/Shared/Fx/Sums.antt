-- ===== src/Shared/Fx/Sums.antt =====
-- `sumMixedCurrencyToPkr` against the sum that it stands for.
use wusuq_web.Base.{
  ℕ, zero, suc, ◌+◌, ◌*◌, ◌≡◌, Bool, true, not, Option, none, some, List, [], ◌∷◌, arith, ltb, ◌⁇◌,
  sum, countb,
}
use wusuq_web.Shared.Flows.{Currency, pkr, usd}
use wusuq_web.Shared.Money.{million, round2, round2_one}
use wusuq_web.Shared.Fx.{MoneyRow, MixedSum, add_row, sum_rows, sum_mixed_currency_to_pkr}

-- A row counts when it is billed in PKR or carries a positive rate.
abbrev pub converts : Currency → Option ℕ → Bool
converts pkr rate = true
converts usd rate = ltb 0 (rate ⁇ 0)

-- An amount in PKR, where the row counts.
abbrev pub in_pkr : ℕ → Currency → Option ℕ → ℕ
in_pkr amount pkr rate = amount
in_pkr amount usd none = 0
in_pkr amount usd (some zero) = 0
in_pkr amount usd (some (suc r)) = round2 (amount * suc r) million

abbrev pub billed : MoneyRow → ℕ
billed r = in_pkr r.total_amount r.currency r.fx_rate_to_pkr

abbrev pub paid : MoneyRow → ℕ
paid r = in_pkr r.amount_paid r.currency r.fx_rate_to_pkr

abbrev pub excluded : MoneyRow → Bool
excluded r = not (converts r.currency r.fx_rate_to_pkr)

add_row_lem :
    (s : MixedSum) (t p : ℕ) (c : Currency) (rate : Option ℕ)
    → let r : MoneyRow = record {
      total_amount = t;
      amount_paid = p;
      currency = c;
      fx_rate_to_pkr = rate;
    } in
      let s' = add_row s c r in
      (s'.total_amount_pkr ≡ s.total_amount_pkr + billed r)
      × (s'.amount_paid_pkr ≡ s.amount_paid_pkr + paid r)
      × (s'.unconverted_count ≡ s.unconverted_count + countb excluded (r ∷ []))
unfolding add_row
add_row_lem s t p pkr rate = omega arith
add_row_lem s t p usd none = omega arith
add_row_lem s t p usd (some zero) = omega arith
add_row_lem s t p usd (some (suc r)) = grind arith

sum_rows_lem :
    (s : MixedSum) (rows : List MoneyRow)
    → ((sum_rows s rows).total_amount_pkr ≡ s.total_amount_pkr + sum billed rows)
      × ((sum_rows s rows).amount_paid_pkr ≡ s.amount_paid_pkr + sum paid rows)
      × ((sum_rows s rows).unconverted_count ≡ s.unconverted_count + countb excluded rows)
unfolding sum_rows
sum_rows_lem s [] = omega arith
sum_rows_lem s (r ∷ rs) = omega (
  arith,
  add_row_lem s r.total_amount r.amount_paid r.currency r.fx_rate_to_pkr,
  sum_rows_lem (add_row s r.currency r) rs,
)

-- The mixed sum adds up, in PKR, exactly the rows that are in PKR or carry a positive rate, each by
-- its own rate, and counts all the others.
sum_mixed_currency_to_pkr_lem :
    (rows : List MoneyRow)
    → let s = sum_mixed_currency_to_pkr rows in
      (s.total_amount_pkr ≡ sum billed rows)
      × (s.amount_paid_pkr ≡ sum paid rows)
      × (s.unconverted_count ≡ countb excluded rows)
unfolding sum_mixed_currency_to_pkr
sum_mixed_currency_to_pkr_lem rows = simp round2_one (
    omega (
      arith,
      sum_rows_lem (record { total_amount_pkr = 0; amount_paid_pkr = 0; unconverted_count = 0 })
          rows,
    ))
