-- ===== src/Shared/Recommendations/Sorted.antt =====
-- packages/shared/src/index.ts, `recommendationsForCase`: its sort.
use wusuq_web.Base.{
  ℕ, ◌≡◌, refl, ap, ◌∙◌, false, some, List, [], ◌∷◌, find, countb, leb, ◌+◌, ◌≤◌, if◌then◌else◌,
  All, arith, Bool-cases, inl, inr,
}
use wusuq_web.Shared.Flows.{Flow}
use wusuq_web.Shared.Recommendations.{RecommendationRule, suggests, insert_rule, sort_rules}

-- No rule stands before one of a lower priority.
abbrev pub InOrder : List RecommendationRule → Type 0
InOrder [] = Unit
InOrder (r ∷ rs) = All (λ (c : RecommendationRule). r.priority ≤ c.priority) rs × InOrder rs

countb-insert_rule :
    (flow : Flow) (r : RecommendationRule) (cs : List RecommendationRule)
    → countb (suggests flow) (insert_rule r cs) ≡ countb (suggests flow) (r ∷ cs)
countb-insert_rule flow r [] = refl
countb-insert_rule flow r (c ∷ cs) = ground (arith, countb-insert_rule flow r cs)

pub countb-sort_rules :
    (flow : Flow) (cs : List RecommendationRule)
    → countb (suggests flow) (sort_rules cs) ≡ countb (suggests flow) cs
countb-sort_rules flow [] = refl
countb-sort_rules flow (c ∷ cs) =
    countb-insert_rule flow c (sort_rules cs)
    ∙ ap (λ n. (if suggests flow c then 1 else 0) + n) (countb-sort_rules flow cs)

find-insert_rule :
    (flow : Flow) (r : RecommendationRule) (cs : List RecommendationRule)
    → countb (suggests flow) (r ∷ cs) ≤ 1
    → find (suggests flow) (insert_rule r cs) ≡ find (suggests flow) (r ∷ cs)
find-insert_rule flow r [] k = refl
find-insert_rule flow r (c ∷ cs) k = elim (Bool-cases (leb r.priority c.priority)) [
  | inl y ↦ rw y refl
  | inr n ↦ elim (Bool-cases (suggests flow c)) [
    | inl y ↦ let m : suggests flow r ≡ false = ground (arith, k, y) in rw (n, y, m) refl
    | inr m ↦ rw (n, m) (find-insert_rule flow r cs (ground (arith, k, m)))
  ]
]

pub find-sort_rules :
    (flow : Flow) (cs : List RecommendationRule)
    → countb (suggests flow) cs ≤ 1
    → find (suggests flow) (sort_rules cs) ≡ find (suggests flow) cs
find-sort_rules flow [] k = refl
find-sort_rules flow (c ∷ cs) k =
    find-insert_rule flow c (sort_rules cs) (rw (countb-sort_rules flow cs) k)
    ∙ ap (λ o. if suggests flow c then some c else o) (find-sort_rules flow cs (omega (arith, k)))

All-insert_rule :
    (n : ℕ) (r : RecommendationRule) (cs : List RecommendationRule)
    → n ≤ r.priority
    → All (λ (c : RecommendationRule). n ≤ c.priority) cs
    → All (λ (c : RecommendationRule). n ≤ c.priority) (insert_rule r cs)
All-insert_rule n r [] k all = (k, tt)
All-insert_rule n r (c ∷ cs) k (h, all) = elim (Bool-cases (leb r.priority c.priority)) [
  | inl y ↦ rw y (k, (h, all))
  | inr m ↦ rw m (h, All-insert_rule n r cs k all)
]

All-trans :
    (m n : ℕ) (cs : List RecommendationRule)
    → m ≤ n
    → All (λ (c : RecommendationRule). n ≤ c.priority) cs
    → All (λ (c : RecommendationRule). m ≤ c.priority) cs
All-trans m n [] k all = tt
All-trans m n (c ∷ cs) k (h, all) = (omega (arith, k, h), All-trans m n cs k all)

insert_rule-InOrder :
    (r : RecommendationRule) (cs : List RecommendationRule)
    → InOrder cs
    → InOrder (insert_rule r cs)
insert_rule-InOrder r [] k = (tt, tt)
insert_rule-InOrder r (c ∷ cs) (low, rest) = elim (Bool-cases (leb r.priority c.priority)) [
  | inl y ↦
      let k : r.priority ≤ c.priority = ground (arith, y) in
      rw y ((k, All-trans r.priority c.priority cs k low), (low, rest))
  | inr n ↦
      rw n (All-insert_rule c.priority r cs (ground (arith, n)) low, insert_rule-InOrder r cs rest)
]

pub sort_rules-InOrder : (cs : List RecommendationRule) → InOrder (sort_rules cs)
sort_rules-InOrder [] = tt
sort_rules-InOrder (c ∷ cs) = insert_rule-InOrder c (sort_rules cs) (sort_rules-InOrder cs)
