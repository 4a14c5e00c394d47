-- ===== src/Shared/Recommendations/Ranked.antt =====
-- packages/shared/src/index.ts, `recommendationsForCase`: what the recommendations of a case are.
use wusuq_web.Base.{
  ◌≡◌, refl, ◌∙◌, Bool, true, false, Option, none, some, List, [], ◌∷◌, any, find, countb, ltb, ◌≤◌,
  max, if◌then◌else◌, arith, Bool-cases, Option-cases, inl, inr,
}
use wusuq_web.Shared.Flows.{Flow, same_flow}
use wusuq_web.Shared.Recommendations.{
  RecommendationRule, suggests, set_candidate, consider, consider_all, rules_of,
  recommendations_for_case,
}
use wusuq_web.Shared.Recommendations.Sorted.{
  InOrder, countb-sort_rules, find-sort_rules, sort_rules-InOrder,
}

-- The first of the rules for a flow that have the lowest priority, after one that was met before.
abbrev pub better : Option RecommendationRule → RecommendationRule → Option RecommendationRule
better none r = some r
better (some e) r = if ltb r.priority e.priority then some r else some e

abbrev pub best_for :
    Flow → List RecommendationRule → Option RecommendationRule → Option RecommendationRule
best_for flow [] best = best
best_for flow (r ∷ rs) best = best_for flow rs (if suggests flow r then better best r else best)

abbrev pub is_blocked : List Flow → Flow → Bool
is_blocked blocked flow = any (λ f. same_flow f flow) blocked

find-set_candidate :
    (flow : Flow) (r : RecommendationRule) (cs : List RecommendationRule)
    → find (suggests flow) (set_candidate r cs)
      ≡ (if suggests flow r then some r else find (suggests flow) cs)
find-set_candidate flow r [] = refl
find-set_candidate flow r (c ∷ cs) = ground (arith, find-set_candidate flow r cs)

countb-set_candidate :
    (flow : Flow) (r : RecommendationRule) (cs : List RecommendationRule)
    → countb (suggests flow) (set_candidate r cs)
      ≡ (if suggests flow r then max 1 (countb (suggests flow) cs) else countb (suggests flow) cs)
countb-set_candidate flow r [] = ground arith
countb-set_candidate flow r (c ∷ cs) = ground (arith, countb-set_candidate flow r cs)

unique_lookup :
    (flow : Flow) (cs : List RecommendationRule)
    → countb (suggests flow) cs ≡ 0
    → find (suggests flow) cs ≡ none
unique_lookup flow [] h = refl
unique_lookup flow (c ∷ cs) h = ground (arith, unique_lookup flow cs)

-- A rule for another flow is not seen.
find-consider_other :
    (flow : Flow) (blocked : List Flow) (r : RecommendationRule) (cs : List RecommendationRule)
    → suggests flow r ≡ false
    → find (suggests flow) (consider blocked r cs) ≡ find (suggests flow) cs
find-consider_other flow blocked r cs n = elim (Bool-cases (is_blocked blocked r.next)) [
  | inl y ↦ rw y refl
  | inr m ↦ elim (Option-cases (find (suggests r.next) cs)) [
    | inl e ↦ rw (m, e, find-set_candidate flow r cs, n) refl
    | inr (x, e) ↦ elim (Bool-cases (ltb r.priority x.priority)) [
      | inl y ↦ rw (m, e, y, find-set_candidate flow r cs, n) refl
      | inr y ↦ rw (m, e, y) refl
    ]
  ]
]

same_blocked :
    (flow next : Flow) (blocked : List Flow)
    → same_flow next flow ≡ true
    → is_blocked blocked next ≡ is_blocked blocked flow
same_blocked flow next [] s = refl
same_blocked flow next (b ∷ bs) s = ground (arith, same_blocked flow next bs s)

same_lookup :
    (flow next : Flow) (cs : List RecommendationRule)
    → same_flow next flow ≡ true
    → find (suggests next) cs ≡ find (suggests flow) cs
same_lookup flow next [] s = refl
same_lookup flow next (c ∷ cs) s = ground (arith, same_lookup flow next cs s)

-- One rule for a flow.
find-consider_same :
    (flow : Flow) (blocked : List Flow) (r : RecommendationRule) (cs : List RecommendationRule)
    → suggests flow r ≡ true
    → find (suggests flow) (consider blocked r cs) ≡ (
        if is_blocked blocked flow
        then find (suggests flow) cs
        else better (find (suggests flow) cs) r)
find-consider_same flow blocked r cs y =
    let same = same_blocked flow r.next blocked y in
    let lookup = same_lookup flow r.next cs y in
    elim (Bool-cases (is_blocked blocked flow)) [
      | inl b ↦ rw (same, b) refl
      | inr n ↦ elim (Option-cases (find (suggests flow) cs)) [
        | inl e ↦ rw (same, n, lookup, e, find-set_candidate flow r cs, y) refl
        | inr (x, e) ↦ elim (Bool-cases (ltb r.priority x.priority)) [
          | inl z ↦ rw (same, n, lookup, e, z, find-set_candidate flow r cs, y) refl
          | inr z ↦ rw (same, n, lookup, e, z) e
        ]
      ]
    ]

find-consider_all :
    (flow : Flow) (blocked : List Flow) (rs cs : List RecommendationRule)
    → find (suggests flow) (consider_all blocked rs cs) ≡ (
        if is_blocked blocked flow
        then find (suggests flow) cs
        else best_for flow rs (find (suggests flow) cs))
find-consider_all flow blocked [] cs = ground arith
find-consider_all flow blocked (r ∷ rs) cs =
    find-consider_all flow blocked rs (consider blocked r cs)
    ∙ elim (Bool-cases (suggests flow r)) [
      | inl y ↦ elim (Bool-cases (is_blocked blocked flow)) [
        | inl b ↦ rw (b, find-consider_same flow blocked r cs y, b) refl
        | inr n ↦ rw (n, find-consider_same flow blocked r cs y, n, y) refl
      ]
      | inr n ↦ rw (find-consider_other flow blocked r cs n, n) refl
    ]

set_candidate_single :
    (flow : Flow) (r : RecommendationRule) (cs : List RecommendationRule)
    → countb (suggests flow) cs ≤ 1
    → countb (suggests flow) (set_candidate r cs) ≤ 1
set_candidate_single flow r cs k = rw (countb-set_candidate flow r cs) (ground (arith, k))

consider_single :
    (flow : Flow) (blocked : List Flow) (r : RecommendationRule) (cs : List RecommendationRule)
    → countb (suggests flow) cs ≤ 1
    → countb (suggests flow) (consider blocked r cs) ≤ 1
consider_single flow blocked r cs k = elim (Bool-cases (is_blocked blocked r.next)) [
  | inl y ↦ rw y k
  | inr m ↦ elim (Option-cases (find (suggests r.next) cs)) [
    | inl e ↦ rw (m, e) (set_candidate_single flow r cs k)
    | inr (x, e) ↦ elim (Bool-cases (ltb r.priority x.priority)) [
      | inl y ↦ rw (m, e, y) (set_candidate_single flow r cs k)
      | inr y ↦ rw (m, e, y) k
    ]
  ]
]

consider_all_single :
    (flow : Flow) (blocked : List Flow) (rs cs : List RecommendationRule)
    → countb (suggests flow) cs ≤ 1
    → countb (suggests flow) (consider_all blocked rs cs) ≤ 1
consider_all_single flow blocked [] cs k = k
consider_all_single flow blocked (r ∷ rs) cs k =
    consider_all_single flow blocked rs (consider blocked r cs)
      (consider_single flow blocked r cs k)

-- The recommendations stand in the order of their priorities, none is for a blocked flow, each
-- other flow has at most one, and that is the first of those rules of the triggers for the flow
-- that have the lowest priority; a flow without a rule has none.
pub recommendations_for_case-InOrder :
    (triggers blocked : List Flow)
    → InOrder (recommendations_for_case triggers blocked)
      × ((flow : Flow)
          → (find (suggests flow) (recommendations_for_case triggers blocked)
              ≡ (if is_blocked blocked flow then none else best_for flow (rules_of triggers) none))
            × (countb (suggests flow) (recommendations_for_case triggers blocked) ≤ 1))
unfolding recommendations_for_case
recommendations_for_case-InOrder triggers blocked = (
  sort_rules-InOrder (consider_all blocked (rules_of triggers) []),
  λ flow.
      let single : countb (suggests flow) (consider_all blocked (rules_of triggers) []) ≤ 1 =
        consider_all_single flow blocked (rules_of triggers) [] (omega arith) in
      (
        find-sort_rules flow (consider_all blocked (rules_of triggers) []) single
            ∙ find-consider_all flow blocked (rules_of triggers) [],
        rw (countb-sort_rules flow (consider_all blocked (rules_of triggers) [])) single,
      ),
)
