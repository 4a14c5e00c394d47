-- ===== src/Shared/Recommendations.antt =====
-- packages/shared/src/index.ts, `RECOMMENDATIONS_BY_FLOW` and `recommendationsForCase`.
pub mod Sorted
pub mod Ranked
use wusuq_web.Base.{
  ℕ, Bool, true, false, ◌&&◌, Option, none, some, List, [], ◌∷◌, ◌++◌, any, find, ltb, leb, ◌==◌,
  ◌+◌, if◌then◌else◌,
}
use wusuq_web.Shared.Flows.{
  Flow, judicial_case_files, judicial_case_information, judicial_case_search, judicial_case_filing,
  judicial_power_of_attorney, same_flow,
}

-- `RecommendationRule`, without its reason.
pub record RecommendationRule : Type 0 where
  pub next : Flow
  pub priority : ℕ

abbrev rule : Flow → ℕ → RecommendationRule
rule next priority = record { next = next; priority = priority }

unfoldable pub recommendations_by_flow : Flow → List RecommendationRule
recommendations_by_flow judicial_case_search =
    rule judicial_case_information 1 ∷ rule judicial_case_files 2 ∷ []
recommendations_by_flow judicial_case_information =
    rule judicial_case_files 1 ∷ rule judicial_power_of_attorney 3 ∷ []
recommendations_by_flow judicial_case_files =
    rule judicial_power_of_attorney 2 ∷ rule judicial_case_filing 3 ∷ []
recommendations_by_flow judicial_power_of_attorney = rule judicial_case_filing 1 ∷ []
recommendations_by_flow _ = []

abbrev pub suggests : Flow → RecommendationRule → Bool
suggests flow r = same_flow r.next flow

-- `candidates.set(rule.next, rule)`: the place of a key that is there stays.
abbrev pub set_candidate : RecommendationRule → List RecommendationRule → List RecommendationRule
set_candidate r [] = r ∷ []
set_candidate r (c ∷ cs) = if suggests r.next c then r ∷ cs else c ∷ set_candidate r cs

-- One rule of a trigger: unless its flow is blocked or has a candidate that is at least as good.
abbrev pub consider :
    List Flow → RecommendationRule → List RecommendationRule → List RecommendationRule
consider blocked r cs =
    if any (λ f. same_flow f r.next) blocked then cs else elim (find (suggests r.next) cs) [
      | none ↦ set_candidate r cs
      | some existing ↦ if ltb r.priority existing.priority then set_candidate r cs else cs
    ]

abbrev pub consider_all :
    List Flow → List RecommendationRule → List RecommendationRule → List RecommendationRule
consider_all blocked [] cs = cs
consider_all blocked (r ∷ rs) cs = consider_all blocked rs (consider blocked r cs)

abbrev pub rules_of : List Flow → List RecommendationRule
rules_of [] = []
rules_of (t ∷ ts) = recommendations_by_flow t ++ rules_of ts

-- A stable sort by priority.
abbrev pub insert_rule : RecommendationRule → List RecommendationRule → List RecommendationRule
insert_rule r [] = r ∷ []
insert_rule r (c ∷ cs) = if leb r.priority c.priority then r ∷ c ∷ cs else c ∷ insert_rule r cs

abbrev pub sort_rules : List RecommendationRule → List RecommendationRule
sort_rules [] = []
sort_rules (r ∷ rs) = insert_rule r (sort_rules rs)

-- `recommendationsForCase`. The two loops go over the rules of the triggers in order.
unfoldable pub recommendations_for_case : List Flow → List Flow → List RecommendationRule
unfolding recommendations_by_flow
recommendations_for_case triggers blocked = sort_rules (consider_all blocked (rules_of triggers) [])
