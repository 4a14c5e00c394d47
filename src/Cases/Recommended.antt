-- ===== src/Cases/Recommended.antt =====
-- apps/api/src/cases/cases.service.ts, `getRecommendations`, over the tickets with what it reads of
-- them.
use wusuq_web.Base.{
  ℕ, ◌≡◌, refl, ap, ◌∙◌, Bool, true, false, not, ◌&&◌, Option, none, some, is_some, List, [], ◌∷◌,
  ◌++◌, any, find, ltb, arith, ◌==◌, if◌then◌else◌, Bool-cases, inl, inr, Result, ok, ◌>>=◌,
  Post-bind, Post-return, Post-result,
}
use wusuq_web.Shared.Flows.{Flow, same_flow, is_flow_key}
use wusuq_web.Shared.Recommendations.{
  RecommendationRule, recommendations_by_flow, suggests, rules_of, recommendations_for_case,
}
use wusuq_web.Shared.Recommendations.Ranked.{
  better, best_for, is_blocked, recommendations_for_case-InOrder,
}
use wusuq_web.Shared.Recommendations.Sorted.{InOrder}
use wusuq_web.Store.{TicketStatus, completed, ◌is◌}
use wusuq_web.Tickets.{Actor}
use wusuq_web.Cases.{Case, CaseDb, find_one}

pub record CaseTicket : Type 0 where
  pub case_id : Option ℕ
  pub archived : Bool
  pub flow_key : Option Flow
  pub intake_flow : Option Flow
  pub status : TicketStatus

-- `where: { caseId, archivedAt: null }`.
abbrev pub is_listed : ℕ → CaseTicket → Bool
is_listed case_id t = elim t.case_id [ none ↦ false | some id ↦ id == case_id && not t.archived ]

abbrev pub if_known : Option Flow → Option Flow
if_known none = none
if_known (some flow) = if is_flow_key flow then some flow else none

abbrev pub first_known : Option Flow → Option Flow → Option Flow
first_known none intake_flow = if_known intake_flow
first_known (some flow) intake_flow = if_known (some flow)

-- The flow of the service, or else that of the order.
unfoldable pub flow_of : CaseTicket → Option Flow
flow_of t = first_known t.flow_key t.intake_flow

abbrev pub push_flow : Option Flow → List Flow → List Flow
push_flow none flows = flows
push_flow (some flow) flows = flow ∷ flows

abbrev pub blocking_flows : ℕ → List CaseTicket → List Flow
blocking_flows case_id [] = []
blocking_flows case_id (t ∷ ts) =
    push_flow (if is_listed case_id t then flow_of t else none) (blocking_flows case_id ts)

abbrev pub trigger_flows : ℕ → List CaseTicket → List Flow
trigger_flows case_id [] = []
trigger_flows case_id (t ∷ ts) =
    push_flow (if is_listed case_id t && t.status is completed then flow_of t else none)
      (trigger_flows case_id ts)

-- `getRecommendations`.
unfoldable pub get_recommendations :
    ℕ → Actor → List CaseTicket → CaseDb → Result (List RecommendationRule)
unfolding find_one flow_of recommendations_for_case
get_recommendations case_id caller tickets db = do
  _ ← find_one case_id caller db
  ok (recommendations_for_case (trigger_flows case_id tickets) (blocking_flows case_id tickets))

abbrev pub has_flow : Flow → Option Flow → Bool
has_flow flow none = false
has_flow flow (some f) = same_flow f flow

-- Is the ticket one of the case, not archived, and of the flow?
abbrev pub orders : ℕ → Flow → CaseTicket → Bool
orders case_id flow t = is_listed case_id t && has_flow flow (flow_of t)

abbrev pub is_rule_of : Flow → Option Flow → Bool
is_rule_of flow none = false
is_rule_of flow (some f) = any (suggests flow) (recommendations_by_flow f)

-- Is the ticket one of the case, not archived, completed, and of a flow that leads to the other?
abbrev pub leads_to : ℕ → Flow → CaseTicket → Bool
leads_to case_id flow t =
    is_listed case_id t && t.status is completed && is_rule_of flow (flow_of t)

is_blocked-push_flow :
    (b : Bool) (o : Option Flow) (fs : List Flow) (flow : Flow)
    → is_blocked (push_flow (if b then o else none) fs) flow
      ≡ (if b && has_flow flow o then true else is_blocked fs flow)
is_blocked-push_flow true none fs flow = refl
is_blocked-push_flow true (some f) fs flow = refl
is_blocked-push_flow false o fs flow = refl

blocking_flows-orders :
    (case_id : ℕ) (flow : Flow) (ts : List CaseTicket)
    → is_blocked (blocking_flows case_id ts) flow ≡ any (orders case_id flow) ts
blocking_flows-orders case_id flow [] = refl
blocking_flows-orders case_id flow (t ∷ ts) =
    is_blocked-push_flow (is_listed case_id t) (flow_of t) (blocking_flows case_id ts) flow
    ∙ ap (λ b. if orders case_id flow t then true else b) (blocking_flows-orders case_id flow ts)

any-append :
    (flow : Flow) (xs ys : List RecommendationRule)
    → any (suggests flow) (xs ++ ys)
      ≡ (if any (suggests flow) xs then true else any (suggests flow) ys)
any-append flow [] ys = refl
any-append flow (x ∷ xs) ys = elim (Bool-cases (suggests flow x)) [
  | inl y ↦ rw y refl
  | inr n ↦ rw n (any-append flow xs ys)
]

rules_of-push_flow :
    (b : Bool) (o : Option Flow) (fs : List Flow) (flow : Flow)
    → any (suggests flow) (rules_of (push_flow (if b then o else none) fs))
      ≡ (if b && is_rule_of flow o then true else any (suggests flow) (rules_of fs))
rules_of-push_flow true none fs flow = refl
rules_of-push_flow true (some f) fs flow = any-append flow (recommendations_by_flow f) (rules_of fs)
rules_of-push_flow false o fs flow = refl

trigger_flows-leads_to :
    (case_id : ℕ) (flow : Flow) (ts : List CaseTicket)
    → any (suggests flow) (rules_of (trigger_flows case_id ts)) ≡ any (leads_to case_id flow) ts
trigger_flows-leads_to case_id flow [] = refl
trigger_flows-leads_to case_id flow (t ∷ ts) =
    rules_of-push_flow (is_listed case_id t && t.status is completed) (flow_of t)
      (trigger_flows case_id ts) flow
    ∙ shift (is_listed case_id t) (t.status is completed) (is_rule_of flow (flow_of t))
        (trigger_flows-leads_to case_id flow ts)
  where
    shift :
        (a b c : Bool) {x y : Bool}
        → x ≡ y
        → (if (a && b) && c then true else x) ≡ (if a && b && c then true else y)
    shift true true true e = refl
    shift true true false e = e
    shift true false c e = e
    shift false b c e = e

better-is_some :
    (o : Option RecommendationRule) (r : RecommendationRule) → is_some (better o r) ≡ true
better-is_some none r = refl
better-is_some (some e) r = elim (Bool-cases (ltb r.priority e.priority)) [
  | inl y ↦ rw y refl
  | inr n ↦ rw n refl
]

best_for-is_some :
    (flow : Flow) (rs : List RecommendationRule) (o : Option RecommendationRule)
    → is_some (best_for flow rs o) ≡ (if any (suggests flow) rs then true else is_some o)
best_for-is_some flow [] o = refl
best_for-is_some flow (r ∷ rs) o = elim (Bool-cases (suggests flow r)) [
  | inl y ↦ rw y (
      best_for-is_some flow rs (better o r)
      ∙ rw (better-is_some o r) (either (any (suggests flow) rs)))
  | inr n ↦ rw n (best_for-is_some flow rs o)
]
  where
    either : (b : Bool) → (if b then true else true) ≡ true
    either true = refl
    either false = refl

-- The recommendations of a case stand in the order of their priorities, and they hold a flow
-- exactly when no ticket of the case that is not archived is of that flow, and a completed one of
-- them is of a flow that leads to it.
pub get_recommendations-InOrder :
    (case_id : ℕ) (caller : Actor) (tickets : List CaseTicket) (db : CaseDb)
    (rs : List RecommendationRule)
    → get_recommendations case_id caller tickets db ≡ ok rs
    → InOrder rs
      × ((flow : Flow)
          → is_some (find (suggests flow) rs) ≡ (
              if any (orders case_id flow) tickets
              then false
              else any (leads_to case_id flow) tickets))
unfolding get_recommendations
get_recommendations-InOrder case_id caller tickets db rs h =
    Post-result
      {P = λ (rs : List RecommendationRule).
        InOrder rs
        × ((flow : Flow)
            → is_some (find (suggests flow) rs) ≡ (
                if any (orders case_id flow) tickets
                then false
                else any (leads_to case_id flow) tickets))}
      (Post-bind λ (c : Case) _.
        let triggers = trigger_flows case_id tickets in
        let blocked = blocking_flows case_id tickets in
        let (sorted, found) = recommendations_for_case-InOrder triggers blocked in
        Post-return (
          sorted,
          λ flow.
              let (looked_up, _) = found flow in
              ap is_some looked_up
              ∙ shown (is_blocked blocked flow) (any (suggests flow) (rules_of triggers))
                  (best_for flow (rules_of triggers) none)
                  (best_for-is_some flow (rules_of triggers) none)
                  (blocking_flows-orders case_id flow tickets)
                  (trigger_flows-leads_to case_id flow tickets),
        ))
      h
  where
    shown :
        (b c : Bool) (o : Option RecommendationRule) {x y : Bool}
        → is_some o ≡ (if c then true else false)
        → b ≡ x
        → c ≡ y
        → is_some (if b then none else o) ≡ (if x then false else y)
    shown b c o e f g = ground (arith, e, f, g)
