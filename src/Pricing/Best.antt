-- ===== src/Pricing/Best.antt =====
-- apps/api/src/pricing/pricing.service.ts, `resolve`: the rule that decides a price.
use wusuq_web.Base.{
  ℕ, ◌≤◌, ◌≡◌, refl, Bool, true, ◌&&◌, Option, none, some, some-injective, List, [], ◌∷◌, arith,
  any, filterb, leb, All, Bool-cases, inl, inr, subst, sym, ◌∙◌, ap,
}
use wusuq_web.Base.Text.{Text}
use wusuq_web.Shared.Cases.{current}
use wusuq_web.Shared.Flows.{Flow, same_flow, is_usd}
use wusuq_web.Pricing.{
  PricingRule, ResolvePricingDto, Request, PricingMode, in_mode, Resolution, unmatched, unavailable,
  priced, strict, without_set_type, by_years, fits, or_next, is_current, candidates, best_from,
  flow_rules, request_of, price_with, resolve_with, resolve,
}

-- The rule behind an answer.
abbrev pub rule_of : Resolution → Option PricingRule
rule_of (unmatched _) = none
rule_of (unavailable r) = some r
rule_of (priced r _) = some r

price_with-rule :
    (dto : ResolvePricingDto) (q : Request) (now : ℕ) (best : PricingRule)
    → rule_of (price_with dto q now best) ≡ some best
price_with-rule dto q now best = elim (Bool-cases best.availability) [
  | inr x ↦ rw x refl
  | inl x ↦ elim (Bool-cases (is_usd q.currency)) [
    | inl y ↦ rw (x, y) refl
    | inr y ↦ rw (x, y) refl
  ]
]

best_from-All {κ} :
    (P : PricingRule → Type κ) (a : PricingRule) (rules : List PricingRule)
    → P a
    → All P rules
    → P (best_from a rules)
best_from-All P a [] p h = p
best_from-All P a (b ∷ rules) p (q, qs) = elim (Bool-cases (leb b.priority a.priority)) [
  | inl x ↦ rw x (best_from-All P a rules p qs)
  | inr x ↦ rw x (best_from-All P b rules q qs)
]

-- No rule before has a higher priority.
best_from-top :
    (a : PricingRule) (rules : List PricingRule)
    → (a.priority ≤ (best_from a rules).priority)
      × All (λ (r : PricingRule). r.priority ≤ (best_from a rules).priority) rules
best_from-top a [] = (omega arith, tt)
best_from-top a (b ∷ rules) =
    let Top : PricingRule → Type 0 = λ z.
      (a.priority ≤ z.priority)
      × ((b.priority ≤ z.priority) × All (λ (r : PricingRule). r.priority ≤ z.priority) rules) in
    elim (Bool-cases (leb b.priority a.priority)) [
      | inl x ↦
          let (top, rest) = best_from-top a rules in
          let same : best_from a rules ≡ best_from a (b ∷ rules) = rw (x, best_from) refl in
          subst Top same (top, (ground (arith, top, x), rest))
      | inr x ↦
          let (top, rest) = best_from-top b rules in
          let same : best_from b rules ≡ best_from a (b ∷ rules) = rw (x, best_from) refl in
          subst Top same (ground (arith, top, x), (top, rest))
    ]

filterb-All {κ} :
    (P : PricingRule → Type κ) (p : PricingRule → Bool) (rules : List PricingRule)
    → ((r : PricingRule) → p r ≡ true → P r)
    → All P (filterb p rules)
filterb-All P p [] h = tt
filterb-All P p (r ∷ rules) h = elim (Bool-cases (p r)) [
  | inl x ↦ rw x (h r x, filterb-All P p rules h)
  | inr x ↦ rw x (filterb-All P p rules h)
]

filterb-keeps {κ} :
    (P : PricingRule → Type κ) (p : PricingRule → Bool) (rules : List PricingRule)
    → All P rules
    → All P (filterb p rules)
filterb-keeps P p [] h = tt
filterb-keeps P p (r ∷ rules) (q, qs) = elim (Bool-cases (p r)) [
  | inl x ↦ rw x (q, filterb-keeps P p rules qs)
  | inr x ↦ rw x (filterb-keeps P p rules qs)
]

or_next-All {κ} :
    (P : PricingRule → Type κ) (rules next : List PricingRule)
    → All P rules
    → All P next
    → All P (or_next rules next)
or_next-All P [] next h k = k
or_next-All P (r ∷ rules) next h k = h

-- A stage that finds a rule is the last one.
or_next-found :
    (p : PricingRule → Bool) (rules next : List PricingRule)
    → any p rules ≡ true
    → or_next (filterb p rules) next ≡ filterb p rules
or_next-found p [] next h = absurd (ground (arith, h))
or_next-found p (r ∷ rules) next h = elim (Bool-cases (p r)) [
  | inl x ↦ rw x refl
  | inr x ↦ rw x (or_next-found p rules next (rw x at h))
]

-- What every stage keeps or sees to holds of the candidates.
candidates-All {κ} :
    (P : PricingRule → Type κ) (q : Request) (rules : List PricingRule)
    → ((p : PricingRule → Bool)
        → ((r : PricingRule) → p r ≡ true → fits q r ≡ true)
        → All P (filterb p rules))
    → All P (candidates q rules)
unfolding candidates
candidates-All P q rules stage =
    let second = stage (strict q current) (λ r h. ground (arith, h)) in
    or_next-All P _ _ (stage (strict q q.band) (λ r h. ground (arith, h))) (
      or_next-All P _ _
        (elim (Bool-cases (is_current q.band)) [ inl x ↦ rw x tt | inr x ↦ rw x second ])
        (or_next-All P _ _ (third q.set_type) (stage (by_years q) (λ r h. ground (arith, h)))))
  where
    third :
        (wanted : List Text)
        → All P (elim wanted [ [] ↦ [] | _ ∷ _ ↦ filterb (without_set_type q) rules ])
    third [] = tt
    third (_ ∷ _) = stage (without_set_type q) (λ r h. ground (arith, h))

strict_first :
    (q : Request) (rules : List PricingRule)
    → any (strict q q.band) rules ≡ true
    → candidates q rules ≡ filterb (strict q q.band) rules
unfolding candidates
strict_first q rules h = or_next-found (strict q q.band) rules _ h

-- An answer with a rule comes from candidates.
pub record Decided (dto : ResolvePricingDto) (q : Request) (now : ℕ) (rules : List PricingRule)
    (best : PricingRule) (answer : Resolution) : Type 0 where
  pub first : PricingRule
  pub others : List PricingRule
  pub found : candidates q rules ≡ first ∷ others
  pub is_best : best_from first others ≡ best
  pub answers : answer ≡ price_with dto q now best

decided :
    (dto : ResolvePricingDto) (q : Request) (now : ℕ) (rules : List PricingRule)
    (best c : PricingRule) (cs : List PricingRule)
    → candidates q rules ≡ c ∷ cs
    → rule_of (price_with dto q now (best_from c cs)) ≡ some best
    → Decided dto q now rules best (price_with dto q now (best_from c cs))
decided dto q now rules best c cs e h =
    let same = some-injective _ _ (sym (price_with-rule dto q now (best_from c cs)) ∙ h) in
    record {
      first = c;
      others = cs;
      found = e;
      is_best = same;
      answers = ap (price_with dto q now) same;
    }

resolve_with-Decided :
    (dto : ResolvePricingDto) (q : Request) (now : ℕ) (rules own : List PricingRule)
    (best : PricingRule) (cs : List PricingRule)
    → candidates q rules ≡ cs
    → rule_of (resolve_with dto q now own cs) ≡ some best
    → Decided dto q now rules best (resolve_with dto q now own cs)
resolve_with-Decided dto q now rules [] best [] e h = absurd (ground (arith, h))
resolve_with-Decided dto q now rules (_ ∷ _) best [] e h = absurd (ground (arith, h))
resolve_with-Decided dto q now rules [] best (c ∷ cs) e h = decided dto q now rules best c cs e h
resolve_with-Decided dto q now rules (_ ∷ _) best (c ∷ cs) e h =
    decided dto q now rules best c cs e h

pub resolve-Decided :
    (mode : PricingMode) (rules : List PricingRule) (now : ℕ) (dto : ResolvePricingDto)
    (best : PricingRule)
    → rule_of (resolve mode rules now dto) ≡ some best
    → Decided dto
        (request_of dto now)
        now
        (flow_rules mode dto.flow rules)
        best
        (resolve mode rules now dto)
unfolding resolve
resolve-Decided mode rules now dto best h =
    let own = flow_rules mode dto.flow rules in
    resolve_with-Decided dto (request_of dto now) now own own best
      (candidates (request_of dto now) own) refl h

-- The rule that decides a price.
pub record BestRule (mode : PricingMode) (rules : List PricingRule) (q : Request) (flow : Flow)
    (best : PricingRule) : Type 0 where
  pub active : best.is_active ≡ true
  pub in_mode : in_mode mode best ≡ true
  pub same_flow : same_flow best.flow flow ≡ true
  pub fits : fits q best ≡ true
  pub top :
      All
        (λ (r : PricingRule). r.priority ≤ best.priority)
        (candidates q (flow_rules mode flow rules))
  pub strict :
      any (strict q q.band) (flow_rules mode flow rules) ≡ true → strict q q.band best ≡ true

-- The rule behind an answer of the resolver is an active one of the mode and the flow that agrees
-- with the currency and the open dimensions of the request, no candidate has a higher priority, and
-- when some rule meets the request strictly, with its year band and set type, the deciding rule does
-- so too.
pub resolve-BestRule :
    (mode : PricingMode) (rules : List PricingRule) (now : ℕ) (dto : ResolvePricingDto)
    (best : PricingRule)
    → rule_of (resolve mode rules now dto) ≡ some best
    → BestRule mode rules (request_of dto now) dto.flow best
unfolding flow_rules
resolve-BestRule mode rules now dto best h =
    let q = request_of dto now in
    let own = flow_rules mode dto.flow rules in
    let d = resolve-Decided mode rules now dto best h in
    let pick : (P : PricingRule → Type 0) → All P (candidates q own) → P best = λ P all.
      let (p, ps) = subst (All P) d.found all in
      subst P d.is_best (best_from-All P d.first d.others p ps) in
    let from_own : (P : PricingRule → Type 0) → All P own → P best =
      λ P all. pick P (candidates-All P q own λ p _. filterb-keeps P p own all) in
    let mine : All
        (λ (r : PricingRule). (r.is_active && (in_mode mode r && same_flow r.flow dto.flow)) ≡ true)
        own =
      filterb-All
        (λ (r : PricingRule). (r.is_active && (in_mode mode r && same_flow r.flow dto.flow)) ≡ true)
        (λ r. r.is_active && (in_mode mode r && same_flow r.flow dto.flow)) rules (λ r e. e) in
    let member =
      from_own
        (λ (r : PricingRule). (r.is_active && (in_mode mode r && same_flow r.flow dto.flow)) ≡ true)
        mine in
    record {
      active = ground (arith, member);
      in_mode = ground (arith, member);
      same_flow = ground (arith, member);
      fits =
          pick (λ r. fits q r ≡ true)
            (candidates-All (λ r. fits q r ≡ true) q own
              λ p see. filterb-All (λ r. fits q r ≡ true) p own see);
      top = subst (All (λ (r : PricingRule). r.priority ≤ best.priority)) (sym d.found) (
          subst
            (λ (b : PricingRule).
              All (λ (r : PricingRule). r.priority ≤ b.priority) (d.first ∷ d.others))
            d.is_best (best_from-top d.first d.others));
      strict = λ some_strict.
          pick (λ r. strict q q.band r ≡ true)
            (subst (All (λ r. strict q q.band r ≡ true)) (sym (strict_first q own some_strict))
              (filterb-All (λ r. strict q q.band r ≡ true) (strict q q.band) own (λ r e. e)));
    }
