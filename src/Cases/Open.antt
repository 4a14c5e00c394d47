-- ===== src/Cases/Open.antt =====
-- apps/api/src/cases/cases.service.ts, `getUnresolvedDrifts`: which drifts are open.
use wusuq_web.Base.{
  ℕ, ◌≡◌, refl, ap, ◌∙◌, Bool, true, false, Option, none, some, List, [], ◌∷◌, find, find_last,
  or_else, arith, ◌==◌, if◌then◌else◌, find-append, Bool-cases, inl, inr, ok, Post-bind,
  Post-return, Post-result,
}
use wusuq_web.Cases.Context.{CaseColumn, ◌same_column◌}
use wusuq_web.Cases.Context.Drifts.{eq_of_same_column}
use wusuq_web.Tickets.{Actor}
use wusuq_web.Cases.{
  Case, CaseDb, CaseEvent, CaseEventType, case_created, case_updated, case_closed, case_reopened,
  ticket_completed, context_drift_detected, context_resolved, recommendation_triggered,
  PendingDrift, without, read_event, read_events, get_unresolved_drifts,
}

abbrev pub pends : CaseColumn → PendingDrift → Bool
pends field p = p.drift.field same_column field

-- Does an event say something of a field?
abbrev pub concerns_type : CaseColumn → CaseEventType → Bool
concerns_type field (context_drift_detected d) = d.field same_column field
concerns_type field (context_resolved f _) = f same_column field
concerns_type field _ = false

abbrev pub concerns : ℕ → CaseColumn → CaseEvent → Bool
concerns case_id field e = if e.case_id == case_id then concerns_type field e.type else false

-- What the last event about a field leaves open.
abbrev pub opened : CaseEvent → Option PendingDrift
opened e = elim e.type [
  | context_drift_detected d ↦ some (record { event_id = e.id; drift = d })
  | _ ↦ none
]

abbrev pub left_open : Option CaseEvent → Option PendingDrift → Option PendingDrift
left_open none before = before
left_open (some e) before = opened e

-- The open drift of a field: its last detection, unless it was resolved after that.
abbrev pub open_drift : ℕ → CaseColumn → List CaseEvent → Option PendingDrift
open_drift case_id field events = left_open (find_last (concerns case_id field) events) none

find-without :
    (field other : CaseColumn) (ps : List PendingDrift)
    → find (pends field) (without other ps)
      ≡ (if other same_column field then none else find (pends field) ps)
find-without field other [] = ground arith
find-without field other (p ∷ ps) = elim (Bool-cases (p.drift.field same_column other)) [
  | inl y ↦
      let same = eq_of_same_column p.drift.field other y in
      elim (Bool-cases (other same_column field)) [
        | inl z ↦ rw (y, z) (rw z at (find-without field other ps))
        | inr m ↦
            let n : (p.drift.field same_column field) ≡ false = rw same m in
            rw (y, m, n) (rw m at (find-without field other ps))
      ]
  | inr n ↦ elim (Bool-cases (other same_column field)) [
    | inl z ↦
        let other_field = eq_of_same_column other field z in
        let m : (p.drift.field same_column field) ≡ false = rw (← other_field) n in
        rw (n, z, m) (rw z at (find-without field other ps))
    | inr z ↦
        rw (n, z)
          (ap (λ o. if p.drift.field same_column field then some p else o)
            (rw z at (find-without field other ps)))
  ]
]

or_else-none : (o : Option PendingDrift) → or_else o none ≡ o
or_else-none none = refl
or_else-none (some p) = refl

-- One event.
find-read_event :
    (field : CaseColumn) (e : CaseEvent) (ps : List PendingDrift)
    → find (pends field) (read_event e ps)
      ≡ (if concerns_type field e.type then opened e else find (pends field) ps)
find-read_event field e ps = go e.type
  where
    go :
        (t : CaseEventType)
        → let e' : CaseEvent = record e { type = t } in
          find (pends field) (read_event e' ps)
          ≡ (if concerns_type field t then opened e' else find (pends field) ps)
    go case_created = refl
    go case_updated = refl
    go case_closed = refl
    go case_reopened = refl
    go ticket_completed = refl
    go (recommendation_triggered _) = refl
    go (context_resolved f v) = find-without field f ps
    go (context_drift_detected d) =
        find-append (pends field) (without d.field ps) (record { event_id = e.id; drift = d })
        ∙ elim (Bool-cases (d.field same_column field)) [
          | inl y ↦ rw (find-without field d.field ps, y) refl
          | inr n ↦ rw (find-without field d.field ps, n) (or_else-none (find (pends field) ps))
        ]

-- The events in order: the last of them about a field decides.
find-read_events :
    (case_id : ℕ) (field : CaseColumn) (es : List CaseEvent) (ps : List PendingDrift)
    → find (pends field) (read_events case_id es ps)
      ≡ left_open (find_last (concerns case_id field) es) (find (pends field) ps)
find-read_events case_id field [] ps = refl
find-read_events case_id field (e ∷ es) ps = elim (Bool-cases (e.case_id == case_id)) [
  | inr n ↦ rw n (
      find-read_events case_id field es ps
      ∙ later (find_last (concerns case_id field) es) false (find (pends field) ps))
  | inl y ↦ rw y (
      find-read_events case_id field es (read_event e ps)
      ∙ ap (left_open (find_last (concerns case_id field) es)) (find-read_event field e ps)
      ∙ later (find_last (concerns case_id field) es) (concerns_type field e.type)
          (find (pends field) ps))
]
  where
    later :
        (o : Option CaseEvent) (b : Bool) (before : Option PendingDrift)
        → left_open o (if b then opened e else before)
          ≡ left_open (or_else o (if b then some e else none)) before
    later none true before = refl
    later none false before = refl
    later (some x) b before = refl

-- The unresolved drifts of a case hold for every field exactly the last drift that was detected for
-- it in that case, with its event, unless an event of the case resolved the field after that.
pub get_unresolved_drifts-open_drift :
    (case_id : ℕ) (caller : Actor) (db : CaseDb) (ps : List PendingDrift)
    → get_unresolved_drifts case_id caller db ≡ ok ps
    → (field : CaseColumn) → find (pends field) ps ≡ open_drift case_id field db.events
unfolding get_unresolved_drifts
get_unresolved_drifts-open_drift case_id caller db ps h field =
    Post-result
      {P = λ (ps : List PendingDrift). find (pends field) ps ≡ open_drift case_id field db.events}
      (Post-bind λ (c : Case) f. Post-return (find-read_events case_id field db.events [])) h
