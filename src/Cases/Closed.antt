-- ===== src/Cases/Closed.antt =====
-- apps/api/src/cases/cases.service.ts: when a case was closed.
use wusuq_web.Base.{
  ℕ, ◌≡◌, refl, subst, Bool, true, Option, none, is_some, List, [], ◌∷◌, All, All-append,
  Bool-cases, Option-cases, inl, inr, ok, Post, Post-bind, Post-or_throw, Post-throw_if,
  Post-return, Post-result, not_found, bad_request,
}
use wusuq_web.Base.Table
use wusuq_web.Base.Text.{Text}
use wusuq_web.Shared.Flows.{Flow}
use wusuq_web.Tickets.{Actor}
use wusuq_web.Cases.Context.{CaseContext, Payload, Drift, drifts}
use wusuq_web.Cases.{
  Case, CaseStatus, open_case, closed, archived, CaseEvent, CaseDb, case_key, same_status,
  closed_at_after, create_case, update_case, update_status, delete_case, add_drifts,
  apply_ticket_completion, DriftSource, case_source, ticket_source, resolved_row, resolve_drift,
  track_recommendation_click,
}

-- An open case has no date of closing, and a closed one has.
abbrev pub IsDated : CaseStatus → Option ℕ → Type 0
IsDated open_case date = date ≡ none
IsDated closed date = is_some date ≡ true
IsDated archived date = Unit

abbrev pub CaseIsDated : Case → Type 0
CaseIsDated c = IsDated c.status c.closed_at

abbrev pub AllDated : CaseDb → Type 0
AllDated db = All CaseIsDated db.cases

closed_at_after-IsDated :
    (s : CaseStatus) (now : ℕ) (old : Option ℕ) → IsDated s (closed_at_after s now old)
closed_at_after-IsDated open_case now old = refl
closed_at_after-IsDated closed now old = refl
closed_at_after-IsDated archived now old = tt

-- A write to a row that keeps its dates.
update-AllDated :
    (id : ℕ) (f : Case → Case) (db : CaseDb)
    → ((c : Case) → CaseIsDated c → CaseIsDated (f c))
    → AllDated db
    → All CaseIsDated (Table.update_by case_key id f db.cases)
update-AllDated id f db keeps k = Table.All-update_by case_key CaseIsDated id f db.cases keeps k

update_status-AllDated :
    (id : ℕ) (status : CaseStatus) (notes : Option Text) (now : ℕ) (caller : Actor) (db : CaseDb)
    → AllDated db
    → Post AllDated (update_status id status notes now caller db)
unfolding update_status
update_status-AllDated id status notes now caller db k = Post-bind λ (row : Case) e.
    elim (Bool-cases (same_status row.status status)) [
      | inl y ↦ rw y (Post-return k)
      | inr n ↦ rw n (
          Post-return
            (update-AllDated id _ db (λ c _. closed_at_after-IsDated status now row.closed_at) k))
    ]

add_drifts-AllDated :
    (case_id ticket_id : ℕ) (ds : List Drift) (db : CaseDb)
    → AllDated db
    → AllDated (add_drifts case_id ticket_id ds db)
add_drifts-AllDated case_id ticket_id [] db k = k
add_drifts-AllDated case_id ticket_id (d ∷ ds) db k = add_drifts-AllDated case_id ticket_id ds _ k

resolved_row-IsDated :
    (source : DriftSource) (d : Drift) (c : Case)
    → CaseIsDated c
    → CaseIsDated (resolved_row source d c)
resolved_row-IsDated case_source d c k = k
resolved_row-IsDated ticket_source d c k = k

-- A call of the service that writes to the cases, or the completion of a ticket.
pub data CaseStep (db db' : CaseDb) : Type 0 where
  creates :
      (consumer_exists : ℕ → Bool) (consumer_id : ℕ) (notes : Option Text) (context : CaseContext)
      → create_case consumer_exists consumer_id notes context db ≡ ok db'
      → CaseStep db db'
  updates :
      (id : ℕ) (notes : Option Text) (sent : CaseContext) (caller : Actor)
      → update_case id notes sent caller db ≡ ok db'
      → CaseStep db db'
  changes_status :
      (id : ℕ) (status : CaseStatus) (notes : Option Text) (now : ℕ) (caller : Actor)
      → update_status id status notes now caller db ≡ ok db'
      → CaseStep db db'
  deletes : (id : ℕ) (caller : Actor) → delete_case id caller db ≡ ok db' → CaseStep db db'
  completes :
      (id ticket_id : ℕ) (payload : Payload)
      → apply_ticket_completion id ticket_id payload db ≡ db'
      → CaseStep db db'
  resolves :
      (id event_id : ℕ) (source : DriftSource) (caller : Actor)
      → resolve_drift id event_id source caller db ≡ ok db'
      → CaseStep db db'
  tracks :
      (id : ℕ) (flow : Flow) (caller : Actor)
      → track_recommendation_click id flow caller db ≡ ok db'
      → CaseStep db db'

apply_ticket_completion-AllDated :
    (id ticket_id : ℕ) (payload : Payload) (db : CaseDb)
    → AllDated db
    → AllDated (apply_ticket_completion id ticket_id payload db)
unfolding apply_ticket_completion
apply_ticket_completion-AllDated id ticket_id payload db k =
    elim (Option-cases (Table.find_by case_key id db.cases)) [
      | inl e ↦ rw (e, apply_ticket_completion) k
      | inr (row, e) ↦
          rw (e, apply_ticket_completion)
            (add_drifts-AllDated id ticket_id (drifts row.context payload) _
              (update-AllDated id _ db (λ c d. d) k))
    ]

CaseStep-AllDated : (db db' : CaseDb) → CaseStep db db' → AllDated db → AllDated db'
unfolding create_case update_case delete_case resolve_drift track_recommendation_click
CaseStep-AllDated db db' (creates exists consumer_id notes context h) k =
    Post-result {P = AllDated}
      (Post-throw_if not_found λ _. Post-return (All-append CaseIsDated db.cases _ k (refl, tt))) h
CaseStep-AllDated db db' (updates id notes sent caller h) k =
    Post-result {P = AllDated}
      (Post-bind λ (c : Case) _. Post-return (update-AllDated id _ db (λ c d. d) k)) h
CaseStep-AllDated db db' (changes_status id status notes now caller h) k =
    Post-result (update_status-AllDated id status notes now caller db k) h
CaseStep-AllDated db db' (deletes id caller h) k =
    Post-result {P = AllDated}
      (Post-bind λ (c : Case) _. Post-return (update-AllDated id _ db (λ c d. d) k)) h
CaseStep-AllDated db db' (completes id ticket_id payload e) k =
    subst AllDated e (apply_ticket_completion-AllDated id ticket_id payload db k)
CaseStep-AllDated db db' (resolves id event_id source caller h) k =
    Post-result {P = AllDated}
      (Post-bind λ (c : Case) _. Post-or_throw not_found λ (event : CaseEvent) _.
        Post-or_throw not_found λ (d : Drift) _.
          Post-return
            (update-AllDated id (resolved_row source d) db (resolved_row-IsDated source d) k))
      h
CaseStep-AllDated db db' (tracks id flow caller h) k =
    Post-result {P = AllDated}
      (Post-bind λ (c : Case) _. Post-throw_if bad_request λ _. Post-return k) h

pub data CaseSteps (db : CaseDb) : CaseDb → Type 0 where
  done : CaseSteps db db
  next : {d e : CaseDb} → CaseSteps db d → CaseStep d e → CaseSteps db e

-- Over any number of calls of the service and completions of tickets, every open case has no date of
-- closing and every closed one has a date, when that held before.
pub CaseSteps-AllDated : (db db' : CaseDb) → CaseSteps db db' → AllDated db → AllDated db'
CaseSteps-AllDated db db' done k = k
CaseSteps-AllDated db db' (next {d} steps step) k =
    CaseStep-AllDated d db' step (CaseSteps-AllDated db d steps k)
