-- ===== src/Cases/Resolved.antt =====
-- apps/api/src/cases/cases.service.ts, `resolveDrift`: what a resolution leaves.
use wusuq_web.Base.{
  ℕ, ◌≡◌, refl, ap, ◌∙◌, Bool, true, false, Option, none, some, List, [], ◌∷◌, ◌++◌, find,
  find_last, find_last-append_any, arith, ◌==◌, eqb_refl, if◌then◌else◌, ok, Post, Post-bind,
  Post-then, Post-or_throw, Post-return, Post-result, not_found,
}
use wusuq_web.Base.Table
use wusuq_web.Cases.Context.{CaseColumn, column_rank, ◌same_column◌, Drift}
use wusuq_web.Tickets.{Actor}
use wusuq_web.Cases.{
  Case, CaseDb, CaseEvent, case_key, unless_deleted, drift_of_event, is_drift_event, DriftSource,
  case_source, ticket_source, resolved_row, resolve_drift, find_one,
}
use wusuq_web.Cases.Open.{open_drift, left_open, concerns, opened}

-- One more event at the end.
open_drift-append :
    (case_id : ℕ) (field : CaseColumn) (es : List CaseEvent) (e : CaseEvent)
    → open_drift case_id field (es ++ (e ∷ []))
      ≡ (if concerns case_id field e then opened e else open_drift case_id field es)
open_drift-append case_id field es e =
    ap (λ o. left_open o none) (find_last-append_any (concerns case_id field) es e)
    ∙ over (concerns case_id field e)
  where
    over :
        (b : Bool)
        → left_open (if b then some e else find_last (concerns case_id field) es) none
          ≡ (if b then opened e else left_open (find_last (concerns case_id field) es) none)
    over true = refl
    over false = refl

-- What a resolution leaves: the case has no open drift of the field, the open drifts of other fields
-- and of other cases are those of before, and the column of the field has the value of the ticket if
-- that was chosen, while the other columns are as they were.
pub record Resolved (case_id event_id : ℕ) (source : DriftSource) (db db' : CaseDb) : Type 0 where
  pub event : CaseEvent
  pub drift : Drift
  pub found : find (is_drift_event event_id case_id) db.events ≡ some event
  pub detected : drift_of_event event ≡ some drift
  pub closes : open_drift case_id drift.field db'.events ≡ none
  pub other_fields :
      (field : CaseColumn)
      → (drift.field same_column field) ≡ false
      → open_drift case_id field db'.events ≡ open_drift case_id field db.events
  pub other_cases :
      (id : ℕ) (field : CaseColumn)
      → (case_id == id) ≡ false
      → open_drift id field db'.events ≡ open_drift id field db.events
  pub row : Case
  pub after : Case
  pub row_before : Table.find_by case_key case_id db.cases ≡ some row
  pub row_after : Table.find_by case_key case_id db'.cases ≡ some after
  pub kept : source ≡ case_source → after ≡ row
  pub adopted : source ≡ ticket_source → after.context drift.field ≡ some drift.ticket_value
  pub other_columns :
      (column : CaseColumn)
      → (column same_column drift.field) ≡ false
      → after.context column ≡ row.context column

case_source_kept :
    (source : DriftSource) (d : Drift) (c : Case)
    → source ≡ case_source
    → resolved_row source d c ≡ c
case_source_kept case_source d c e = refl
case_source_kept ticket_source d c e = absurd (ground (arith, e))

ticket_source_adopted :
    (source : DriftSource) (d : Drift) (c : Case)
    → source ≡ ticket_source
    → (resolved_row source d c).context d.field ≡ some d.ticket_value
ticket_source_adopted case_source d c e = absurd (ground (arith, e))
ticket_source_adopted ticket_source d c e = rw (eqb_refl (column_rank d.field)) refl

resolved_row_other :
    (source : DriftSource) (d : Drift) (c : Case) (column : CaseColumn)
    → (column same_column d.field) ≡ false
    → (resolved_row source d c).context column ≡ c.context column
resolved_row_other case_source d c column n = refl
resolved_row_other ticket_source d c column n = rw n refl

resolved_row-id :
    (source : DriftSource) (d : Drift) (c : Case) → (resolved_row source d c).id ≡ c.id
resolved_row-id case_source d c = refl
resolved_row-id ticket_source d c = refl

row_of : (o : Option Case) (c : Case) → unless_deleted o ≡ some c → o ≡ some c
row_of none c h = absurd (ground (arith, h))
row_of (some x) c h = go x.deleted h
  where
    go : (b : Bool) → (if b then none else some x) ≡ some c → some x ≡ some c
    go true h = absurd (ground (arith, h))
    go false h = h

pub find_one-row :
    (id : ℕ) (caller : Actor) (db : CaseDb)
    → Post (λ (c : Case). Table.find_by case_key id db.cases ≡ some c) (find_one id caller db)
unfolding find_one
find_one-row id caller db =
    Post-or_throw not_found
      λ (c : Case) e. Post-then λ _. Post-return (row_of (Table.find_by case_key id db.cases) c e)

-- A resolution that succeeds is of a drift that was detected in the case. After it the field of the
-- drift is not open, whichever detection was named; all other open drifts are as before; and the
-- column has the ticket's value if that was chosen, and no other column of the case changes.
pub resolve_drift-Resolved :
    (case_id event_id : ℕ) (source : DriftSource) (caller : Actor) (db db' : CaseDb)
    → resolve_drift case_id event_id source caller db ≡ ok db'
    → Resolved case_id event_id source db db'
unfolding resolve_drift
resolve_drift-Resolved case_id event_id source caller db db' h =
    Post-result {P = Resolved case_id event_id source db}
      (Post-bind λ (c : Case) f. Post-or_throw not_found λ (event : CaseEvent) e.
        Post-or_throw not_found λ (d : Drift) g. Post-return (record {
          event = event;
          drift = d;
          found = e;
          detected = g;
          closes =
              open_drift-append case_id d.field db.events _
              ∙ rw (eqb_refl case_id, eqb_refl (column_rank d.field)) refl;
          other_fields = λ field n.
              open_drift-append case_id field db.events _ ∙ rw (eqb_refl case_id, n) refl;
          other_cases = λ id field n. open_drift-append id field db.events _ ∙ rw n refl;
          row = c;
          after = resolved_row source d c;
          row_before = Post-result (find_one-row case_id caller db) f;
          row_after =
              Table.find_by-update_by_self case_key (resolved_row source d)
                (resolved_row-id source d) case_id db.cases c
                (Post-result (find_one-row case_id caller db) f);
          kept = case_source_kept source d c;
          adopted = ticket_source_adopted source d c;
          other_columns = resolved_row_other source d c;
        }))
      h
