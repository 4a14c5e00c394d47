-- ===== src/Cases/Visible.antt =====
-- apps/api/src/cases/cases.service.ts, `ensureCaseVisible`: a consumer and the cases of others.
use wusuq_web.Base.{
  ℕ, ◌≡◌, refl, true, Option, none, some, List, err, ◌>>=◌, ◌>>◌, or_throw, throw_if, not_found,
}
use wusuq_web.Base.Text.{Text}
use wusuq_web.Shared.Flows.{Flow}
use wusuq_web.Tickets.{Actor}
use wusuq_web.Cases.Context.{CaseContext}
use wusuq_web.Cases.{
  Case, CaseStatus, CaseDb, find_case, is_foreign, ensure_case_visible, find_one, update_case,
  update_status, delete_case, track_recommendation_click, get_unresolved_drifts, DriftSource,
  resolve_drift,
}
use wusuq_web.Cases.Recommended.{CaseTicket, get_recommendations}

-- The case is another consumer's, or is not there.
pub data Hidden (id : ℕ) (caller : Actor) (db : CaseDb) : Type 0 where
  missing : find_case id db ≡ none → Hidden id caller db
  foreign : (c : Case) → find_case id db ≡ some c → is_foreign caller c ≡ true → Hidden id caller db

refuses_foreign :
    (id : ℕ) (caller : Actor) (db : CaseDb)
    → Hidden id caller db
    → find_one id caller db ≡ err not_found
unfolding find_one ensure_case_visible ◌>>=◌ ◌>>◌ or_throw throw_if
refuses_foreign id caller db (missing e) = rw (e, find_one) refl
refuses_foreign id caller db (foreign c e f) = rw (e, find_one, f) refl

-- A consumer asks for the case of another, or for one that does not exist or is deleted: findOne,
-- updateCase, updateStatus, deleteCase, getUnresolvedDrifts, resolveDrift, trackRecommendationClick
-- and getRecommendations all refuse, in both cases with the same answer, that it is not found.
pub find_one-Hidden :
    (id : ℕ) (caller : Actor) (db : CaseDb)
    → Hidden id caller db
    → (find_one id caller db ≡ err not_found)
      × ((notes : Option Text) (sent : CaseContext)
          → update_case id notes sent caller db ≡ err not_found)
      × ((status : CaseStatus) (notes : Option Text) (now : ℕ)
          → update_status id status notes now caller db ≡ err not_found)
      × (delete_case id caller db ≡ err not_found)
      × (get_unresolved_drifts id caller db ≡ err not_found)
      × ((event_id : ℕ) (source : DriftSource)
          → resolve_drift id event_id source caller db ≡ err not_found)
      × ((flow : Flow) → track_recommendation_click id flow caller db ≡ err not_found)
      × ((tickets : List CaseTicket) → get_recommendations id caller tickets db ≡ err not_found)
unfolding update_case update_status delete_case get_unresolved_drifts resolve_drift
    track_recommendation_click get_recommendations ◌>>=◌ ◌>>◌ or_throw throw_if
find_one-Hidden id caller db h =
    let e = refuses_foreign id caller db h in
    (
      e,
      λ notes sent. rw (e, update_case) refl,
      λ status notes now. rw (e, update_status) refl,
      rw (e, delete_case) refl,
      rw (e, get_unresolved_drifts) refl,
      λ event_id source. rw (e, resolve_drift) refl,
      λ flow. rw (e, track_recommendation_click) refl,
      λ tickets. rw (e, get_recommendations) refl,
    )
