-- ===== src/Auth/Sessions/LoggedOut.antt =====
-- apps/api/src/auth/auth.service.ts, `logout` and `refresh`: what is left of a session that ended.
use wusuq_web.Base.{
  ℕ, ◌≡◌, ◌≢◌, ◌⊎◌, refl, sym, ap, subst, ◌∙◌, Option, none, some, some-injective, List, [], ◌∷◌,
  ◌++◌, find, arith, ◌==◌, Bool-cases, inl, inr, eq_of_eqb, Option-cases, ok, err, ◌>>=◌, ◌>>◌,
  or_throw, ensure, or_throw-ok, ensure-ok, throw_if-ok, ok-injective, unauthorized, conflict,
}
use wusuq_web.Base.Table
use wusuq_web.Base.Text.{Text}
use wusuq_web.Store.{UserRole}
use wusuq_web.Auth.Sessions.{
  Account, Accounts, JwtUser, refresh_secret, Crypto, AuthTokens, account_key, find_account,
  update_account, keep_hash, named, open_session, login, refresh, impersonate,
  issue_tokens_for_user, SignupDto, signup, logout,
}

-- The account, if it is there, has no refresh token.
abbrev pub LoggedOut : ℕ → Accounts → Type 0
LoggedOut id db = (a : Account) → find_account id db ≡ some a → a.hashed_refresh_token ≡ none

-- A row that is found after the end of a table grew.
find-append :
    (id : ℕ) (rows : List Account) (new a : Account)
    → Table.find_by account_key id (rows ++ (new ∷ [])) ≡ some a
    → (Table.find_by account_key id rows ≡ some a) ⊎ (a ≡ new)
find-append id [] new a h = elim (Bool-cases (new.id == id)) [
  | inl y ↦ inr (sym (some-injective _ _ (rw y at h)))
  | inr n ↦ absurd (ground (arith, rw n at h))
]
find-append id (r ∷ rows) new a h = elim (Bool-cases (r.id == id)) [
  | inl y ↦ rw y (inl (rw y at h))
  | inr n ↦ rw n (find-append id rows new a (rw n at h))
]

-- Another account's row is not touched.
other_row-LoggedOut :
    (id other_id : ℕ) (hashed : Option Text) (db : Accounts)
    → id ≢ other_id
    → LoggedOut id db
    → LoggedOut id (update_account other_id (keep_hash hashed) db)
other_row-LoggedOut id other_id hashed db n out a h = out a (
    sym
      (Table.find_by-update_by_ne account_key (keep_hash hashed) (λ _. refl) id other_id db.rows n)
    ∙ h)

logout-LoggedOut :
    (id : ℕ) (user_id : Option ℕ) (db : Accounts)
    → LoggedOut id db
    → LoggedOut id (logout user_id db)
unfolding logout
logout-LoggedOut id none db out a h = out a h
logout-LoggedOut id (some user_id) db out a h =
    let (q, e, same) =
      Table.found-update_by account_key (keep_hash none) (λ _. refl) id user_id db.rows a h in
    elim same [ inl x ↦ rw x (out q e) | inr x ↦ rw x refl ]

logout_own : (id : ℕ) (db : Accounts) → LoggedOut id (logout (some id) db)
unfolding logout
logout_own id db a h = elim (Option-cases (find_account id db)) [
  | inl e ↦ absurd (
      ground (
        arith,
        sym (Table.find_by-update_by-none account_key (keep_hash none) (λ _. refl) id id db.rows e)
            ∙ h,
      ))
  | inr (q, e) ↦
      let written =
        Table.find_by-update_by_self account_key (keep_hash none) (λ _. refl) id db.rows q e in
      rw (sym (some-injective _ _ (sym written ∙ h))) refl
]

module _ (c : Crypto) (id_text : ℕ → Text) where
  -- A call that opens no session for the user: a refresh or a logout of anyone, a sign-in by
  -- password or by code or an impersonation of another account, and a new account.
  pub data SessionStep (id : ℕ) (db db' : Accounts) : Type 0 where
    refreshes :
        (token : Text) (salt now : ℕ) (tokens : AuthTokens)
        → refresh c id_text token salt now db ≡ ok (tokens, db')
        → SessionStep id db db'
    logs_out : (user_id : Option ℕ) → logout user_id db ≡ db' → SessionStep id db db'
    other_logs_in :
        (identifier password : Text) (salt now : ℕ) (tokens : AuthTokens) (a : Account)
        → find (named identifier) db.rows ≡ some a
        → a.id ≢ id
        → login c identifier password salt now db ≡ ok (tokens, db')
        → SessionStep id db db'
    other_is_impersonated :
        (target_id : ℕ) (role : UserRole) (salt now : ℕ) (tokens : AuthTokens)
        → target_id ≢ id
        → impersonate c id_text target_id role salt now db ≡ ok (tokens, db')
        → SessionStep id db db'
    other_has_code :
        (user : Account) (salt now : ℕ) (tokens : AuthTokens)
        → user.id ≢ id
        → issue_tokens_for_user c user salt now db ≡ (tokens, db')
        → SessionStep id db db'
    signs_up :
        (dto : SignupDto) (salt new_id : ℕ)
        → signup c dto salt db ≡ ok (new_id, db')
        → SessionStep id db db'

  pub data SessionSteps (id : ℕ) (db : Accounts) : Accounts → Type 0 where
    done : SessionSteps id db db
    next : {d e : Accounts} → SessionSteps id db d → SessionStep id d e → SessionSteps id db e

  -- A refresh is another account's.
  refresh-LoggedOut :
      (id : ℕ) (token : Text) (salt now : ℕ) (db db' : Accounts) (tokens : AuthTokens)
      → LoggedOut id db
      → refresh c id_text token salt now db ≡ ok (tokens, db')
      → LoggedOut id db'
  unfolding refresh open_session
  refresh-LoggedOut id token salt now db db' tokens out h =
      let (payload, v, h1) = or_throw-ok _ unauthorized _ _ h in
      let (user, f, h2) = or_throw-ok _ unauthorized _ _ h1 in
      let (_, h3) = ensure-ok _ unauthorized _ _ h2 in
      let (stored, e, h4) = or_throw-ok _ unauthorized _ _ h3 in
      let (_, h5) = ensure-ok _ unauthorized _ _ h4 in
      let written = ok-injective _ _ h5 in
      let same : user.id ≡ payload.sub =
        Table.key_of_find_by account_key payload.sub db.rows user f in
      elim (Bool-cases (id == user.id)) [
        | inl y ↦
            let own : find_account id db ≡ some user = rw (eq_of_eqb id user.id y, same) f in
            absurd (ground (arith, e, out user own))
        | inr n ↦
            subst (λ (s : AuthTokens × Accounts). LoggedOut id s.1) written
              (other_row-LoggedOut id user.id _ db (λ q. absurd (ground (arith, n, q))) out)
      ]

  login-LoggedOut :
      (id : ℕ) (identifier password : Text) (salt now : ℕ) (db db' : Accounts) (tokens : AuthTokens)
      (a : Account)
      → LoggedOut id db
      → find (named identifier) db.rows ≡ some a
      → a.id ≢ id
      → login c identifier password salt now db ≡ ok (tokens, db')
      → LoggedOut id db'
  unfolding login open_session
  login-LoggedOut id identifier password salt now db db' tokens a out f n h =
      let (user, f', h1) = or_throw-ok _ unauthorized _ _ h in
      let (stored, _, h2) = or_throw-ok _ unauthorized _ _ h1 in
      let (_, h3) = ensure-ok _ unauthorized _ _ h2 in
      let same : a ≡ user = some-injective _ _ (sym f ∙ f') in
      subst (λ (s : AuthTokens × Accounts). LoggedOut id s.1) (ok-injective _ _ h3)
        (other_row-LoggedOut id user.id _ db (λ q. n (ap (λ (a : Account). a.id) same ∙ sym q)) out)

  impersonate-LoggedOut :
      (id target_id : ℕ) (role : UserRole) (salt now : ℕ) (db db' : Accounts) (tokens : AuthTokens)
      → LoggedOut id db
      → target_id ≢ id
      → impersonate c id_text target_id role salt now db ≡ ok (tokens, db')
      → LoggedOut id db'
  unfolding impersonate open_session
  impersonate-LoggedOut id target_id role salt now db db' tokens out n h =
      let (user, f, h1) = or_throw-ok _ unauthorized _ _ h in
      let (_, h2) = throw_if-ok _ unauthorized _ _ h1 in
      let same : user.id ≡ target_id = Table.key_of_find_by account_key target_id db.rows user f in
      subst (λ (s : AuthTokens × Accounts). LoggedOut id s.1) (ok-injective _ _ h2)
        (other_row-LoggedOut id user.id _ db (λ q. n (sym same ∙ sym q)) out)

  issue_tokens_for_user-LoggedOut :
      (id : ℕ) (user : Account) (salt now : ℕ) (db db' : Accounts) (tokens : AuthTokens)
      → LoggedOut id db
      → user.id ≢ id
      → issue_tokens_for_user c user salt now db ≡ (tokens, db')
      → LoggedOut id db'
  unfolding issue_tokens_for_user open_session
  issue_tokens_for_user-LoggedOut id user salt now db db' tokens out n e =
      subst (λ (s : AuthTokens × Accounts). LoggedOut id s.1) e
        (other_row-LoggedOut id user.id _ db (λ q. n (sym q)) out)

  signup-LoggedOut :
      (id : ℕ) (dto : SignupDto) (salt new_id : ℕ) (db db' : Accounts)
      → LoggedOut id db
      → signup c dto salt db ≡ ok (new_id, db')
      → LoggedOut id db'
  unfolding signup
  signup-LoggedOut id dto salt new_id db db' out h =
      let (_, h1) = throw_if-ok _ conflict _ _ h in
      subst (λ (s : ℕ × Accounts). LoggedOut id s.1) (ok-injective _ _ h1)
        (λ a e. elim (find-append id db.rows _ a e) [ inl old ↦ out a old | inr new ↦ rw new refl ])

  SessionStep-LoggedOut :
      (id : ℕ) (db db' : Accounts) → SessionStep id db db' → LoggedOut id db → LoggedOut id db'
  SessionStep-LoggedOut id db db' (refreshes token salt now tokens h) out =
      refresh-LoggedOut id token salt now db db' tokens out h
  SessionStep-LoggedOut id db db' (logs_out user_id e) out =
      subst (LoggedOut id) e (logout-LoggedOut id user_id db out)
  SessionStep-LoggedOut id db db' (other_logs_in identifier password salt now tokens a f n h) out =
      login-LoggedOut id identifier password salt now db db' tokens a out f n h
  SessionStep-LoggedOut id db db' (other_is_impersonated target_id role salt now tokens n h) out =
      impersonate-LoggedOut id target_id role salt now db db' tokens out n h
  SessionStep-LoggedOut id db db' (other_has_code user salt now tokens n e) out =
      issue_tokens_for_user-LoggedOut id user salt now db db' tokens out n e
  SessionStep-LoggedOut id db db' (signs_up dto salt new_id h) out =
      signup-LoggedOut id dto salt new_id db db' out h

  SessionSteps-LoggedOut :
      (id : ℕ) (db db' : Accounts) → SessionSteps id db db' → LoggedOut id db → LoggedOut id db'
  SessionSteps-LoggedOut id db db' done out = out
  SessionSteps-LoggedOut id db db' (next {d} steps step) out =
      SessionStep-LoggedOut id d db' step (SessionSteps-LoggedOut id db d steps out)

  -- After a logout of a user, and any number of refreshes, of logouts, of sign-ins (by password or by
  -- code) and impersonations of other accounts, and of new accounts, every token that stands for the
  -- user is refused: only a sign-in or an impersonation of this user opens a session again.
  pub logout-Ends :
      (id : ℕ) (db db' : Accounts) (token : Text) (salt now : ℕ) (payload : JwtUser)
      → SessionSteps id (logout (some id) db) db'
      → c.verify refresh_secret now token ≡ some payload
      → payload.sub ≡ id
      → refresh c id_text token salt now db' ≡ err unauthorized
  unfolding refresh ◌>>=◌ ◌>>◌ or_throw ensure
  logout-Ends id db db' token salt now payload steps v own =
      let out = SessionSteps-LoggedOut id (logout (some id) db) db' steps (logout_own id db) in
      elim (Option-cases (find_account payload.sub db')) [
        | inl e ↦ rw (v, refresh, e) refl
        | inr (a, e) ↦
            let none_left = out a (rw (← own) e) in
            elim (Bool-cases a.is_active) [
              | inl y ↦ rw (v, refresh, e, y, none_left) refl
              | inr n ↦ rw (v, refresh, e, n) refl
            ]
      ]
