-- ===== src/Auth/Sessions/Refresh.antt =====
-- apps/api/src/auth/auth.service.ts, `refresh`: whose token is accepted, and what becomes of it.
use wusuq_web.Base.{
  ℕ, suc, zero, ◌≡◌, refl, sym, ap, subst, ◌∙◌, true, some, List, [], ◌∷◌, ok, ◌>>=◌, ◌>>◌,
  or_throw, ensure, or_throw-ok, ensure-ok, ok-injective, unauthorized,
}
use wusuq_web.Base.Table
use wusuq_web.Base.Text.{Text}
use wusuq_web.Auth.Sessions.{
  Account, Accounts, JwtUser, refresh_secret, Crypto, AuthTokens, account_key, find_account,
  keep_hash, payload_of, issue_tokens, open_session, refresh,
}

module _ {ℓ} {A : Type ℓ} where
  abbrev pub take : ℕ → List A → List A
  take zero xs = []
  take (suc n) [] = []
  take (suc n) (x ∷ xs) = x ∷ take n xs

-- What bcryptjs and @nestjs/jwt say of themselves. bcrypt reads the first 72 bytes of its input, and
-- a comparison tells whether those agree. A token that verifies carries the subject that it was
-- signed for. A token is its header and its payload in base64url, the subject first, so that two
-- tokens of one subject agree in the first 72 bytes: 37 of the header, and 26 characters of
-- `{"sub":"<cuid>"`.
pub record IsDocumented (c : Crypto) : Type 0 where
  pub compares :
      (salt : ℕ) (s t : Text) → take 72 s ≡ take 72 t → c.compare s (c.hash salt t) ≡ true
  pub subject :
      (p q : JwtUser) (at now : ℕ)
      → c.verify refresh_secret now (c.sign refresh_secret p at) ≡ some q
      → q.sub ≡ p.sub
  pub starts_alike :
      (p q : JwtUser) (at now : ℕ)
      → p.sub ≡ q.sub
      → take 72 (c.sign refresh_secret p at) ≡ take 72 (c.sign refresh_secret q now)

module _ (c : Crypto) (id_text : ℕ → Text) where
  -- A refresh that was accepted: the account that the token stands for, active and with a stored
  -- hash that the token compares to; and the tables with the hash of the new token.
  pub record Renewed (token : Text) (salt now : ℕ) (db : Accounts) (tokens : AuthTokens)
      (db' : Accounts) : Type 0 where
    pub payload : JwtUser
    pub verified : c.verify refresh_secret now token ≡ some payload
    pub account : Account
    pub found : find_account payload.sub db ≡ some account
    pub active : account.is_active ≡ true
    pub stored : Text
    pub kept : account.hashed_refresh_token ≡ some stored
    pub matches : c.compare token stored ≡ true
    pub issued : tokens ≡ issue_tokens c (payload_of account (id_text account.id)) now
    pub row :
        find_account payload.sub db'
        ≡ some (record account { hashed_refresh_token = some (c.hash salt tokens.refresh_token) })
    pub others : (id : ℕ) → (id ≡ payload.sub → ⊥) → find_account id db' ≡ find_account id db

  refresh-Renewed :
      (token : Text) (salt now : ℕ) (db db' : Accounts) (tokens : AuthTokens)
      → refresh c id_text token salt now db ≡ ok (tokens, db')
      → Renewed token salt now db tokens db'
  unfolding refresh open_session
  refresh-Renewed token salt now db db' tokens h =
      let (payload, v, h1) = or_throw-ok _ unauthorized _ _ h in
      let (user, f, h2) = or_throw-ok _ unauthorized _ _ h1 in
      let (live, h3) = ensure-ok _ unauthorized _ _ h2 in
      let (stored, e, h4) = or_throw-ok _ unauthorized _ _ h3 in
      let (m, h5) = ensure-ok _ unauthorized _ _ h4 in
      let same : user.id ≡ payload.sub =
        Table.key_of_find_by account_key payload.sub db.rows user f in
      let hashed =
        some (c.hash salt (issue_tokens c (payload_of user (id_text user.id)) now).refresh_token) in
      subst (λ (s : AuthTokens × Accounts). Renewed token salt now db s.0 s.1) (ok-injective _ _ h5)
        (record {
          payload = payload;
          verified = v;
          account = user;
          found = f;
          active = live;
          stored = stored;
          kept = e;
          matches = m;
          issued = refl;
          row =
              let own = Table.find_by_own account_key payload.sub db.rows user f in
              subst
                (λ k.
                  Table.find_by account_key k
                    (Table.update_by account_key user.id (keep_hash hashed) db.rows)
                  ≡ some (keep_hash hashed user))
                same
                (Table.find_by-update_by_self account_key (keep_hash hashed) (λ _. refl) user.id
                  db.rows user own);
          others = λ id n.
              Table.find_by-update_by_ne account_key (keep_hash hashed) (λ _. refl) id user.id
                db.rows (λ q. n (q ∙ same));
        })

  -- A token that the account of a refresh has the subject of, and that compares to the new hash, is
  -- accepted next.
  accepted_next :
      (token next : Text) (salt salt' now later : ℕ) (db db' : Accounts) (tokens : AuthTokens)
      (r : Renewed token salt now db tokens db') (q : JwtUser)
      → c.verify refresh_secret later next ≡ some q
      → q.sub ≡ r.payload.sub
      → c.compare next (c.hash salt tokens.refresh_token) ≡ true
      → (s : AuthTokens × Accounts) × (refresh c id_text next salt' later db' ≡ ok s)
  unfolding refresh ◌>>=◌ ◌>>◌ or_throw ensure
  accepted_next token next salt salt' now later db db' tokens r q v same matches =
      let renewed : Account = record r.account {
        hashed_refresh_token = some (c.hash salt tokens.refresh_token);
      } in
      let row : find_account q.sub db' ≡ some renewed = rw same r.row in
      (
        open_session c renewed (id_text renewed.id) salt' later db',
        rw (v, refresh, row, r.active, matches) refl,
      )

  -- A refresh that is accepted was asked with a token that verifies, for an active account whose
  -- stored hash the token compares to. The new tokens are signed for that account; its row then has
  -- the hash of the new refresh token and is otherwise as it was, and so is every other row. The
  -- new refresh token, presented next while it verifies, is accepted in its turn.
  pub refresh_renews :
      (token : Text) (salt salt' now later : ℕ) (db db' : Accounts) (tokens : AuthTokens)
      (q : JwtUser)
      → IsDocumented c
      → refresh c id_text token salt now db ≡ ok (tokens, db')
      → c.verify refresh_secret later tokens.refresh_token ≡ some q
      → Renewed token salt now db tokens db'
        × ((s : AuthTokens × Accounts) × (refresh c id_text tokens.refresh_token salt' later db'
              ≡ ok s))
  refresh_renews token salt salt' now later db db' tokens q laws h v =
      let r = refresh-Renewed token salt now db db' tokens h in
      let next : JwtUser = payload_of r.account (id_text r.account.id) in
      let new : tokens.refresh_token ≡ c.sign refresh_secret next now =
        ap (λ (t : AuthTokens). t.refresh_token) r.issued in
      let key : r.account.id ≡ r.payload.sub =
        Table.key_of_find_by account_key r.payload.sub db.rows r.account r.found in
      let own : q.sub ≡ r.account.id =
        laws.subject next q now later
          (subst (λ t. c.verify refresh_secret later t ≡ some q) new v) in
      (
        r,
        accepted_next token tokens.refresh_token salt salt' now later db db' tokens r q v
            (own ∙ key) (laws.compares salt tokens.refresh_token tokens.refresh_token refl),
      )

  -- The new hash does not shut out the token that was replaced: after an accepted refresh the same
  -- token, presented again while it has not expired, is accepted again, since the new token has the
  -- same first 72 bytes.
  pub refresh_stale :
      (p q : JwtUser) (at salt salt' now later : ℕ) (db db' : Accounts) (tokens : AuthTokens)
      → IsDocumented c
      → refresh c id_text (c.sign refresh_secret p at) salt now db ≡ ok (tokens, db')
      → c.verify refresh_secret later (c.sign refresh_secret p at) ≡ some q
      → (s : AuthTokens × Accounts) × (refresh c id_text
            (c.sign refresh_secret p at)
            salt'
            later
            db'
          ≡ ok s)
  refresh_stale p q at salt salt' now later db db' tokens laws h v =
      let token = c.sign refresh_secret p at in
      let r = refresh-Renewed token salt now db db' tokens h in
      let own : p.sub ≡ r.payload.sub = sym (laws.subject p r.payload at now r.verified) in
      let key : r.account.id ≡ r.payload.sub =
        Table.key_of_find_by account_key r.payload.sub db.rows r.account r.found in
      let next : JwtUser = payload_of r.account (id_text r.account.id) in
      let new : tokens.refresh_token ≡ c.sign refresh_secret next now =
        ap (λ (t : AuthTokens). t.refresh_token) r.issued in
      accepted_next token token salt salt' now later db db' tokens r q v
        (laws.subject p q at later v ∙ own)
        (laws.compares salt token tokens.refresh_token
          (laws.starts_alike p next at now (own ∙ sym key) ∙ ap (take 72) (sym new)))
