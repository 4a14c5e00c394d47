-- ===== src/Auth/Sessions.antt =====
-- apps/api/src/auth/auth.service.ts: sign-in by password, the refresh of tokens, impersonation and
-- the end of a session. The library that hashes, the one that signs, and the salts and moments of a
-- call are parameters; audit rows are not kept.
pub mod LoggedOut
pub mod Refresh
use wusuq_web.Base.{
  ℕ, suc, Bool, true, false, not, ◌&&◌, ◌||◌, Option, none, some, List, [], ◌∷◌, ◌++◌, any, find,
  ◌⁇◌, if◌then◌else◌, Result, ok, err, ◌>>=◌, ◌>>◌, or_throw, ensure, throw_if, unauthorized,
  conflict,
}
use wusuq_web.Base.Table
use wusuq_web.Base.Text.{Text, same_text}
use wusuq_web.Store.{UserRole, consumer, super_admin}
use wusuq_web.Shared.Region.{derive_currency, format_pakistani_phone}
use wusuq_web.Shared.Flows.{Currency}

-- The columns of `User` that sign-in reads and writes.
pub record Account : Type 0 where
  pub id : ℕ
  pub email : Option Text
  pub phone : Option Text
  pub role : UserRole
  pub is_active : Bool
  pub password_hash : Option Text
  pub hashed_refresh_token : Option Text
  pub country : Option Text
  pub currency : Currency

pub record Accounts : Type 0 where
  pub rows : List Account
  pub next_id : ℕ

-- `JwtUser`: what a token says. The role is the one of the table, since the mapping between the two
-- spellings of a role is one to one.
pub record JwtUser : Type 0 where
  pub sub : ℕ
  pub email : Text
  pub role : UserRole

pub data Secret : Type 0 where
  access_secret refresh_secret : Secret

-- bcryptjs (`compare`, and `hash` with a salt) and @nestjs/jwt (`signAsync` and `verifyAsync` at a
-- moment; `none` where the verification throws).
pub record Crypto : Type 0 where
  pub compare : Text → Text → Bool
  pub hash : ℕ → Text → Text
  pub sign : Secret → JwtUser → ℕ → Text
  pub verify : Secret → ℕ → Text → Option JwtUser

pub record AuthTokens : Type 0 where
  pub access_token : Text
  pub refresh_token : Text

abbrev pub account_key : Account → ℕ
account_key a = a.id

abbrev pub find_account : ℕ → Accounts → Option Account
find_account id db = Table.find_by account_key id db.rows

abbrev pub update_account : ℕ → (Account → Account) → Accounts → Accounts
update_account id f db = record db { rows = Table.update_by account_key id f db.rows }

abbrev is_text : Option Text → Text → Bool
is_text none text = false
is_text (some own) text = same_text own text

-- `findFirst({ where: { OR: [{ email }, { phone }], isActive: true } })`.
abbrev pub named : Text → Account → Bool
named identifier a = (is_text a.email identifier || is_text a.phone identifier) && a.is_active

-- What stands in a session of an account: the hash of its last refresh token.
abbrev pub keep_hash : Option Text → Account → Account
keep_hash hashed a = record a { hashed_refresh_token = hashed }

-- What the tokens of an account say; `no_email` stands in for an address that it has not.
abbrev pub payload_of : Account → Text → JwtUser
payload_of a no_email = record { sub = a.id; email = a.email ⁇ no_email; role = a.role }

abbrev is_super_admin : UserRole → Bool
is_super_admin super_admin = true
is_super_admin _ = false

-- `SignupDto`, as far as it is kept.
pub record SignupDto : Type 0 where
  pub email : Text
  pub password : Text
  pub phone : Text
  pub country : Option Text

module _ (c : Crypto) where
  -- `issueTokens`.
  abbrev pub issue_tokens : JwtUser → ℕ → AuthTokens
  issue_tokens payload now = record {
    access_token = c.sign access_secret payload now;
    refresh_token = c.sign refresh_secret payload now;
  }

  -- The tokens of an account, of which the hash of the refresh token is written.
  unfoldable pub open_session : Account → Text → ℕ → ℕ → Accounts → AuthTokens × Accounts
  open_session a no_email salt now db =
      let tokens = issue_tokens (payload_of a no_email) now in
      (tokens, update_account a.id (keep_hash (some (c.hash salt tokens.refresh_token))) db)

  -- `login`. It calls for an email also where an account has none.
  unfoldable pub login : Text → Text → ℕ → ℕ → Accounts → Result (AuthTokens × Accounts)
  unfolding open_session
  login identifier password salt now db = do
    user ← or_throw (find (named identifier) db.rows) unauthorized
    password_hash ← or_throw user.password_hash unauthorized
    ensure (c.compare password password_hash) unauthorized
    ok (open_session user [] salt now db)

  -- `refresh`; the text of the account's key stands in for an address.
  unfoldable pub refresh : (ℕ → Text) → Text → ℕ → ℕ → Accounts → Result (AuthTokens × Accounts)
  unfolding open_session
  refresh id_text refresh_token salt now db = do
    payload ← or_throw (c.verify refresh_secret now refresh_token) unauthorized
    user ← or_throw (find_account payload.sub db) unauthorized
    ensure user.is_active unauthorized
    stored ← or_throw user.hashed_refresh_token unauthorized
    ensure (c.compare refresh_token stored) unauthorized
    ok (open_session user (id_text user.id) salt now db)

  -- `impersonate`, which the controller lets super-admins call.
  unfoldable pub impersonate :
      (ℕ → Text) → ℕ → UserRole → ℕ → ℕ → Accounts → Result (AuthTokens × Accounts)
  unfolding open_session
  impersonate id_text target_id actor_role salt now db = do
    user ← or_throw (find_account target_id db) unauthorized
    throw_if (not user.is_active && not (is_super_admin actor_role)) unauthorized
    ok (open_session user (id_text user.id) salt now db)

  -- `issueTokensForUser`, for the user of a verified one-time code.
  unfoldable pub issue_tokens_for_user : Account → ℕ → ℕ → Accounts → AuthTokens × Accounts
  unfolding open_session
  issue_tokens_for_user user salt now db = open_session user [] salt now db

  unfoldable pub signup : SignupDto → ℕ → Accounts → Result (ℕ × Accounts)
  unfolding derive_currency format_pakistani_phone
  signup dto salt db = do
    throw_if (any (λ (a : Account). is_text a.email dto.email) db.rows) conflict
    let created : Account = record {
      id = db.next_id;
      email = some dto.email;
      phone = some (format_pakistani_phone dto.phone ⁇ dto.phone);
      role = consumer;
      is_active = true;
      password_hash = some (c.hash salt dto.password);
      hashed_refresh_token = none;
      country = dto.country;
      currency = derive_currency (some dto.phone) dto.country;
    }
    ok (db.next_id, record { rows = db.rows ++ (created ∷ []); next_id = suc db.next_id })

-- `logout`.
unfoldable pub logout : Option ℕ → Accounts → Accounts
logout none db = db
logout (some user_id) db = update_account user_id (keep_hash none) db
