-- ===== src/Tests/Sessions.antt =====
-- Tests of the sessions, with a toy library of hashes and tokens that has the documented laws.
use wusuq_web.Base.{
  ℕ, suc, zero, ◌≡◌, refl, ap, true, none, some, Option, [], ◌∷◌, ◌++◌, arith, Result, ok, err,
  ◌>>=◌, ◌>>◌, or_throw, ensure, unauthorized,
}
use wusuq_web.Base.Text.{Text, same_text, same_text_refl}
use wusuq_web.Store.{consumer}
use wusuq_web.Shared.Flows.{pkr}
use wusuq_web.Auth.Sessions.{
  Account, Accounts, JwtUser, refresh_secret, Crypto, AuthTokens, login, refresh, logout,
}
use wusuq_web.Auth.Sessions.LoggedOut.{SessionSteps, SessionStep, logout-Ends}
use wusuq_web.Auth.Sessions.Refresh.{take, IsDocumented, Renewed, refresh_renews, refresh_stale}

abbrev replicate : ℕ → ℕ → Text
replicate zero c = []
replicate (suc n) c = c ∷ replicate n c

-- A token is its subject, 72 times, and then its moment.
abbrev toy_verify : Text → Option JwtUser
toy_verify [] = none
toy_verify (sub ∷ _) = some (record { sub = sub; email = []; role = consumer })

abbrev toy : Crypto
toy = record {
  compare = λ s hashed. same_text (take 72 s) hashed;
  hash = λ salt s. take 72 s;
  sign = λ secret p at. replicate 72 p.sub ++ (at ∷ []);
  verify = λ secret now token. toy_verify token;
}

toy-IsDocumented : IsDocumented toy
toy-IsDocumented = record {
  compares = λ salt s t e. rw e (same_text_refl (take 72 t));
  subject = λ p q at now h. ground (arith, h);
  starts_alike = λ p q at now e. ap (replicate 72) e;
}

abbrev account : Account
account = record {
  id = 1;
  email = some (97 ∷ []);
  phone = none;
  role = consumer;
  is_active = true;
  password_hash = some (98 ∷ []);
  hashed_refresh_token = none;
  country = none;
  currency = pkr;
}

abbrev accounts : Accounts
accounts = record { rows = account ∷ record account { id = 2; email = none } ∷ []; next_id = 3 }

abbrev id_text : ℕ → Text
id_text id = id ∷ []

abbrev outcome : Result (AuthTokens × Accounts) → AuthTokens × Accounts
outcome (ok s) = s
outcome (err _) = (record { access_token = []; refresh_token = [] }, accounts)

abbrev first : AuthTokens × Accounts
first = outcome (login toy (97 ∷ []) (98 ∷ []) 0 100 accounts)

-- The token of the sign-in.
abbrev token : Text
token = toy.sign refresh_secret (record { sub = 1; email = 97 ∷ []; role = consumer }) 100

abbrev second : AuthTokens × Accounts
second = outcome (refresh toy id_text token 0 200 first.1)

refreshes : refresh toy id_text token 0 200 first.1 ≡ ok second
unfolding refresh login ◌>>=◌ ◌>>◌ or_throw ensure
refreshes = refl

refresh_renews_example :
    Renewed toy id_text token 0 200 first.1 second.0 second.1
    × ((s : AuthTokens × Accounts) × (refresh toy id_text second.0.refresh_token 0 300 second.1
          ≡ ok s))
unfolding refresh login ◌>>=◌ ◌>>◌ or_throw ensure
refresh_renews_example =
    refresh_renews toy id_text token 0 0 200 300 first.1 second.1 second.0
      (record { sub = 1; email = []; role = consumer }) toy-IsDocumented refreshes refl

refresh_stale_example :
    (s : AuthTokens × Accounts) × (refresh toy id_text token 0 300 second.1 ≡ ok s)
refresh_stale_example =
    refresh_stale toy id_text (record { sub = 1; email = 97 ∷ []; role = consumer })
      (record { sub = 1; email = []; role = consumer }) 100 0 0 200 300 first.1 second.1 second.0
      toy-IsDocumented refreshes refl

-- The user logs out, and then another one.
logout-Ends_example :
    refresh toy id_text token 0 400 (logout (some 2) (logout (some 1) second.1)) ≡ err unauthorized
logout-Ends_example =
    logout-Ends toy id_text 1 second.1 (logout (some 2) (logout (some 1) second.1)) token 0 400
      (record { sub = 1; email = []; role = consumer })
      (SessionSteps.next SessionSteps.done (SessionStep.logs_out (some 2) refl)) refl refl
