-- ===== src/Base/Results.antt =====
-- The outcome of a call that may throw one of Nest's exceptions, and its monad.
use mathlib.Core.Path.{◌≡◌, refl, ap, subst}
use mathlib.Core.Logic.{◌⊎◌, inl, inr}
use mathlib.Core.Bool.{Bool, true, false}
use mathlib.Core.Option.{Option, none, some}
use native.Mathlib.Omega.{arith}

-- BadRequestException, NotFoundException, ForbiddenException, ConflictException,
-- UnauthorizedException, HTTP 410, HTTP 429, and HTTP 500 for what no handler expects.
pub data Error : Type 0 where
  bad_request not_found forbidden conflict unauthorized gone too_many_requests internal : Error

pub data Result {ℓ} (A : Type ℓ) : Type ℓ where
  ok : A → Result A
  err : Error → Result A

infixl 5 ◌>>=◌ ◌>>◌
unfoldable pub ◌>>=◌ {ℓ κ} : {A : Type ℓ} {B : Type κ} → Result A → (A → Result B) → Result B
ok a >>= f = f a
err e >>= f = err e

unfoldable pub ◌>>◌ {ℓ} : {B : Type ℓ} → Result (Unit {0}) → Result B → Result B
ok _ >> k = k
err e >> k = err e

-- `if (c) throw e`.
unfoldable pub throw_if : Bool → Error → Result (Unit {0})
throw_if true e = err e
throw_if false e = ok tt

-- `if (!c) throw e`.
unfoldable pub ensure : Bool → Error → Result (Unit {0})
ensure true e = ok tt
ensure false e = err e

-- `if (!row) throw e`.
unfoldable pub or_throw {ℓ} : {A : Type ℓ} → Option A → Error → Result A
or_throw none e = err e
or_throw (some a) e = ok a

value_or {ℓ} : {A : Type ℓ} → A → Result A → A
value_or d (ok x) = x
value_or d (err e) = d

pub ok-injective {ℓ} : {A : Type ℓ} (a b : A) → ok a ≡ ok b → a ≡ b
unfolding value_or
ok-injective a b h = ap (value_or a) h

-- What a successful chain has passed.
pub bind-ok {ℓ κ} :
    {A : Type ℓ} {B : Type κ} (m : Result A) (f : A → Result B) (b : B)
    → (m >>= f) ≡ ok b
    → (a : A) × (m ≡ ok a) × (f a ≡ ok b)
unfolding ◌>>=◌ ◌>>◌ or_throw ensure throw_if
bind-ok (ok a) f b h = (a, refl, h)
bind-ok (err e) f b h = absurd (ground arith)

pub or_throw-ok {ℓ κ} :
    {A : Type ℓ} {B : Type κ} (o : Option A) (e : Error) (f : A → Result B) (b : B)
    → (or_throw o e >>= f) ≡ ok b
    → (a : A) × (o ≡ some a) × (f a ≡ ok b)
unfolding ◌>>=◌ ◌>>◌ or_throw ensure throw_if
or_throw-ok none e f b h = absurd (ground arith)
or_throw-ok (some a) e f b h = (a, refl, h)

pub ensure-ok {κ} :
    {B : Type κ} (c : Bool) (e : Error) (r : Result B) (b : B)
    → (ensure c e >> r) ≡ ok b
    → (c ≡ true) × (r ≡ ok b)
unfolding ◌>>=◌ ◌>>◌ or_throw ensure throw_if
ensure-ok true e r b h = (refl, h)
ensure-ok false e r b h = absurd (ground arith)

pub throw_if-ok {κ} :
    {B : Type κ} (c : Bool) (e : Error) (r : Result B) (b : B)
    → (throw_if c e >> r) ≡ ok b
    → (c ≡ false) × (r ≡ ok b)
unfolding ◌>>=◌ ◌>>◌ or_throw ensure throw_if
throw_if-ok true e r b h = absurd (ground arith)
throw_if-ok false e r b h = (refl, h)

-- The result of a call, when there is one, has the property.
pub data Post {ℓ κ} {A : Type ℓ} (P : A → Type κ) : Result A → Type (ℓ ⊔ κ) where
  returns : {a : A} → P a → Post P (ok a)
  throws : {e : Error} → Post P (err e)

pub Post-bind {ℓ κ μ} :
    {A : Type ℓ} {B : Type κ} {P : B → Type μ} {m : Result A} {f : A → Result B}
    → ((a : A) → m ≡ ok a → Post P (f a))
    → Post P (m >>= f)
unfolding ◌>>=◌ ◌>>◌ or_throw ensure throw_if
Post-bind {m = ok a} h = h a refl
Post-bind {m = err e} h = throws

pub Post-then {κ μ} :
    {B : Type κ} {P : B → Type μ} {m : Result (Unit {0})} {r : Result B}
    → (m ≡ ok tt → Post P r)
    → Post P (m >> r)
unfolding ◌>>=◌ ◌>>◌ or_throw ensure throw_if
Post-then {m = ok _} h = h refl
Post-then {m = err e} h = throws

pub Post-or_throw {ℓ κ μ} :
    {A : Type ℓ} {B : Type κ} {P : B → Type μ} {o : Option A} {f : A → Result B} (e : Error)
    → ((a : A) → o ≡ some a → Post P (f a))
    → Post P (or_throw o e >>= f)
unfolding ◌>>=◌ ◌>>◌ or_throw ensure throw_if
Post-or_throw {o = some a} e h = h a refl
Post-or_throw {o = none} e h = throws

pub Post-ensure {κ μ} :
    {B : Type κ} {P : B → Type μ} {c : Bool} {r : Result B} (e : Error)
    → (c ≡ true → Post P r)
    → Post P (ensure c e >> r)
unfolding ◌>>=◌ ◌>>◌ or_throw ensure throw_if
Post-ensure {c = true} e h = h refl
Post-ensure {c = false} e h = throws

pub Post-throw_if {κ μ} :
    {B : Type κ} {P : B → Type μ} {c : Bool} {r : Result B} (e : Error)
    → (c ≡ false → Post P r)
    → Post P (throw_if c e >> r)
unfolding ◌>>=◌ ◌>>◌ or_throw ensure throw_if
Post-throw_if {c = false} e h = h refl
Post-throw_if {c = true} e h = throws

pub Post-return {ℓ κ} : {A : Type ℓ} {P : A → Type κ} {a : A} → P a → Post P (ok a)
Post-return h = returns h

pub Post-result {ℓ κ} :
    {A : Type ℓ} {P : A → Type κ} {r : Result A} {a : A} → Post P r → r ≡ ok a → P a
Post-result {P = P} (returns p) e = subst P (ok-injective _ _ e) p
Post-result throws e = absurd (ground arith)

pub Post-of {ℓ κ} :
    {A : Type ℓ} {P : A → Type κ} (r : Result A) → ((a : A) → r ≡ ok a → P a) → Post P r
Post-of (ok a) h = returns (h a refl)
Post-of (err e) h = throws

pub Result-cases {ℓ} :
    {A : Type ℓ} (r : Result A) → ((a : A) × (r ≡ ok a)) ⊎ ((e : Error) × (r ≡ err e))
Result-cases (ok a) = inl (a, refl)
Result-cases (err e) = inr (e, refl)

-- A chain of calls runs on when a call of it succeeds.
pub run-bind {ℓ κ} :
    {A : Type ℓ} {B : Type κ} {m : Result A} {a : A} {r : Result B} (f : A → Result B)
    → m ≡ ok a
    → f a ≡ r
    → (m >>= f) ≡ r
unfolding ◌>>=◌
run-bind f e h = rw e h

pub run-then {κ} :
    {B : Type κ} {m : Result (Unit {0})} {k r : Result B} → m ≡ ok tt → k ≡ r → (m >> k) ≡ r
unfolding ◌>>=◌ ◌>>◌
run-then e h = rw e h

pub run-or_throw {ℓ κ} :
    {A : Type ℓ} {B : Type κ} {o : Option A} {a : A} {r : Result B} (f : A → Result B) (e : Error)
    → o ≡ some a
    → f a ≡ r
    → (or_throw o e >>= f) ≡ r
unfolding ◌>>=◌ or_throw
run-or_throw f e q h = rw q h

pub run-ensure {κ} :
    {B : Type κ} {c : Bool} {k r : Result B} (e : Error) → c ≡ true → k ≡ r → (ensure c e >> k) ≡ r
unfolding ◌>>=◌ ◌>>◌ ensure
run-ensure e q h = rw q h

pub run-throw_if {κ} :
    {B : Type κ} {c : Bool} {k r : Result B} (e : Error)
    → c ≡ false
    → k ≡ r
    → (throw_if c e >> k) ≡ r
unfolding ◌>>=◌ ◌>>◌ throw_if
run-throw_if e q h = rw q h
