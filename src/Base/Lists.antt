-- ===== src/Base/Lists.antt =====
-- Lists over the native numbers: length, Boolean filter, sums and predicates on all items.
use Prim.Native.Nat.{ℕ, suc, ◌+◌}
use mathlib.Core.Path.{◌≡◌, refl, subst}
use mathlib.Core.Bool.{Bool, true, false}
use mathlib.Core.List.{List, [], ◌∷◌, ◌++◌}
use mathlib.Core.Option.{Option, none, some, some-injective}
use native.Mathlib.Omega.{arith}
use wusuq_web.Base.Tests.{if◌then◌else◌, or_else}

module _ {ℓ} {A : Type ℓ} where
  abbrev pub length : List A → ℕ
  length [] = 0
  length (_ ∷ xs) = suc (length xs)

  -- `xs.filter(p)`.
  abbrev pub filterb : (A → Bool) → List A → List A
  filterb p [] = []
  filterb p (x ∷ xs) = if p x then x ∷ filterb p xs else filterb p xs

  -- `xs.find(p)`.
  abbrev pub find : (A → Bool) → List A → Option A
  find p [] = none
  find p (x ∷ xs) = if p x then some x else find p xs

  -- The last item that passes, which is the first in the opposite order.
  abbrev pub find_last : (A → Bool) → List A → Option A
  find_last p [] = none
  find_last p (x ∷ xs) = or_else (find_last p xs) (if p x then some x else none)

  -- `xs.some(p)`.
  abbrev pub any : (A → Bool) → List A → Bool
  any p [] = false
  any p (x ∷ xs) = if p x then true else any p xs

  -- `xs.reduce((s, x) => s + f(x), 0)`.
  abbrev pub sum : (A → ℕ) → List A → ℕ
  sum f [] = 0
  sum f (x ∷ xs) = f x + sum f xs

  abbrev pub countb : (A → Bool) → List A → ℕ
  countb p [] = 0
  countb p (x ∷ xs) = (if p x then 1 else 0) + countb p xs

  abbrev pub All {κ} : (A → Type κ) → List A → Type κ
  All P [] = Unit
  All P (x ∷ xs) = P x × All P xs

  pub sum-append : (f : A → ℕ) (xs ys : List A) → sum f (xs ++ ys) ≡ sum f xs + sum f ys
  sum-append f [] ys = omega arith
  sum-append f (x ∷ xs) ys = omega (arith, sum-append f xs ys)

  pub countb-append :
      (p : A → Bool) (xs ys : List A) → countb p (xs ++ ys) ≡ countb p xs + countb p ys
  countb-append p [] ys = omega arith
  countb-append p (x ∷ xs) ys = omega (arith, countb-append p xs ys)

  pub length-append : (xs ys : List A) → length (xs ++ ys) ≡ length xs + length ys
  length-append [] ys = omega arith
  length-append (x ∷ xs) ys = omega (arith, length-append xs ys)

  pub find-append :
      (p : A → Bool) (xs : List A) (x : A)
      → find p (xs ++ (x ∷ [])) ≡ or_else (find p xs) (if p x then some x else none)
  find-append p [] x = ground arith
  find-append p (y ∷ xs) x = ground (arith, find-append p xs x)

  pub find_last-append_any :
      (p : A → Bool) (xs : List A) (x : A)
      → find_last p (xs ++ (x ∷ [])) ≡ (if p x then some x else find_last p xs)
  find_last-append_any p [] x = ground arith
  find_last-append_any p (y ∷ xs) x = ground (arith, find_last-append_any p xs x)

  pub find_last-append :
      (p : A → Bool) (xs : List A) (x : A) → p x ≡ true → find_last p (xs ++ (x ∷ [])) ≡ some x
  find_last-append p [] x h = ground arith
  find_last-append p (y ∷ xs) x h = ground (arith, find_last-append p xs x h)

  pub All-append {κ} : (P : A → Type κ) (xs ys : List A) → All P xs → All P ys → All P (xs ++ ys)
  All-append P [] ys _ q = q
  All-append P (x ∷ xs) ys (p, ps) q = (p, All-append P xs ys ps q)

  pub All-mono {κ μ} :
      (P : A → Type κ) (Q : A → Type μ) (xs : List A) → ((x : A) → P x → Q x) → All P xs → All Q xs
  All-mono P Q [] f h = tt
  All-mono P Q (x ∷ xs) f (p, ps) = (f x p, All-mono P Q xs f ps)

  -- What holds of every item holds of the last one that passes.
  pub find_last-All {κ} :
      (P : A → Type κ) (p : A → Bool) (xs : List A) (x : A)
      → All P xs
      → find_last p xs ≡ some x
      → P x × (p x ≡ true)
  find_last-All P p [] x h e = absurd (ground (arith, e))
  find_last-All P p (y ∷ xs) x (q, qs) e =
      go (find_last p xs) (find_last-All P p xs x qs) (p y) refl e
    where
      go :
          (o : Option A)
          → (o ≡ some x → P x × (p x ≡ true))
          → (b : Bool) → p y ≡ b
          → or_else o (if b then some y else none) ≡ some x
          → P x × (p x ≡ true)
      go (some z) later b s e = later e
      go none later true s e =
          let same = some-injective _ _ e in (subst P same q, subst (λ z. p z ≡ true) same s)
      go none later false s e = absurd (ground (arith, e))

  -- Where nothing passes, nothing is found.
  pub find_last-none : (p : A → Bool) (xs : List A) → countb p xs ≡ 0 → find_last p xs ≡ none
  find_last-none p [] h = refl
  find_last-none p (x ∷ xs) h = ground (arith, find_last-none p xs, h)
