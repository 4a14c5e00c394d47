-- ===== src/Base/Table.antt =====
-- A database table: rows in the order of their insertion, found and updated by a numeric key.
use Prim.Native.Nat.{ℕ, ◌+◌, ◌<◌}
use mathlib.Core.Path.{◌≡◌, refl, ap, sym, ◌∙◌, subst}
use mathlib.Core.Logic.{◌≢◌, ◌⊎◌, inl, inr}
use mathlib.Core.Bool.{Bool, true, false}
use mathlib.Core.List.{List, [], ◌∷◌, ◌++◌}
use mathlib.Core.Option.{Option, none, some, some-injective}
use native.Mathlib.Omega.{arith}
use wusuq_web.Base.Tests.{eqb_refl, ◌==◌, if◌then◌else◌, Bool-cases, eq_of_eqb}
use wusuq_web.Base.Lists.{All, All-mono, sum}

module _ {ℓ} {R : Type ℓ} (key : R → ℕ) where
  -- `findUnique({ where: { id } })`.
  abbrev pub find_by : ℕ → List R → Option R
  find_by k [] = none
  find_by k (r ∷ rs) = if key r == k then some r else find_by k rs

  -- `update({ where: { id }, data })`, the new row computed from the row that stands there.
  abbrev pub update_by : ℕ → (R → R) → List R → List R
  update_by k f [] = []
  update_by k f (r ∷ rs) = (if key r == k then f r else r) ∷ update_by k f rs

  -- No two rows share their key.
  abbrev pub Distinct : List R → Type ℓ
  Distinct [] = Unit
  Distinct (r ∷ rs) = (find_by (key r) rs ≡ none) × Distinct rs

  pub key_of_find_by : (k : ℕ) (rs : List R) (r : R) → find_by k rs ≡ some r → key r ≡ k
  key_of_find_by k [] r h = ground arith
  key_of_find_by k (x ∷ rs) r h = ground (arith, key_of_find_by k rs r)

  -- A row that is found under some key is found under its own.
  pub find_by_own :
      (k : ℕ) (rs : List R) (r : R) → find_by k rs ≡ some r → find_by (key r) rs ≡ some r
  find_by_own k rs r h = subst (λ i. find_by i rs ≡ some r) (sym (key_of_find_by k rs r h)) h

  pub update_by-append :
      (k : ℕ) (f : R → R) (rs : List R) (r : R)
      → update_by k f (rs ++ (r ∷ [])) ≡ update_by k f rs ++ ((if key r == k then f r else r) ∷ [])
  update_by-append k f [] r = refl
  update_by-append k f (x ∷ rs) r =
      ap (λ ys. (if key x == k then f x else x) ∷ ys) (update_by-append k f rs r)

  module _ (f : R → R) (keeps : (r : R) → key (f r) ≡ key r) where
    pub find_by-update_by_self :
        (k : ℕ) (rs : List R) (r : R)
        → find_by k rs ≡ some r
        → find_by k (update_by k f rs) ≡ some (f r)
    find_by-update_by_self k [] r h = ground arith
    find_by-update_by_self k (x ∷ rs) r h = ground (arith, find_by-update_by_self k rs r, keeps x)

    pub find_by-update_by_ne :
        (j k : ℕ) (rs : List R) → j ≢ k → find_by j (update_by k f rs) ≡ find_by j rs
    find_by-update_by_ne j k [] h = refl
    find_by-update_by_ne j k (x ∷ rs) h = ground (arith, find_by-update_by_ne j k rs h, keeps x)

    pub find_by-update_by-none :
        (j k : ℕ) (rs : List R) → find_by j rs ≡ none → find_by j (update_by k f rs) ≡ none
    find_by-update_by-none j k [] h = refl
    find_by-update_by-none j k (x ∷ rs) h = ground (arith, find_by-update_by-none j k rs, keeps x)

    pub update_by-Distinct : (k : ℕ) (rs : List R) → Distinct rs → Distinct (update_by k f rs)
    update_by-Distinct k [] d = tt
    update_by-Distinct k (x ∷ rs) d =
        ground
          (arith, update_by-Distinct k rs d.1, find_by-update_by-none (key x) k rs d.0, keeps x)

  -- What is found after an update was there before, as it is or as it was.
  pub found-update_by :
      (f : R → R)
      → ((r : R) → key (f r) ≡ key r)
      → (j k : ℕ) (rs : List R) (r : R) → find_by j (update_by k f rs) ≡ some r
      → (q : R) × (find_by j rs ≡ some q) × ((r ≡ q) ⊎ (r ≡ f q))
  found-update_by f keeps j k [] r h = absurd (ground (arith, h))
  found-update_by f keeps j k (x ∷ rs) r h = elim (Bool-cases (key x == k)) [
    | inl y ↦ elim (Bool-cases (key x == j)) [
      | inl z ↦ (x, rw z refl, inr (sym (some-injective _ _ (rw (y, keeps x, z) at h))))
      | inr n ↦ rw n (found-update_by f keeps j k rs r (rw (y, keeps x, n) at h))
    ]
    | inr y ↦ elim (Bool-cases (key x == j)) [
      | inl z ↦ (x, rw z refl, inl (sym (some-injective _ _ (rw (y, z) at h))))
      | inr n ↦ rw n (found-update_by f keeps j k rs r (rw (y, n) at h))
    ]
  ]

  pub update_by-none :
      (k : ℕ) (f : R → R) (rs : List R) → find_by k rs ≡ none → update_by k f rs ≡ rs
  update_by-none k f [] h = refl
  update_by-none k f (x ∷ rs) h = ground (arith, update_by-none k f rs)

  -- A sum over the table changes by what the one updated row changes.
  pub sum-update_by :
      (k : ℕ) (f : R → R) (g : R → ℕ) (rs : List R) (r : R)
      → Distinct rs
      → find_by k rs ≡ some r
      → sum g (update_by k f rs) + g r ≡ sum g rs + g (f r)
  sum-update_by k f g [] r d h = ground arith
  sum-update_by k f g (x ∷ rs) r d h = elim (Bool-cases (key x == k)) [
    | inl e ↦
        let same = eq_of_eqb (key x) k e in
        ground (arith, update_by-none k f rs (ap (λ i. find_by i rs) (sym same) ∙ d.0))
    | inr e ↦ ground (arith, sum-update_by k f g rs r d.1)
  ]

  -- What holds of every row still does when the updated row keeps it.
  pub All-update_by {κ} :
      (P : R → Type κ) (k : ℕ) (f : R → R) (rs : List R)
      → ((r : R) → P r → P (f r))
      → All P rs
      → All P (update_by k f rs)
  All-update_by P k f [] step h = tt
  All-update_by P k f (x ∷ rs) step (p, ps) = (go (key x == k), All-update_by P k f rs step ps)
    where
      go : (b : Bool) → P (if b then f x else x)
      go true = step x p
      go false = p

  pub All-find_by {κ} :
      (P : R → Type κ) (k : ℕ) (rs : List R) (r : R) → All P rs → find_by k rs ≡ some r → P r
  All-find_by P k [] r h e = absurd (ground arith)
  All-find_by P k (x ∷ rs) r (p, ps) e = elim (Bool-cases (key x == k)) [
    | inl y ↦ subst P (some-injective _ _ (rw y at e)) p
    | inr n ↦ All-find_by P k rs r ps (rw n at e)
  ]

  -- The updated row is the one that is found, so it alone has to hold what the others do.
  pub All-update_by_at {κ} :
      (P : R → Type κ) (k : ℕ) (f : R → R) (rs : List R) (r : R)
      → Distinct rs
      → find_by k rs ≡ some r
      → P (f r)
      → All P rs
      → All P (update_by k f rs)
  All-update_by_at P k f [] r d e q h = tt
  All-update_by_at P k f (x ∷ rs) r d e q (p, ps) = elim (Bool-cases (key x == k)) [
    | inl y ↦
        let same = eq_of_eqb (key x) k y in
        rw (y, update_by-none k f rs (ap (λ i. find_by i rs) (sym same) ∙ d.0))
          (subst (λ z. P (f z)) (sym (some-injective _ _ (rw y at e))) q, ps)
    | inr n ↦ rw n (p, All-update_by_at P k f rs r d.1 (rw n at e) q ps)
  ]

  -- Rows that are added at the end hide none.
  pub find_by-append :
      (k : ℕ) (rs ss : List R) (r : R) → find_by k rs ≡ some r → find_by k (rs ++ ss) ≡ some r
  find_by-append k [] ss r h = ground arith
  find_by-append k (x ∷ rs) ss r h = ground (arith, find_by-append k rs ss r)

  absent_ne :
      (r x : R) (rs : List R)
      → find_by (key x) rs ≡ none
      → find_by (key r) rs ≡ some r
      → (key x == key r) ≡ false
  absent_ne r x rs n s = elim (Bool-cases (key x == key r)) [
    | inl e ↦
        absurd (ground (arith, sym n ∙ ap (λ i. find_by i rs) (eq_of_eqb (key x) (key r) e) ∙ s))
    | inr e ↦ e
  ]

  -- Every row of a table with distinct keys is the one that is found under its key.
  pub Distinct-found : (rs : List R) → Distinct rs → All (λ r. find_by (key r) rs ≡ some r) rs
  Distinct-found [] d = tt
  Distinct-found (x ∷ rs) (n, d) = (
    rw (eqb_refl (key x)) refl,
    All-mono (λ r. find_by (key r) rs ≡ some r) (λ r. find_by (key r) (x ∷ rs) ≡ some r) rs
        (λ r s. rw (absent_ne r x rs n s) s) (Distinct-found rs d),
  )

  -- A key above all others is not found.
  pub find_by-fresh : (n : ℕ) (rs : List R) → All (λ r. key r < n) rs → find_by n rs ≡ none
  find_by-fresh n [] h = refl
  find_by-fresh n (x ∷ rs) (p, ps) = ground (arith, find_by-fresh n rs ps, p)

  pub find_by-append_self :
      (r : R) (rs : List R) → find_by (key r) rs ≡ none → find_by (key r) (rs ++ (r ∷ [])) ≡ some r
  find_by-append_self r [] h = rw (eqb_refl (key r)) refl
  find_by-append_self r (x ∷ rs) h = ground (arith, find_by-append_self r rs, h)

  -- A key that neither the rows nor the new one have is found nowhere.
  find_by-append_none :
      (k : ℕ) (r : R) (rs : List R)
      → find_by k rs ≡ none
      → (key r == k) ≡ false
      → find_by k (rs ++ (r ∷ [])) ≡ none
  find_by-append_none k r [] h n = rw n refl
  find_by-append_none k r (x ∷ rs) h n = ground (arith, find_by-append_none k r rs, h, n)

  pub Distinct-append :
      (r : R) (rs : List R) → find_by (key r) rs ≡ none → Distinct rs → Distinct (rs ++ (r ∷ []))
  Distinct-append r [] h d = (refl, tt)
  Distinct-append r (x ∷ rs) h (n, d) = elim (Bool-cases (key x == key r)) [
    | inl y ↦ absurd (ground (arith, h, y))
    | inr m ↦ (
      find_by-append_none (key x) r rs n (ground (arith, m)),
      Distinct-append r rs (ground (arith, h, m)) d,
    )
  ]
