-- ===== src/Promos/Limits.antt =====
-- apps/api/src/promos/promos.service.ts: the limits of the codes over time.
use wusuq_web.Base.{
  ℕ, suc, ◌+◌, ◌≤◌, ◌<◌, ◌≡◌, Bool, true, false, ◌&&◌, refl, sym, ◌∙◌, ap, subst, Option, none,
  some, some-injective, List, [], ◌∷◌, ◌++◌, arith, ◌==◌, countb, countb-append, All, All-mono,
  All-append, eq_of_eqb, ◌⊎◌, Option-cases, Bool-cases, inl, inr, Result, ok, Post, Post-or_throw,
  Post-throw_if, Post-return, Post-result, Post-then, not_found, conflict, bad_request,
}
use wusuq_web.Base.Table
use wusuq_web.Store.{Db}
use wusuq_web.Store.Billing.{PromoCode, PromoRedemption, promo_key}
use wusuq_web.Promos.{
  find_promo, find_code, used, used_by, reached, assert_within_limits, redeem, CreatePromoDto,
  new_promo, create, deactivate,
}

-- Is a count at most a limit that may be absent?
abbrev pub Within : Option ℕ → ℕ → Type 0
Within limit n = (m : ℕ) → limit ≡ some m → n ≤ m

-- No code has been used more often than it may, in all or by one user; keys are drawn in order.
pub record LimitsKept (db : Db) : Type 0 where
  pub total :
      (id : ℕ) (p : PromoCode) → find_promo id db ≡ some p → Within p.total_usage_limit (used id db)
  pub per_user :
      (id user_id : ℕ) (p : PromoCode)
      → find_promo id db ≡ some p
      → Within p.per_user_limit (used_by id user_id db)
  pub promos : All (λ (p : PromoCode). p.id < db.next_id) db.promos
  pub redemptions : All (λ (r : PromoRedemption). r.promo_code_id < db.next_id) db.redemptions

-- A limit that is not reached has room for one more.
Within-suc : (limit : Option ℕ) (n : ℕ) → reached limit n ≡ false → Within limit (n + 1)
Within-suc none n h m e = absurd (ground arith)
Within-suc (some l) n h m e =
    let same = some-injective _ _ e in subst (λ m. n + 1 ≤ m) same (ground (arith, h))

-- What a redemption has checked.
record Checked (id user_id : ℕ) (db : Db) : Type 0 where
  pub promo : PromoCode
  pub found : find_promo id db ≡ some promo
  pub total : reached promo.total_usage_limit (used id db) ≡ false
  pub per_user : reached promo.per_user_limit (used_by id user_id db) ≡ false

assert_within_limits-Checked :
    (id user_id : ℕ) (db : Db) → assert_within_limits id user_id db ≡ ok tt → Checked id user_id db
unfolding assert_within_limits
assert_within_limits-Checked id user_id db h =
    Post-result {P = λ _. Checked id user_id db}
      (Post-or_throw not_found λ (p : PromoCode) e. Post-throw_if conflict λ a.
        Post-throw_if conflict
          λ b. Post-return (record { promo = p; found = e; total = a; per_user = b }))
      h

abbrev redemption : ℕ → ℕ → ℕ → ℕ → PromoRedemption
redemption id user_id ticket_id amount = record {
  promo_code_id = id;
  user_id = user_id;
  ticket_id = ticket_id;
  amount = amount;
}

abbrev with_redemption : PromoRedemption → Db → Db
with_redemption r db = record db { redemptions = db.redemptions ++ (r ∷ []) }

with_redemption-total :
    (r : PromoRedemption) (db : Db) (q : PromoCode)
    → LimitsKept db
    → find_promo r.promo_code_id db ≡ some q
    → reached q.total_usage_limit (used r.promo_code_id db) ≡ false
    → (id : ℕ) (p : PromoCode) → find_promo id db ≡ some p
    → Within p.total_usage_limit (used id (with_redemption r db))
with_redemption-total r db q k e free id p f =
    let count =
      countb-append (λ (r : PromoRedemption). r.promo_code_id == id) db.redemptions (r ∷ []) in
    elim (Bool-cases (r.promo_code_id == id)) [
      | inr n ↦ λ m s. rw (count, n) (omega (arith, k.total id p f m s))
      | inl y ↦ λ m s.
          let same = eq_of_eqb r.promo_code_id id y in
          let found : some q ≡ some p = sym e ∙ ap (λ i. find_promo i db) same ∙ f in
          let room : Within p.total_usage_limit (used id db + 1) =
            Within-suc p.total_usage_limit (used id db) (
              subst (λ (i : ℕ). reached p.total_usage_limit (used i db) ≡ false) same
                (subst
                  (λ (q : PromoCode). reached q.total_usage_limit (used r.promo_code_id db) ≡ false)
                  (some-injective _ _ found) free)) in
          rw (count, y) (omega (arith, room m s))
    ]

with_redemption-per_user :
    (r : PromoRedemption) (db : Db) (q : PromoCode)
    → LimitsKept db
    → find_promo r.promo_code_id db ≡ some q
    → reached q.per_user_limit (used_by r.promo_code_id r.user_id db) ≡ false
    → (id user_id : ℕ) (p : PromoCode) → find_promo id db ≡ some p
    → Within p.per_user_limit (used_by id user_id (with_redemption r db))
with_redemption-per_user r db q k e free id user_id p f =
    let count =
      countb-append (λ (r : PromoRedemption). r.promo_code_id == id && r.user_id == user_id)
        db.redemptions (r ∷ []) in
    elim (Bool-cases (r.promo_code_id == id && r.user_id == user_id)) [
      | inr n ↦ λ m s. rw (count, n) (omega (arith, k.per_user id user_id p f m s))
      | inl y ↦ λ m s.
          let same : r.promo_code_id ≡ id = ground (arith, y) in
          let same_user : r.user_id ≡ user_id = ground (arith, y) in
          let found : some q ≡ some p = sym e ∙ ap (λ i. find_promo i db) same ∙ f in
          let free_too : reached p.per_user_limit (used_by r.promo_code_id r.user_id db) ≡ false =
            subst
              (λ (q : PromoCode).
                reached q.per_user_limit (used_by r.promo_code_id r.user_id db) ≡ false)
              (some-injective _ _ found) free in
          let room = Within-suc p.per_user_limit (used_by id user_id db) (
            subst (λ (u : ℕ). reached p.per_user_limit (used_by id u db) ≡ false) same_user
              (subst (λ (i : ℕ). reached p.per_user_limit (used_by i r.user_id db) ≡ false) same
                free_too)) in
          rw (count, y) (omega (arith, room m s))
    ]

pub redeem-LimitsKept :
    (id user_id ticket_id amount : ℕ) (db db' : Db)
    → LimitsKept db
    → redeem id user_id ticket_id amount db ≡ ok db'
    → LimitsKept db'
unfolding redeem
redeem-LimitsKept id user_id ticket_id amount db db' k h =
    let r = redemption id user_id ticket_id amount in
    let after : Result Db = ok (with_redemption r db) in
    Post-result {P = LimitsKept}
      (Post-then λ c.
        let p = assert_within_limits-Checked id user_id db c in
        let key = Table.key_of_find_by promo_key id db.promos p.promo p.found in
        let below =
          Table.All-find_by promo_key (λ (p : PromoCode). p.id < db.next_id) id db.promos p.promo
            k.promos p.found in
        Post-return (record {
          total = with_redemption-total r db p.promo k p.found p.total;
          per_user = with_redemption-per_user r db p.promo k p.found p.per_user;
          promos = k.promos;
          redemptions =
              All-append (λ (r : PromoRedemption). r.promo_code_id < db.next_id) db.redemptions
                (r ∷ []) k.redemptions (omega (arith, key, below), tt);
        }))
      h

-- A key that is not drawn yet is used nowhere.
count-fresh :
    (n : ℕ) (q : PromoRedemption → Bool) (rs : List PromoRedemption)
    → ((r : PromoRedemption) → q r ≡ true → r.promo_code_id ≡ n)
    → All (λ (r : PromoRedemption). r.promo_code_id < n) rs
    → countb q rs ≡ 0
count-fresh n q [] only h = refl
count-fresh n q (r ∷ rs) only (p, ps) = elim (Bool-cases (q r)) [
  | inl y ↦ absurd (omega (arith, only r y, p))
  | inr x ↦ rw x (omega (arith, count-fresh n q rs only ps))
]

-- A code that is found after one more was added was there, or is the new one.
found_before :
    (id : ℕ) (new p : PromoCode) (ps : List PromoCode)
    → Table.find_by promo_key id (ps ++ (new ∷ [])) ≡ some p
    → (Table.find_by promo_key id ps ≡ some p) ⊎ ((new ≡ p) × (new.id ≡ id))
found_before id new p [] h = elim (Bool-cases (new.id == id)) [
  | inl y ↦ inr (some-injective _ _ (rw y at h), eq_of_eqb new.id id y)
  | inr n ↦ absurd (ground (arith, h, n))
]
found_before id new p (q ∷ ps) h = elim (Bool-cases (q.id == id)) [
  | inl y ↦ inl (rw y (rw y at h))
  | inr n ↦ rw n (found_before id new p ps (rw n at h))
]

created : CreatePromoDto → Db → Db
created dto db = record db {
  promos = db.promos ++ (new_promo dto db.next_id ∷ []);
  next_id = suc db.next_id;
}

created-LimitsKept : (dto : CreatePromoDto) (db : Db) → LimitsKept db → LimitsKept (created dto db)
unfolding created
created-LimitsKept dto db k =
    let new = new_promo dto db.next_id in
    let next = db.next_id in
    record {
      total = λ id p f m s. elim (found_before id new p db.promos f) [
        | inl g ↦ k.total id p g m s
        | inr (_, e) ↦
            let unused =
              count-fresh next (λ r. r.promo_code_id == id) db.redemptions
                (λ r y. eq_of_eqb r.promo_code_id id y ∙ sym e) k.redemptions in
            omega (arith, unused)
      ];
      per_user = λ id user_id p f m s. elim (found_before id new p db.promos f) [
        | inl g ↦ k.per_user id user_id p g m s
        | inr (_, e) ↦
            let unused =
              count-fresh next (λ r. r.promo_code_id == id && r.user_id == user_id) db.redemptions
                (λ r y. ground (arith, y, e)) k.redemptions in
            omega (arith, unused)
      ];
      promos =
          All-append (λ (p : PromoCode). p.id < suc next) db.promos (new ∷ [])
            (All-mono (λ (p : PromoCode). p.id < next) (λ (p : PromoCode). p.id < suc next)
              db.promos (λ p l. omega arith) k.promos)
            (omega arith, tt);
      redemptions =
          All-mono (λ (r : PromoRedemption). r.promo_code_id < next)
            (λ (r : PromoRedemption). r.promo_code_id < suc next) db.redemptions
            (λ r l. omega arith) k.redemptions;
    }

pub create-LimitsKept :
    (dto : CreatePromoDto) (db db' : Db) → LimitsKept db → create dto db ≡ ok db' → LimitsKept db'
unfolding create created
create-LimitsKept dto db db' k h =
    Post-result {P = LimitsKept}
      (Post-throw_if bad_request λ _.
        elim (Option-cases (find_code (new_promo dto db.next_id).code db)) [
          | inl e ↦ rw e (Post-return (created-LimitsKept dto db k))
          | inr (p, e) ↦ rw e Post.throws
        ])
      h

pub deactivate-LimitsKept :
    (id : ℕ) (db db' : Db) → LimitsKept db → deactivate id db ≡ ok db' → LimitsKept db'
unfolding deactivate
deactivate-LimitsKept id db db' k h =
    let off : PromoCode → PromoCode = λ p. record p { active = false } in
    let origin : (j : ℕ) (p : PromoCode)
        → Table.find_by promo_key j (Table.update_by promo_key id off db.promos) ≡ some p
        → (q : PromoCode) × (find_promo j db ≡ some q) × ((p ≡ q) ⊎ (p ≡ off q)) =
      λ j p f. Table.found-update_by promo_key off (λ _. refl) j id db.promos p f in
    Post-result {P = LimitsKept}
      (Post-or_throw not_found λ (p : PromoCode) e. Post-return (record {
        total = λ j p f m s.
            let (q, g, same) = origin j p f in
            let limit : p.total_usage_limit ≡ q.total_usage_limit = elim same [
              | inl x ↦ ap (λ (p : PromoCode). p.total_usage_limit) x
              | inr x ↦ ap (λ (p : PromoCode). p.total_usage_limit) x
            ] in
            k.total j q g m (sym limit ∙ s);
        per_user = λ j user_id p f m s.
            let (q, g, same) = origin j p f in
            let limit : p.per_user_limit ≡ q.per_user_limit = elim same [
              | inl x ↦ ap (λ (p : PromoCode). p.per_user_limit) x
              | inr x ↦ ap (λ (p : PromoCode). p.per_user_limit) x
            ] in
            k.per_user j user_id q g m (sym limit ∙ s);
        promos =
            Table.All-update_by promo_key (λ (p : PromoCode). p.id < db.next_id) id off db.promos
              (λ p l. l) k.promos;
        redemptions = k.redemptions;
      }))
      h

-- Drawing keys and changing other tables concern no limit.
pub LimitsKept-later :
    (db db' : Db)
    → db'.promos ≡ db.promos
    → db'.redemptions ≡ db.redemptions
    → db.next_id ≤ db'.next_id
    → LimitsKept db
    → LimitsKept db'
LimitsKept-later db db' ps rs n k = record {
  total = λ id p f. rw (rs) (k.total id p (ap (Table.find_by promo_key id) (sym ps) ∙ f));
  per_user = λ id user_id p f.
      rw (rs) (k.per_user id user_id p (ap (Table.find_by promo_key id) (sym ps) ∙ f));
  promos = rw ps (
      All-mono (λ (p : PromoCode). p.id < db.next_id) (λ (p : PromoCode). p.id < db'.next_id)
        db.promos (λ p l. omega (arith, l, n)) k.promos);
  redemptions = rw rs (
      All-mono (λ (r : PromoRedemption). r.promo_code_id < db.next_id)
        (λ (r : PromoRedemption). r.promo_code_id < db'.next_id) db.redemptions
        (λ r l. omega (arith, l, n)) k.redemptions);
}
