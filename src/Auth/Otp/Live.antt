-- ===== src/Auth/Otp/Live.antt =====
-- apps/api/src/auth/otp.service.ts: the live codes of a phone under the
-- updates of the table.
use wusuq_web.Base.{
  ℕ, ◌+◌, ◌≤◌, ◌≡◌, refl, sym, ap, ◌∙◌, subst, Bool, true, false, none, some, some-injective, List,
  [], ◌∷◌, ◌++◌, map, arith, if◌then◌else◌, ◌==◌, countb, countb-append, All, Bool-cases, inl, inr,
  eq_of_eqb,
}
use wusuq_web.Base.Table
use wusuq_web.Base.Text.{Text, same_text, eq_of_same_text}
use wusuq_web.Auth.Otp.{OtpCode, of_phone, is_live, consume, new_code, code_key}

-- Consuming the codes of a phone.
find_by-consume :
    (phone : Text) (k : ℕ) (cs : List OtpCode)
    → Table.find_by code_key k cs ≡ none
    → Table.find_by code_key k (map (consume phone) cs) ≡ none
find_by-consume phone k [] h = refl
find_by-consume phone k (c ∷ cs) h = elim (Bool-cases (of_phone phone c)) [
  | inl x ↦ rw x (ground (arith, find_by-consume phone k cs, h))
  | inr x ↦ rw x (ground (arith, find_by-consume phone k cs, h))
]

pub consume-Distinct :
    (phone : Text) (cs : List OtpCode)
    → Table.Distinct code_key cs
    → Table.Distinct code_key (map (consume phone) cs)
consume-Distinct phone [] d = tt
consume-Distinct phone (c ∷ cs) (n, d) = elim (Bool-cases (of_phone phone c)) [
  | inl x ↦ rw x (find_by-consume phone c.id cs n, consume-Distinct phone cs d)
  | inr x ↦ rw x (find_by-consume phone c.id cs n, consume-Distinct phone cs d)
]

pub consume-All {κ} :
    (P : OtpCode → Type κ) (phone : Text) (cs : List OtpCode)
    → ((c : OtpCode) → P c → P (record c { consumed = true }))
    → All P cs
    → All P (map (consume phone) cs)
consume-All P phone [] step h = tt
consume-All P phone (c ∷ cs) step (p, ps) = elim (Bool-cases (of_phone phone c)) [
  | inl x ↦ rw x (step c p, consume-All P phone cs step ps)
  | inr x ↦ rw x (p, consume-All P phone cs step ps)
]

-- A consumed code is no live one, and consuming makes none live.
is_live-consume_self : (phone : Text) (c : OtpCode) → is_live phone (consume phone c) ≡ false
is_live-consume_self phone c = elim (Bool-cases (of_phone phone c)) [
  | inl x ↦ rw x (ground (arith, x))
  | inr x ↦ rw x (ground (arith, x))
]

countb-consume_self :
    (phone : Text) (cs : List OtpCode) → countb (is_live phone) (map (consume phone) cs) ≡ 0
countb-consume_self phone [] = refl
countb-consume_self phone (c ∷ cs) =
    rw (is_live-consume_self phone c) (omega (arith, countb-consume_self phone cs))

countb-consume :
    (phone other : Text) (cs : List OtpCode)
    → countb (is_live other) (map (consume phone) cs) ≤ countb (is_live other) cs
countb-consume phone other [] = omega arith
countb-consume phone other (c ∷ cs) =
    let rest = countb-consume phone other cs in
    elim (Bool-cases (of_phone phone c)) [
      | inl x ↦ rw x (ground (arith, rest))
      | inr x ↦ rw x (omega (arith, rest))
    ]

pub requested-one_live :
    (phone code other : Text) (id now : ℕ) (cs : List OtpCode)
    → countb (is_live other) cs ≤ 1
    → countb (is_live other) (map (consume phone) cs ++ (new_code id phone code now ∷ [])) ≤ 1
requested-one_live phone code other id now cs one =
    let new = new_code id phone code now in
    let split = countb-append (is_live other) (map (consume phone) cs) (new ∷ []) in
    elim (Bool-cases (same_text phone other)) [
      | inl x ↦
          let same = eq_of_same_text phone other x in
          let zero : countb (is_live other) (map (consume phone) cs) ≡ 0 =
            subst (λ p. countb (is_live p) (map (consume phone) cs) ≡ 0) same
              (countb-consume_self phone cs) in
          rw (split, x) (omega (arith, zero))
      | inr x ↦ rw (split, x) (omega (arith, countb-consume phone other cs, one))
    ]

-- An update that makes no code live.
pub countb-update :
    (phone : Text) (id : ℕ) (f : OtpCode → OtpCode) (cs : List OtpCode)
    → ((c : OtpCode) → is_live phone c ≡ false → is_live phone (f c) ≡ false)
    → countb (is_live phone) (Table.update_by code_key id f cs) ≤ countb (is_live phone) cs
countb-update phone id f [] h = omega arith
countb-update phone id f (c ∷ cs) h =
    let rest = countb-update phone id f cs h in
    elim (Bool-cases (c.id == id)) [
      | inr n ↦ rw n (omega (arith, rest))
      | inl y ↦ rw y (go (is_live phone c) refl rest)
    ]
  where
    go :
        (b : Bool)
        → is_live phone c ≡ b
        → countb (is_live phone) (Table.update_by code_key id f cs) ≤ countb (is_live phone) cs
        → (if is_live phone (f c) then 1 else 0)
            + countb (is_live phone) (Table.update_by code_key id f cs)
          ≤ (if b then 1 else 0) + countb (is_live phone) cs
    go true e r = ground (arith, r)
    go false e r = rw (h c e) (omega (arith, r))

-- An update that ends the one live code that it finds.
pub countb-update_at :
    (phone : Text) (id : ℕ) (f : OtpCode → OtpCode) (cs : List OtpCode) (c : OtpCode)
    → Table.Distinct code_key cs
    → Table.find_by code_key id cs ≡ some c
    → is_live phone c ≡ true
    → is_live phone (f c) ≡ false
    → countb (is_live phone) (Table.update_by code_key id f cs) + 1 ≡ countb (is_live phone) cs
countb-update_at phone id f [] c d e live dead = absurd (ground (arith, e))
countb-update_at phone id f (x ∷ cs) c d e live dead = elim (Bool-cases (x.id == id)) [
  | inr n ↦ rw n (omega (arith, countb-update_at phone id f cs c d.1 (rw n at e) live dead))
  | inl y ↦
      let same = some-injective _ _ (rw y at e) in
      let live' : is_live phone x ≡ true = subst (λ z. is_live phone z ≡ true) (sym same) live in
      let dead' : is_live phone (f x) ≡ false =
        subst (λ z. is_live phone (f z) ≡ false) (sym same) dead in
      let others =
        Table.update_by-none code_key id f cs
          (ap (λ i. Table.find_by code_key i cs) (sym (eq_of_eqb x.id id y)) ∙ d.0) in
      rw (y, others, dead', live') (omega arith)
]
