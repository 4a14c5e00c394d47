-- ===== src/Shared/Gate.antt =====
-- packages/shared/src/index.ts, `resolveGatedCharge`: may a phase-2 charge column be written?
use wusuq_web.Base.{
  ℕ, suc, ◌≡◌, refl, Bool, true, not, Option, none, some, arith, or_else, if◌then◌else◌,
}
use wusuq_web.Shared.Flows.{
  Flow, is_flow_key, Currency, pkr, usd, ServiceChargeCapabilities, charge_capabilities_for,
}

-- `keyof ServiceChargeCapabilities`.
pub data Capability : Type 0 where
  attestation printing delivery pdf : Capability

abbrev pub has : ServiceChargeCapabilities → Capability → Bool
has c attestation = c.attestation
has c printing = c.printing
has c delivery = c.delivery
has c pdf = c.pdf

-- `undefined`, which leaves the column as it is, is `none`.
unfoldable pub resolve_gated_charge :
    Option Flow → Currency → Capability → Option ℕ → Option ℕ → Option ℕ
unfolding charge_capabilities_for is_flow_key
resolve_gated_charge flow usd capability dto_value fallback = some 0
resolve_gated_charge none pkr capability dto_value fallback = none
resolve_gated_charge (some flow) pkr capability dto_value fallback =
    if not (is_flow_key flow)
    then none
    else if not (has (charge_capabilities_for (some flow) pkr) capability)
    then some 0
    else or_else dto_value fallback

-- The gate refuses money: whenever it writes a positive amount, the ticket is billed in PKR, its
-- flow is a recognised one that carries the charge, and the amount is the caller's or else the
-- fallback.
resolve_gated_charge-granted :
    (flow : Option Flow) (currency : Currency) (capability : Capability) (dto fallback : Option ℕ)
    {n : ℕ}
    → resolve_gated_charge flow currency capability dto fallback ≡ some (suc n)
    → (currency ≡ pkr)
      × ((f : Flow) × (flow ≡ some f) × (is_flow_key f ≡ true))
      × (has (charge_capabilities_for flow currency) capability ≡ true)
      × (or_else dto fallback ≡ some (suc n))
unfolding resolve_gated_charge
resolve_gated_charge-granted flow usd capability dto fallback e = cc
resolve_gated_charge-granted none pkr capability dto fallback e = cc
resolve_gated_charge-granted (some f) pkr capability dto fallback e =
    (refl, (f, refl, ground arith), ground arith, ground arith)

-- Gating is stable: what the gate let through, given back to it as the new value, passes again
-- with any fallback. So a charge that a clerk submitted is not changed when the total is finalized.
resolve_gated_charge-again :
    (flow : Option Flow) (currency : Currency) (capability : Capability)
    (dto fallback other : Option ℕ) {n : ℕ}
    → resolve_gated_charge flow currency capability dto fallback ≡ some n
    → resolve_gated_charge flow currency capability (some n) other ≡ some n
unfolding resolve_gated_charge
resolve_gated_charge-again flow usd capability dto fallback other e = ground arith
resolve_gated_charge-again none pkr capability dto fallback other e = cc
resolve_gated_charge-again (some f) pkr capability dto fallback other e = ground arith
