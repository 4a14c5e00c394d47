-- ===== src/Shared/Flows.antt =====
-- packages/shared/src/index.ts: intake flows, billing currency, the payment model of a flow and
-- the phase-2 charges that it may carry.
use wusuq_web.Base.{ℕ, ◌+◌, ◌==◌, Bool, true, false, Option, none, some}

-- `INTAKE_FLOW_KEYS`, and `other n` for a stored string that is none of them.
pub data Flow : Type 0 where
  judicial_case_files : Flow
  judicial_case_information : Flow
  judicial_case_search : Flow
  judicial_case_filing : Flow
  judicial_power_of_attorney : Flow
  non_judicial_copy_of_fir : Flow
  non_judicial_registry_deed : Flow
  non_judicial_criminal_record_search : Flow
  other : ℕ → Flow

unfoldable pub is_flow_key : Flow → Bool
is_flow_key (other _) = false
is_flow_key judicial_case_files = true
is_flow_key _ = true

-- `a === b` on flows.
abbrev pub flow_code : Flow → ℕ
flow_code judicial_case_files = 0
flow_code judicial_case_information = 1
flow_code judicial_case_search = 2
flow_code judicial_case_filing = 3
flow_code judicial_power_of_attorney = 4
flow_code non_judicial_copy_of_fir = 5
flow_code non_judicial_registry_deed = 6
flow_code non_judicial_criminal_record_search = 7
flow_code (other n) = 8 + n

abbrev pub same_flow : Flow → Flow → Bool
same_flow f g = flow_code f == flow_code g

pub data Currency : Type 0 where
  pkr usd : Currency

abbrev pub is_usd : Currency → Bool
is_usd usd = true
is_usd pkr = false

abbrev pub same_currency : Currency → Currency → Bool
same_currency usd c = is_usd c
same_currency pkr usd = false
same_currency pkr pkr = true

pub data PaymentModel : Type 0 where
  split one_time : PaymentModel

abbrev pub is_split : PaymentModel → Bool
is_split split = true
is_split one_time = false

-- `PAYMENT_MODEL_BY_FLOW[flow] ?? 'ONE_TIME'`.
payment_model_by_flow : Flow → PaymentModel
payment_model_by_flow judicial_case_files = split
payment_model_by_flow non_judicial_copy_of_fir = split
payment_model_by_flow non_judicial_criminal_record_search = split
payment_model_by_flow non_judicial_registry_deed = split
payment_model_by_flow _ = one_time

unfoldable pub payment_model_for : Option Flow → Currency → PaymentModel
unfolding payment_model_by_flow
payment_model_for flow usd = one_time
payment_model_for none pkr = one_time
payment_model_for (some flow) pkr = payment_model_by_flow flow

-- `ServiceChargeCapabilities`.
pub record ServiceChargeCapabilities : Type 0 where
  pub attestation : Bool
  pub printing : Bool
  pub delivery : Bool
  pub pdf : Bool

abbrev pub no_charges : ServiceChargeCapabilities
no_charges = record { attestation = false; printing = false; delivery = false; pdf = false }

abbrev copy_charges : ServiceChargeCapabilities
copy_charges = record { attestation = false; printing = true; delivery = true; pdf = true }

-- `SERVICE_CHARGE_CAPABILITIES[flow] ?? NO_CHARGES`.
service_charge_capabilities : Flow → ServiceChargeCapabilities
service_charge_capabilities judicial_case_files = record {
  attestation = true;
  printing = false;
  delivery = true;
  pdf = true;
}
service_charge_capabilities non_judicial_copy_of_fir = copy_charges
service_charge_capabilities non_judicial_registry_deed = copy_charges
service_charge_capabilities non_judicial_criminal_record_search = copy_charges
service_charge_capabilities _ = no_charges

unfoldable pub charge_capabilities_for : Option Flow → Currency → ServiceChargeCapabilities
unfolding service_charge_capabilities
charge_capabilities_for flow usd = no_charges
charge_capabilities_for none pkr = no_charges
charge_capabilities_for (some flow) pkr = service_charge_capabilities flow
