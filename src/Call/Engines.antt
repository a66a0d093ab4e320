-- ===== src/Call/Engines.antt =====
-- The modem engines that `src/call/sm_call.c` drives: V.22bis, spanDSP's V.8 and V.34, BinModem.
use v34_working.Base.{ℕ, List, Bool, Option}
use v34_working.Call.Bits.{Script}

-- BM_*
pub data BmStatus : Type 0 where
  running connected failed agreed_v22 agreed_other retraining : BmStatus

-- `X` is the state of an engine. A function that fills samples gives them back; V.8 gives the
-- statuses and modulations of the `call_v8_result` calls that it makes.
pub record Engines (X : Type 0) : Type 0 where
  pub v22bis_init : ℕ → X
  pub v22bis_tx : X → ℕ → Script (List ℕ × X)
  pub v22bis_rx : X → List ℕ → Script X
  pub v22bis_rx_restart : X → X
  pub tx_is_normal : X → Bool
  pub rx_is_normal : X → Bool
  pub negotiated_bit_rate : X → ℕ
  pub v34_init : ℕ → ℕ → Option X
  pub v34_tx : X → ℕ → Script (List ℕ × X)
  pub v34_rx : X → List ℕ → Script X
  pub v8_create : Bool → Option X
  pub v8_tx : X → ℕ → List (ℕ × ℕ) × List ℕ × X
  pub v8_rx : X → List ℕ → List (ℕ × ℕ) × X
  pub bm_create : Bool → Option X
  pub bm_create_v90 : Option X
  pub bm_status : X → BmStatus
  pub bm_rate_rx : X → ℕ
  pub bm_carrier : X → Bool
  pub bm_flush_rx : X → X
  pub bm_service : X → Script X
  pub bm_step : X → ℕ → Script (ℕ × X)
  -- The sample of the answer tone after this many steps of its phase.
  pub tone : ℕ → ℕ
