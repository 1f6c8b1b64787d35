-- ===== src/Status.antt =====
-- packages/core/src/receipt.ts: the status of a step. packages/core/src/outcome.ts: which status is
-- a success, and packages/core/src/attestation.ts: the levels of binding.
use rge.Prelude.{ℕ, Bool, true, false, leb}

pub data StepStatus : Type 0 where
  ok failed skipped unattested : StepStatus

-- The number of the enumeration's member.
unfoldable pub status_code : StepStatus → ℕ
status_code ok = 0
status_code failed = 1
status_code skipped = 2
status_code unattested = 3

-- `statusSucceeded`
unfoldable pub status_succeeded : StepStatus → Bool
status_succeeded ok = true
status_succeeded _ = false

pub data BindingLevel : Type 0 where
  absent present attested bound : BindingLevel

unfoldable pub rank : BindingLevel → ℕ
rank absent = 0
rank present = 1
rank attested = 2
rank bound = 3

-- `meetsBinding`
unfoldable pub meets_binding : BindingLevel → BindingLevel → Bool
unfolding rank
meets_binding level required = leb (rank required) (rank level)
