-- ===== src/Tests/Samples.antt =====
-- Two receipts of one run.
use rge.Status.{StepStatus}
use rge.Text.{Str, text}
use rge.Receipt.{Receipt, zero_bytes32}

abbrev pub flow : Str
flow = text "0x000000000000000000000000000000000000000000000000000000000000F10a"

abbrev pub run : Str
run = text "0x00000000000000000000000000000000000000000000000000000000000000A1"

abbrev pub first : Receipt
first = record {
  flow_id = flow;
  run_id = run;
  step_index = 0;
  agent_id = 2;
  input_hash = zero_bytes32;
  output_hash = zero_bytes32;
  trace_root = zero_bytes32;
  attestation_ref = zero_bytes32;
  started_at = 10;
  ended_at = 12;
  status = StepStatus.ok;
}

abbrev pub second : Receipt
second = record first {
  step_index = 1;
  agent_id = 3;
  started_at = 13;
  ended_at = 20;
  status = StepStatus.failed;
}
