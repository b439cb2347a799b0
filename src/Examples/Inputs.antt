-- ===== src/Examples/Inputs.antt =====
-- Concrete inputs: ids, one coordinator with one worker, and what the clocks and sockets answer.
use chaos_harness.Common.{ℕ, true, false, [], none}
use chaos_harness.Chaos.{Numerals}
use chaos_harness.Common.Int.{pos}
use chaos_harness.Json.{Fields, num, str, field, end}
use chaos_harness.Schema.{Db}
use chaos_harness.Runtime.{World}
use chaos_harness.Jobs.{CreateEnv, CancelEnv}
use chaos_harness.Dispatch.{ClaimEnv}
use chaos_harness.Commit.{CommitEnv}
use chaos_harness.Reaper.{ReapEnv}
use chaos_harness.Audit.{AuditEnv}

abbrev pub body : Fields
body = field "idempotency_key" (str "k") end

abbrev pub create_env : CreateEnv
create_env = record {
  mono = 0;
  new_id = 0;
  now = 10;
  at_ms = 10;
  sec = 0;
  rates_ok = true;
  publish_ok = true;
  jsonb_ok = true;
  commit_ok = true;
}

abbrev pub claim_env : ClaimEnv
claim_env = record {
  mono = 0;
  locked = λ _. false;
  now = 20;
  issue_ms = 20;
  transition_ms = 20;
  commit_ok = true;
  send_ok = true;
}

abbrev pub commit_env : CommitEnv
commit_env = record {
  mono = 0;
  read_ms = 30;
  insert_ms = 30;
  transition_ms = 30;
  now = 30;
  sec = 0;
  rates_ok = true;
  send_ok = true;
  jsonb_ok = true;
  commit_ok = true;
  others = λ d. d;
}

abbrev pub reap_env : ReapEnv
reap_env = record {
  mono = 0;
  expire_ms = 200;
  overdue_ms = 200;
  transition_ms = 200;
  now = 200;
  publish_ok = true;
  commit_ok = true;
}

abbrev pub cancel_env : CancelEnv
cancel_env = record {
  mono = 0;
  now = 40;
  at_ms = 40;
  commit_ok = true;
  mono_again = 0;
  others = λ d. d;
}

abbrev pub audit_env : AuditEnv
audit_env = record { mono₁ = 0; mono₂ = 0; mono₃ = 0; later₁ = λ d. d; later₂ = λ d. d }

-- One coordinator, whose gate lets queries through from time `until` on, with one worker.
abbrev pub at : ℕ → Db → World
at until d = record {
  app = record {
    coord_id = "c1";
    lease_ttl_ms = 100;
    db_gate = record { connected = true; partition_until = until };
    drop_acks_remaining = 0;
    logical_clock_offset_s = pos 0;
    dispatch_paused_until = 0;
    wake = false;
    max_rels_latency_ms = 0;
    rates_mem = [];
  };
  conn = record { worker_id = "w1"; limit = pos 1; inflight = []; ws_sent = [] };
  redis = record { buckets = []; published = [] };
  db = d;
}

-- The worker names its lease.
abbrev pub message : ℕ → Fields
message fence = field "job_id" (str "j") (field "fence" (num (pos fence)) end)

-- No text and no float is a number here.
abbrev pub numerals : Numerals
numerals = record { int_of_text = λ t. none; int_of_real = λ x. none }
