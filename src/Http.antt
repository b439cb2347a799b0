-- ===== src/Http.antt =====
-- `web.json_response` of the handlers, and the texts that go into the replies.
use chaos_harness.Common.{ℕ, String}
use chaos_harness.Json.{Json, str, obj, field, end}
use chaos_harness.Schema.{JobState, pending, leased, succeeded, failed, cancelled}

pub record Response : Type 0 where
  pub status : ℕ
  pub body : Json

unfoldable pub failure : ℕ → String → Response
failure code text = record { status = code; body = obj (field "error" (str text) end) }

-- Two replies that several handlers share.
unfoldable pub partitioned : Response
unfolding failure
partitioned = failure 503 "database partitioned; retry later"

unfoldable pub invalid_id : Response
unfolding failure
invalid_id = failure 400 "invalid job_id"

unfoldable pub state_text : JobState → String
state_text pending = "pending"
state_text leased = "leased"
state_text succeeded = "succeeded"
state_text failed = "failed"
state_text cancelled = "cancelled"
