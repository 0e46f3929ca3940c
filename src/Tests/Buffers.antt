-- ===== src/Tests/Buffers.antt =====
-- A buffer of sixteen bytes with three written, and twelve bytes to fetch.
use ultrasight.Common.{◌≡◌, refl, ◌+◌, ◌%◌, ◌≤◌, ◌<◌, pos, some, [], arith}
use ultrasight.Machine.{after, value}
use ultrasight.Locks.{held_by}
use ultrasight.Locks.Session.{fetch_trace-held}
use ultrasight.Buffer.Memory.{align_up8}
use ultrasight.Buffer.Memory.Align.{align_up8_least}
use ultrasight.Buffer.Trace.{fetch_trace, grow_trace_buf, double_trace_buf, read_trace}
use ultrasight.Tests.Sample.{env, machine}

fetched : value (fetch_trace env machine) ≡ some (pos 0)
unfolding fetch_trace grow_trace_buf double_trace_buf read_trace
fetched = refl

fetch_trace-held_example : held_by (after (fetch_trace env machine)) ≡ some []
fetch_trace-held_example = fetch_trace-held env machine refl fetched

align_up8_least_example : (align_up8 13 % 8 ≡ 0) × (13 ≤ align_up8 13) × (align_up8 13 < 13 + 8)
align_up8_least_example = align_up8_least 13 (omega arith)
