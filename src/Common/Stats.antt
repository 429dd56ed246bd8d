-- ===== src/Common/Stats.antt =====
-- `MiningStats` of src/common.hpp and `MetricsTracker` of src/monitoring/metrics.cpp: the session's
-- counters by block kind. The hash-rate average, a `double`, is left out.
use xnminer.Base.{ℕ, ◌+◌, ◌≡◌, Text, codes, text_eq, arith, if◌then◌else◌}

-- The three counters of one bucket.
pub record Kinds : Type 0 where
  pub xuni : ℕ
  pub xnm : ℕ
  pub xblk : ℕ

pub record MiningStats : Type 0 where
  pub session_hits : ℕ
  pub active_lanes : ℕ
  pub found : Kinds
  pub enqueued : Kinds
  pub accepted_live : Kinds
  pub accepted_flush : Kinds
  pub rejected_live : Kinds
  pub rejected_flush : Kinds
  pub resubmission : Kinds
  pub queued : ℕ

unfoldable pub total : Kinds → ℕ
total k = k.xuni + k.xnm + k.xblk

-- `stat_field_for_kind(s, kind, bucket)++`: XUNI and XBLK have counters of their own, every other
-- kind is counted as XNM.
unfoldable pub count_kind : Text → Kinds → Kinds
count_kind kind k =
    if text_eq kind (codes "XUNI")
    then record k { xuni = k.xuni + 1 }
    else if text_eq kind (codes "XBLK")
    then record k { xblk = k.xblk + 1 }
    else record k { xnm = k.xnm + 1 }

unfoldable pub record_found : Text → MiningStats → MiningStats
record_found kind s = record s {
  found = count_kind kind s.found;
  session_hits = s.session_hits + 1;
}

unfoldable pub record_enqueued : Text → MiningStats → MiningStats
record_enqueued kind s = record s { enqueued = count_kind kind s.enqueued }

unfoldable pub record_accepted_live : Text → MiningStats → MiningStats
record_accepted_live kind s = record s { accepted_live = count_kind kind s.accepted_live }

unfoldable pub record_accepted_flush : Text → MiningStats → MiningStats
record_accepted_flush kind s = record s { accepted_flush = count_kind kind s.accepted_flush }

unfoldable pub record_rejected_live : Text → MiningStats → MiningStats
record_rejected_live kind s = record s { rejected_live = count_kind kind s.rejected_live }

unfoldable pub record_rejected_flush : Text → MiningStats → MiningStats
record_rejected_flush kind s = record s { rejected_flush = count_kind kind s.rejected_flush }

unfoldable pub record_resubmission : Text → MiningStats → MiningStats
record_resubmission kind s = record s { resubmission = count_kind kind s.resubmission }

unfoldable pub sync_pending : ℕ → MiningStats → MiningStats
sync_pending n s = record s { queued = n }

unfoldable pub accepted_total : MiningStats → ℕ
accepted_total s = total s.accepted_live + total s.accepted_flush

unfoldable pub rejected_total : MiningStats → ℕ
rejected_total s = total s.rejected_live + total s.rejected_flush

-- Each counted event raises the total of its bucket by one, whatever its kind.
pub total-count_kind : (kind : Text) (k : Kinds) → total (count_kind kind k) ≡ total k + 1
unfolding total count_kind
total-count_kind kind k = ground arith
