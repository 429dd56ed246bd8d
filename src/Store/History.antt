-- ===== src/Store/History.antt =====
-- The operations of `BlockStore` (src/queue/store.cpp) as data, and what any history of them keeps.
use xnminer.Base.{ℕ, ℤ, List, [], ◌∷◌, Text}
use xnminer.Common.{BlockHit}
use xnminer.Store.Defs.{
  Store, flush, drop_by_hash, enqueue, log_rejection, record_rejection, mark_submitted,
  mark_submitted_many, mark_pending_reason, mark_forwarded_many, defer_all_to_next_start,
}
use xnminer.Store.Invariant.{
  IsValid, enqueue-IsValid, log_rejection-IsValid, mark_submitted_many-IsValid,
  drop_by_hash-IsValid, mark_pending_reason-IsValid, mark_forwarded_many-IsValid,
  defer_all_to_next_start-IsValid, flush-IsValid,
}

-- Every public member function that changes the store.
pub data Op : Type 0 where
  enqueues : BlockHit → Text → Op
  logs_rejection : BlockHit → ℤ → Text → Text → Op
  records_rejection : BlockHit → ℤ → Text → Text → Op
  submitted : ℕ → Op
  submitted_many : List ℕ → Op
  reasons : ℕ → Text → Op
  flushes : Op
  drops : List Text → Op
  forwarded_many : List ℕ → Op
  defers : ℕ → Op

unfoldable pub step : Op → Store → Store
step (enqueues hit reason) s = (enqueue hit reason s).0
step (logs_rejection hit status body source) s = log_rejection hit status body source s
step (records_rejection hit status body source) s = (record_rejection hit status body source s).0
step (submitted id) s = mark_submitted id s
step (submitted_many ids) s = mark_submitted_many ids s
step (reasons id reason) s = mark_pending_reason id reason s
step flushes s = flush s
step (drops hashes) s = (drop_by_hash hashes s).0
step (forwarded_many ids) s = mark_forwarded_many ids s
step (defers minute) s = defer_all_to_next_start minute s

unfoldable pub run : List Op → Store → Store
run [] s = s
run (op ∷ ops) s = run ops (step op s)

pub step-IsValid : (op : Op) (s : Store) → IsValid s → IsValid (step op s)
unfolding step record_rejection mark_submitted
step-IsValid (enqueues hit reason) s v = enqueue-IsValid hit reason s v
step-IsValid (logs_rejection hit status body source) s v =
    log_rejection-IsValid hit status body source s v
step-IsValid (records_rejection hit status body source) s v =
    enqueue-IsValid hit _ (log_rejection hit status body source s)
      (log_rejection-IsValid hit status body source s v)
step-IsValid (submitted id) s v = mark_submitted_many-IsValid (id ∷ []) s v
step-IsValid (submitted_many ids) s v = mark_submitted_many-IsValid ids s v
step-IsValid (reasons id reason) s v = mark_pending_reason-IsValid id reason s v
step-IsValid flushes s v = flush-IsValid s v
step-IsValid (drops hashes) s v = drop_by_hash-IsValid hashes s v
step-IsValid (forwarded_many ids) s v = mark_forwarded_many-IsValid ids s v
step-IsValid (defers minute) s v = defer_all_to_next_start-IsValid minute s v

-- Whatever operations are called and in whatever order, a well-formed store stays well formed: ids
-- are positive, below `next_id` and distinct, no digest stands in two rows, and the digest set holds
-- exactly the digests of the rows.
pub run-IsValid : (ops : List Op) (s : Store) → IsValid s → IsValid (run ops s)
unfolding run
run-IsValid [] s v = v
run-IsValid (op ∷ ops) s v = run-IsValid ops (step op s) (step-IsValid op s v)
