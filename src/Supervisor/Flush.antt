-- ===== src/Supervisor/Flush.antt =====
-- `try_flush_pending` of src/app/supervisor.cpp from where the work list is made: the POSTs of a wave of
-- queued blocks, and what is done with the answers. The answers come in the order of the list, whichever
-- thread has them. The local statistics are left out.
use xnminer.Base.{
  ℕ, ◌+◌, ℤ, pos, eqb_ℤ, Bool, true, false, not, ◌&&◌, ◌||◌, Option, none, some, List, [], ◌∷◌,
  ◌++◌, Text, codes, length, is_empty, ltb, ◌==◌, if◌then◌else◌,
}
use xnminer.Common.{BlockHit, SubmitResult}
use xnminer.Common.Stats.{record_accepted_flush, record_rejected_flush, sync_pending}
use xnminer.Store.Defs.{log_rejection, mark_pending_reason, mark_submitted_many}
use xnminer.Network.Submit.{
  is_difficulty_mismatch, is_pool_hold, is_transient_submit_failure, is_xuni_window_reject,
  counts_as_reject,
}
use xnminer.Supervisor.State.{World, Sup, Post}
pub mod Reached
pub mod Bag
pub mod Work
pub mod Try
pub mod Service
pub mod Sent
pub mod Spared
pub mod Gates
pub mod Cleared
pub mod Tried
pub mod Drained
pub mod Served

pub record WorkItem : Type 0 where
  pub id : ℕ
  pub hit : BlockHit

-- What a wave counts: the accepted ids, the answers that hold a block back, the failures of transport.
pub record Tally : Type 0 where
  pub accepted_ids : List ℕ
  pub holds : ℕ
  pub transients : ℕ

unfoldable pub accept_flushed : Bool → WorkItem → Sup → Sup
accept_flushed draining item s = record s {
  stats = record_accepted_flush item.hit.block_type s.stats;
  match_drain_flushed = if draining then s.match_drain_flushed + 1 else s.match_drain_flushed;
  match_drain_cleared = if draining then s.match_drain_cleared + 1 else s.match_drain_cleared;
  submit_backoff_until = 0;
  network_ok = true;
}

unfoldable pub reject_flushed : WorkItem → SubmitResult → Sup → Sup
reject_flushed item r s = record s {
  stats =
      if counts_as_reject r.status r.body
      then record_rejected_flush item.hit.block_type s.stats
      else s.stats;
  store =
      mark_pending_reason item.id (codes "resubmission")
        (log_rejection item.hit r.status r.body (codes "flush") s.store);
}

unfoldable pub is_held : SubmitResult → Bool
is_held r =
    is_pool_hold r.status r.body
    || is_difficulty_mismatch r.status r.body
    || is_xuni_window_reject r.status r.body

-- The lambda `handle_one`.
unfoldable pub handle_one : Bool → WorkItem → SubmitResult → Sup × Tally → Sup × Tally
unfolding accept_flushed reject_flushed is_held
handle_one draining item r (s, n) =
    if r.ok
    then (
      accept_flushed draining item s,
      record n { accepted_ids = n.accepted_ids ++ (item.id ∷ []) },
    )
    else if eqb_ℤ r.status (pos 0) || is_transient_submit_failure r.status r.body
    then (s, record n { transients = n.transients + 1 })
    else if is_held r
    then (s, record n { holds = n.holds + 1 })
    else (reject_flushed item r s, n)

-- A block is sent, and its answer is handled.
unfoldable pub send_one : World → Bool → WorkItem → Sup × Tally → Sup × Tally
unfolding handle_one
send_one w draining item (s, n) =
    handle_one draining item (w.answer item.hit)
      (record s { posts = record { hit = item.hit; answer = w.answer item.hit } ∷ s.posts }, n)

-- A shutdown that has begun ends the loop, except in the flush that is a part of it.
unfoldable pub is_stopped : Bool → Sup → Bool
is_stopped on_shutdown s = s.shutting_down && not on_shutdown

unfoldable pub send_all : World → Bool → Bool → List WorkItem → Sup × Tally → Sup × Tally
unfolding send_one is_stopped
send_all w on_shutdown draining [] r = r
send_all w on_shutdown draining (item ∷ work) r =
    if is_stopped on_shutdown r.0
    then r
    else send_all w on_shutdown draining work (send_one w draining item r)

abbrev pub last_id : ℕ → List WorkItem → ℕ
last_id id [] = id
last_id id (item ∷ work) = last_id item.id work

-- A wave with no accept is passed over by the next one, and outside a drain two seconds go by first.
unfoldable pub rotate : World → Bool → Bool → List WorkItem → Tally → Sup → Sup
rotate w on_shutdown draining [] n s = s
rotate w on_shutdown draining (item ∷ work) n s =
    if is_empty n.accepted_ids && not on_shutdown && (ltb 0 n.holds || ltb 0 n.transients)
    then record s {
      submit_backoff_until = if draining then s.submit_backoff_until else w.now + 2000;
      flush_skip_before_id = last_id item.id work + 1;
    }
    else s

unfoldable pub remove_accepted : Tally → Sup → Sup
remove_accepted n s =
    let store = mark_submitted_many n.accepted_ids s.store in
    record s { store = store; stats = sync_pending (length store.pending) s.stats }

abbrev pub empty_tally : Tally
empty_tally = record { accepted_ids = []; holds = 0; transients = 0 }

unfoldable pub close_wave : World → Bool → Bool → List WorkItem → Sup × Tally → Sup
unfolding rotate remove_accepted
close_wave w on_shutdown draining work (s, n) =
    rotate w on_shutdown draining work n (remove_accepted n s)

-- The wave, and the number of accepted blocks that the call reports.
unfoldable pub flush_wave : World → Bool → Bool → List WorkItem → Sup → Sup × ℕ
unfolding send_all close_wave
flush_wave w on_shutdown draining work s =
    let r = send_all w on_shutdown draining work (s, empty_tally) in
    (close_wave w on_shutdown draining work r, length r.1.accepted_ids)
