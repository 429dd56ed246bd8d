-- ===== src/Supervisor/Flush/Try.antt =====
-- `try_flush_pending` of src/app/supervisor.cpp as a whole: its guards, the refresh of the network, the
-- listing of the bag, the choice of the work and the wave. The logs and the number of threads are left
-- out, and one `World` serves the whole call.
use xnminer.Base.{
  ℕ, ◌+◌, ◌*◌, ℤ, pos, leb_ℤ, ltb_ℤ, Bool, true, false, not, ◌&&◌, ◌||◌, List, [], ◌∷◌, ltb,
  if◌then◌else◌,
}
use xnminer.Store.Defs.{PendingBlock, defer_all_to_next_start}
use xnminer.Store.Batch.{list_flush_batch}
use xnminer.Supervisor.State.{
  Settings, World, Sup, bag_only, force_mine_mode, verify_ready_to_push, oracle_says_m,
  bag_target_m, submit_target_m, flush_submit_allowed,
}
use xnminer.Supervisor.Network.{refresh_network, update_match_drain}
use xnminer.Supervisor.Flush.{WorkItem, flush_wave}
use xnminer.Supervisor.Flush.Work.{choose}

unfoldable pub is_draining : Settings → Sup → Bool
is_draining c s = s.match_drain_active || oracle_says_m (bag_target_m c s) s

-- Nothing but a shutdown overrides the pauses, and a drain.
unfoldable pub flush_barred : Settings → World → Bool → Sup → Bool
unfolding is_draining
flush_barred c w on_shutdown s =
    not on_shutdown && not (is_draining c s) && not (flush_submit_allowed c w s)

-- The pause after a change of difficulty, which only the classic mode keeps.
unfoldable pub flush_deferred : Settings → World → Bool → Sup → Bool
flush_deferred c w on_shutdown s =
    not on_shutdown && not (force_mine_mode c) && ltb w.now s.defer_submit_until

unfoldable pub track_drain : Settings → World → Bool → Sup → Sup
track_drain c w on_shutdown s = if on_shutdown then s else update_match_drain c w s

unfoldable pub refreshed_gate : Settings → World → Bool → Sup → Sup × Bool
unfolding track_drain flush_barred
refreshed_gate c w on_shutdown s =
    let t = track_drain c w on_shutdown s in (t, not (flush_barred c w on_shutdown t))

-- The block `if (!draining)`: the refresh, and whether the flush goes on.
unfoldable pub refresh_gate : Settings → World → Bool → Sup → Sup × Bool
unfolding refreshed_gate
refresh_gate c w on_shutdown s =
    let (t, refreshed) = refresh_network c w on_shutdown s in
    if refreshed
    then refreshed_gate c w on_shutdown t
    else if on_shutdown
    then (record t { store = defer_all_to_next_start w.minute t.store }, false)
    else if not (flush_submit_allowed c w t) || not (oracle_says_m (bag_target_m c t) t)
    then (t, false)
    else refreshed_gate c w on_shutdown t

-- The guards up to the choice of the m=, and whether the flush goes on.
unfoldable pub flush_gate : Settings → World → Bool → Sup → Sup × Bool
unfolding refresh_gate
flush_gate c w on_shutdown s =
    let (probed, ready) = verify_ready_to_push w s in
    let t = track_drain c w on_shutdown probed in
    if bag_only c
    then (s, false)
    else if not ready
    then (probed, false)
    else if flush_barred c w on_shutdown t
    then (t, false)
    else if flush_deferred c w on_shutdown t
    then (t, false)
    else if is_draining c t
    then (t, true)
    else refresh_gate c w on_shutdown t

unfoldable pub flush_net_m : Settings → Sup → ℤ
flush_net_m c s =
    if is_draining c s && ltb_ℤ (pos 0) (bag_target_m c s)
    then bag_target_m c s
    else submit_target_m c s

-- The bound on the wave; 0 is the whole bag.
unfoldable pub wave_size : Settings → Bool → Sup → ℕ
wave_size c on_shutdown s =
    if on_shutdown then 0 else if is_draining c s then c.match_drain_batch else 64

-- The rows that the flush is given.
unfoldable pub flush_list : Settings → World → Bool → Sup → List PendingBlock
unfolding wave_size
flush_list c w on_shutdown s =
    list_flush_batch w.minute (flush_net_m c s) (bag_target_m c s) (wave_size c on_shutdown s * 2)
      s.flush_skip_before_id s.store

abbrev pub last_row_id : ℕ → List PendingBlock → ℕ
last_row_id id [] = id
last_row_id id (pb ∷ pbs) = last_row_id pb.id pbs

-- The wave of a work list; where there is no work, the next flush passes over the rows.
unfoldable pub send_work :
    Settings → World → Bool → ℕ → List PendingBlock → List WorkItem → Sup → Sup × ℕ
unfolding is_draining
send_work c w on_shutdown id pbs [] s =
    (record s { flush_skip_before_id = last_row_id id pbs + 1 }, 0)
send_work c w on_shutdown id pbs (item ∷ work) s =
    flush_wave w on_shutdown (is_draining c s) (item ∷ work) s

unfoldable pub flush_rows : Settings → World → Bool → List PendingBlock → Sup → Sup × ℕ
unfolding send_work
flush_rows c w on_shutdown [] s = (s, 0)
flush_rows c w on_shutdown (pb ∷ pbs) s =
    let (store, work) =
      choose c w (is_draining c s) (bag_target_m c s) (flush_net_m c s) (wave_size c on_shutdown s)
        0 (pb ∷ pbs) s.store in
    send_work c w on_shutdown pb.id pbs work (record s { store = store })

unfoldable pub flush_matching : Settings → World → Bool → Sup → Sup × ℕ
unfolding flush_rows flush_list
flush_matching c w on_shutdown s =
    if leb_ℤ (flush_net_m c s) (pos 0)
    then (s, 0)
    else flush_rows c w on_shutdown (flush_list c w on_shutdown s) s

-- The number of accepted blocks goes with the state.
unfoldable pub try_flush_pending : Settings → World → Bool → Sup → Sup × ℕ
unfolding flush_gate flush_matching
try_flush_pending c w on_shutdown s =
    let (t, go) = flush_gate c w on_shutdown s in
    if go then flush_matching c w on_shutdown t else (t, 0)
