-- ===== src/Supervisor/Worker/Keeps.antt =====
-- What each event on the threads of src/app/supervisor.cpp does to the bag and to the digests that are in
-- the live queue, in the bag or accepted.
use xnminer.Base.{
  ℕ, suc, ◌≡◌, true, false, not, ◌&&◌, ◌||◌, Option, some, none, [], ◌∷◌, ◌++◌, Text, text_eq,
  text_eq_refl, is_empty, any-append, arith, if◌then◌else◌,
}
use xnminer.Common.{BlockHit}
use xnminer.Common.Stats.{record_found}
use xnminer.Policy.{
  shutdown_pending_reason, match_window_new_reason, in_xuni_submit_window,
  outside_xuni_window_reason,
}
use xnminer.Mining.Encode.{is_hex64_key}
use xnminer.Store.Distinct.{has_hash-keys}
use xnminer.Store.Defs.{defer_all_to_next_start, save_db, mark_dirty}
use xnminer.Store.Invariant.{IsValid, defer_all_to_next_start-IsValid, keys-defer}
use xnminer.Supervisor.State.{
  Settings, World, Sup, LiveSubmitJob, bag_only, should_store, can_submit_hit_m,
}
use xnminer.Supervisor.Hits.{
  is_xuni, hit_m_of, wait_reason, queue_hit, route_hit, route_prepared, prepared, first_kind,
  unwanted_xuni, handle_hit, enqueue_live_submit, bag_jobs, sync_stats, bag_live_queue_to_store,
  persist_queue_for_restart,
}
use xnminer.Supervisor.Hits.Kept.{
  Grows, Grows-refl, Grows-trans, Handles, queue_hit-Handles, drop-Handles, by_if,
}
use xnminer.Supervisor.Hits.Live.{refresh_network-Grows, update_match_drain-Grows}
use xnminer.Supervisor.Worker.{worker_refresh, worker_round}
use xnminer.Supervisor.Worker.Batch.{
  waiting, tracked, Disposes, saved-Grows, dispose_batch-Disposes, bag_jobs-Disposes,
}

-- A step that keeps the bag consistent, and with storing on forgets no digest.
pub record Keeps (c : Settings) (s t : Sup) : Type 0 where
  pub valid : IsValid s.store → IsValid t.store
  pub keeps :
      should_store c ≡ true
      → (h : Text) → is_empty h ≡ false
      → IsValid s.store
      → tracked h s ≡ true
      → tracked h t ≡ true

-- The step also takes charge of a hit.
pub record Takes (c : Settings) (hit : BlockHit) (s t : Sup) : Type 0 where
  pub others : Keeps c s t
  pub own :
      should_store c ≡ true
      → is_empty hit.hash_str ≡ false
      → IsValid s.store
      → tracked hit.hash_str t ≡ true

pub Keeps-Grows : (c : Settings) (s t : Sup) → Grows s t → Keeps c s t
Keeps-Grows c s t g = record {
  valid = g.valid;
  keeps = λ _ h _ _ e. rw g.queue (ground (arith, e, saved-Grows s t g h));
}

Takes-Handles : (c : Settings) (hit : BlockHit) (s t : Sup) → Handles c hit s t → Takes c hit s t
Takes-Handles c hit s t k = record {
  others = Keeps-Grows c s t k.grows;
  own = λ on n v. ground (arith, k.kept on n v);
}

enqueue_live-Takes :
    (c : Settings) (hit : BlockHit) (kind : Text) (s : Sup)
    → Takes c hit s (enqueue_live_submit hit kind s)
unfolding enqueue_live_submit
enqueue_live-Takes c hit kind s = record {
  others = record { valid = λ v. v; keeps = λ _ h _ _ e. rw (longer h) (ground (arith, e)) };
  own = λ _ _ _. rw (longer hit.hash_str) (ground (arith, text_eq_refl hit.hash_str));
}
  where
    job : LiveSubmitJob
    job = record { hit = hit; kind = kind }

    longer :
        (h : Text)
        → waiting h (s.live_submit_q ++ (job ∷ []))
          ≡ (waiting h s.live_submit_q || waiting h (job ∷ []))
    longer h =
        any-append (λ (j : LiveSubmitJob). text_eq j.hit.hash_str h) s.live_submit_q (job ∷ [])

pub route_hit-Takes :
    (c : Settings) (w : World) (hit : BlockHit) (s : Sup) → Takes c hit s (route_hit c w hit s)
unfolding route_hit
route_hit-Takes c w hit s =
    by_if (Takes c hit s) (bag_only c) (λ _. queued _)
      (λ _.
        by_if (Takes c hit s) s.shutting_down (λ _. queued _)
          (λ _.
            by_if (Takes c hit s) (is_xuni hit.block_type && not (in_xuni_submit_window w.minute))
              (λ _. queued_or_dropped outside_xuni_window_reason)
              (λ _.
                by_if (Takes c hit s) s.match_drain_active (λ _. queued match_window_new_reason)
                  (λ _.
                    by_if (Takes c hit s) (not (can_submit_hit_m c w (hit_m_of c w hit) s))
                      (λ _. queued_or_dropped (wait_reason c w (hit_m_of c w hit) s))
                      (λ _. enqueue_live-Takes c hit hit.block_type s)))))
  where
    queued : (reason : Text) → Takes c hit s (queue_hit hit hit.block_type reason s)
    queued reason = Takes-Handles c hit s _ (queue_hit-Handles c hit hit.block_type reason s)

    queued_or_dropped :
        (reason : Text)
        → Takes c hit s (if should_store c then queue_hit hit hit.block_type reason s else s)
    queued_or_dropped reason =
        by_if (Takes c hit s) (should_store c) (λ _. queued reason)
          (λ e. Takes-Handles c hit s s (drop-Handles c hit s e))

pub handle_hit-Keeps :
    (c : Settings) (w : World) (hit : BlockHit) (s : Sup) → Keeps c s (handle_hit c w hit s)
unfolding handle_hit
handle_hit-Keeps c w hit s =
    by_if (Keeps c s) (not (is_hex64_key hit.key)) (λ _. same)
      (λ _.
        by_if (Keeps c s) (unwanted_xuni c w (first_kind hit)) (λ _. same)
          (λ _. routed (prepared c w hit)))
  where
    same : Keeps c s s
    same = Keeps-Grows c s s (Grows-refl s)

    counted : Sup
    counted = record s { stats = record_found (first_kind hit) s.stats }

    routed : (p : Option BlockHit) → Keeps c s (route_prepared c w p counted)
    routed none = record { valid = λ v. v; keeps = λ _ h _ _ e. e }
    routed (some ready) = record {
      valid = (route_hit-Takes c w ready counted).others.valid;
      keeps = (route_hit-Takes c w ready counted).others.keeps;
    }

worker_refresh-Grows : (c : Settings) (w : World) (s : Sup) → Grows s (worker_refresh c w s)
unfolding worker_refresh
worker_refresh-Grows c w s =
    by_if (Grows s) (not s.shutting_down && not (bag_only c))
      (λ _. Grows-trans (refresh_network-Grows c w false s) (update_match_drain-Grows c w _))
      (λ _. Grows-refl s)

Disposes-Keeps :
    (c : Settings) (s t u : Sup)
    → Grows (record s { live_submit_q = [] }) t
    → Disposes c s.live_submit_q t u
    → Keeps c s u
Disposes-Keeps c s t u g d = record {
  valid = λ v. d.grows.valid (g.valid v);
  keeps = λ on h n v e. ground (
    arith,
    e,
    d.kept on h n (g.valid v),
    saved-Grows (record s { live_submit_q = [] }) t g h,
    saved-Grows t u d.grows h,
  );
}

pub worker_round-Keeps : (c : Settings) (ws : ℕ → World) (s : Sup) → Keeps c s (worker_round c ws s)
unfolding worker_round
worker_round-Keeps c ws s =
    Disposes-Keeps c s _ _ (worker_refresh-Grows c (ws 0) (record s { live_submit_q = [] }))
      (dispose_batch-Disposes c (λ i. ws (suc i)) s.live_submit_q _)

pub bag_live_queue-Keeps :
    (c : Settings) (reason : Text) (s : Sup) → Keeps c s (bag_live_queue_to_store reason s)
unfolding bag_live_queue_to_store sync_stats
bag_live_queue-Keeps c reason s =
    by_if (Keeps c s) (is_empty s.live_submit_q) (λ _. bagged)
      (λ _. record { valid = bagged.valid; keeps = bagged.keeps })
  where
    emptied : Sup
    emptied = record s { live_submit_q = [] }

    bagged : Keeps c s (bag_jobs reason s.live_submit_q emptied)
    bagged =
        Disposes-Keeps c s emptied _ (Grows-refl emptied)
          (bag_jobs-Disposes c reason s.live_submit_q emptied)

pub persist_queue-Keeps :
    (c : Settings) (w : World) (s : Sup) → Keeps c s (persist_queue_for_restart w s)
unfolding persist_queue_for_restart defer_all_to_next_start save_db mark_dirty
persist_queue-Keeps c w s = record {
  valid = λ v. defer_all_to_next_start-IsValid w.minute bagged.store (bag.valid v);
  keeps = λ on h n v e.
      rw (has_hash-keys h bagged.store.pending _ (keys-defer w.minute bagged.store.pending))
        (bag.keeps on h n v e);
}
  where
    bagged : Sup
    bagged = bag_live_queue_to_store shutdown_pending_reason (record s { shutting_down = true })

    bag : Keeps c (record s { shutting_down = true }) bagged
    bag = bag_live_queue-Keeps c shutdown_pending_reason (record s { shutting_down = true })
