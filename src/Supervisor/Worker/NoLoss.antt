-- ===== src/Supervisor/Worker/NoLoss.antt =====
-- No hit is lost between the threads of src/app/supervisor.cpp: what is in the live queue, in the bag
-- or accepted stays in one of the three through every event.
use xnminer.Base.{
  ◌≡◌, refl, true, some, List, [], ◌∷◌, Text, is_empty, arith, Bool-cases, inl, inr, not, ◌&&◌,
  ◌||◌, if◌then◌else◌,
}
use xnminer.Common.{BlockHit}
use xnminer.Common.Stats.{record_found}
use xnminer.Policy.{shutdown_pending_reason}
use xnminer.Mining.Encode.{is_hex64_key, is_argon2_encoded, encoded-nonempty}
use xnminer.Mining.Prepare.{prepare-encoded}
use xnminer.Store.Defs.{defer_all_to_next_start, save_db, mark_dirty, snapshot}
use xnminer.Store.Invariant.{IsValid}
use xnminer.Supervisor.State.{
  Settings, World, Sup, LiveSubmitJob, should_store, bag_only, live_submit_allowed,
  mining_difficulty,
}
use xnminer.Supervisor.Flush.Spared.{Spares, Spares-Grows}
use xnminer.Supervisor.Flush.Tried.{try_flush_pending-Flushes}
use xnminer.Supervisor.Flush.Gates.{defer_all-Grows}
use xnminer.Supervisor.Flush.Service.{stop_worker}
use xnminer.Supervisor.Flush.Served.{serve-Spares}
use xnminer.Supervisor.Hits.{
  route_hit, prepared, first_kind, unwanted_xuni, handle_hit, bag_jobs, sync_stats,
  bag_live_queue_to_store, persist_queue_for_restart,
}
use xnminer.Supervisor.Hits.Kept.{by_if}
use xnminer.Supervisor.Hits.Live.{refresh_network-Grows}
use xnminer.Supervisor.Worker.{
  Event, mined, worked, stopped, polled, closed, worker_round, happen, happen_all,
}
use xnminer.Supervisor.Worker.Batch.{tracked}
use xnminer.Supervisor.Worker.Keeps.{
  Keeps, Keeps-Grows, handle_hit-Keeps, worker_round-Keeps, route_hit-Takes, persist_queue-Keeps,
  bag_live_queue-Keeps,
}

-- A step that keeps the bag consistent, and with storing on forgets no encoded digest.
pub record Holds (c : Settings) (s t : Sup) : Type 0 where
  pub valid : IsValid s.store → IsValid t.store
  pub holds :
      should_store c ≡ true
      → (h : Text) → is_argon2_encoded h ≡ true
      → IsValid s.store
      → tracked h s ≡ true
      → tracked h t ≡ true

Holds-Keeps : (c : Settings) (s t : Sup) → Keeps c s t → Holds c s t
Holds-Keeps c s t k = record {
  valid = k.valid;
  holds = λ on h enc v e. k.keeps on h (encoded-nonempty h enc) v e;
}

Holds-Spares : (c : Settings) (s t : Sup) → Spares s t → Holds c s t
Holds-Spares c s t k = record {
  valid = k.valid;
  holds = λ _ h enc v e. rw k.queue (ground (arith, e, k.kept h enc v));
}

Holds-trans : (c : Settings) (s t u : Sup) → Holds c s t → Holds c t u → Holds c s u
Holds-trans c s t u a b = record {
  valid = λ v. b.valid (a.valid v);
  holds = λ on h enc v e. b.holds on h enc (a.valid v) (a.holds on h enc v e);
}

stop_worker-Holds : (c : Settings) (w : World) (s : Sup) → Holds c s (stop_worker c w s)
unfolding stop_worker
stop_worker-Holds c w s =
    by_if (Holds c s)
      (not (bag_only c) && (not deferred.shutting_down || live_submit_allowed c w deferred))
      (λ _.
        Holds-trans c s deferred _ kept
          (Holds-Spares c deferred _ (try_flush_pending-Flushes c w true deferred).0))
      (λ _. kept)
  where
    bagged : Sup
    bagged = bag_live_queue_to_store shutdown_pending_reason s

    deferred : Sup
    deferred = record bagged { store = defer_all_to_next_start w.minute bagged.store }

    kept : Holds c s deferred
    kept =
        Holds-trans c s bagged deferred
          (Holds-Keeps c s bagged (bag_live_queue-Keeps c shutdown_pending_reason s))
          (Holds-Spares c bagged deferred (Spares-Grows bagged deferred (defer_all-Grows w bagged)))

happen-Holds : (c : Settings) (e : Event) (s : Sup) → Holds c s (happen c e s)
unfolding happen
happen-Holds c (mined w hit) s = Holds-Keeps c s _ (handle_hit-Keeps c w hit s)
happen-Holds c (worked ws w) s =
    Holds-trans c s (worker_round c ws s) _ (Holds-Keeps c s _ (worker_round-Keeps c ws s))
      (Holds-Spares c _ _ (serve-Spares c w (worker_round c ws s)))
happen-Holds c (stopped w) s = stop_worker-Holds c w s
happen-Holds c (polled w blocking) s =
    Holds-Keeps c s _ (Keeps-Grows c s _ (refresh_network-Grows c w blocking s))
happen-Holds c (closed w) s = Holds-Keeps c s _ (persist_queue-Keeps c w s)

-- Whatever the threads do, in any order, the rows of the bag and the set of their digests stay
-- consistent: ids distinct and below the next id, digests distinct, the set exactly theirs.
pub happen_all-IsValid :
    (c : Settings) (es : List Event) (s : Sup) → IsValid s.store → IsValid (happen_all c es s).store
unfolding happen_all
happen_all-IsValid c [] s v = v
happen_all-IsValid c (e ∷ es) s v =
    happen_all-IsValid c es (happen c e s) ((happen-Holds c e s).valid v)

-- With storing on and a consistent bag, an encoded digest that is in the live queue, in the bag or
-- accepted by the pool stays in one of the three through every sequence of hits, worker rounds with
-- their flushes, stops, polls and closings, whatever the pool answers.
pub happen_all-tracked :
    (c : Settings) (es : List Event) (h : Text) (s : Sup)
    → should_store c ≡ true
    → is_argon2_encoded h ≡ true
    → IsValid s.store
    → tracked h s ≡ true
    → tracked h (happen_all c es s) ≡ true
unfolding happen_all
happen_all-tracked c [] h s on n v e = e
happen_all-tracked c (x ∷ es) h s on n v e =
    happen_all-tracked c es h (happen c x s) on n ((happen-Holds c x s).valid v)
      ((happen-Holds c x s).holds on h n v e)

counted : BlockHit → Sup → Sup
counted hit s = record s { stats = record_found (first_kind hit) s.stats }

handle_hit-route_hit :
    (c : Settings) (w : World) (hit ready : BlockHit) (s : Sup)
    → should_store c ≡ true
    → is_hex64_key hit.key ≡ true
    → prepared c w hit ≡ some ready
    → handle_hit c w hit s ≡ route_hit c w ready (counted hit s)
unfolding handle_hit unwanted_xuni counted
handle_hit-route_hit c w hit ready s on k p =
    elim (Bool-cases (unwanted_xuni c w (first_kind hit))) [
      | inl e ↦ ground (arith, e, on)
      | inr e ↦ rw (k, e, p) refl
    ]

-- With storing on and a consistent bag, a hit with a 64-digit key that can be prepared is, after
-- any sequence of events that follows, flushes of the bag among them, in the live queue, in the bag or
-- accepted.
pub handle_hit-happen_all :
    (c : Settings) (w : World) (hit ready : BlockHit) (es : List Event) (s : Sup)
    → should_store c ≡ true
    → is_hex64_key hit.key ≡ true
    → prepared c w hit ≡ some ready
    → IsValid s.store
    → tracked ready.hash_str (happen_all c es (handle_hit c w hit s)) ≡ true
unfolding counted prepared
handle_hit-happen_all c w hit ready es s on k p v =
    happen_all-tracked c es ready.hash_str (handle_hit c w hit s) on enc
      ((handle_hit-Keeps c w hit s).valid v)
      (rw (handle_hit-route_hit c w hit ready s on k p) (
        (route_hit-Takes c w ready (counted hit s)).own on (encoded-nonempty ready.hash_str enc) v))
  where
    enc : is_argon2_encoded ready.hash_str ≡ true
    enc =
        prepare-encoded w.base64_encode hit ready
          (if is_empty hit.salt_hex then c.salt_hex else hit.salt_hex) (mining_difficulty c w)
          c.time_cost c.parallelism p

bag_jobs-live :
    (reason : Text) (jobs : List LiveSubmitJob) (s : Sup)
    → (bag_jobs reason jobs s).live_submit_q ≡ s.live_submit_q
unfolding bag_jobs
bag_jobs-live reason [] s = refl
bag_jobs-live reason (job ∷ jobs) s = bag_jobs-live reason jobs _

bag_live_queue-live :
    (reason : Text) (s : Sup) → (bag_live_queue_to_store reason s).live_submit_q ≡ []
unfolding bag_live_queue_to_store sync_stats
bag_live_queue-live reason s =
    by_if (λ (t : Sup). t.live_submit_q ≡ []) (is_empty s.live_submit_q)
      (λ _. bag_jobs-live reason s.live_submit_q _) (λ _. bag_jobs-live reason s.live_submit_q _)

-- Closing down leaves no hit in memory alone: the live queue is empty, and what blocks.db then holds is
-- the whole bag.
pub persist_queue_for_restart-on_disk :
    (w : World) (s : Sup)
    → ((persist_queue_for_restart w s).live_submit_q ≡ [])
      × ((persist_queue_for_restart w s).store.db ≡ snapshot (persist_queue_for_restart w s).store)
unfolding persist_queue_for_restart defer_all_to_next_start save_db mark_dirty snapshot
persist_queue_for_restart-on_disk w s =
    (bag_live_queue-live shutdown_pending_reason (record s { shutting_down = true }), refl)
