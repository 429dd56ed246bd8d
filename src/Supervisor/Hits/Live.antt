-- ===== src/Supervisor/Hits/Live.antt =====
-- What `process_live_submit` of src/app/supervisor.cpp does to the rows, to the live queue and to the
-- trace of posts, for every answer of the pool.
use xnminer.Base.{
  ◌+◌, is_some, ◌≡◌, refl, inl, inr, Bool, true, false, not, ◌&&◌, ◌||◌, ◌∷◌, Text, codes,
  text_eq_refl, arith, ltb, ◌==◌, if◌then◌else◌, Bool-cases, ℤ, pos, eqb_ℤ, Option, some, none,
}
use xnminer.Common.{BlockHit, SubmitResult}
use xnminer.Policy.{
  in_xuni_submit_window, outside_xuni_window_reason, shutdown_pending_reason,
  difficulty_change_reason,
}
use xnminer.Store.Defs.{log_rejection, record_rejection}
use xnminer.Store.Invariant.{flush-IsValid}
use xnminer.Network.Submit.{
  is_difficulty_mismatch, is_pool_hold, is_transient_submit_failure, is_xuni_window_reject,
}
use xnminer.Supervisor.State.{
  Settings, World, Sup, bag_only, should_store, live_submit_allowed, verify_ready_to_push,
  oracle_says_m, can_submit_hit_m,
}
use xnminer.Supervisor.Network.{
  refresh_network, note_submit_transport_failure, update_match_drain, take_difficulty,
  miss_difficulty, age_below, after_poll, end_drain, start_drain, drain_off, drain_ends,
  drain_starts,
}
use xnminer.Supervisor.Hits.{
  is_xuni, hit_m_of, accept_live, reject_live, answer_live, push_live, process_live_submit,
}
use xnminer.Supervisor.Hits.Kept.{
  by_if, Grows, Grows-refl, Grows-trans, Handles, accepted, flush-pending, enqueue-Handles,
  queue_hit-Handles, drop-Handles, then-Handles, store_or_drop-Handles,
}

note_failure-Grows :
    (c : Settings) (w : World) (status : ℤ) (s : Sup)
    → Grows s (note_submit_transport_failure c w status s)
unfolding note_submit_transport_failure
note_failure-Grows c w status s = record {
  queue = refl;
  valid = λ v. v;
  rows = λ h e. e;
  posts = λ h e. e;
}

reject_live-Handles :
    (c : Settings) (hit : BlockHit) (kind : Text) (r : SubmitResult) (s : Sup)
    → Handles c hit s (reject_live hit kind r s)
unfolding reject_live record_rejection log_rejection
reject_live-Handles c hit kind r s =
    then-Handles c hit s
      (record s { store = log_rejection hit r.status r.body (codes "live") s.store }) _
      (record { queue = refl; valid = λ v. v; rows = λ h e. e; posts = λ h e. e })
      (enqueue-Handles c hit (codes "resubmission") _ _ refl refl refl)

accept_live-Handles :
    (c : Settings) (hit : BlockHit) (kind : Text) (s : Sup)
    → accepted hit.hash_str s.posts ≡ true
    → Handles c hit s (accept_live kind s)
unfolding accept_live
accept_live-Handles c hit kind s a = record {
  grows = record { queue = refl; valid = λ v. v; rows = λ h e. e; posts = λ h e. e };
  kept = λ _ _ _. ground (arith, a);
}

pub answer_live-Handles :
    (c : Settings) (w : World) (hit : BlockHit) (kind : Text) (r : SubmitResult) (s : Sup)
    → (r.ok ≡ true → accepted hit.hash_str s.posts ≡ true)
    → Handles c hit s (answer_live c w hit kind r s)
unfolding answer_live
answer_live-Handles c w hit kind r s a =
    by_if (Handles c hit s) r.ok (λ e. accept_live-Handles c hit kind s (a e))
      (λ _.
        by_if (Handles c hit s) (is_difficulty_mismatch r.status r.body)
          (λ _.
            store_or_drop-Handles c hit s _
              (queue_hit-Handles c hit kind difficulty_change_reason s))
          (λ _.
            by_if (Handles c hit s) (is_pool_hold r.status r.body)
              (λ _. queue_hit-Handles c hit kind difficulty_change_reason s)
              (λ _.
                by_if (Handles c hit s)
                  (eqb_ℤ r.status (pos 0) || is_transient_submit_failure r.status r.body)
                  (λ _.
                    then-Handles c hit s _ _ (note_failure-Grows c w r.status s)
                      (queue_hit-Handles c hit kind (codes "network_down") _))
                  (λ _.
                    by_if (Handles c hit s) (is_xuni_window_reject r.status r.body)
                      (λ _. queue_hit-Handles c hit kind outside_xuni_window_reason s)
                      (λ _. reject_live-Handles c hit kind r s)))))

pub update_match_drain-Grows :
    (c : Settings) (w : World) (s : Sup) → Grows s (update_match_drain c w s)
unfolding update_match_drain end_drain start_drain
update_match_drain-Grows c w s =
    by_if (Grows s) (drain_off c)
      (λ _.
        by_if (Grows s) s.match_drain_active
          (λ _. record { queue = refl; valid = λ v. v; rows = λ h e. e; posts = λ h e. e })
          (λ _. Grows-refl s))
      (λ _.
        by_if (Grows s) s.match_drain_active
          (λ _. by_if (Grows s) (drain_ends c w s) (λ _. flushed) (λ _. Grows-refl s))
          (λ _.
            by_if (Grows s) (drain_starts c s)
              (λ _. record { queue = refl; valid = λ v. v; rows = λ h e. e; posts = λ h e. e })
              (λ _. Grows-refl s)))
  where
    flushed : Grows s (end_drain s)
    flushed = record {
      queue = refl;
      valid = λ v. flush-IsValid s.store v;
      rows = λ h e. rw (flush-pending s.store) e;
      posts = λ h e. e;
    }

miss_difficulty-Grows : (c : Settings) (w : World) (s : Sup) → Grows s (miss_difficulty c w s).0
unfolding miss_difficulty
miss_difficulty-Grows c w s =
    elim (Bool-cases (
      is_some s.network_difficulty
      && age_below 180000 w s
      && ltb (s.difficulty_fail_streak + 1) 8)) [
        | inl e ↦ rw e (record { queue = refl; valid = λ v. v; rows = λ h k. k; posts = λ h k. k })
        | inr e ↦ rw e (record { queue = refl; valid = λ v. v; rows = λ h k. k; posts = λ h k. k })
      ]

pub verify_ready-Grows : (w : World) (s : Sup) → Grows s (verify_ready_to_push w s).0
unfolding verify_ready_to_push
verify_ready-Grows w s =
    by_if (λ (p : Sup × Bool). Grows s p.0) s.network_ok (λ _. Grows-refl s)
      (λ _.
        by_if (λ (p : Sup × Bool). Grows s p.0)
          (ltb 0 s.verify_probe_at && ltb w.now (s.verify_probe_at + 2000)) (λ _. Grows-refl s)
          (λ _. record { queue = refl; valid = λ v. v; rows = λ h x. x; posts = λ h x. x }))

-- The answer to a POST is noted in the trace.
post-Grows :
    (w : World) (hit : BlockHit) (s : Sup)
    → Grows s (record s { posts = record { hit = hit; answer = w.answer hit } ∷ s.posts })
post-Grows w hit s = record {
  queue = refl;
  valid = λ v. v;
  rows = λ h e. e;
  posts = λ h e. ground (arith, e);
}

take_difficulty-Grows :
    (c : Settings) (w : World) (raw : ℤ) (s : Sup) → Grows s (take_difficulty c w raw s)
unfolding take_difficulty
take_difficulty-Grows c w raw s = record {
  queue = refl;
  valid = λ v. v;
  rows = λ h e. e;
  posts = λ h e. e;
}

pub refresh_network-Grows :
    (c : Settings) (w : World) (blocking : Bool) (s : Sup)
    → Grows s (refresh_network c w blocking s).0
unfolding refresh_network
refresh_network-Grows c w blocking s =
    elim (Bool-cases (not blocking && (w.poll.seq == 0 || w.poll.seq == s.last_poll_seq))) [
      | inl e ↦ rw e (Grows-refl s)
      | inr e ↦ rw e (Grows-trans seen-Grows (after w.poll.difficulty))
    ]
  where
    seen : Sup
    seen = record s { last_poll_seq = if w.poll.seq == 0 then s.last_poll_seq else w.poll.seq }

    seen-Grows : Grows s seen
    seen-Grows = record { queue = refl; valid = λ v. v; rows = λ h e. e; posts = λ h e. e }

    after : (d : Option ℤ) → Grows seen (after_poll c w d seen).0
    after none = miss_difficulty-Grows c w seen
    after (some raw) =
        Grows-trans (take_difficulty-Grows c w raw seen)
          (update_match_drain-Grows c w (take_difficulty c w raw seen))

pub push_live-Handles :
    (c : Settings) (w : World) (hit : BlockHit) (kind : Text) (s : Sup)
    → Handles c hit s (push_live c w hit kind s)
unfolding push_live
push_live-Handles c w hit kind s =
    by_if (Handles c hit s) (not (can_submit_hit_m c w (hit_m_of c w hit) s))
      (λ _.
        by_if (Handles c hit s) (not (should_store c))
          (λ e. drop-Handles c hit s (ground (arith, e)))
          (λ _.
            by_if (Handles c hit s)
              (live_submit_allowed c w s && not (oracle_says_m (hit_m_of c w hit) s))
              (λ _. queue_hit-Handles c hit kind difficulty_change_reason s)
              (λ _. queue_hit-Handles c hit kind (codes "network_down") s)))
      (λ _. then-Handles c hit s _ _ (verify_ready-Grows w s) (
        by_if (Handles c hit ready.0) (not ready.1)
          (λ _.
            store_or_drop-Handles c hit ready.0 _
              (queue_hit-Handles c hit kind (codes "network_down") ready.0))
          (λ _. then-Handles c hit ready.0 _ _ (post-Grows w hit ready.0) (
            answer_live-Handles c w hit kind (w.answer hit) _
              (λ e. ground (arith, e, text_eq_refl hit.hash_str))))))
  where
    ready : Sup × Bool
    ready = verify_ready_to_push w s

-- Whatever `process_live_submit` does with a hit, it forgets nothing that was saved, and with storing
-- on the hit is in the bag or accepted afterwards.
pub process_live_submit-Handles :
    (c : Settings) (w : World) (hit : BlockHit) (kind : Text) (s : Sup)
    → Handles c hit s (process_live_submit c w hit kind s)
unfolding process_live_submit
process_live_submit-Handles c w hit kind s =
    by_if (Handles c hit s) (bag_only c) (λ _. queue_hit-Handles c hit kind (codes "bag_only") s)
      (λ _.
        by_if (Handles c hit s) s.shutting_down
          (λ _. queue_hit-Handles c hit kind shutdown_pending_reason s)
          (λ _.
            by_if (Handles c hit s)
              (is_xuni kind && not c.xuni_mining_enabled && not (should_store c))
              (λ e. drop-Handles c hit s (ground (arith, e)))
              (λ _.
                by_if (Handles c hit s) (is_xuni kind && not (in_xuni_submit_window w.minute))
                  (λ _.
                    store_or_drop-Handles c hit s _
                      (queue_hit-Handles c hit kind outside_xuni_window_reason s))
                  (λ _.
                    then-Handles c hit s _ _ (refresh_network-Grows c w false s)
                      (push_live-Handles c w hit kind _)))))
