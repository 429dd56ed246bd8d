-- ===== src/Supervisor/Hits/Posts.antt =====
-- When `process_live_submit` of src/app/supervisor.cpp sends a block to /verify.
use xnminer.Base.{
  ◌≡◌, refl, ap, is_some, ◌∙◌, ◌⊎◌, inl, inr, Bool, true, false, not, ◌&&◌, ◌||◌, Option, some,
  none, List, ◌∷◌, Text, codes, arith, if◌then◌else◌, ℤ, pos, eqb_ℤ, ◌==◌, ltb, ◌+◌,
}
use xnminer.Common.{BlockHit, SubmitResult}
use xnminer.Policy.{in_xuni_submit_window, outside_xuni_window_reason, difficulty_change_reason}
use xnminer.Store.Defs.{enqueue}
use xnminer.Network.Submit.{
  is_difficulty_mismatch, is_pool_hold, is_transient_submit_failure, is_xuni_window_reject,
}
use xnminer.Supervisor.State.{
  Settings, World, Sup, Post, bag_only, should_store, live_submit_allowed, verify_ready_to_push,
  oracle_says_m, can_submit_hit_m,
}
use xnminer.Supervisor.Network.{
  refresh_network, update_match_drain, end_drain, start_drain, take_difficulty, miss_difficulty,
  after_poll, note_submit_transport_failure, drain_off, drain_ends, drain_starts, age_below,
}
use xnminer.Supervisor.Hits.{
  is_xuni, hit_m_of, queue_hit, accept_live, reject_live, answer_live, push_live,
  process_live_submit,
}
use xnminer.Supervisor.Hits.Kept.{by_if}

-- The trace of what was sent is the same.
abbrev pub Quiet : List Post → Sup → Type 0
Quiet posts t = t.posts ≡ posts

queue_hit-posts :
    (hit : BlockHit) (kind reason : Text) (s : Sup) → Quiet s.posts (queue_hit hit kind reason s)
unfolding queue_hit
queue_hit-posts hit kind reason s =
    by_if (Quiet s.posts) ((enqueue hit reason s.store).1 == 0) (λ _. refl) (λ _. refl)

answer_live-posts :
    (c : Settings) (w : World) (hit : BlockHit) (kind : Text) (r : SubmitResult) (s : Sup)
    → Quiet s.posts (answer_live c w hit kind r s)
unfolding answer_live accept_live reject_live note_submit_transport_failure
answer_live-posts c w hit kind r s =
    by_if (Quiet s.posts) r.ok (λ _. refl)
      (λ _.
        by_if (Quiet s.posts) (is_difficulty_mismatch r.status r.body)
          (λ _.
            by_if (Quiet s.posts) (should_store c)
              (λ _. queue_hit-posts hit kind difficulty_change_reason s) (λ _. refl))
          (λ _.
            by_if (Quiet s.posts) (is_pool_hold r.status r.body)
              (λ _. queue_hit-posts hit kind difficulty_change_reason s)
              (λ _.
                by_if (Quiet s.posts)
                  (eqb_ℤ r.status (pos 0) || is_transient_submit_failure r.status r.body)
                  (λ _. queue_hit-posts hit kind (codes "network_down") _)
                  (λ _.
                    by_if (Quiet s.posts) (is_xuni_window_reject r.status r.body)
                      (λ _. queue_hit-posts hit kind outside_xuni_window_reason s) (λ _. refl)))))

pub update_match_drain-posts :
    (c : Settings) (w : World) (s : Sup) → Quiet s.posts (update_match_drain c w s)
unfolding update_match_drain end_drain start_drain
update_match_drain-posts c w s =
    by_if (Quiet s.posts) (drain_off c)
      (λ _. by_if (Quiet s.posts) s.match_drain_active (λ _. refl) (λ _. refl))
      (λ _.
        by_if (Quiet s.posts) s.match_drain_active
          (λ _. by_if (Quiet s.posts) (drain_ends c w s) (λ _. refl) (λ _. refl))
          (λ _. by_if (Quiet s.posts) (drain_starts c s) (λ _. refl) (λ _. refl)))

pub refresh_network-posts :
    (c : Settings) (w : World) (blocking : Bool) (s : Sup)
    → Quiet s.posts (refresh_network c w blocking s).0
unfolding refresh_network take_difficulty miss_difficulty
refresh_network-posts c w blocking s =
    by_if (λ (p : Sup × Bool). Quiet s.posts p.0)
      (not blocking && (w.poll.seq == 0 || w.poll.seq == s.last_poll_seq)) (λ _. refl)
      (λ _. after w.poll.difficulty)
  where
    seen : Sup
    seen = record s { last_poll_seq = if w.poll.seq == 0 then s.last_poll_seq else w.poll.seq }

    after : (d : Option ℤ) → Quiet s.posts (after_poll c w d seen).0
    after none =
        by_if (λ (p : Sup × Bool). Quiet s.posts p.0)
          (is_some s.network_difficulty
            && age_below 180000 w s
            && ltb (s.difficulty_fail_streak + 1) 8)
          (λ _. refl) (λ _. refl)
    after (some raw) = update_match_drain-posts c w (take_difficulty c w raw seen)

pub verify_ready-posts : (w : World) (s : Sup) → Quiet s.posts (verify_ready_to_push w s).0
unfolding verify_ready_to_push
verify_ready-posts w s =
    by_if (λ (p : Sup × Bool). Quiet s.posts p.0) s.network_ok (λ _. refl)
      (λ _.
        by_if (λ (p : Sup × Bool). Quiet s.posts p.0)
          (ltb 0 s.verify_probe_at && ltb w.now (s.verify_probe_at + 2000)) (λ _. refl) (λ _. refl))

-- Either nothing was sent, or the one hit was, where submitting is allowed and the pool asks for the
-- m= of the hit.
abbrev Sends : Settings → World → BlockHit → Sup → Sup → Type 0
Sends c w hit s t =
    (t.posts ≡ s.posts)
    ⊎ ((t.posts ≡ (record { hit = hit; answer = w.answer hit } ∷ s.posts))
        × (can_submit_hit_m c w (hit_m_of c w hit) s ≡ true))

push_live-posts :
    (c : Settings) (w : World) (hit : BlockHit) (kind : Text) (s : Sup)
    → Sends c w hit s (push_live c w hit kind s)
unfolding push_live
push_live-posts c w hit kind s =
    by_if (Sends c w hit s) (not (can_submit_hit_m c w (hit_m_of c w hit) s))
      (λ _.
        by_if (Sends c w hit s) (not (should_store c)) (λ _. inl refl)
          (λ _.
            by_if (Sends c w hit s)
              (live_submit_allowed c w s && not (oracle_says_m (hit_m_of c w hit) s))
              (λ _. inl (queue_hit-posts hit kind _ s)) (λ _. inl (queue_hit-posts hit kind _ s))))
      (λ allowed.
        by_if (Sends c w hit s) (not (verify_ready_to_push w s).1)
          (λ _.
            by_if (Sends c w hit s) (should_store c)
              (λ _. inl (queue_hit-posts hit kind _ _ ∙ verify_ready-posts w s))
              (λ _. inl (verify_ready-posts w s)))
          (λ _. inr (
            answer_live-posts c w hit kind (w.answer hit) _
                ∙ ap (λ ps. record { hit = hit; answer = w.answer hit } ∷ ps)
                    (verify_ready-posts w s),
            ground (arith, allowed),
          )))

-- What a call on a queued hit does to the trace: nothing, or the one post, where the miner submits and
-- is not shutting down, a XUNI is in its window, and after the poll is taken over submitting is allowed
-- and the pool asks for the m= of the hit.
abbrev pub Sent : Settings → World → BlockHit → Text → Sup → Sup → Type 0
Sent c w hit kind s t =
    let polled = (refresh_network c w false s).0 in
    (t.posts ≡ s.posts)
    ⊎ ((t.posts ≡ (record { hit = hit; answer = w.answer hit } ∷ s.posts))
        × (bag_only c ≡ false)
        × (s.shutting_down ≡ false)
        × ((is_xuni kind && not (in_xuni_submit_window w.minute)) ≡ false)
        × (live_submit_allowed c w polled ≡ true)
        × (oracle_says_m (hit_m_of c w hit) polled ≡ true))

-- A queued hit is sent to /verify at most once by a call, and only if the miner is not bag-only and
-- not shutting down, a XUNI only in its window, and after the poll is taken over submitting is allowed
-- and the m= last seen from the pool is that of the hit.
pub process_live_submit-posts :
    (c : Settings) (w : World) (hit : BlockHit) (kind : Text) (s : Sup)
    → Sent c w hit kind s (process_live_submit c w hit kind s)
unfolding process_live_submit can_submit_hit_m
process_live_submit-posts c w hit kind s =
    by_if (Sent c w hit kind s) (bag_only c) (λ _. inl (queue_hit-posts hit kind _ s))
      (λ submits.
        by_if (Sent c w hit kind s) s.shutting_down (λ _. inl (queue_hit-posts hit kind _ s))
          (λ running.
            by_if (Sent c w hit kind s)
              (is_xuni kind && not c.xuni_mining_enabled && not (should_store c)) (λ _. inl refl)
              (λ _.
                by_if (Sent c w hit kind s) (is_xuni kind && not (in_xuni_submit_window w.minute))
                  (λ _.
                    by_if (Sent c w hit kind s) (should_store c)
                      (λ _. inl (queue_hit-posts hit kind _ s)) (λ _. inl refl))
                  (λ in_window. elim (push_live-posts c w hit kind polled) [
                    | inl same ↦ inl (same ∙ refresh_network-posts c w false s)
                    | inr (sent, allowed) ↦ inr (
                      sent
                          ∙ ap (λ ps. record { hit = hit; answer = w.answer hit } ∷ ps)
                              (refresh_network-posts c w false s),
                      submits,
                      running,
                      in_window,
                      live allowed,
                      oracle allowed,
                    )
                  ]))))
  where
    polled : Sup
    polled = (refresh_network c w false s).0

    live :
        can_submit_hit_m c w (hit_m_of c w hit) polled ≡ true
        → live_submit_allowed c w polled ≡ true
    live e = ground (arith, e)

    oracle :
        can_submit_hit_m c w (hit_m_of c w hit) polled ≡ true
        → oracle_says_m (hit_m_of c w hit) polled ≡ true
    oracle e = ground (arith, e)
