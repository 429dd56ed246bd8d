-- ===== src/Supervisor/Flush/Gates.antt =====
-- The guards of `try_flush_pending` in src/app/supervisor.cpp, which keep the bag and post nothing.
use xnminer.Base.{◌≡◌, refl, ◌∙◌, Bool, not, ◌||◌}
use xnminer.Store.Defs.{defer_all_to_next_start, save_db, mark_dirty}
use xnminer.Store.Distinct.{has_hash-keys}
use xnminer.Store.Invariant.{defer_all_to_next_start-IsValid, keys-defer}
use xnminer.Supervisor.State.{
  Settings, World, Sup, bag_only, bag_target_m, oracle_says_m, verify_ready_to_push,
  flush_submit_allowed,
}
use xnminer.Supervisor.Network.{refresh_network}
use xnminer.Supervisor.Hits.Kept.{Grows, Grows-refl, Grows-trans, by_if}
use xnminer.Supervisor.Hits.Live.{
  verify_ready-Grows, update_match_drain-Grows, refresh_network-Grows,
}
use xnminer.Supervisor.Hits.Posts.{
  update_match_drain-posts, refresh_network-posts, verify_ready-posts,
}
use xnminer.Supervisor.Flush.Try.{
  is_draining, flush_barred, flush_deferred, track_drain, refreshed_gate, refresh_gate, flush_gate,
}

-- The guards: the bag keeps what it has, and nothing is posted.
pub record Gates (s t : Sup) : Type 0 where
  pub grows : Grows s t
  pub posts : t.posts ≡ s.posts

pub Gates-refl : (s : Sup) → Gates s s
Gates-refl s = record { grows = Grows-refl s; posts = refl }

pub Gates-trans : {s t u : Sup} → Gates s t → Gates t u → Gates s u
Gates-trans a b = record { grows = Grows-trans a.grows b.grows; posts = b.posts ∙ a.posts }

pub track_drain-Gates :
    (c : Settings) (w : World) (on_shutdown : Bool) (s : Sup)
    → Gates s (track_drain c w on_shutdown s)
unfolding track_drain
track_drain-Gates c w on_shutdown s =
    by_if (Gates s) on_shutdown (λ _. Gates-refl s)
      (λ _. record {
        grows = update_match_drain-Grows c w s;
        posts = update_match_drain-posts c w s;
      })

pub defer_all-Grows :
    (w : World) (s : Sup) → Grows s (record s { store = defer_all_to_next_start w.minute s.store })
unfolding defer_all_to_next_start save_db mark_dirty
defer_all-Grows w s = record {
  queue = refl;
  valid = λ v. defer_all_to_next_start-IsValid w.minute s.store v;
  rows = λ h e. rw (has_hash-keys h s.store.pending _ (keys-defer w.minute s.store.pending)) e;
  posts = λ h e. e;
}

pub refresh_gate-Gates :
    (c : Settings) (w : World) (on_shutdown : Bool) (s : Sup)
    → Gates s (refresh_gate c w on_shutdown s).0
unfolding refresh_gate refreshed_gate
refresh_gate-Gates c w on_shutdown s =
    by_if (λ (p : Sup × Bool). Gates s p.0) polled.1 (λ _. tracked)
      (λ _.
        by_if (λ (p : Sup × Bool). Gates s p.0) on_shutdown
          (λ _. Gates-trans refreshed (record { grows = defer_all-Grows w polled.0; posts = refl }))
          (λ _.
            by_if (λ (p : Sup × Bool). Gates s p.0)
              (not (flush_submit_allowed c w polled.0)
                || not (oracle_says_m (bag_target_m c polled.0) polled.0))
              (λ _. refreshed) (λ _. tracked)))
  where
    polled : Sup × Bool
    polled = refresh_network c w on_shutdown s

    refreshed : Gates s polled.0
    refreshed = record {
      grows = refresh_network-Grows c w on_shutdown s;
      posts = refresh_network-posts c w on_shutdown s;
    }

    tracked : Gates s (track_drain c w on_shutdown polled.0)
    tracked = Gates-trans refreshed (track_drain-Gates c w on_shutdown polled.0)

pub flush_gate-Gates :
    (c : Settings) (w : World) (on_shutdown : Bool) (s : Sup)
    → Gates s (flush_gate c w on_shutdown s).0
unfolding flush_gate
flush_gate-Gates c w on_shutdown s =
    by_if G (bag_only c) (λ _. Gates-refl s)
      (λ _.
        by_if G (not (verify_ready_to_push w s).1) (λ _. probed)
          (λ _.
            by_if G (flush_barred c w on_shutdown tracked) (λ _. gated)
              (λ _.
                by_if G (flush_deferred c w on_shutdown tracked) (λ _. gated)
                  (λ _.
                    by_if G (is_draining c tracked) (λ _. gated)
                      (λ _. Gates-trans gated (refresh_gate-Gates c w on_shutdown tracked))))))
  where
    G : Sup × Bool → Type 0
    G p = Gates s p.0

    probed : Gates s (verify_ready_to_push w s).0
    probed = record { grows = verify_ready-Grows w s; posts = verify_ready-posts w s }

    tracked : Sup
    tracked = track_drain c w on_shutdown (verify_ready_to_push w s).0

    gated : Gates s tracked
    gated = Gates-trans probed (track_drain-Gates c w on_shutdown (verify_ready_to_push w s).0)
