-- ===== src/Supervisor/Flush/Cleared.antt =====
-- What the guards of `try_flush_pending` in src/app/supervisor.cpp have found where they let a flush through.
use xnminer.Base.{◌≡◌, refl, ◌⊎◌, inl, inr, Bool, true, false, not, ◌||◌, leb, arith}
use xnminer.Supervisor.State.{
  Settings, World, Sup, bag_only, force_mine_mode, bag_target_m, oracle_says_m,
  verify_ready_to_push, flush_submit_allowed,
}
use xnminer.Supervisor.Network.{refresh_network}
use xnminer.Supervisor.Hits.Kept.{by_if}
use xnminer.Supervisor.Flush.Try.{
  is_draining, flush_barred, flush_deferred, track_drain, refreshed_gate, refresh_gate, flush_gate,
}

-- No pause holds the flush back, or a shutdown or a drain overrides it.
abbrev pub Open : Settings → World → Bool → Sup → Type 0
Open c w on_shutdown s = (on_shutdown || is_draining c s || flush_submit_allowed c w s) ≡ true

-- The state in which the first guards stand: after the probe, and the tracking of the drain.
abbrev pub tracked : Settings → World → Bool → Sup → Sup
tracked c w on_shutdown s = track_drain c w on_shutdown (verify_ready_to_push w s).0

-- The refresh of the network, from `u` to `t`: the poll has succeeded, or it has failed outside a
-- shutdown, while sending is allowed and the last answer still is the m= of the bag.
pub record Refreshed (c : Settings) (w : World) (on_shutdown : Bool) (u t : Sup) : Type 0 where
  pub polled :
      ((refresh_network c w on_shutdown u).1 ≡ true)
      ⊎ ((on_shutdown ≡ false)
          × (flush_submit_allowed c w (refresh_network c w on_shutdown u).0 ≡ true)
          × (oracle_says_m
                (bag_target_m c (refresh_network c w on_shutdown u).0)
                (refresh_network c w on_shutdown u).0
              ≡ true))
  pub after : t ≡ track_drain c w on_shutdown (refresh_network c w on_shutdown u).0
  pub unbarred : Open c w on_shutdown t

-- The guards have let the flush through, from `s` to `t`: the miner submits, the probe is not due or
-- answered, no pause and no deferral holds, and outside a drain the network has been refreshed.
pub record Cleared (c : Settings) (w : World) (on_shutdown : Bool) (s t : Sup) : Type 0 where
  pub submits : bag_only c ≡ false
  pub probed : (verify_ready_to_push w s).1 ≡ true
  pub unbarred : Open c w on_shutdown (tracked c w on_shutdown s)
  pub not_deferred :
      (on_shutdown || force_mine_mode c || leb (tracked c w on_shutdown s).defer_submit_until w.now)
      ≡ true
  pub fresh :
      ((is_draining c (tracked c w on_shutdown s) ≡ true) × (t ≡ tracked c w on_shutdown s))
      ⊎ ((is_draining c (tracked c w on_shutdown s) ≡ false)
          × Refreshed c w on_shutdown (tracked c w on_shutdown s) t)

not_barred :
    (c : Settings) (w : World) (on_shutdown : Bool) (s : Sup)
    → flush_barred c w on_shutdown s ≡ false
    → Open c w on_shutdown s
unfolding flush_barred
not_barred c w on_shutdown s e = ground (arith, e)

not_deferred_yet :
    (c : Settings) (w : World) (on_shutdown : Bool) (s : Sup)
    → flush_deferred c w on_shutdown s ≡ false
    → (on_shutdown || force_mine_mode c || leb s.defer_submit_until w.now) ≡ true
unfolding flush_deferred
not_deferred_yet c w on_shutdown s e = ground (arith, e)

refreshed_gate-Open :
    (c : Settings) (w : World) (on_shutdown : Bool) (s : Sup)
    → (refreshed_gate c w on_shutdown s).1 ≡ true
    → Open c w on_shutdown (refreshed_gate c w on_shutdown s).0
unfolding refreshed_gate
refreshed_gate-Open c w on_shutdown s e =
    not_barred c w on_shutdown (track_drain c w on_shutdown s) (ground (arith, e))

refresh_gate-Refreshed :
    (c : Settings) (w : World) (on_shutdown : Bool) (s : Sup)
    → (refresh_gate c w on_shutdown s).1 ≡ true
    → Refreshed c w on_shutdown s (refresh_gate c w on_shutdown s).0
unfolding refresh_gate
refresh_gate-Refreshed c w on_shutdown s =
    by_if P polled.1 (λ ok. λ go. gated (inl ok) go)
      (λ failed.
        by_if P on_shutdown (λ _. λ go. absurd (false_ne go))
          (λ online.
            by_if P
              (not (flush_submit_allowed c w polled.0)
                || not (oracle_says_m (bag_target_m c polled.0) polled.0))
              (λ _. λ go. absurd (false_ne go))
              (λ both. λ go. gated (inr (online, ground (arith, both), ground (arith, both))) go)))
  where
    polled : Sup × Bool
    polled = refresh_network c w on_shutdown s

    P : Sup × Bool → Type 0
    P r = r.1 ≡ true → Refreshed c w on_shutdown s r.0

    false_ne : ◌≡◌ {A = Bool} false true → ⊥
    false_ne h = cc

    gated :
        ((polled.1 ≡ true)
          ⊎ ((on_shutdown ≡ false)
              × (flush_submit_allowed c w polled.0 ≡ true)
              × (oracle_says_m (bag_target_m c polled.0) polled.0 ≡ true)))
        → P (refreshed_gate c w on_shutdown polled.0)
    gated how go = record {
      polled = how;
      after = unfold refreshed_gate in refl;
      unbarred = refreshed_gate-Open c w on_shutdown polled.0 go;
    }

pub flush_gate-Cleared :
    (c : Settings) (w : World) (on_shutdown : Bool) (s : Sup)
    → (flush_gate c w on_shutdown s).1 ≡ true
    → Cleared c w on_shutdown s (flush_gate c w on_shutdown s).0
unfolding flush_gate
flush_gate-Cleared c w on_shutdown s =
    by_if P (bag_only c) (λ _. λ go. absurd (false_ne go))
      (λ submits.
        by_if P (not (verify_ready_to_push w s).1) (λ _. λ go. absurd (false_ne go))
          (λ probed.
            by_if P (flush_barred c w on_shutdown t) (λ _. λ go. absurd (false_ne go))
              (λ unbarred.
                by_if P (flush_deferred c w on_shutdown t) (λ _. λ go. absurd (false_ne go))
                  (λ due.
                    by_if P (is_draining c t)
                      (λ draining. λ go. cleared submits probed unbarred due (inl (draining, refl)))
                      (λ calm. λ go.
                        cleared submits probed unbarred due
                          (inr (calm, refresh_gate-Refreshed c w on_shutdown t go)))))))
  where
    t : Sup
    t = tracked c w on_shutdown s

    P : Sup × Bool → Type 0
    P r = r.1 ≡ true → Cleared c w on_shutdown s r.0

    false_ne : ◌≡◌ {A = Bool} false true → ⊥
    false_ne h = cc

    cleared :
        {u : Sup}
        → bag_only c ≡ false
        → not (verify_ready_to_push w s).1 ≡ false
        → flush_barred c w on_shutdown t ≡ false
        → flush_deferred c w on_shutdown t ≡ false
        → ((is_draining c t ≡ true) × (u ≡ t))
          ⊎ ((is_draining c t ≡ false) × Refreshed c w on_shutdown t u)
        → Cleared c w on_shutdown s u
    cleared submits probed unbarred due fresh = record {
      submits = submits;
      probed = ground (arith, probed);
      unbarred = not_barred c w on_shutdown t unbarred;
      not_deferred = not_deferred_yet c w on_shutdown t due;
      fresh = fresh;
    }
