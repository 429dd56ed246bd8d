-- ===== src/Supervisor/Network/Laws.antt =====
-- What the submit side of src/app/supervisor.cpp knows of the pool after a poll, and how long a drain of
-- the bag lasts.
use xnminer.Base.{
  ◌+◌, ◌<◌, ◌≡◌, refl, ◌∙◌, ap, ℤ, pos, ◌<ℤ◌, Bool, true, false, not, ◌&&◌, ◌||◌, Option, none,
  some, arith, ltb, ◌==◌, if◌then◌else◌, value_or, is_some,
}
use xnminer.Network.Difficulty.{accept_network_difficulty}
use xnminer.Network.Difficulty.Laws.{accept_network_difficulty_cases}
use xnminer.Supervisor.State.{Settings, World, Sup, known_m}
use xnminer.Supervisor.Network.{
  refresh_network, update_match_drain, end_drain, start_drain, take_difficulty, miss_difficulty,
  after_poll, drain_off, drain_ends, drain_starts, drain_timed_out, age_below,
}
use xnminer.Supervisor.Hits.Kept.{by_if}

-- The two facts of the network that a drain leaves alone.
abbrev SameNetwork : Sup → Sup → Type 0
SameNetwork s t = (t.network_ok ≡ s.network_ok) × (t.network_difficulty ≡ s.network_difficulty)

update_match_drain-network :
    (c : Settings) (w : World) (s : Sup) → SameNetwork s (update_match_drain c w s)
unfolding update_match_drain end_drain start_drain
update_match_drain-network c w s =
    by_if (SameNetwork s) (drain_off c)
      (λ _. by_if (SameNetwork s) s.match_drain_active (λ _. (refl, refl)) (λ _. (refl, refl)))
      (λ _.
        by_if (SameNetwork s) s.match_drain_active
          (λ _. by_if (SameNetwork s) (drain_ends c w s) (λ _. (refl, refl)) (λ _. (refl, refl)))
          (λ _. by_if (SameNetwork s) (drain_starts c s) (λ _. (refl, refl)) (λ _. (refl, refl))))

-- The answer agrees with the state, and what was known stays known.
record Reports (s : Sup) (p : Sup × Bool) : Type 0 where
  answer : p.1 ≡ (p.0.network_ok && is_some p.0.network_difficulty)
  known : known_m s.network_difficulty ≡ true → known_m p.0.network_difficulty ≡ true

miss_difficulty-Reports : (c : Settings) (w : World) (s : Sup) → Reports s (miss_difficulty c w s)
unfolding miss_difficulty
miss_difficulty-Reports c w s =
    by_if (Reports s)
      (is_some s.network_difficulty && age_below 180000 w s && ltb (s.difficulty_fail_streak + 1) 8)
      (λ e. record { answer = ground (arith, e); known = λ k. k })
      (λ _. record { answer = refl; known = λ k. k })

take_difficulty-known :
    (c : Settings) (w : World) (raw : ℤ) (s : Sup)
    → known_m (take_difficulty c w raw s).network_difficulty ≡ true
unfolding take_difficulty
take_difficulty-known c w raw s =
    positive (accept_network_difficulty raw (value_or s.network_difficulty c.memory_cost))
      (accept_network_difficulty_cases raw (value_or s.network_difficulty c.memory_cost)).0
  where
    positive : (m : ℤ) → pos 0 <ℤ m → known_m (some m) ≡ true
    positive m h = ground (arith, h)

good_poll-Reports :
    (c : Settings) (w : World) (raw : ℤ) (s : Sup)
    → Reports s (update_match_drain c w (take_difficulty c w raw s), true)
unfolding take_difficulty
good_poll-Reports c w raw s =
    let (ok, same) = update_match_drain-network c w (take_difficulty c w raw s) in
    record {
      answer = rw (ok, same) refl;
      known = λ _. ap known_m same ∙ take_difficulty-known c w raw s;
    }

-- After every poll the answer of `refresh_network` is what the state says: the network counts as up and
-- some /difficulty is known. A positive m= that was known stays known and positive, whatever the poll.
pub refresh_network-known :
    (c : Settings) (w : World) (blocking : Bool) (s : Sup)
    → let (t, up) = refresh_network c w blocking s in
      (up ≡ (t.network_ok && is_some t.network_difficulty))
      × (not (known_m s.network_difficulty) || known_m t.network_difficulty) ≡ true
unfolding refresh_network
refresh_network-known c w blocking s = (report.answer, ground (arith, report.known))
  where
    seen : Sup
    seen = record s { last_poll_seq = if w.poll.seq == 0 then s.last_poll_seq else w.poll.seq }

    after : (d : Option ℤ) → Reports seen (after_poll c w d seen)
    after none = miss_difficulty-Reports c w seen
    after (some raw) = good_poll-Reports c w raw seen

    report : Reports s (refresh_network c w blocking s)
    report =
        by_if (Reports s) (not blocking && (w.poll.seq == 0 || w.poll.seq == s.last_poll_seq))
          (λ _. record { answer = refl; known = λ k. k })
          (λ _. record {
            answer = (after w.poll.difficulty).answer;
            known = (after w.poll.difficulty).known;
          })

-- A drain that is on has time left.
abbrev InTime : World → Sup → Type 0
InTime w t = t.match_drain_active ≡ true → w.now < t.match_drain_until

running-InTime :
    (c : Settings) (w : World) (s : Sup)
    → 0 < c.match_drain_max_ms
    → (not s.match_drain_active || ltb 0 s.match_drain_until) ≡ true
    → drain_ends c w s ≡ false
    → InTime w s
unfolding drain_ends drain_timed_out
running-InTime c w s budget set e on = ground (arith, budget, set, e, on)

-- A drain that is on after `update_match_drain` has time left: with a time budget set, and a deadline on
-- every drain that is on before, its deadline is still to come.
pub update_match_drain-in_time :
    (c : Settings) (w : World) (s : Sup)
    → 0 < c.match_drain_max_ms
    → (not s.match_drain_active || ltb 0 s.match_drain_until) ≡ true
    → (update_match_drain c w s).match_drain_active ≡ true
    → w.now < (update_match_drain c w s).match_drain_until
unfolding update_match_drain end_drain start_drain
update_match_drain-in_time c w s budget set =
    by_if (InTime w) (drain_off c)
      (λ _.
        by_if (InTime w) s.match_drain_active (λ _ k. ground (arith, k))
          (λ e k. ground (arith, e, k)))
      (λ _.
        by_if (InTime w) s.match_drain_active
          (λ _.
            by_if (InTime w) (drain_ends c w s) (λ _ k. ground (arith, k))
              (λ e. running-InTime c w s budget set e))
          (λ off.
            by_if (InTime w) (drain_starts c s) (λ _ k. ground (arith, budget))
              (λ _ k. ground (arith, off, k))))
