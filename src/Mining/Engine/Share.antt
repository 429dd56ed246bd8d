-- ===== src/Mining/Engine/Share.antt =====
-- That the fee's share of the blocks stays within its bounds (`stamp_and_count_hits` and
-- `select_payout_salt` of src/mining/cuda_engine.cpp).
use xnminer.Base.{
  ℕ, ◌+◌, ◌*◌, ◌≤◌, ◌≡◌, Bool-cases, inl, inr, Bool, true, false, List, [], ◌∷◌, All, arith,
}
use native.Mathlib.Nat.{mul-add}
use xnminer.Config.Load.{ServerSettings, MiningSettings}
use xnminer.Mining.Engine.{Engine, begin_batch, same_address}
use xnminer.Mining.Engine.Batch.{run_batch, mine_batch}
use xnminer.Mining.Engine.Stamps.{match_count, run_batch-Mines}
use xnminer.Mining.Engine.Fees.{
  Round, hits_of, mine_all, fee_count, user_count, counts-append, InCycle, begin_batch-SameCounts,
}
use xnminer.Mining.Engine.Cycle.{times_mono, InCycle-same, InCycle-eq, Mines-InCycle}

-- Each batch has at most `k` matches.
abbrev pub AtMost : ℕ → List Round → Type 0
AtMost k rounds = All (λ r. match_count r.results ≤ k) rounds

mine_batch-InCycle :
    (add_hs : ℕ → ℕ → ℕ) (positive : ℕ → Bool) (sv : ServerSettings) (ms : MiningSettings) (k : ℕ)
    (r : Round) (users fees : ℕ) (e : Engine)
    → sv.dev_fee ≡ true
    → same_address sv ≡ false
    → match_count r.results ≤ k
    → InCycle k users fees e
    → let (o, last) = mine_batch add_hs positive sv ms r.ready r.minute r.now r.results e in
      InCycle k (users + user_count (hits_of o)) (fees + fee_count (hits_of o)) last
unfolding mine_batch
mine_batch-InCycle add_hs positive sv ms k r users fees e on other le c =
    elim (Bool-cases r.ready) [
      | inl ready ↦
          let b = begin_batch sv ms r.minute e in
          rw ready (
            Mines-InCycle sv k users fees b
              (run_batch add_hs positive sv ms r.minute r.now r.results e) (match_count r.results)
              on le
              (InCycle-same k users fees e b (begin_batch-SameCounts sv ms r.minute e on other) c)
              (run_batch-Mines add_hs positive sv ms r.minute r.now r.results e))
      | inr idle ↦ rw idle (InCycle-eq (omega arith) (omega arith) c)
    ]

mine_all-InCycle :
    (add_hs : ℕ → ℕ → ℕ) (positive : ℕ → Bool) (sv : ServerSettings) (ms : MiningSettings) (k : ℕ)
    (rounds : List Round) (users fees : ℕ) (e : Engine)
    → sv.dev_fee ≡ true
    → same_address sv ≡ false
    → AtMost k rounds
    → InCycle k users fees e
    → let (hits, last) = mine_all add_hs positive sv ms rounds e in
      InCycle k (users + user_count hits) (fees + fee_count hits) last
unfolding mine_all
mine_all-InCycle add_hs positive sv ms k [] users fees e on other le c =
    InCycle-eq (omega arith) (omega arith) c
mine_all-InCycle add_hs positive sv ms k (r ∷ rounds) users fees e on other le c =
    let m = mine_batch add_hs positive sv ms r.ready r.minute r.now r.results e in
    let (hits, last) = mine_all add_hs positive sv ms rounds m.1 in
    let n = counts-append (hits_of m.0) hits in
    InCycle-eq (omega (arith, n.1)) (omega (arith, n.0)) (
      mine_all-InCycle add_hs positive sv ms k rounds _ _ m.1 on other le.1
        (mine_batch-InCycle add_hs positive sv ms k r users fees e on other le.0 c))

InCycle-bounds :
    (k users fees : ℕ) (e : Engine)
    → InCycle k (0 + users) (0 + fees) e
    → (99 * fees ≤ k * users) × (users ≤ (98 + k) * (fees + 1))
InCycle-bounds k users fees e c = (
  omega (arith, c.enough, times_mono k c.closed users (omega (arith, c.all_users))),
  omega (arith, c.few, c.all_users, mul-add (98 + k) fees 1, at_most),
)
  where
    at_most : e.user_finds_in_cycle ≤ 98 + k
    at_most = ground (arith, c.turn)

-- The counters at the beginning, as the engine is built.
abbrev pub Fresh : Engine → Type 0
Fresh e = (e.mining_fee ≡ false) × (e.user_finds_in_cycle ≡ 0) × (e.fee_finds_in_cycle ≡ 0)

-- Where the fee is on and the user is not its receiver, and no batch has more than `k` matches, then
-- after any sequence of batches from a fresh engine, some of which may have failed, the fee has at
-- most `k` blocks for every 99 of the user, and the user has at most `98 + k` blocks for each block
-- of the fee, and for the one that is due.
pub mine_all-fees :
    (add_hs : ℕ → ℕ → ℕ) (positive : ℕ → Bool) (sv : ServerSettings) (ms : MiningSettings) (k : ℕ)
    (rounds : List Round) (e : Engine)
    → sv.dev_fee ≡ true
    → same_address sv ≡ false
    → AtMost k rounds
    → Fresh e
    → let hits = (mine_all add_hs positive sv ms rounds e).0 in
      (99 * fee_count hits ≤ k * user_count hits)
      × (user_count hits ≤ (98 + k) * (fee_count hits + 1))
mine_all-fees add_hs positive sv ms k rounds e on other le fresh = InCycle-bounds k _ _ _ (
    mine_all-InCycle add_hs positive sv ms k rounds 0 0 e on other le (record {
      none_open = fresh.2;
      closed = 0;
      all_users = omega (arith, fresh.1);
      enough = omega arith;
      few = omega arith;
      turn = inr (fresh.0, omega (arith, fresh.1));
    }))
