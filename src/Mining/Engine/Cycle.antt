-- ===== src/Mining/Engine/Cycle.antt =====
-- What one batch does to the cycle of the fee (`stamp_and_count_hits` of src/mining/cuda_engine.cpp).
use xnminer.Base.{
  ℕ, suc, ◌+◌, ◌*◌, ◌≤◌, ◌≡◌, refl, ◌∙◌, Bool-cases, ◌⊎◌, inl, inr, Bool, true, false, ◌||◌, leb,
  List, [], ◌∷◌, Text, length, All, arith,
}
use native.Mathlib.Nat.{mul-add, mul-le-mul_left}
use xnminer.Common.{BlockHit}
use xnminer.Config.Load.{ServerSettings}
use xnminer.Mining.Engine.{Engine, stamp_and_count_hits}
use xnminer.Mining.Engine.Batch.{MineBatchResult}
use xnminer.Mining.Engine.Stamps.{Stamped, Mines}
use xnminer.Mining.Engine.Fees.{
  hits_of, fee_count, user_count, fee-counts, user-counts, InCycle, SameCounts,
}

pub times_mono : (k a b : ℕ) → a ≤ b → k * a ≤ k * b
times_mono k a b h = mul-le-mul_left k h

closing-enough : (k c u f n : ℕ) → 99 * f ≤ k * c → 99 ≤ u → n ≤ k → 99 * (f + n) ≤ k * (c + u)
closing-enough k c u f n e h l = omega (arith, e, l, mul-add k c u, times_mono k 99 u h)

closing-few : (k c u f n : ℕ) → c ≤ (98 + k) * f → u ≤ 98 + k → 1 ≤ n → c + u ≤ (98 + k) * (f + n)
closing-few k c u f n e h l = omega (arith, e, h, mul-add (98 + k) f n, times_mono (98 + k) 1 n l)

at_fee : (a n : ℕ) → leb 1 (a + suc n) ≡ true
at_fee a n = ground arith

fee_turn :
    {k users fees : ℕ} {e : Engine}
    → InCycle k users fees e
    → e.mining_fee ≡ true
    → (99 ≤ e.user_finds_in_cycle) × (e.user_finds_in_cycle ≤ 98 + k)
fee_turn c fee = (ground (arith, c.turn), ground (arith, c.turn))

user_turn :
    {k users fees : ℕ} {e : Engine}
    → InCycle k users fees e
    → e.mining_fee ≡ false
    → e.user_finds_in_cycle ≤ 98
user_turn c user = ground (arith, c.turn)

-- Whether the next batch is the fee's, by the finds so far.
user_next :
    (k u n : ℕ) (b : Bool)
    → u ≤ 98
    → n ≤ k
    → b ≡ false
    → (((leb 99 (u + n) || b) ≡ true) × (99 ≤ u + n) × (u + n ≤ 98 + k))
      ⊎ (((leb 99 (u + n) || b) ≡ false) × (u + n ≤ 98))
user_next k u n b h l e = ground arith

pub InCycle-same :
    (k users fees : ℕ) (e f : Engine)
    → SameCounts e f
    → InCycle k users fees e
    → InCycle k users fees f
InCycle-same k users fees e f s c = record {
  none_open = s.2 ∙ c.none_open;
  closed = c.closed;
  all_users = omega (arith, s.1, c.all_users);
  enough = c.enough;
  few = c.few;
  turn = rw (s.0, s.1) c.turn;
}

pub InCycle-eq :
    {k u f users fees : ℕ} {e : Engine}
    → users ≡ u
    → fees ≡ f
    → InCycle k u f e
    → InCycle k users fees e
InCycle-eq h l c = rw (h, l) c

module _ (sv : ServerSettings) (k users fees : ℕ) where
  stamp_fee-InCycle :
      (e : Engine) (h : BlockHit) (hits : List BlockHit) (rate : ℕ)
      → sv.dev_fee ≡ true
      → e.mining_fee ≡ true
      → length (h ∷ hits) ≤ k
      → InCycle k users fees e
      → InCycle k users
          (fees + length (h ∷ hits))
          (stamp_and_count_hits sv (h ∷ hits) (record e { last_hashrate = rate }))
  unfolding stamp_and_count_hits
  stamp_fee-InCycle e h hits rate on fee le c =
      let t = fee_turn c fee in
      rw (on, fee, at_fee e.fee_finds_in_cycle (length hits))
        (record {
          none_open = refl;
          closed = c.closed + e.user_finds_in_cycle;
          all_users = omega (arith, c.all_users);
          enough =
              closing-enough k c.closed e.user_finds_in_cycle fees (suc (length hits)) c.enough t.0
                le;
          few =
              closing-few k c.closed e.user_finds_in_cycle fees (suc (length hits)) c.few t.1
                (omega arith);
          turn = inr (refl, omega arith);
        })

  stamp_user-InCycle :
      (e : Engine) (h : BlockHit) (hits : List BlockHit) (rate : ℕ)
      → sv.dev_fee ≡ true
      → e.mining_fee ≡ false
      → length (h ∷ hits) ≤ k
      → InCycle k users fees e
      → InCycle k
          (users + length (h ∷ hits))
          fees
          (stamp_and_count_hits sv (h ∷ hits) (record e { last_hashrate = rate }))
  unfolding stamp_and_count_hits
  stamp_user-InCycle e h hits rate on user le c =
      rw (on, user)
        (record {
          none_open = c.none_open;
          closed = c.closed;
          all_users = omega (arith, c.all_users);
          enough = c.enough;
          few = c.few;
          turn =
              user_next k e.user_finds_in_cycle (suc (length hits)) false (user_turn c user) le
                refl;
        })

  -- What the counts of a batch's hits add to the cycle.
  stamp-InCycle :
      (e : Engine) (out hits : List BlockHit) (rate : ℕ)
      → sv.dev_fee ≡ true
      → length hits ≡ length out
      → length out ≤ k
      → All (Stamped e) out
      → InCycle k users fees e
      → InCycle k
          (users + user_count out)
          (fees + fee_count out)
          (stamp_and_count_hits sv hits (record e { last_hashrate = rate }))
  unfolding stamp_and_count_hits
  stamp-InCycle e out [] rate on same le a c = elim (Bool-cases e.mining_fee) [
    | inl fee ↦
        let n = fee-counts e out fee a in
        InCycle-eq (omega (arith, n.1)) (omega (arith, n.0, same)) (InCycle-same _ _ _ e _ kept c)
    | inr user ↦
        let n = user-counts e out user a in
        InCycle-eq (omega (arith, n.1, same)) (omega (arith, n.0)) (InCycle-same _ _ _ e _ kept c)
  ]
    where
      kept : SameCounts e (stamp_and_count_hits sv [] (record e { last_hashrate = rate }))
      kept = (refl, refl, refl)
  stamp-InCycle e out (h ∷ hits) rate on same le a c = elim (Bool-cases e.mining_fee) [
    | inl fee ↦
        let n = fee-counts e out fee a in
        InCycle-eq (omega (arith, n.1)) (omega (arith, n.0, same))
          (stamp_fee-InCycle e h hits rate on fee (omega (arith, same, le)) c)
    | inr user ↦
        let n = user-counts e out user a in
        InCycle-eq (omega (arith, n.1, same)) (omega (arith, n.0))
          (stamp_user-InCycle e h hits rate on user (omega (arith, same, le)) c)
  ]

  pub Mines-InCycle :
      (e : Engine) (r : (Text ⊎ MineBatchResult) × Engine) (n : ℕ)
      → sv.dev_fee ≡ true
      → n ≤ k
      → InCycle k users fees e
      → Mines sv e n r
      → InCycle k (users + user_count (hits_of r.0)) (fees + fee_count (hits_of r.0)) r.1
  Mines-InCycle e (inl error, f) n on le c m = rw m (InCycle-eq (omega arith) (omega arith) c)
  Mines-InCycle e (inr out, f) n on le c m =
      rw m.2.3 (stamp-InCycle e out.hits m.2.0 m.2.1 on m.2.2 (omega (arith, m.1, le)) m.0 c)
