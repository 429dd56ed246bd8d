-- ===== src/Mining/Engine/Stamps.antt =====
-- What the hits of one batch of src/mining/cuda_engine.cpp carry, and how many they are.
use mathlib.Core.Option
use xnminer.Base.{
  ℕ, ◌+◌, ◌≤◌, ◌≡◌, refl, ◌⊎◌, inl, inr, Bool, Bool-cases, Option, none, some, List, [], ◌∷◌, ◌++◌,
  map, Text, text_eq, not, ◌||◌, codes, length, All, All-append, arith,
}
use xnminer.Common.{BlockHit}
use xnminer.Config.Load.{ServerSettings, MiningSettings}
use xnminer.Mining.Classify.{classify_block}
use xnminer.Mining.Encode.{is_hex64_key}
use xnminer.Mining.Engine.{Engine, begin_batch, stamp_and_count_hits}
use xnminer.Mining.Engine.Batch.{
  Match, HashApiResult, MineBatchResult, absorb_matches, add_hit, absorb, absorb_all, lane_hit,
  hit_from_match, set_hps, insert_hit, sort_hits, hit_before, finish_batch, run_batch, no_result,
  finish_or_throw,
}

-- The hit carries the payout of the batch and says whether the batch is the fee's.
abbrev pub Stamped : Engine → BlockHit → Type 0
Stamped e h =
    (h.fee_block ≡ e.mining_fee)
    × (h.payout_account ≡ e.active_payout)
    × (h.salt_hex ≡ e.active_salt)

abbrev pub match_count : List HashApiResult → ℕ
match_count [] = 0
match_count (r ∷ rs) = length r.matches + match_count rs

abbrev IfHit : (BlockHit → Type 0) → Option BlockHit → Type 0
IfHit P none = Unit {0}
IfHit P (some h) = P h

length-snoc : (hs : List BlockHit) (h : BlockHit) → length (hs ++ (h ∷ [])) ≡ length hs + 1
length-snoc [] h = refl
length-snoc (g ∷ hs) h = omega (arith, length-snoc hs h)

module _ (P : BlockHit → Type 0) where
  add_hit-All :
      (o : Option BlockHit) (out : MineBatchResult)
      → IfHit P o
      → All P out.hits
      → All P (add_hit o out).hits × (length (add_hit o out).hits ≤ length out.hits + 1)
  add_hit-All none out p a = (a, omega arith)
  add_hit-All (some h) out p a =
      (All-append P out.hits (h ∷ []) a (p, tt), omega (arith, length-snoc out.hits h))

  absorb_matches-All :
      (f : Match → Option BlockHit) (ms : List Match) (out : MineBatchResult)
      → ((m : Match) → IfHit P (f m))
      → All P out.hits
      → All P (absorb_matches f ms out).hits
        × (length (absorb_matches f ms out).hits ≤ length out.hits + length ms)
  unfolding absorb_matches
  absorb_matches-All f [] out g a = (a, omega arith)
  absorb_matches-All f (m ∷ ms) out g a =
      let here = add_hit-All (f m) out (g m) a in
      let rest = absorb_matches-All f ms (add_hit (f m) out) g here.0 in
      (rest.0, omega (arith, here.1, rest.1))

  insert_hit-All :
      (x : BlockHit) (ys : List BlockHit)
      → P x
      → All P ys
      → All P (insert_hit x ys) × (length (insert_hit x ys) ≡ length ys + 1)
  unfolding insert_hit
  insert_hit-All x [] p a = ((p, tt), refl)
  insert_hit-All x (y ∷ ys) p a = elim (Bool-cases (hit_before y x)) [
    | inl e ↦ let r = insert_hit-All x ys p a.1 in rw e ((a.0, r.0), omega (arith, r.1))
    | inr e ↦ rw e ((p, a), omega arith)
  ]

  sort_hits-All :
      (xs : List BlockHit) → All P xs → All P (sort_hits xs) × (length (sort_hits xs) ≡ length xs)
  unfolding sort_hits
  sort_hits-All [] a = (tt, refl)
  sort_hits-All (x ∷ xs) a =
      let rest = sort_hits-All xs a.1 in
      let here = insert_hit-All x (sort_hits xs) a.0 rest.0 in
      (here.0, omega (arith, here.1, rest.1))

map-set_hps-Stamped :
    (e : Engine) (total : ℕ) (hs : List BlockHit)
    → All (Stamped e) hs
    → All (Stamped e) (map (set_hps total) hs) × (length (map (set_hps total) hs) ≡ length hs)
map-set_hps-Stamped e total [] a = (tt, refl)
map-set_hps-Stamped e total (h ∷ hs) a =
    let rest = map-set_hps-Stamped e total hs a.1 in ((a.0, rest.0), omega (arith, rest.1))

hit_from_match-Stamped :
    (ms : MiningSettings) (now : Text) (e : Engine) (m : Match) (attempts hps rate : ℕ)
    → IfHit (Stamped e) (Option.map (set_hps rate) (hit_from_match ms now e m attempts hps))
unfolding hit_from_match
hit_from_match-Stamped ms now e m attempts hps rate =
    elim (Bool-cases (
      text_eq (classify_block m.hash m.matched_pattern) (codes "OTHER")
      || not (is_hex64_key m.key))) [ inl c ↦ rw c tt | inr c ↦ rw c (refl, refl, refl) ]

-- What the answers of the lanes make of a result: nothing where one is thrown.
abbrev pub Gives : (BlockHit → Type 0) → ℕ → Text ⊎ (MineBatchResult × ℕ) → Type 0
Gives P n (inl error) = Unit {0}
Gives P n (inr out) = All P out.0.hits × (length out.0.hits ≤ n)

Gives-weaken :
    (P : BlockHit → Type 0) (n k : ℕ) (o : Text ⊎ (MineBatchResult × ℕ))
    → n ≤ k
    → Gives P n o
    → Gives P k o
Gives-weaken P n k (inl error) h g = tt
Gives-weaken P n k (inr out) h g = (g.0, omega (arith, h, g.1))

module _ (add_hs : ℕ → ℕ → ℕ) (positive : ℕ → Bool) where
  absorb_all-Gives :
      (ms : MiningSettings) (now : Text) (e : Engine) (rs : List HashApiResult) (total : ℕ)
      (out : MineBatchResult)
      → All (Stamped e) out.hits
      → Gives
          (Stamped e)
          (length out.hits + match_count rs)
          (absorb_all add_hs positive ms now e rs total out)
  unfolding absorb_all absorb
  absorb_all-Gives ms now e [] total out a = (a, omega arith)
  absorb_all-Gives ms now e (r ∷ rs) total out a = elim (Bool-cases r.ok) [
    | inl c ↦ rw c (
        Gives-weaken (Stamped e) _ _ _ (omega (arith, here.1))
          (absorb_all-Gives ms now e rs sum (absorb add_hs positive ms now e r sum out) here.0))
    | inr c ↦ rw c tt
  ]
    where
      sum : ℕ
      sum = add_hs total r.hashrate

      here :
          All (Stamped e) (absorb add_hs positive ms now e r sum out).hits
          × (length (absorb add_hs positive ms now e r sum out).hits
              ≤ length out.hits + length r.matches)
      here =
          absorb_matches-All (Stamped e) (lane_hit add_hs positive ms now e r sum) r.matches
            (record out { hashes_done = out.hashes_done + r.attempts })
            (λ m. hit_from_match-Stamped ms now e m r.attempts r.hashrate _) a

-- What a batch does to the engine, and what its hits are.
abbrev pub Mines : ServerSettings → Engine → ℕ → (Text ⊎ MineBatchResult) × Engine → Type 0
Mines sv b n (inl error, e) = e ≡ b
Mines sv b n (inr out, e) =
    All (Stamped b) out.hits
    × (length out.hits ≤ n)
    × ((hits : List BlockHit) × (rate : ℕ) × (length hits ≡ length out.hits)
        × (e ≡ stamp_and_count_hits sv hits (record b { last_hashrate = rate })))

finish-Mines :
    (sv : ServerSettings) (b : Engine) (n : ℕ) (o : Text ⊎ (MineBatchResult × ℕ))
    → Gives (Stamped b) n o
    → Mines sv b n (finish_or_throw sv b o)
unfolding finish_batch
finish-Mines sv b n (inl error) g = refl
finish-Mines sv b n (inr (out, total)) g =
    let set = map-set_hps-Stamped b total out.hits g.0 in
    let sorted = sort_hits-All (Stamped b) (map (set_hps total) out.hits) set.0 in
    (
      sorted.0,
      omega (arith, sorted.1, set.1, g.1),
      (map (set_hps total) out.hits, total, omega (arith, sorted.1), refl),
    )

module _ (add_hs : ℕ → ℕ → ℕ) (positive : ℕ → Bool) where
  pub run_batch-Mines :
      (sv : ServerSettings) (ms : MiningSettings) (minute : ℕ) (now : Text)
      (rs : List HashApiResult) (e : Engine)
      → Mines sv
          (begin_batch sv ms minute e)
          (match_count rs)
          (run_batch add_hs positive sv ms minute now rs e)
  unfolding run_batch
  run_batch-Mines sv ms minute now rs e =
      finish-Mines sv (begin_batch sv ms minute e) (match_count rs) _ (
        Gives-weaken (Stamped (begin_batch sv ms minute e)) _ _ _ (omega arith)
          (absorb_all-Gives add_hs positive ms now (begin_batch sv ms minute e) rs 0 no_result tt))
