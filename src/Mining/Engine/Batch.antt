-- ===== src/Mining/Engine/Batch.antt =====
-- The batches of src/mining/cuda_engine.cpp: which matches become hits, their order, and the counts. What
-- the hash library answers is an argument, and so are the sum and the sign of its hash rates, which are
-- doubles kept as bit patterns.
use mathlib.Core.Option
use xnminer.Base.{
  ℕ, ◌+◌, pos, Bool, true, false, not, ◌&&◌, ◌||◌, ◌⊎◌, inl, inr, Option, none, some, List, [], ◌∷◌,
  ◌++◌, map, Text, codes, text_eq, is_empty, ltb, ◌==◌, if◌then◌else◌,
}
use xnminer.Common.{BlockHit}
use xnminer.Config.Load.{ServerSettings, MiningSettings}
use xnminer.Mining.Classify.{classify_block}
use xnminer.Mining.Encode.{is_hex64_key}
use xnminer.Mining.Engine.{Engine, begin_batch, stamp_and_count_hits}

-- What the engine reads of a match and of an answer of the hash library.
pub record Match : Type 0 where
  pub key : Text
  pub hash : Text
  pub matched_pattern : Text

pub record HashApiResult : Type 0 where
  pub ok : Bool
  pub error : Text
  pub attempts : ℕ
  pub hashrate : ℕ
  pub matches : List Match

-- `now` is the time as a text.
unfoldable pub hit_from_match : MiningSettings → Text → Engine → Match → ℕ → ℕ → Option BlockHit
unfolding classify_block is_hex64_key text_eq
hit_from_match ms now e m attempts hps =
    let kind = classify_block m.hash m.matched_pattern in
    if text_eq kind (codes "OTHER") || not (is_hex64_key m.key)
    then none
    else some (record {
      key = m.key;
      hash_str = m.hash;
      block_type = kind;
      attempts = pos attempts;
      strategy = ms.strategy;
      hps = hps;
      found_at = now;
      memory_cost = some e.difficulty;
      payout_account = e.active_payout;
      salt_hex = e.active_salt;
      fee_block = e.mining_fee;
    })

unfoldable pub hit_rank : BlockHit → ℕ
unfolding text_eq
hit_rank h =
    if text_eq h.block_type (codes "XNM")
    then 0
    else if text_eq h.block_type (codes "XBLK")
    then 1
    else if text_eq h.block_type (codes "XUNI")
    then 2
    else 3

-- `MineBatchResult`; nothing sets `aborted`.
pub record MineBatchResult : Type 0 where
  pub hashes_done : ℕ
  pub hits : List BlockHit
  pub hit : Option BlockHit

-- The best hit so far, when one more is found.
unfoldable pub better : BlockHit → Option BlockHit → Option BlockHit
unfolding hit_rank
better h none = some h
better h (some b) = if ltb (hit_rank h) (hit_rank b) then some h else some b

abbrev pub add_hit : Option BlockHit → MineBatchResult → MineBatchResult
add_hit none out = out
add_hit (some h) out = record out { hits = out.hits ++ (h ∷ []); hit = better h out.hit }

unfoldable pub absorb_matches :
    (Match → Option BlockHit) → List Match → MineBatchResult → MineBatchResult
unfolding better
absorb_matches f [] out = out
absorb_matches f (m ∷ ms) out = absorb_matches f ms (add_hit (f m) out)

abbrev pub set_hps : ℕ → BlockHit → BlockHit
set_hps total h = record h { hps = total }

abbrev pub set_best : ℕ → Option BlockHit → Option BlockHit
set_best total none = none
set_best total (some h) = some (set_hps total h)

module _ (add_hs : ℕ → ℕ → ℕ) (positive : ℕ → Bool) where
  abbrev pub lane_hit : MiningSettings → Text → Engine → HashApiResult → ℕ → Match → Option BlockHit
  lane_hit ms now e r total m =
      Option.map (set_hps (if positive total then total else r.hashrate))
        (hit_from_match ms now e m r.attempts r.hashrate)

  -- One answer that is ok, given the hash rate that is summed up so far.
  unfoldable pub absorb :
      MiningSettings → Text → Engine → HashApiResult → ℕ → MineBatchResult → MineBatchResult
  unfolding absorb_matches hit_from_match
  absorb ms now e r total out =
      absorb_matches (lane_hit ms now e r total) r.matches
        (record out { hashes_done = out.hashes_done + r.attempts })

  -- The answers of all lanes in their order; the first that is not ok is thrown.
  unfoldable pub absorb_all :
      MiningSettings
      → Text
      → Engine
      → List HashApiResult
      → ℕ
      → MineBatchResult
      → Text ⊎ (MineBatchResult × ℕ)
  unfolding absorb
  absorb_all ms now e [] total out = inr (out, total)
  absorb_all ms now e (r ∷ rs) total out =
      let sum = add_hs total r.hashrate in
      if r.ok
      then absorb_all ms now e rs sum (absorb ms now e r sum out)
      else inl (if is_empty r.error then codes "CUDA batch failed" else r.error)

abbrev pub no_result : MineBatchResult
no_result = record { hashes_done = 0; hits = []; hit = none }

unfoldable pub text_lt : Text → Text → Bool
text_lt [] [] = false
text_lt [] (d ∷ t) = true
text_lt (c ∷ s) [] = false
text_lt (c ∷ s) (d ∷ t) = ltb c d || ((c == d) && text_lt s t)

-- The comparison of the sort: better blocks first, then by the key.
unfoldable pub hit_before : BlockHit → BlockHit → Bool
unfolding hit_rank text_lt
hit_before a b =
    if hit_rank a == hit_rank b then text_lt a.key b.key else ltb (hit_rank a) (hit_rank b)

unfoldable pub insert_hit : BlockHit → List BlockHit → List BlockHit
insert_hit x [] = x ∷ []
insert_hit x (y ∷ ys) = if hit_before y x then y ∷ insert_hit x ys else x ∷ y ∷ ys

-- `std::sort`, where hits of the same rank and key keep their order.
unfoldable pub sort_hits : List BlockHit → List BlockHit
unfolding insert_hit
sort_hits [] = []
sort_hits (x ∷ xs) = insert_hit x (sort_hits xs)

-- What happens to a batch whose lanes have all answered.
unfoldable pub finish_batch :
    ServerSettings → ℕ → MineBatchResult → Engine → MineBatchResult × Engine
unfolding stamp_and_count_hits sort_hits
finish_batch sv total out e =
    let hits = map (set_hps total) out.hits in
    (
      record out { hits = sort_hits hits; hit = set_best total out.hit },
      stamp_and_count_hits sv hits (record e { last_hashrate = total }),
    )

abbrev pub finish_or_throw :
    ServerSettings → Engine → Text ⊎ (MineBatchResult × ℕ) → (Text ⊎ MineBatchResult) × Engine
finish_or_throw sv e (inl error) = (inl error, e)
finish_or_throw sv e (inr (out, total)) =
    let (done, e') = finish_batch sv total out e in (inr done, e')

module _ (add_hs : ℕ → ℕ → ℕ) (positive : ℕ → Bool) where
  -- A batch with the answers of its lanes.
  unfoldable pub run_batch :
      ServerSettings
      → MiningSettings
      → ℕ
      → Text
      → List HashApiResult
      → Engine
      → (Text ⊎ MineBatchResult) × Engine
  unfolding begin_batch absorb_all finish_batch
  run_batch sv ms minute now results e =
      let b = begin_batch sv ms minute e in
      finish_or_throw sv b (absorb_all add_hs positive ms now b results 0 no_result)

  -- `ready`: the engine is started, with lanes and a batch size.
  unfoldable pub mine_batch :
      ServerSettings
      → MiningSettings
      → Bool
      → ℕ
      → Text
      → List HashApiResult
      → Engine
      → (Text ⊎ MineBatchResult) × Engine
  unfolding run_batch
  mine_batch sv ms ready minute now results e =
      if not ready then (inr no_result, e) else run_batch sv ms minute now results e

  abbrev pub left_hit : MiningSettings → Text → Engine → HashApiResult → Match → Option BlockHit
  left_hit ms now e r m =
      Option.map (set_hps e.last_hashrate) (hit_from_match ms now e m r.attempts e.last_hashrate)

  -- The answers that are still in the pipeline; one that failed with an error is left out.
  unfoldable pub absorb_left :
      MiningSettings → Text → Engine → List HashApiResult → MineBatchResult → MineBatchResult
  unfolding absorb_matches hit_from_match
  absorb_left ms now e [] out = out
  absorb_left ms now e (r ∷ rs) out = absorb_left ms now e rs (
      if not r.ok && not (is_empty r.error)
      then out
      else absorb_matches (left_hit ms now e r) r.matches
          (record out { hashes_done = out.hashes_done + r.attempts }))

  unfoldable pub drain_pipeline :
      ServerSettings
      → MiningSettings
      → Bool
      → Text
      → List HashApiResult
      → Engine
      → MineBatchResult × Engine
  unfolding absorb_left stamp_and_count_hits
  drain_pipeline sv ms ready now results e =
      let out = absorb_left ms now e results no_result in
      if not ready then (no_result, e) else (
        record out { hit = set_best e.last_hashrate out.hit },
        stamp_and_count_hits sv out.hits e,
      )
