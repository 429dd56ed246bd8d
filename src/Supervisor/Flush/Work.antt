-- ===== src/Supervisor/Flush/Work.antt =====
-- The work list of `try_flush_pending` in src/app/supervisor.cpp: which of the listed rows a wave sends,
-- and as what.
use xnminer.Base.{
  ℕ, ◌+◌, ℤ, eqb_ℤ, Bool, not, ◌&&◌, ◌||◌, Option, none, some, List, [], ◌∷◌, Text, is_empty, ltb,
  leb, if◌then◌else◌,
}
use xnminer.Common.{BlockHit}
use xnminer.Policy.{ready_to_flush}
use xnminer.Mining.Encode.{is_argon2_encoded}
use xnminer.Mining.Prepare.{prepare_hit_for_submit}
use xnminer.Store.Defs.{PendingBlock, Store, mark_submitted}
use xnminer.Supervisor.State.{Settings, World}
use xnminer.Supervisor.Hits.{hit_m_of}
use xnminer.Supervisor.Flush.{WorkItem}

-- What the loop does with a row: it goes on, it gives the row up, or it sends it.
pub data Choice : Type 0 where
  passed : Choice
  given_up : Choice
  chosen : WorkItem → Choice

-- The guard on the m= of a row; `bag` is `bag_target_m()`.
unfoldable pub fits_wave : Bool → ℤ → ℤ → ℤ → Bool
fits_wave draining bag net_m hit_m =
    if draining then eqb_ℤ hit_m bag || eqb_ℤ hit_m net_m else eqb_ℤ hit_m net_m

abbrev pub prepared_choice : ℕ → Option BlockHit → Choice
prepared_choice id none = given_up
prepared_choice id (some hit) = chosen (record { id = id; hit = hit })

unfoldable pub flush_salt : Settings → BlockHit → Text
flush_salt c hit = if is_empty hit.salt_hex then c.salt_hex else hit.salt_hex

unfoldable pub choice : Settings → World → Bool → ℤ → ℤ → PendingBlock → Choice
unfolding fits_wave flush_salt
choice c w draining bag net_m pb =
    if not (ready_to_flush w.minute pb.block_type).0
    then passed
    else if not (fits_wave draining bag net_m (hit_m_of c w pb.hit))
    then passed
    else if is_argon2_encoded pb.hash_str
    then chosen (record { id = pb.id; hit = pb.hit })
    else prepared_choice pb.id (
        prepare_hit_for_submit w.base64_encode pb.hit (flush_salt c pb.hit) (hit_m_of c w pb.hit)
          c.time_cost c.parallelism)

-- The loop over the rows. `got` is the size of the work list so far, and a `wave` of 0 is no bound.
unfoldable pub choose :
    Settings → World → Bool → ℤ → ℤ → ℕ → ℕ → List PendingBlock → Store → Store × List WorkItem
unfolding choice
choose c w draining bag net_m wave got [] s = (s, [])
choose c w draining bag net_m wave got (pb ∷ pbs) s = elim (choice c w draining bag net_m pb) [
  | passed ↦ choose c w draining bag net_m wave got pbs s
  | given_up ↦ choose c w draining bag net_m wave got pbs (mark_submitted pb.id s)
  | chosen item ↦
      let rest = choose c w draining bag net_m wave (got + 1) pbs s in
      if ltb 0 wave && leb wave (got + 1) then (s, item ∷ []) else (rest.0, item ∷ rest.1)
]
