-- ===== src/Store/Counts.antt =====
-- The reading member functions of `BlockStore` in src/queue/store.cpp that count the rows.
use xnminer.Base.{
  ℕ, ◌+◌, ◌≡◌, refl, ◌∙◌, Bool, true, false, not, ◌&&◌, List, [], ◌∷◌, codes, text_eq, length,
  filter, if◌then◌else◌, arith, Text, ◌||◌, eq_of_text_eq,
}
use xnminer.Common.Stats.{Kinds, count_kind}
use xnminer.Store.Defs.{PendingBlock, Store}

unfoldable pub pending_count : Store → ℕ
pending_count s = length s.pending

-- Passed over where only resubmissions are asked for.
unfoldable pub passed_over : Bool → PendingBlock → Bool
passed_over resubmission_only pb =
    resubmission_only && not (text_eq pb.queue_reason (codes "resubmission"))

unfoldable pub count_types : Bool → List PendingBlock → Kinds → Kinds
count_types resubmission_only [] counts = counts
count_types resubmission_only (pb ∷ ps) counts =
    count_types resubmission_only ps
      (if passed_over resubmission_only pb then counts else count_kind pb.block_type counts)

unfoldable pub pending_by_type : Bool → Store → Kinds
pending_by_type resubmission_only s =
    count_types resubmission_only s.pending (record { xuni = 0; xnm = 0; xblk = 0 })

-- The rows that are asked for, of those that pass a test on the kind.
abbrev pub count_where : (Text → Bool) → Bool → List PendingBlock → ℕ
count_where p resubmission_only ps = length (
    filter
      (λ pb.
        (not resubmission_only || text_eq pb.queue_reason (codes "resubmission"))
        && p pb.block_type)
      ps)

abbrev pub is_xuni_row : Text → Bool
is_xuni_row kind = text_eq kind (codes "XUNI")

abbrev pub is_xblk_row : Text → Bool
is_xblk_row kind = text_eq kind (codes "XBLK")

abbrev pub is_other_row : Text → Bool
is_other_row kind = not (is_xuni_row kind) && not (is_xblk_row kind)

xblk_not_xuni : (kind : Text) → is_xblk_row kind ≡ true → is_xuni_row kind ≡ false
xblk_not_xuni kind h = rw (eq_of_text_eq kind (codes "XBLK") h) (unfold text_eq in refl)

-- One row raises the count of its kind.
counted : Bool → PendingBlock → Kinds → Kinds
counted b pb k = if passed_over b pb then k else count_kind pb.block_type k

counted_lem :
    (b : Bool) (pb : PendingBlock) (ps : List PendingBlock) (k : Kinds)
    → let n = counted b pb k in
      (n.xuni + count_where is_xuni_row b ps ≡ k.xuni + count_where is_xuni_row b (pb ∷ ps))
      × (n.xblk + count_where is_xblk_row b ps ≡ k.xblk + count_where is_xblk_row b (pb ∷ ps))
      × (n.xnm + count_where is_other_row b ps ≡ k.xnm + count_where is_other_row b (pb ∷ ps))
unfolding counted passed_over count_kind
counted_lem b pb ps k = (ground arith, ground (arith, xblk_not_xuni pb.block_type), ground arith)

count_types_lem :
    (b : Bool) (ps : List PendingBlock) (k : Kinds)
    → let n = count_types b ps k in
      (n.xuni ≡ k.xuni + count_where is_xuni_row b ps)
      × (n.xblk ≡ k.xblk + count_where is_xblk_row b ps)
      × (n.xnm ≡ k.xnm + count_where is_other_row b ps)
unfolding count_types counted
count_types_lem b [] k = (omega arith, omega arith, omega arith)
count_types_lem b (pb ∷ ps) k =
    let rest = count_types_lem b ps (counted b pb k) in
    let here = counted_lem b pb ps k in (rest.0 ∙ here.0, rest.1 ∙ here.1, rest.2 ∙ here.2)

-- Each of the three counts is the number of the rows of its kind, where XNM stands for every kind but
-- XUNI and XBLK: of all rows, or of those with the reason "resubmission" where only these are asked for.
pub pending_by_type_lem :
    (resubmission_only : Bool) (s : Store)
    → let n = pending_by_type resubmission_only s in
      (n.xuni ≡ count_where is_xuni_row resubmission_only s.pending)
      × (n.xblk ≡ count_where is_xblk_row resubmission_only s.pending)
      × (n.xnm ≡ count_where is_other_row resubmission_only s.pending)
unfolding pending_by_type
pending_by_type_lem b s =
    let r = count_types_lem b s.pending (record { xuni = 0; xnm = 0; xblk = 0 }) in
    (omega (arith, r.0), omega (arith, r.1), omega (arith, r.2))
