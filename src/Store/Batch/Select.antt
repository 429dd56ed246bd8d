-- ===== src/Store/Batch/Select.antt =====
-- The two loops of `list_flush_batch` (src/queue/store.cpp) take the first rows of a plain list: the
-- eligible rows at or after the skip mark, then those before it.
use mathlib.Core.List.{append-nil, append_assoc}
use xnminer.Base.{
  ℕ, zero, suc, ◌+◌, ◌≤◌, ◌<◌, ◌≡◌, refl, sym, ap, ◌∙◌, Bool, true, false, not, ◌&&◌, List, [], ◌∷◌,
  ◌++◌, length, length-append, take, filter, ltb, leb, Bool-cases, inl, inr, arith,
}
use xnminer.Store.Defs.{PendingBlock}
use xnminer.Store.Batch.{is_old, take_into, collect, top_up, finish}

module _ {ℓ} {A : Type ℓ} where
  pub take-append_le : (n : ℕ) (xs ys : List A) → n ≤ length xs → take n (xs ++ ys) ≡ take n xs
  take-append_le zero xs ys h = refl
  take-append_le (suc n) [] ys h = absurd (omega arith)
  take-append_le (suc n) (x ∷ xs) ys h = ap (◌∷◌ x) (take-append_le n xs ys (omega arith))

  pub take_all : (n : ℕ) (xs : List A) → length xs ≤ n → take n xs ≡ xs
  take_all zero [] h = refl
  take_all zero (x ∷ xs) h = absurd (omega arith)
  take_all (suc n) [] h = refl
  take_all (suc n) (x ∷ xs) h = ap (◌∷◌ x) (take_all n xs (omega arith))

  -- Once enough is taken, what follows does not matter.
  take_full : (n : ℕ) (xs ys : List A) → length xs ≡ n → take n (xs ++ ys) ≡ xs
  take_full n xs ys h = take-append_le n xs ys (omega arith) ∙ take_all n xs (omega arith)

  length-snoc : (xs : List A) (y : A) → length (xs ++ y ∷ []) ≡ length xs + 1
  length-snoc xs y = omega (arith, length-append xs (y ∷ []))

  snoc_append : (xs : List A) (y : A) (zs : List A) → (xs ++ y ∷ []) ++ zs ≡ xs ++ y ∷ zs
  snoc_append xs y zs = append_assoc xs (y ∷ []) zs

module _ (cap skip : ℕ) (ok : PendingBlock → Bool) where
  abbrev pub fresh_rows : List PendingBlock → List PendingBlock
  fresh_rows = filter (λ pb. ok pb && not (is_old skip pb))

  abbrev pub old_rows : List PendingBlock → List PendingBlock
  old_rows = filter (λ pb. ok pb && is_old skip pb)

  top_up-take :
      (w p : List PendingBlock) → length p < cap → top_up cap skip ok w p ≡ take cap (p ++ w)
  unfolding top_up
  top_up-take [] p h = sym (rw append-nil (take_all cap p (omega arith)))
  top_up-take (pb ∷ w) p h = elim (Bool-cases (leb cap (length (p ++ pb ∷ [])))) [
    | inl e ↦
        rw (e, ← snoc_append p pb w)
          (sym (take_full cap (p ++ pb ∷ []) w (ground (arith, length-snoc p pb))))
    | inr e ↦ rw (e, ← snoc_append p pb w) (top_up-take w (p ++ pb ∷ []) (ground arith))
  ]

  finish-take :
      (p w : List PendingBlock) → length p ≤ cap → finish cap skip ok (p, w) ≡ take cap (p ++ w)
  unfolding finish
  finish-take p w h = elim (Bool-cases (ltb (length p) cap)) [
    | inl e ↦ rw e (top_up-take w p (ground arith))
    | inr e ↦ rw e (sym (take_full cap p w (ground arith)))
  ]

  -- Rows behind a full list of wrapped rows are not missed.
  wrapped_full :
      (p n w o : List PendingBlock) (x : PendingBlock)
      → length w ≡ cap
      → take cap (p ++ n ++ (w ++ o)) ≡ take cap (p ++ n ++ (w ++ x ∷ o))
  wrapped_full p n w o x h = cut o ∙ sym (cut (x ∷ o))
    where
      cut : (y : List PendingBlock) → take cap (p ++ n ++ (w ++ y)) ≡ take cap (p ++ n ++ w)
      cut y =
          rw (← append_assoc (p ++ n) w y)
            (take-append_le cap (p ++ n ++ w) y (omega (arith, length-append (p ++ n) w)))

  pub collect-take :
      (ps p w : List PendingBlock)
      → length p < cap
      → length w ≤ cap
      → finish cap skip ok (collect cap skip ok ps p w)
        ≡ take cap (p ++ fresh_rows ps ++ (w ++ old_rows ps))
  unfolding collect
  collect-take [] p w hp hw = rw (append-nil, append-nil) (finish-take p w (omega arith))
  collect-take (pb ∷ ps) p w hp hw = elim (Bool-cases (is_old skip pb)) [
    | inl old ↦ elim (Bool-cases (ok pb)) [
      | inl good ↦ elim (Bool-cases (leb cap (length w))) [
        | inl full ↦
            rw (old, collect, not_full, good, passed w full)
              (collect-take ps p w hp hw
                ∙ wrapped_full p (fresh_rows ps) w (old_rows ps) pb (ground arith))
        | inr room ↦
            rw (old, collect, not_full, good, taken w room, ← snoc_append w pb (old_rows ps))
              (collect-take ps p (w ++ pb ∷ []) hp (ground (arith, length-snoc w pb)))
      ]
      | inr bad ↦ rw (old, collect, not_full, bad, unchanged w) (collect-take ps p w hp hw)
    ]
    | inr new ↦ elim (Bool-cases (ok pb)) [
      | inl good ↦ elim (Bool-cases (leb cap (length (p ++ pb ∷ [])))) [
        | inl enough ↦
            rw (new, collect, good, taken p not_full, enough)
              (finish-take (p ++ pb ∷ []) w (omega (arith, length-snoc p pb))
                ∙ take_full cap (p ++ pb ∷ []) w (ground (arith, length-snoc p pb))
                ∙ sym (enough_taken (ground (arith, length-snoc p pb))))
        | inr more ↦
            rw (new, collect, good, taken p not_full, more, ← snoc_append p pb (fresh_rows ps))
              (collect-take ps (p ++ pb ∷ []) w (ground arith) hw)
      ]
      | inr bad ↦ rw (new, collect, bad, unchanged p, not_full) (collect-take ps p w hp hw)
    ]
  ]
    where
      not_full : leb cap (length p) ≡ false
      not_full = ground arith

      passed : (l : List PendingBlock) → leb cap (length l) ≡ true → take_into cap true l pb ≡ l
      passed l e = unfold take_into in ground arith

      taken :
          (l : List PendingBlock)
          → leb cap (length l) ≡ false
          → take_into cap true l pb ≡ l ++ pb ∷ []
      taken l e = unfold take_into in ground arith

      enough_taken :
          length (p ++ pb ∷ []) ≡ cap
          → take cap (p ++ pb ∷ fresh_rows ps ++ (w ++ old_rows ps)) ≡ p ++ pb ∷ []
      enough_taken e =
          rw
            (
              append_assoc p (pb ∷ fresh_rows ps) (w ++ old_rows ps),
              ← snoc_append p pb (fresh_rows ps ++ (w ++ old_rows ps)),
            )
            (take_full cap (p ++ pb ∷ []) _ e)

      unchanged : (l : List PendingBlock) → take_into cap false l pb ≡ l
      unchanged l = unfold take_into in ground arith
