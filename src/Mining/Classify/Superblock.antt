-- ===== src/Mining/Classify/Superblock.antt =====
-- Which encoded hashes are superblocks (src/mining/block_types.cpp).
use xnminer.Base.{
  ◌≤◌, ◌≡◌, ◌≢◌, refl, ◌↔◌, Bool, true, false, ◌&&◌, [], ◌∷◌, ◌++◌, Text, codes, text_eq,
  text_eq_iff, contains, All, leb, ◌==◌, if◌then◌else◌, Bool-cases, inl, inr, arith,
}
use xnminer.Mining.Classify.{
  super_uppercase_min, after_last_dollar, hash_digest_for_superblock, uppercase_count,
  is_superblock, has_xuni, normal_type, classify_block,
}

abbrev pub NoDollar : Text → Type 0
NoDollar = All (λ c. (c == b'$') ≡ false)

after_last_dollar-NoDollar : (found d : Text) → NoDollar d → after_last_dollar found d ≡ found
unfolding after_last_dollar
after_last_dollar-NoDollar found [] n = refl
after_last_dollar-NoDollar found (c ∷ d) n = rw n.0 (after_last_dollar-NoDollar found d n.1)

after_last_dollar-append :
    (p d found : Text) → NoDollar d → after_last_dollar found (p ++ (b'$' ∷ d)) ≡ d
unfolding after_last_dollar
after_last_dollar-append [] d found n = after_last_dollar-NoDollar d d n
after_last_dollar-append (c ∷ p) d found n =
    after_last_dollar-append p d (if c == b'$' then p ++ (b'$' ∷ d) else found) n

hash_digest-append :
    (p d : Text) → NoDollar d → hash_digest_for_superblock (b'$' ∷ p ++ (b'$' ∷ d)) ≡ d
unfolding hash_digest_for_superblock
hash_digest-append p d n = after_last_dollar-append (b'$' ∷ p) d (b'$' ∷ p ++ (b'$' ∷ d)) n

is_superblock-append :
    (p d : Text)
    → NoDollar d
    → is_superblock super_uppercase_min (b'$' ∷ p ++ (b'$' ∷ d)) ≡ leb 50 (uppercase_count d)
unfolding is_superblock
is_superblock-append p d n = rw (hash_digest-append p d n) refl

text_ne : (t u : Text) → t ≢ u → text_eq t u ≡ false
text_ne t u n = elim (Bool-cases (text_eq t u)) [
  | inl e ↦ absurd (n ((text_eq_iff t u).0 e))
  | inr e ↦ e
]

-- The kind is XBLK only by the test for it.
xblk_by :
    (b c : Bool)
    → ((if b then codes "XBLK" else if c then codes "XNM" else codes "OTHER") ≡ codes "XBLK")
      ↔ (b ≡ true)
xblk_by true c = (λ _. refl, λ _. refl)
xblk_by false true = (λ h. absurd (xnm_ne h), λ h. absurd (false_ne h))
  where
    xnm_ne : codes "XNM" ≡ codes "XBLK" → ⊥
    xnm_ne h = cc

    false_ne : ◌≡◌ {A = Bool} false true → ⊥
    false_ne h = cc
xblk_by false false = (λ h. absurd (other_ne h), λ h. absurd (false_ne h))
  where
    other_ne : codes "OTHER" ≡ codes "XBLK" → ⊥
    other_ne h = cc

    false_ne : ◌≡◌ {A = Bool} false true → ⊥
    false_ne h = cc

-- An encoded hash that shows no XUNI, and that was not given as a XUNI or a XBLK, is a superblock exactly
-- when XEN11 is somewhere in it and at least 50 letters of its digest, the text behind the last dollar
-- sign, are upper case; letters before the digest do not count.
pub classify_block-xblk_iff :
    (p d kind : Text)
    → let hash = b'$' ∷ p ++ (b'$' ∷ d) in
      NoDollar d
      → has_xuni hash ≡ false
      → normal_type kind ≢ codes "XUNI"
      → normal_type kind ≢ codes "XBLK"
      → (classify_block hash kind ≡ codes "XBLK")
        ↔ ((contains hash (codes "XEN11") ≡ true) × (50 ≤ uppercase_count d))
unfolding classify_block
classify_block-xblk_iff p d kind n plain not_xuni not_xblk =
    let by_tests =
      xblk_by (contains (b'$' ∷ p ++ (b'$' ∷ d)) (codes "XEN11") && leb 50 (uppercase_count d)) _ in
    rw
      (
        plain,
        text_ne (normal_type kind) (codes "XUNI") not_xuni,
        text_ne (normal_type kind) (codes "XBLK") not_xblk,
        is_superblock-append p d n,
      )
      (
        λ h. let e = by_tests.0 h in (ground (arith, e), ground (arith, e)),
        λ h. by_tests.1 (ground (arith, h.0, h.1)),
      )
