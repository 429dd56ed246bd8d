-- ===== src/Mining/Classify.antt =====
-- src/mining/block_types.cpp: the kind of a block by the letters of its digest.
use xnminer.Base.{
  ℕ, ◌≡◌, refl, Bool, false, not, ◌&&◌, ◌||◌, [], ◌∷◌, map, Text, codes, text_eq, contains,
  starts_with, is_digit, is_upper, to_upper, filter, drop, length, trim, leb, ◌==◌, if◌then◌else◌,
  arith,
}
pub mod Superblock

abbrev pub super_uppercase_min : ℕ
super_uppercase_min = 50

-- The text behind the last `$`, after the text behind the last one so far.
unfoldable pub after_last_dollar : Text → Text → Text
after_last_dollar found [] = found
after_last_dollar found (c ∷ s) = after_last_dollar (if c == b'$' then s else found) s

unfoldable pub dollars : Text → ℕ
dollars s = length (filter (λ c. c == b'$') s)

abbrev pub front_is_dollar : Text → Bool
front_is_dollar [] = false
front_is_dollar (c ∷ s) = c == b'$'

unfoldable pub hash_digest_for_superblock : Text → Text
unfolding after_last_dollar dollars
hash_digest_for_superblock s =
    if front_is_dollar s || leb 4 (dollars s) then after_last_dollar s s else s

unfoldable pub uppercase_count : Text → ℕ
uppercase_count s = length (filter is_upper s)

unfoldable pub is_superblock : ℕ → Text → Bool
unfolding hash_digest_for_superblock uppercase_count
is_superblock min_upper s = leb min_upper (uppercase_count (hash_digest_for_superblock s))

abbrev pub front_is_digit : Text → Bool
front_is_digit [] = false
front_is_digit (c ∷ s) = is_digit c

-- `regex_search(s, "XUNI[0-9]")`
unfoldable pub has_xuni : Text → Bool
unfolding starts_with
has_xuni [] = false
has_xuni (c ∷ s) = (starts_with (c ∷ s) (codes "XUNI") && front_is_digit (drop 3 s)) || has_xuni s

-- The given type in upper case, with no NUL bytes and no space around it.
unfoldable pub normal_type : Text → Text
normal_type block_type = trim (filter (λ c. not (c == 0)) (map to_upper block_type))

unfoldable pub classify_block : Text → Text → Text
unfolding normal_type
classify_block hash_str block_type =
    let bt = normal_type block_type in
    let xen = contains hash_str (codes "XEN11") in
    if text_eq bt (codes "XUNI") || has_xuni hash_str
    then codes "XUNI"
    else if text_eq bt (codes "XBLK") || (xen && is_superblock super_uppercase_min hash_str)
    then codes "XBLK"
    else if xen
        || text_eq bt (codes "XEN11")
        || text_eq bt (codes "NORMAL")
        || text_eq bt (codes "XNM")
    then codes "XNM"
    else codes "OTHER"

module _ (h : Text) where
  twice_xuni : classify_block h (codes "XUNI") ≡ codes "XUNI"
  unfolding classify_block trim text_eq
  twice_xuni = refl

  twice_xblk : has_xuni h ≡ false → classify_block h (codes "XBLK") ≡ codes "XBLK"
  unfolding classify_block trim text_eq
  twice_xblk a = rw a refl

  twice_xnm :
      has_xuni h ≡ false
      → (contains h (codes "XEN11") && is_superblock super_uppercase_min h) ≡ false
      → classify_block h (codes "XNM") ≡ codes "XNM"
  unfolding classify_block trim text_eq
  twice_xnm a b = rw (a, b) (ground arith)

  twice_other :
      has_xuni h ≡ false
      → contains h (codes "XEN11") ≡ false
      → classify_block h (codes "OTHER") ≡ codes "OTHER"
  unfolding classify_block trim text_eq
  twice_other a b = rw (a, b) refl

-- A block that is classified once more, under the kind that it was given, keeps that kind.
pub classify_block_twice :
    (hash_str block_type : Text)
    → classify_block hash_str (classify_block hash_str block_type)
      ≡ classify_block hash_str block_type
unfolding classify_block
classify_block_twice hash_str block_type =
    ground
      (arith, twice_xuni hash_str, twice_xblk hash_str, twice_xnm hash_str, twice_other hash_str)
