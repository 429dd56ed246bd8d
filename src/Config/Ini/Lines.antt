-- ===== src/Config/Ini/Lines.antt =====
-- Lines of the settings file of src/config/settings.cpp: what is written is read back, and how the lines
-- that `set_ini_value` writes are parsed.
use xnminer.Base.{
  ℕ, ◌≡◌, refl, ap, ◌∙◌, Bool, true, false, not, none, some, List, [], ◌∷◌, ◌++◌, Text, codes,
  is_empty, starts_with, contains, any, All, arith, ◌==◌, Bool-cases, inl, inr,
}
use xnminer.Config.Ini.{
  add_front, get_lines, write_lines, pop_cr, front_is, back_is, split_eq, before_comment,
}
use xnminer.Config.Ini.Texts.{solid, ends_solid}

-- A text with no line feed.
abbrev pub no_feed : Text → Bool
no_feed s = not (any (λ c. c == 10) s)

get_lines-append : (l s : Text) → no_feed l ≡ true → get_lines (l ++ 10 ∷ s) ≡ l ∷ get_lines s
unfolding get_lines
get_lines-append [] s h = refl
get_lines-append (c ∷ l) s h = elim (Bool-cases (c == 10)) [
  | inl e ↦ absurd (clash e)
  | inr e ↦ rw (e, get_lines-append l s (ground (arith, h))) refl
]
  where
    clash : (c == 10) ≡ true → ⊥
    clash e = ground (arith, e, h)

-- Lines with no line feed come back from the file.
pub get_lines-write_lines :
    (ls : List Text) → All (λ l. no_feed l ≡ true) ls → get_lines (write_lines ls) ≡ ls
unfolding write_lines get_lines
get_lines-write_lines [] h = refl
get_lines-write_lines (l ∷ ls) h =
    get_lines-append l (write_lines ls) h.0 ∙ ap (λ xs. l ∷ xs) (get_lines-write_lines ls h.1)

add_front-no_feed :
    (c : ℕ) (ls : List Text)
    → (c == 10) ≡ false
    → All (λ l. no_feed l ≡ true) ls
    → All (λ l. no_feed l ≡ true) (add_front c ls)
add_front-no_feed c [] e h = (ground (arith, e), tt)
add_front-no_feed c (l ∷ ls) e h = (ground (arith, e, h.0), h.1)

pub get_lines-no_feed : (s : Text) → All (λ l. no_feed l ≡ true) (get_lines s)
unfolding get_lines
get_lines-no_feed [] = tt
get_lines-no_feed (c ∷ s) = elim (Bool-cases (c == 10)) [
  | inl e ↦ rw e (refl, get_lines-no_feed s)
  | inr e ↦ rw e (add_front-no_feed c (get_lines s) e (get_lines-no_feed s))
]

pub pop_cr-no_feed : (s : Text) → no_feed s ≡ true → no_feed (pop_cr s) ≡ true
unfolding pop_cr
pop_cr-no_feed [] h = h
pop_cr-no_feed (c ∷ []) h = elim (Bool-cases (c == 13)) [ inl e ↦ rw e refl | inr e ↦ rw e h ]
pop_cr-no_feed (c ∷ d ∷ s) h = ground (arith, h, pop_cr-no_feed (d ∷ s))

pub ends_solid-append : (s t : Text) → is_empty t ≡ false → ends_solid (s ++ t) ≡ ends_solid t
ends_solid-append [] t h = refl
ends_solid-append (c ∷ []) [] h = cc
ends_solid-append (c ∷ []) (x ∷ t) h = refl
ends_solid-append (c ∷ d ∷ s) t h = ends_solid-append (d ∷ s) t h

pub solid-append : (s t : Text) → solid s ≡ true → solid (s ++ t) ≡ true
solid-append [] t h = cc
solid-append (c ∷ s) t h = h

pub back_is-append : (x : ℕ) (s t : Text) → is_empty t ≡ false → back_is x (s ++ t) ≡ back_is x t
back_is-append x [] t h = refl
back_is-append x (c ∷ []) [] h = cc
back_is-append x (c ∷ []) (d ∷ t) h = refl
back_is-append x (c ∷ d ∷ s) t h = back_is-append x (d ∷ s) t h

pub front_is-append : (x : ℕ) (s t : Text) → solid s ≡ true → front_is x (s ++ t) ≡ front_is x s
front_is-append x [] t h = cc
front_is-append x (c ∷ s) t h = refl

pub split_eq-append :
    (k s : Text) → any (λ c. c == b'=') k ≡ false → split_eq (k ++ (b'=' ∷ s)) ≡ some (k, s)
unfolding split_eq
split_eq-append [] s h = refl
split_eq-append (c ∷ k) s h = rw (split_eq-append k s (ground (arith, h)), other) refl
  where
    other : (c == b'=') ≡ false
    other = ground (arith, h)

pub before_comment-none : (s : Text) → contains s (codes " #") ≡ false → before_comment s ≡ none
unfolding before_comment contains
before_comment-none [] h = refl
before_comment-none (c ∷ s) h = rw (here, before_comment-none s (ground (arith, h))) refl
  where
    here : starts_with (c ∷ s) (codes " #") ≡ false
    here = ground (arith, h)
