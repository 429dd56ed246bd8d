-- ===== src/Config/Ini/Texts.antt =====
-- What trimming does to the texts of the settings file of src/config/settings.cpp.
use mathlib.Core.List.{reverse, reverse_aux, reverse-append, reverse-reverse}
use xnminer.Base.{
  ℕ, ◌≡◌, refl, sym, ap, ◌∙◌, Bool, true, false, not, [], ◌∷◌, ◌++◌, Text, is_empty, is_space,
  trim_front, trim, arith, ◌==◌, if◌then◌else◌, Bool-cases, inl, inr, ◌⊎◌, nil_of_is_empty,
}
use xnminer.Config.Ini.{pop_cr}

-- A text that begins, and one that ends, with a character that is no white space.
abbrev pub solid : Text → Bool
solid [] = false
solid (c ∷ s) = not (is_space c)

abbrev pub ends_solid : Text → Bool
ends_solid [] = false
ends_solid (c ∷ []) = not (is_space c)
ends_solid (c ∷ d ∷ s) = ends_solid (d ∷ s)

solid-reverse_aux :
    (s t : Text) → solid (reverse_aux s t) ≡ (if is_empty s then solid t else ends_solid s)
solid-reverse_aux [] t = refl
solid-reverse_aux (c ∷ []) t = refl
solid-reverse_aux (c ∷ d ∷ s) t = solid-reverse_aux (d ∷ s) (c ∷ t)

solid-reverse : (s : Text) → ends_solid s ≡ true → solid (reverse s) ≡ true
solid-reverse [] h = cc
solid-reverse (c ∷ s) h = solid-reverse_aux (c ∷ s) [] ∙ h

trim_front-solid : (s : Text) → solid s ≡ true → trim_front s ≡ s
unfolding trim_front
trim_front-solid [] h = refl
trim_front-solid (c ∷ s) h = ground (arith, h)

pub trim-solid : (s : Text) → solid s ≡ true → ends_solid s ≡ true → trim s ≡ s
unfolding trim
trim-solid s h k =
    rw (trim_front-solid s h, trim_front-solid (reverse s) (solid-reverse s k)) (reverse-reverse s)

pub trim-cons : (c : ℕ) (s : Text) → is_space c ≡ true → trim (c ∷ s) ≡ trim s
unfolding trim trim_front
trim-cons c s h = rw h refl

trim_front-snoc :
    (c : ℕ) (s : Text)
    → is_space c ≡ true
    → trim_front (s ++ (c ∷ []))
      ≡ (if is_empty (trim_front s) then [] else trim_front s ++ (c ∷ []))
unfolding trim_front
trim_front-snoc c [] h = rw h refl
trim_front-snoc c (x ∷ s) h = elim (Bool-cases (is_space x)) [
  | inl e ↦ rw e (trim_front-snoc c s h)
  | inr e ↦ rw e refl
]

trim_front-space : (c : ℕ) (s : Text) → is_space c ≡ true → trim_front (c ∷ s) ≡ trim_front s
unfolding trim_front
trim_front-space c s h = rw h refl

-- A white character at the end goes.
pub trim-snoc : (c : ℕ) (s : Text) → is_space c ≡ true → trim (s ++ (c ∷ [])) ≡ trim s
unfolding trim
trim-snoc c s h = rw (trim_front-snoc c s h) (elim (Bool-cases (is_empty (trim_front s))) [
  | inl e ↦ rw (e, nil_of_is_empty (trim_front s) e) refl
  | inr e ↦
      rw (e, reverse-append (trim_front s) (c ∷ []))
        (ap reverse (trim_front-space c (reverse (trim_front s)) h))
])

pop_cr-cases : (s : Text) → (pop_cr s ≡ s) ⊎ (s ≡ pop_cr s ++ (13 ∷ []))
unfolding pop_cr
pop_cr-cases [] = inl refl
pop_cr-cases (c ∷ []) = elim (Bool-cases (c == 13)) [
  | inl e ↦ inr (rw e (ground (arith, e)))
  | inr e ↦ inl (rw e refl)
]
pop_cr-cases (c ∷ d ∷ s) = elim (pop_cr-cases (d ∷ s)) [
  | inl e ↦ inl (ap (λ (t : Text). c ∷ t) e)
  | inr e ↦ inr (ap (λ (t : Text). c ∷ t) e)
]

-- A carriage return at the end is white space to the trimming.
pub trim-pop_cr : (s : Text) → trim (pop_cr s) ≡ trim s
trim-pop_cr s = elim (pop_cr-cases s) [
  | inl e ↦ ap trim e
  | inr e ↦ sym (ap trim e ∙ trim-snoc 13 (pop_cr s) refl)
]
