-- ===== src/Config/Ini/Plain.antt =====
-- How the lines that `set_ini_value` of src/config/settings.cpp writes are parsed.
use mathlib.Core.List.{append_assoc}
use xnminer.Base.{
  ℕ, ◌-◌, ◌≡◌, refl, sym, ap, ◌∙◌, true, false, ◌&&◌, ◌||◌, some, [], ◌∷◌, ◌++◌, Text, codes,
  is_empty, contains, length, length-append, take, any, any-append, trim, arith, ◌==◌,
}
use xnminer.Config.Ini.{
  Ini, lower_case, front_is, is_header, header_name, split_eq, value_of, parse_line, key_line,
}
use xnminer.Config.Ini.Texts.{solid, ends_solid, trim-solid, trim-cons, trim-snoc, trim-pop_cr}
use xnminer.Config.Ini.Lines.{
  no_feed, ends_solid-append, solid-append, back_is-append, front_is-append, split_eq-append,
  before_comment-none,
}

-- A section, a key and a value that the file can hold: no white space at their ends, no line feeds, no
-- equals sign in the key nor a mark of a comment or a header at its front, no " #" in the value.
pub record Plain (section key value : Text) : Type 0 where
  pub section_front : solid section ≡ true
  pub section_back : ends_solid section ≡ true
  pub key_front : solid key ≡ true
  pub key_back : ends_solid key ≡ true
  pub key_plain : any (λ c. c == b'=') key ≡ false
  pub key_mark : (front_is b'#' key || front_is b';' key || front_is b'[' key) ≡ false
  pub value_front : solid value ≡ true
  pub value_back : ends_solid value ≡ true
  pub value_plain : contains value (codes " #") ≡ false
  pub no_feeds : (no_feed section && no_feed key && no_feed value) ≡ true

nonempty : (s : Text) → solid s ≡ true → is_empty s ≡ false
nonempty [] h = cc
nonempty (c ∷ s) h = refl

key_line-trim :
    (key value : Text)
    → solid key ≡ true
    → solid value ≡ true
    → ends_solid value ≡ true
    → trim (key_line key value) ≡ key_line key value
unfolding key_line
key_line-trim key value kf vf vb =
    trim-solid (key ++ (32 ∷ b'=' ∷ 32 ∷ value)) (solid-append key _ kf) (
      ends_solid-append key (32 ∷ b'=' ∷ 32 ∷ value) refl
      ∙ ends_solid-append (32 ∷ b'=' ∷ 32 ∷ []) value (nonempty value vf)
      ∙ vb)

key_line-front :
    (x : ℕ) (key value : Text)
    → solid key ≡ true
    → front_is x key ≡ false
    → front_is x (key_line key value) ≡ false
unfolding key_line
key_line-front x key value k h = front_is-append x key _ k ∙ h

key_line-filled : (key value : Text) → solid key ≡ true → is_empty (key_line key value) ≡ false
unfolding key_line
key_line-filled key value k = nonempty _ (solid-append key (32 ∷ b'=' ∷ 32 ∷ value) k)

key_line-split :
    (key value : Text)
    → any (λ c. c == b'=') key ≡ false
    → split_eq (key_line key value) ≡ some (key ++ (32 ∷ []), 32 ∷ value)
unfolding key_line
key_line-split key value h =
    ap split_eq (sym (append_assoc key (32 ∷ []) (b'=' ∷ 32 ∷ value)))
    ∙ split_eq-append (key ++ (32 ∷ [])) (32 ∷ value)
        (any-append (λ c. c == b'=') key (32 ∷ []) ∙ ground (arith, h))

value_of-space :
    (value : Text)
    → solid value ≡ true
    → ends_solid value ≡ true
    → contains value (codes " #") ≡ false
    → value_of (32 ∷ value) ≡ value
unfolding value_of
value_of-space value f b h =
    rw (trim-cons 32 value refl, trim-solid value f b, before_comment-none value h) refl

-- The line of the key sets it in the section where the line stands.
pub parse_line-key_line :
    (section key value here : Text) (ini : Ini)
    → Plain section key value
    → parse_line (key_line key value) (here, ini)
      ≡ (here, record { section = here; key = lower_case key; value = value } ∷ ini)
unfolding parse_line is_header
parse_line-key_line section key value here ini p =
    rw
      (
        trim-pop_cr (key_line key value),
        key_line-trim key value p.key_front p.value_front p.value_back,
        key_line-front b'#' key value p.key_front (ground (arith, p.key_mark)),
        key_line-front b';' key value p.key_front (ground (arith, p.key_mark)),
        key_line-front b'[' key value p.key_front (ground (arith, p.key_mark)),
        key_line-filled key value p.key_front,
        key_line-split key value p.key_plain,
        trim-snoc 32 key refl,
        trim-solid key p.key_front p.key_back,
        value_of-space value p.value_front p.value_back p.value_plain,
      )
      refl

length-take_front : (s t : Text) → take (length s) (s ++ t) ≡ s
length-take_front [] t = refl
length-take_front (c ∷ s) t = ap (λ (r : Text). c ∷ r) (length-take_front s t)

header_line-trim :
    (section : Text) → trim (b'[' ∷ section ++ codes "]") ≡ b'[' ∷ section ++ codes "]"
header_line-trim section =
    trim-solid (b'[' ∷ section ++ codes "]") refl
      (ends_solid-append (b'[' ∷ section) (codes "]") refl)

header_line-inner :
    (section : Text)
    → take (length (b'[' ∷ section ++ codes "]") - 2) (section ++ codes "]") ≡ section
header_line-inner section = rw count (length-take_front section (codes "]"))
  where
    count : length (b'[' ∷ section ++ codes "]") - 2 ≡ length section
    count = omega (arith, length-append section (codes "]"))

-- The line of the header opens the section.
pub parse_line-header :
    (section key value here : Text) (ini : Ini)
    → Plain section key value
    → parse_line (b'[' ∷ section ++ codes "]") (here, ini) ≡ (lower_case section, ini)
unfolding parse_line is_header header_name
parse_line-header section key value here ini p =
    rw
      (
        trim-pop_cr (b'[' ∷ section ++ codes "]"),
        header_line-trim section,
        back_is-append b']' (b'[' ∷ section) (codes "]") refl,
        header_line-inner section,
        trim-solid section p.section_front p.section_back,
      )
      refl

pub key_line-no_feed :
    (section key value : Text) → Plain section key value → no_feed (key_line key value) ≡ true
unfolding key_line
key_line-no_feed section key value p =
    rw (any-append (λ c. c == 10) key (32 ∷ b'=' ∷ 32 ∷ value)) (ground (arith, p.no_feeds))

pub header_line-no_feed :
    (section key value : Text)
    → Plain section key value
    → no_feed (b'[' ∷ section ++ codes "]") ≡ true
header_line-no_feed section key value p =
    rw (any-append (λ c. c == 10) section (codes "]")) (ground (arith, p.no_feeds))
