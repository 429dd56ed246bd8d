-- ===== src/Config/Ini/Assign.antt =====
-- What single lines of the settings file of src/config/settings.cpp do to what `parse_ini` has read.
use xnminer.Base.{
  ◌≡◌, refl, ap, ◌∙◌, Bool, true, false, ◌&&◌, ◌||◌, Option, some, none, List, [], ◌∷◌, ◌++◌, map,
  Text, is_empty, text_eq, All, trim, trim_front, arith, if◌then◌else◌, Bool-cases, inl, inr,
}
use xnminer.Config.Ini.{
  Ini, lower_case, front_is, is_header, header_name, split_eq, parse_line, parse_lines, pop_cr,
  assign, find, names_key,
}
use xnminer.Config.Ini.Texts.{trim-pop_cr, solid}
use xnminer.Config.Ini.Lines.{no_feed, pop_cr-no_feed}

pub parse_lines-append :
    (xs ys : List Text) (st : Text × Ini)
    → parse_lines (xs ++ ys) st ≡ parse_lines ys (parse_lines xs st)
unfolding parse_lines
parse_lines-append [] ys st = refl
parse_lines-append (x ∷ xs) ys st = parse_lines-append xs ys (parse_line x st)

pub parse_lines-snoc :
    (xs : List Text) (y : Text) (st : Text × Ini)
    → parse_lines (xs ++ (y ∷ [])) st ≡ parse_line y (parse_lines xs st)
unfolding parse_lines
parse_lines-snoc xs y st = parse_lines-append xs (y ∷ []) st

-- A line that is no header assigns, or does nothing; a header opens its section.
pub header_marked :
    (t : Text) → is_header t ≡ true → (is_empty t || front_is b'#' t || front_is b';' t) ≡ false
unfolding is_header
header_marked [] h = cc
header_marked (c ∷ t) h = ground (arith, h)

pub parse_line-header_case :
    (line : Text) (here : Text) (ini : Ini)
    → is_header (trim line) ≡ true
    → parse_line line (here, ini) ≡ (header_name (trim line), ini)
unfolding parse_line
parse_line-header_case line here ini h = rw (trim-pop_cr line, header_marked (trim line) h, h) refl

pub parse_line-pop_cr :
    (line : Text) (st : Text × Ini) → parse_line (pop_cr line) st ≡ parse_line line st
unfolding parse_line
parse_line-pop_cr line (here, ini) = ap (λ (t : Text). parsed t) (trim-pop_cr (pop_cr line))
  where
    parsed : Text → Text × Ini
    parsed t =
        if is_empty t || front_is b'#' t || front_is b';' t
        then (here, ini)
        else if is_header t
        then (header_name t, ini)
        else (here, assign here (split_eq t) ini)

pub parse_line-nil : (st : Text × Ini) → parse_line [] st ≡ st
unfolding parse_line pop_cr trim trim_front
parse_line-nil (here, ini) = refl

-- What a line that is no header does to the assignments.
unfoldable pub noted : Text → Text → Ini → Ini
noted t here ini =
    if is_empty t || front_is b'#' t || front_is b';' t then ini else assign here (split_eq t) ini

pub parse_line-plain_case :
    (line : Text) (here : Text) (ini : Ini)
    → is_header (trim line) ≡ false
    → parse_line line (here, ini) ≡ (here, noted (trim line) here ini)
unfolding parse_line noted
parse_line-plain_case line here ini h =
    rw (trim-pop_cr line, h)
      (pair (is_empty (trim line) || front_is b'#' (trim line) || front_is b';' (trim line)))
  where
    pair :
        (b : Bool)
        → ◌≡◌ {A = Text × Ini}
            (if b then (here, ini) else (here, assign here (split_eq (trim line)) ini))
            (here, if b then ini else assign here (split_eq (trim line)) ini)
    pair true = refl
    pair false = refl

pub assign-agree :
    (s k here : Text) (o : Option (Text × Text)) (ini ini' : Ini)
    → find s k ini' ≡ find s k ini
    → find s k (assign here o ini') ≡ find s k (assign here o ini)
unfolding find
assign-agree s k here none ini ini' e = e
assign-agree s k here (some (key, val)) ini ini' e = rw e refl

pub noted-agree :
    (s k t here : Text) (ini ini' : Ini)
    → find s k ini' ≡ find s k ini
    → find s k (noted t here ini') ≡ find s k (noted t here ini)
unfolding noted
noted-agree s k t here ini ini' e =
    elim (Bool-cases (is_empty t || front_is b'#' t || front_is b';' t)) [
      | inl b ↦ rw b e
      | inr b ↦ rw b (assign-agree s k here (split_eq t) ini ini' e)
    ]

pub assign-other :
    (section key here : Text) (o : Option (Text × Text)) (ini : Ini)
    → (text_eq here (lower_case section) && names_key key o) ≡ false
    → find (lower_case section) (lower_case key) (assign here o ini)
      ≡ find (lower_case section) (lower_case key) ini
unfolding find
assign-other section key here none ini h = refl
assign-other section key here (some (k, val)) ini h = rw h refl

pub noted-other :
    (section key t here : Text) (ini : Ini)
    → (text_eq here (lower_case section) && names_key key (split_eq t)) ≡ false
    → find (lower_case section) (lower_case key) (noted t here ini)
      ≡ find (lower_case section) (lower_case key) ini
unfolding noted
noted-other section key t here ini h =
    elim (Bool-cases (is_empty t || front_is b'#' t || front_is b';' t)) [
      | inl b ↦ rw b refl
      | inr b ↦ rw b (assign-other section key here (split_eq t) ini h)
    ]

pub no_section : (s : Text) → solid s ≡ true → text_eq [] (lower_case s) ≡ false
unfolding text_eq
no_section [] h = cc
no_section (c ∷ s) h = refl

pub parse_lines-pop_cr :
    (lines : List Text) (st : Text × Ini) → parse_lines (map pop_cr lines) st ≡ parse_lines lines st
unfolding parse_lines
parse_lines-pop_cr [] st = refl
parse_lines-pop_cr (line ∷ lines) st =
    parse_lines-pop_cr lines (parse_line (pop_cr line) st)
    ∙ ap (parse_lines lines) (parse_line-pop_cr line st)

pub feeds-pop_cr :
    (lines : List Text)
    → All (λ l. no_feed l ≡ true) lines
    → All (λ l. no_feed l ≡ true) (map pop_cr lines)
feeds-pop_cr [] h = tt
feeds-pop_cr (line ∷ lines) h = (pop_cr-no_feed line h.0, feeds-pop_cr lines h.1)
