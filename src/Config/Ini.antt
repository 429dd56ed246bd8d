-- ===== src/Config/Ini.antt =====
-- The settings file of src/config/settings.cpp: `parse_ini`, the readers of one value, and
-- `set_ini_value`. A file is its text, and `getline` cuts it at line feeds; the two nested maps are a list
-- of assignments, newest first.
use mathlib.Core.Option
use xnminer.Base.{
  ℕ, ◌-◌, ℤ, Bool, true, false, not, ◌&&◌, ◌||◌, Option, none, some, List, [], ◌∷◌, ◌++◌, map, Text,
  codes, text_eq, is_empty, starts_with, length, take, drop, ◌==◌, if◌then◌else◌, to_lower, trim,
  stoi, is_xdigit, any,
}
pub mod Texts
pub mod Lines
pub mod Plain
pub mod Assign
pub mod Sim
pub mod SetLaws

abbrev pub lower_case : Text → Text
lower_case = map to_lower

unfoldable pub parse_bool : Text → Bool → Bool
parse_bool v def =
    let s = lower_case (trim v) in
    if is_empty s
    then def
    else if text_eq s (codes "1")
        || text_eq s (codes "true")
        || text_eq s (codes "yes")
        || text_eq s (codes "on")
    then true
    else if text_eq s (codes "0")
        || text_eq s (codes "false")
        || text_eq s (codes "no")
        || text_eq s (codes "off")
    then false
    else def

abbrev pub add_front : ℕ → List Text → List Text
add_front c [] = (c ∷ []) ∷ []
add_front c (l ∷ ls) = (c ∷ l) ∷ ls

-- The lines that `getline` reads.
unfoldable pub get_lines : Text → List Text
get_lines [] = []
get_lines (c ∷ s) = let rest = get_lines s in if c == 10 then [] ∷ rest else add_front c rest

-- The carriage return at the end of a line is taken off.
unfoldable pub pop_cr : Text → Text
pop_cr [] = []
pop_cr (c ∷ []) = if c == 13 then [] else c ∷ []
pop_cr (c ∷ d ∷ s) = c ∷ pop_cr (d ∷ s)

abbrev pub front_is : ℕ → Text → Bool
front_is x [] = false
front_is x (c ∷ s) = c == x

abbrev pub back_is : ℕ → Text → Bool
back_is x [] = false
back_is x (c ∷ []) = c == x
back_is x (c ∷ d ∷ s) = back_is x (d ∷ s)

unfoldable pub is_header : Text → Bool
is_header t = front_is b'[' t && back_is b']' t

-- The section that a header names.
unfoldable pub header_name : Text → Text
header_name t = lower_case (trim (take (length t - 2) (drop 1 t)))

-- What stands before and behind the first equals sign.
unfoldable pub split_eq : Text → Option (Text × Text)
split_eq [] = none
split_eq (c ∷ s) =
    let rest = Option.map (λ (p : Text × Text). (c ∷ p.0, p.1)) (split_eq s) in
    if c == b'=' then some ([], s) else rest

-- What stands before the first " #".
unfoldable pub before_comment : Text → Option Text
before_comment [] = none
before_comment (c ∷ s) =
    let rest = Option.map (λ (p : Text). c ∷ p) (before_comment s) in
    if starts_with (c ∷ s) (codes " #") then some [] else rest

abbrev pub or_whole : Text → Option Text → Text
or_whole val none = val
or_whole val (some p) = trim p

unfoldable pub value_of : Text → Text
unfolding before_comment
value_of s = or_whole (trim s) (before_comment (trim s))

pub record Assignment : Type 0 where
  pub section : Text
  pub key : Text
  pub value : Text

abbrev pub Ini : Type 0
Ini = List Assignment

abbrev pub assign : Text → Option (Text × Text) → Ini → Ini
assign section none ini = ini
assign section (some (key, val)) ini =
    record { section = section; key = lower_case (trim key); value = value_of val } ∷ ini

-- One line, with the section that it stands in.
unfoldable pub parse_line : Text → Text × Ini → Text × Ini
unfolding is_header header_name split_eq
parse_line line (section, ini) =
    let t = trim (pop_cr line) in
    if is_empty t || front_is b'#' t || front_is b';' t
    then (section, ini)
    else if is_header t
    then (header_name t, ini)
    else (section, assign section (split_eq t) ini)

unfoldable pub parse_lines : List Text → Text × Ini → Text × Ini
unfolding parse_line
parse_lines [] st = st
parse_lines (line ∷ lines) st = parse_lines lines (parse_line line st)

unfoldable pub parse_ini : Text → Ini
unfolding get_lines parse_lines
parse_ini file = (parse_lines (get_lines file) ([], [])).1

abbrev pub is_at : Text → Text → Assignment → Bool
is_at sec key a = text_eq a.section sec && text_eq a.key key

-- `ini[sec][key]`, which the last assignment gives.
unfoldable pub find : Text → Text → Ini → Option Text
find sec key [] = none
find sec key (a ∷ ini) =
    let rest = find sec key ini in if is_at sec key a then some a.value else rest

abbrev pub or_default : Text → Option Text → Text
or_default def none = def
or_default def (some v) = if is_empty v then def else v

unfoldable pub get : Ini → Text → Text → Text → Text
unfolding find
get ini sec key def = or_default def (find sec key ini)

abbrev pub or_int : ℤ → Option ℤ → ℤ
or_int def none = def
or_int def (some n) = n

unfoldable pub get_i : Ini → Text → Text → ℤ → ℤ
unfolding get
get_i ini sec key def =
    if is_empty (get ini sec key []) then def else or_int def (stoi (get ini sec key []))

unfoldable pub get_b : Ini → Text → Text → Bool → Bool
unfolding get parse_bool
get_b ini sec key def = parse_bool (get ini sec key []) def

unfoldable pub valid_eth_address : Text → Bool
valid_eth_address a =
    length a == 42
    && front_is b'0' a
    && (front_is b'x' (drop 1 a) || front_is b'X' (drop 1 a))
    && not (any (λ c. not (is_xdigit c)) (drop 2 a))

-- The line that sets a key.
unfoldable pub key_line : Text → Text → Text
key_line key value = key ++ (codes " = " ++ value)

-- The loop of `set_ini_value`: whether it is in the section, has written the line, and has met the
-- section, and the lines so far.
pub record Edit : Type 0 where
  pub in_sec : Bool
  pub wrote : Bool
  pub found_sec : Bool
  pub out : List Text

abbrev pub names_key : Text → Option (Text × Text) → Bool
names_key key none = false
names_key key (some (k, v)) = text_eq (lower_case (trim k)) (lower_case key)

unfoldable pub edit_header : Text → Text → Text → Text → Edit → Edit
edit_header section key value line e =
    let flushed = if e.in_sec && not e.wrote then e.out ++ (key_line key value ∷ []) else e.out in
    let here = text_eq (header_name (trim line)) (lower_case section) in
    record {
      in_sec = here;
      wrote = e.wrote || e.in_sec;
      found_sec = e.found_sec || here;
      out = flushed ++ (line ∷ []);
    }

unfoldable pub edit_line : Text → Text → Text → Text → Edit → Edit
unfolding is_header split_eq edit_header
edit_line section key value line e =
    if is_header (trim line)
    then edit_header section key value line e
    else if e.in_sec && names_key key (split_eq (trim line))
    then record e { wrote = true; out = e.out ++ (key_line key value ∷ []) }
    else record e { out = e.out ++ (line ∷ []) }

unfoldable pub edit_lines : Text → Text → Text → List Text → Edit → Edit
unfolding edit_line
edit_lines section key value [] e = e
edit_lines section key value (line ∷ lines) e =
    edit_lines section key value lines (edit_line section key value line e)

abbrev pub ends_empty : List Text → Bool
ends_empty [] = true
ends_empty (l ∷ []) = is_empty l
ends_empty (l ∷ m ∷ ls) = ends_empty (m ∷ ls)

-- What follows the loop: the line at the end of the section, or the section with it.
unfoldable pub edit_end : Text → Text → Text → Edit → List Text
unfolding key_line
edit_end section key value e =
    let out = if e.in_sec && not e.wrote then e.out ++ (key_line key value ∷ []) else e.out in
    let gap = if ends_empty out then out else out ++ ([] ∷ []) in
    if e.found_sec then out else gap ++ ((b'[' ∷ section ++ codes "]") ∷ key_line key value ∷ [])

-- The lines written, each with its line feed.
unfoldable pub write_lines : List Text → Text
write_lines [] = []
write_lines (l ∷ ls) = l ++ (10 ∷ write_lines ls)

unfoldable pub set_ini_value : Text → Text → Text → Text → Text
unfolding get_lines edit_lines edit_end write_lines
set_ini_value section key value file = write_lines (
    edit_end section key value (
      edit_lines section key value (map pop_cr (get_lines file))
        (record { in_sec = false; wrote = false; found_sec = false; out = [] })))
