-- ===== src/Config/Ini/SetLaws.antt =====
-- `set_ini_value` of src/config/settings.cpp sets one key of the file, as `parse_ini` reads it, and no other.
use xnminer.Base.{
  ◌≡◌, refl, sym, ap, ◌∙◌, Bool, true, false, not, ◌&&◌, ◌||◌, some, List, [], ◌∷◌, ◌++◌, map, Text,
  codes, text_eq, text_eq_refl, eq_of_text_eq, All, All-append, trim, arith, if◌then◌else◌,
  Bool-cases, inl, inr,
}
use xnminer.Supervisor.Hits.Kept.{by_if}
use xnminer.Config.Ini.{
  Ini, Edit, lower_case, is_header, split_eq, parse_line, parse_lines, parse_ini, get_lines, pop_cr,
  key_line, find, names_key, edit_header, edit_line, edit_lines, edit_end, ends_empty,
  set_ini_value,
}
use xnminer.Config.Ini.Lines.{no_feed, get_lines-write_lines, get_lines-no_feed}
use xnminer.Config.Ini.Plain.{Plain, header_line-no_feed, parse_line-key_line, parse_line-header}
use xnminer.Config.Ini.Assign.{
  parse_lines-append, parse_lines-snoc, parse_line-header_case, parse_line-nil, no_section,
  parse_lines-pop_cr, feeds-pop_cr,
}
use xnminer.Config.Ini.Sim.{
  line_assigned, find-line_assigned, find-line_other, feeds-key, pushed, headed, copied, replaced,
  Sim, aimed,
}

module _ (section key value : Text) (p : Plain section key value) where
  stepped :
      (st : Text × Ini) (e : Edit) (line : Text)
      → no_feed line ≡ true
      → (Sim section key value p) st e
      → (Sim section key value p) (parse_line line st) (edit_line section key value line e)
  unfolding edit_line edit_header
  stepped st e line feed sim =
      by_if ((Sim section key value p) (parse_line line st)) (is_header (trim line))
        (λ h.
          rw (parse_line-header_case line st.0 st.1 h)
            (elim (Bool-cases (e.in_sec && not e.wrote)) [
              | inl k ↦
                  rw (k, written k)
                    ((headed section key value p) st
                      (record e { wrote = true; out = e.out ++ (key_line key value ∷ []) }) line h
                      feed (ground arith)
                      ((pushed section key value p) st e (ground (arith, k)) sim))
              | inr k ↦ rw k ((headed section key value p) st e line h feed (ground (arith, k)) sim)
            ]))
        (λ h.
          by_if ((Sim section key value p) (parse_line line st))
            (e.in_sec && names_key key (split_eq (trim line)))
            (λ k. (replaced section key value p) st e line h (first _ _ k) (second _ _ k) sim)
            (λ k. (copied section key value p) st e line h feed k sim))
    where
      written : (e.in_sec && not e.wrote) ≡ true → (e.wrote || e.in_sec) ≡ true
      written k = ground (arith, k)

      first : (a b : Bool) → (a && b) ≡ true → a ≡ true
      first a b k = ground (arith, k)

      second : (a b : Bool) → (a && b) ≡ true → b ≡ true
      second a b k = ground (arith, k)

  stepped_lines :
      (lines : List Text) (st : Text × Ini) (e : Edit)
      → All (λ l. no_feed l ≡ true) lines
      → (Sim section key value p) st e
      → (Sim section key value p) (parse_lines lines st) (edit_lines section key value lines e)
  unfolding parse_lines edit_lines
  stepped_lines [] st e feeds sim = sim
  stepped_lines (line ∷ lines) st e feeds sim =
      stepped_lines lines (parse_line line st) (edit_line section key value line e) feeds.1
        (stepped st e line feeds.0 sim)

  -- What the lines that the edit ends with say, for each key.
  Result : Ini → List Text → Type 0
  Result ini out =
      ((s k : Text)
        → find s k (parse_lines out ([], [])).1
          ≡ (if (aimed section key value p) s k then some value else find s k ini))
      × All (λ l. no_feed l ≡ true) out

  aimed_at :
      (s k : Text) (ini : Ini)
      → find (lower_case section) (lower_case key) ini ≡ some value
      → (aimed section key value p) s k ≡ true
      → find s k ini ≡ some value
  aimed_at s k ini w h =
      rw (sym (eq_of_text_eq (lower_case section) s (first h)))
        (rw (sym (eq_of_text_eq (lower_case key) k (second h))) w)
    where
      first : (aimed section key value p) s k ≡ true → text_eq (lower_case section) s ≡ true
      first h = ground (arith, h)

      second : (aimed section key value p) s k ≡ true → text_eq (lower_case key) k ≡ true
      second h = ground (arith, h)

  by_aim :
      (s k : Text) (ini ini' : Ini)
      → find (lower_case section) (lower_case key) ini' ≡ some value
      → ((aimed section key value p) s k ≡ false → find s k ini' ≡ find s k ini)
      → find s k ini' ≡ (if (aimed section key value p) s k then some value else find s k ini)
  by_aim s k ini ini' w o = elim (Bool-cases ((aimed section key value p) s k)) [
    | inl h ↦ rw h (aimed_at s k ini' w h)
    | inr h ↦ rw h (o h)
  ]

  finished :
      (st : Text × Ini) (e : Edit)
      → e.wrote ≡ true
      → (Sim section key value p) st e
      → Result st.1 e.out
  unfolding Result
  finished st e w sim = (
    λ s k. by_aim s k st.1 (parse_lines e.out ([], [])).1 (sim.wrote w) (λ h. sim.agree s k h),
    sim.feeds,
  )

  -- An empty line says nothing.
  gap_parsed :
      (out : List Text)
      → parse_lines (if ends_empty out then out else out ++ ([] ∷ [])) ([], [])
        ≡ parse_lines out ([], [])
  gap_parsed out =
      by_if (λ (ls : List Text). parse_lines ls ([], []) ≡ parse_lines out ([], []))
        (ends_empty out) (λ _. refl)
        (λ _. parse_lines-snoc out [] ([], []) ∙ parse_line-nil (parse_lines out ([], [])))

  section_parsed :
      (st : Text × Ini)
      → parse_lines ((b'[' ∷ section ++ codes "]") ∷ key_line key value ∷ []) st
        ≡ (lower_case section, (line_assigned section key value p) (lower_case section) ∷ st.1)
  unfolding parse_lines line_assigned
  section_parsed st =
      ap (parse_line (key_line key value)) (parse_line-header section key value st.0 st.1 p)
      ∙ parse_line-key_line section key value (lower_case section) st.1 p

  -- The section is added at the end.
  added :
      (st : Text × Ini) (e : Edit)
      → (Sim section key value p) st e
      → Result st.1 (
          (if ends_empty e.out then e.out else e.out ++ ([] ∷ []))
          ++ ((b'[' ∷ section ++ codes "]") ∷ key_line key value ∷ []))
  unfolding Result
  added st e sim = (
    λ s k. rw parsed (
        by_aim s k st.1
          ((line_assigned section key value p) (lower_case section)
            ∷ (parse_lines e.out ([], [])).1)
          ((find-line_assigned section key value p) (lower_case section)
            (parse_lines e.out ([], [])).1 (text_eq_refl (lower_case section)))
          (λ h.
            (find-line_other section key value p) s k (lower_case section)
              (parse_lines e.out ([], [])).1 refl h
            ∙ sim.agree s k h)),
    All-append _ gap _
        (by_if (All (λ l. no_feed l ≡ true)) (ends_empty e.out) (λ _. sim.feeds)
          (λ _. All-append _ e.out _ sim.feeds (refl, tt)))
        (header_line-no_feed section key value p, ((feeds-key section key value p), tt)),
  )
    where
      gap : List Text
      gap = if ends_empty e.out then e.out else e.out ++ ([] ∷ [])

      parsed :
          parse_lines (gap ++ ((b'[' ∷ section ++ codes "]") ∷ key_line key value ∷ [])) ([], [])
          ≡ (
            lower_case section,
            (line_assigned section key value p) (lower_case section)
                ∷ (parse_lines e.out ([], [])).1,
          )
      parsed =
          parse_lines-append gap _ ([], [])
          ∙ ap (parse_lines ((b'[' ∷ section ++ codes "]") ∷ key_line key value ∷ []))
              (gap_parsed e.out)
          ∙ section_parsed (parse_lines e.out ([], []))

  ended :
      (st : Text × Ini) (e : Edit)
      → (Sim section key value p) st e
      → Result st.1 (edit_end section key value e)
  unfolding edit_end
  ended st e sim = elim (Bool-cases (e.in_sec && not e.wrote)) [
    | inl k ↦
        rw (k, inside k)
          (finished st (record e { wrote = true; out = e.out ++ (key_line key value ∷ []) }) refl
            ((pushed section key value p) st e (ground (arith, k)) sim))
    | inr k ↦ rw k (
        by_if (Result st.1) e.found_sec (λ f. finished st e (ground (arith, k, f, sim.seen)) sim)
          (λ _. added st e sim))
  ]
    where
      inside : (e.in_sec && not e.wrote) ≡ true → e.found_sec ≡ true
      inside k = ground (arith, k, sim.found)

  started :
      (Sim section key value p)
        ([], [])
        (record { in_sec = false; wrote = false; found_sec = false; out = [] })
  unfolding parse_lines text_eq
  started = record {
    same = refl;
    agree = λ s k h. refl;
    here = sym (no_section section p.section_front);
    found = refl;
    seen = refl;
    wrote = λ h. cc;
    feeds = tt;
  }

  -- The lines that `set_ini_value` writes.
  edited_lines : Text → List Text
  edited_lines file = edit_end section key value (
      edit_lines section key value (map pop_cr (get_lines file))
        (record { in_sec = false; wrote = false; found_sec = false; out = [] }))

  edited :
      (file : Text)
      → Result (parse_lines (map pop_cr (get_lines file)) ([], [])).1 (edited_lines file)
  unfolding edited_lines
  edited file = ended (parse_lines (map pop_cr (get_lines file)) ([], [])) _ (
      stepped_lines (map pop_cr (get_lines file)) ([], []) _
        (feeds-pop_cr (get_lines file) (get_lines-no_feed file)) started)

-- For a section, a key and a value that the file can hold: after `set_ini_value`, whatever the file was,
-- the key of the section reads as the value, and every other key of every section reads as before.
pub set_ini_value-find :
    (section key value file s k : Text)
    → Plain section key value
    → find s k (parse_ini (set_ini_value section key value file)) ≡ (
        if text_eq (lower_case section) s && text_eq (lower_case key) k
        then some value
        else find s k (parse_ini file))
unfolding set_ini_value parse_ini edited_lines Result
set_ini_value-find section key value file s k p =
    ap (λ (ls : List Text). find s k (parse_lines ls ([], [])).1)
      (get_lines-write_lines (edited_lines section key value p file) written.1)
    ∙ written.0 s k
    ∙ ap
        (λ (st : Text × Ini).
          if text_eq (lower_case section) s && text_eq (lower_case key) k
          then some value
          else find s k st.1)
        (parse_lines-pop_cr (get_lines file) ([], []))
  where
    written :
        Result section key value p
          (parse_lines (map pop_cr (get_lines file)) ([], [])).1
          (edited_lines section key value p file)
    written = edited section key value p file
