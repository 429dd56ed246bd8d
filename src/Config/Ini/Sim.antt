-- ===== src/Config/Ini/Sim.antt =====
-- The lines that the loop of `set_ini_value` (src/config/settings.cpp) has written so far, against those
-- of the old file.
use xnminer.Base.{
  ◌≡◌, refl, sym, ◌∙◌, Bool, true, false, not, ◌&&◌, ◌||◌, Option, some, none, List, [], ◌∷◌, ◌++◌,
  Text, is_empty, text_eq, text_eq_refl, eq_of_text_eq, All, All-append, trim, arith, Bool-cases,
  inl, inr,
}
use xnminer.Config.Ini.{
  Ini, Assignment, Edit, lower_case, front_is, is_header, header_name, split_eq, parse_line,
  parse_lines, key_line, assign, find, names_key,
}
use xnminer.Config.Ini.Lines.{no_feed}
use xnminer.Config.Ini.Plain.{Plain, key_line-no_feed, parse_line-key_line}
use xnminer.Config.Ini.Assign.{
  parse_lines-snoc, parse_line-header_case, noted, parse_line-plain_case, noted-agree, noted-other,
}

module _ (section key value : Text) (p : Plain section key value) where
  abbrev pub aimed : Text → Text → Bool
  aimed s k = text_eq (lower_case section) s && text_eq (lower_case key) k

  -- The lines so far of the old file, the loop after them, and what its lines parse to.
  pub record Sim (st : Text × Ini) (e : Edit) : Type 0 where
    pub same : (parse_lines e.out ([], [])).0 ≡ st.0
    pub agree :
        (s k : Text) → aimed s k ≡ false → find s k (parse_lines e.out ([], [])).1 ≡ find s k st.1
    pub here : e.in_sec ≡ text_eq st.0 (lower_case section)
    pub found : (not e.in_sec || e.found_sec) ≡ true
    pub seen : (not e.found_sec || e.in_sec || e.wrote) ≡ true
    pub wrote :
        e.wrote ≡ true
        → find (lower_case section) (lower_case key) (parse_lines e.out ([], [])).1 ≡ some value
    pub feeds : All (λ l. no_feed l ≡ true) e.out

  unfoldable pub line_assigned : Text → Assignment
  line_assigned s = record { section = s; key = lower_case key; value = value }

  pub find-line_assigned :
      (s : Text) (ini : Ini)
      → text_eq s (lower_case section) ≡ true
      → find (lower_case section) (lower_case key) (line_assigned s ∷ ini) ≡ some value
  unfolding find line_assigned
  find-line_assigned s ini h = rw (h, text_eq_refl (lower_case key)) refl

  pub find-line_other :
      (s k t : Text) (ini : Ini)
      → t ≡ lower_case section
      → aimed s k ≡ false
      → find s k (line_assigned t ∷ ini) ≡ find s k ini
  unfolding find line_assigned
  find-line_other s k t ini e h = rw (e, h) refl

  pub parse-pushed :
      (out : List Text)
      → parse_lines (out ++ (key_line key value ∷ [])) ([], []) ≡ (
        (parse_lines out ([], [])).0,
        line_assigned (parse_lines out ([], [])).0 ∷ (parse_lines out ([], [])).1,
      )
  unfolding line_assigned
  parse-pushed out =
      parse_lines-snoc out (key_line key value) ([], [])
      ∙ parse_line-key_line section key value (parse_lines out ([], [])).0
          (parse_lines out ([], [])).1 p

  pub feeds-key : no_feed (key_line key value) ≡ true
  feeds-key = key_line-no_feed section key value p

  -- The key's line is written in its section.
  pub pushed :
      (st : Text × Ini) (e : Edit)
      → e.in_sec ≡ true
      → Sim st e
      → Sim st (record e { wrote = true; out = e.out ++ (key_line key value ∷ []) })
  pushed st e inside sim = record {
    same = rw (parse-pushed e.out) sim.same;
    agree = λ s k h.
        rw (parse-pushed e.out)
          (find-line_other s k _ (parse_lines e.out ([], [])).1 at_section h ∙ sim.agree s k h);
    here = sim.here;
    found = sim.found;
    seen = ground (arith, sim.found, inside);
    wrote = λ _. rw (parse-pushed e.out) (
        find-line_assigned _ (parse_lines e.out ([], [])).1
          (rw at_section (text_eq_refl (lower_case section))));
    feeds = All-append _ e.out _ sim.feeds (feeds-key, tt);
  }
    where
      at_section : (parse_lines e.out ([], [])).0 ≡ lower_case section
      at_section = sim.same ∙ eq_of_text_eq st.0 (lower_case section) (sym sim.here ∙ inside)

  -- A header is copied.
  pub headed :
      (st : Text × Ini) (e : Edit) (line : Text)
      → is_header (trim line) ≡ true
      → no_feed line ≡ true
      → (not e.in_sec || e.wrote) ≡ true
      → Sim st e
      → Sim
          (header_name (trim line), st.1)
          (record {
            in_sec = text_eq (header_name (trim line)) (lower_case section);
            wrote = e.wrote || e.in_sec;
            found_sec = e.found_sec || text_eq (header_name (trim line)) (lower_case section);
            out = e.out ++ (line ∷ []);
          })
  headed st e line h feed done sim = record {
    same = rw parsed refl;
    agree = λ s k o. rw parsed (sim.agree s k o);
    here = refl;
    found = ground arith;
    seen = ground (arith, sim.seen);
    wrote = λ w. rw parsed (sim.wrote (ground (arith, w, done)));
    feeds = All-append _ e.out _ sim.feeds (feed, tt);
  }
    where
      parsed :
          parse_lines (e.out ++ (line ∷ [])) ([], [])
          ≡ (header_name (trim line), (parse_lines e.out ([], [])).1)
      parsed =
          parse_lines-snoc e.out line ([], [])
          ∙ parse_line-header_case line (parse_lines e.out ([], [])).0
              (parse_lines e.out ([], [])).1 h

  -- A line that is no header assigns the same in both files.
  pub copied :
      (st : Text × Ini) (e : Edit) (line : Text)
      → is_header (trim line) ≡ false
      → no_feed line ≡ true
      → (e.in_sec && names_key key (split_eq (trim line))) ≡ false
      → Sim st e
      → Sim (parse_line line st) (record e { out = e.out ++ (line ∷ []) })
  copied st e line h feed other sim = record {
    same = rw (parsed, plain) sim.same;
    agree = λ s k o.
        rw (parsed, plain, sim.same)
          (noted-agree s k (trim line) st.0 st.1 (parse_lines e.out ([], [])).1 (sim.agree s k o));
    here = rw plain sim.here;
    found = sim.found;
    seen = sim.seen;
    wrote = λ w.
        rw (parsed, sim.same)
          (noted-other section key (trim line) st.0 (parse_lines e.out ([], [])).1
              (rw (← sim.here) other)
            ∙ sim.wrote w);
    feeds = All-append _ e.out _ sim.feeds (feed, tt);
  }
    where
      parsed : parse_lines (e.out ++ (line ∷ [])) ([], []) ≡ (
        (parse_lines e.out ([], [])).0,
        noted (trim line) (parse_lines e.out ([], [])).0 (parse_lines e.out ([], [])).1,
      )
      parsed =
          parse_lines-snoc e.out line ([], [])
          ∙ parse_line-plain_case line (parse_lines e.out ([], [])).0 (parse_lines e.out ([], [])).1
              h

      plain : parse_line line st ≡ (st.0, noted (trim line) st.0 st.1)
      plain = parse_line-plain_case line st.0 st.1 h

  pub assign-aimed :
      (s k here : Text) (o : Option (Text × Text)) (ini : Ini)
      → here ≡ lower_case section
      → names_key key o ≡ true
      → aimed s k ≡ false
      → find s k (assign here o ini) ≡ find s k ini
  unfolding find
  assign-aimed s k here none ini e n h = refl
  assign-aimed s k here (some (k', val)) ini e n h =
      rw (e, eq_of_text_eq (lower_case (trim k')) (lower_case key) n, h) refl

  pub noted-aimed :
      (s k t here : Text) (ini : Ini)
      → here ≡ lower_case section
      → names_key key (split_eq t) ≡ true
      → aimed s k ≡ false
      → find s k (noted t here ini) ≡ find s k ini
  unfolding noted
  noted-aimed s k t here ini e n h =
      elim (Bool-cases (is_empty t || front_is b'#' t || front_is b';' t)) [
        | inl b ↦ rw b refl
        | inr b ↦ rw b (assign-aimed s k here (split_eq t) ini e n h)
      ]

  -- A line of the key gives way to the new one.
  pub replaced :
      (st : Text × Ini) (e : Edit) (line : Text)
      → is_header (trim line) ≡ false
      → e.in_sec ≡ true
      → names_key key (split_eq (trim line)) ≡ true
      → Sim st e
      → Sim
          (parse_line line st)
          (record e { wrote = true; out = e.out ++ (key_line key value ∷ []) })
  replaced st e line h inside names sim = rw (parse_line-plain_case line st.0 st.1 h) (record {
    same = new.same;
    agree = λ s k o.
        new.agree s k o
        ∙ sym (
            noted-aimed s k (trim line) st.0 st.1
              (eq_of_text_eq st.0 (lower_case section) (sym sim.here ∙ inside)) names o);
    here = new.here;
    found = new.found;
    seen = new.seen;
    wrote = new.wrote;
    feeds = new.feeds;
  })
    where
      new : Sim st (record e { wrote = true; out = e.out ++ (key_line key value ∷ []) })
      new = pushed st e inside sim
