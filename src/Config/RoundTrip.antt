-- ===== src/Config/RoundTrip.antt =====
-- Printed configurations, loaded.
use namecon.Common.{
  ◌≡◌, ◌≢◌, refl, ap, ◌∙◌, Bool, false, List, [], ◌∷◌, ◌++◌, none, some, ◌==◌, if◌then◌else◌, arith,
  All, Bool-cases, inl, inr,
}
use mathlib.Core.List.{append_assoc}
use namecon.Common.Bytes.{Bytes}
use namecon.Common.Text.{bytes_eq, lines, lines-append, NoLf, NoLf-append}
use namecon.Config.{
  trim, bracketed, is_empty, Loading, store, load_line, load_lines, load, ConfigMgr, get, section,
  put,
}
use namecon.Config.Trim.{
  NoComment, StartsPlain, NoComment-append, trim_plain, last_is-snoc, drop_last-snoc,
  unquote_quoted, split_eq_at,
}
use namecon.Config.Lookup.{get-put}

abbrev pub bracketed_start : Bytes → Bool
bracketed_start [] = false
bracketed_start (c ∷ k) = c == 91

-- A key: not empty, no blank at its ends, and none of "=", "#", ";" and "[" where it would be read
-- otherwise.
pub record IsKey (k : Bytes) : Type 0 where
  pub trimmed : trim k ≡ k
  pub starts : StartsPlain k
  pub not_empty : k ≢ []
  pub no_header : bracketed_start k ≡ false
  pub no_eq : All (λ c. c ≢ 61) k
  pub no_comment : NoComment k
  pub no_lf : NoLf k

-- A value, or the name of a section.
pub record IsText (v : Bytes) : Type 0 where
  pub no_comment : NoComment v
  pub no_lf : NoLf v

-- `key="value"`
abbrev pub entry_line : Bytes → Bytes → Bytes
entry_line k v = (k ++ 61 ∷ 34 ∷ v) ++ 34 ∷ []

-- `[name]`
abbrev pub header_line : Bytes → Bytes
header_line name = (91 ∷ name) ++ 93 ∷ []

abbrev pub Entries : Type 0
Entries = List (Bytes × Bytes)

unfoldable pub print_entries : Entries → Bytes → Bytes
print_entries [] rest = rest
print_entries ((k, v) ∷ es) rest = entry_line k v ++ 10 ∷ print_entries es rest

unfoldable pub print_config : List (Bytes × Entries) → Bytes
print_config [] = []
print_config ((name, es) ∷ cfg) = header_line name ++ 10 ∷ print_entries es (print_config cfg)

-- The last value that a list gives a key, or the one before.
unfoldable pub latest_in : Bytes → Entries → Bytes → Bytes
latest_in key [] before = before
latest_in key ((k, v) ∷ es) before = latest_in key es (if bytes_eq k key then v else before)

unfoldable pub latest : Bytes → Bytes → List (Bytes × Entries) → Bytes → Bytes
latest name key [] before = before
latest name key ((n, es) ∷ cfg) before =
    latest name key cfg (if bytes_eq n name then latest_in key es before else before)

abbrev pub AreEntries : Entries → Type 0
AreEntries es = All (λ e. IsKey e.0 × IsText e.1) es

abbrev pub IsConfig : List (Bytes × Entries) → Type 0
IsConfig cfg = All (λ s. (s.0 ≢ []) × IsText s.0 × AreEntries s.1) cfg

nonempty-append : (k x : Bytes) → k ≢ [] → StartsPlain k → StartsPlain (k ++ x)
nonempty-append [] x n h = absurd (n refl)
nonempty-append (c ∷ k) x n h = h

no_bracket : (k x : Bytes) → k ≢ [] → bracketed_start k ≡ false → bracketed (k ++ x) ≡ none
unfolding bracketed
no_bracket [] x n h = absurd (n refl)
no_bracket (c ∷ k) x n h = rw h

full : (s : Bytes) → s ≢ [] → is_empty s ≡ false
full [] n = absurd (n refl)
full (c ∷ s) n = refl

entry_line_lem : (k v : Bytes) → entry_line k v ≡ k ++ 61 ∷ 34 ∷ (v ++ 34 ∷ [])
entry_line_lem k v = append_assoc k (61 ∷ 34 ∷ v) (34 ∷ [])

module _ (k v : Bytes) (key : IsKey k) (text : IsText v) where
  quoted-NoComment : NoComment (34 ∷ (v ++ 34 ∷ []))
  quoted-NoComment = (refl, NoComment-append v (34 ∷ []) text.no_comment (refl, tt))

  trim-entry : trim (entry_line k v) ≡ entry_line k v
  trim-entry =
      trim_plain (k ++ 61 ∷ 34 ∷ v) 34
        (rw (entry_line_lem k v) (nonempty-append k _ key.not_empty key.starts)) refl
        (rw (entry_line_lem k v)
          (NoComment-append k (61 ∷ 34 ∷ (v ++ 34 ∷ [])) key.no_comment (refl, quoted-NoComment)))

  entry-loaded :
      (st : Loading)
      → st.current_section ≢ []
      → load_line (entry_line k v) st
        ≡ record st { config_map = put st.current_section k v st.config_map }
  unfolding load_line store
  entry-loaded st inside =
      let tail = 61 ∷ 34 ∷ (v ++ 34 ∷ []) in
      let plain = no_bracket k tail key.not_empty key.no_header in
      let split = split_eq_at k (34 ∷ (v ++ 34 ∷ [])) key.no_eq in
      let value = trim_plain (34 ∷ v) 34 refl refl quoted-NoComment in
      rw (
        trim-entry,
        entry_line_lem k v,
        plain,
        split,
        key.trimmed,
        value,
        unquote_quoted v,
        full st.current_section inside,
        full k key.not_empty,
      )

  entry-NoLf : NoLf (entry_line k v)
  entry-NoLf = rw (entry_line_lem k v) (
      NoLf-append k (61 ∷ 34 ∷ (v ++ 34 ∷ [])) key.no_lf
        (omega arith, (omega arith, NoLf-append v (34 ∷ []) text.no_lf (omega arith))))

module _ (name : Bytes) (text : IsText name) where
  header-loaded :
      (st : Loading) → load_line (header_line name) st ≡ record st { current_section = name }
  unfolding load_line bracketed
  header-loaded st =
      let plain =
        trim_plain (91 ∷ name) 93 refl refl
          (refl, NoComment-append name (93 ∷ []) text.no_comment (refl, tt)) in
      rw (plain, last_is-snoc 93 (91 ∷ name) 93, drop_last-snoc name 93)

  header-NoLf : NoLf (header_line name)
  header-NoLf = (omega arith, NoLf-append name (93 ∷ []) text.no_lf (omega arith))

-- What the map says of a key, behind a run of lines.
abbrev at : Bytes → Bytes → Loading → Bytes
at name key st = get key (section name st.config_map)

abbrev run : Bytes → Loading → Loading
run text st = load_lines (lines text) st

run_line :
    (l rest : Bytes) (st : Loading) → NoLf l → run (l ++ 10 ∷ rest) st ≡ run rest (load_line l st)
unfolding load_lines
run_line l rest st h = rw (lines-append l rest h)

at-put :
    (name key k v : Bytes) (st : Loading)
    → at name key (record st { config_map = put st.current_section k v st.config_map }) ≡ (
        if bytes_eq st.current_section name
        then (if bytes_eq k key then v else at name key st)
        else at name key st)
at-put name key k v st = get-put name key st.current_section k v st.config_map

entries_loaded :
    (name key : Bytes) (es : Entries) (rest : Bytes) (st : Loading)
    → st.current_section ≢ []
    → AreEntries es
    → (st' : Loading) × (run (print_entries es rest) st ≡ run rest st')
      × (at name key st' ≡ (
          if bytes_eq st.current_section name
          then latest_in key es (at name key st)
          else at name key st))
unfolding print_entries load_lines latest_in
entries_loaded name key [] rest st inside h = (st, refl, ground arith)
entries_loaded name key ((k, v) ∷ es) rest st inside h =
    let st₁ = record st { config_map = put st.current_section k v st.config_map } in
    let (st', ran, said) = entries_loaded name key es rest st₁ inside h.1 in
    (
      st',
      run_line (entry_line k v) (print_entries es rest) st (entry-NoLf k v h.0.0 h.0.1)
          ∙ rw (entry-loaded k v h.0.0 h.0.1 st inside) ran,
      elim (Bool-cases (bytes_eq st.current_section name)) [
        | inl e ↦ said ∙ rw (at-put name key k v st, e)
        | inr e ↦ said ∙ rw (at-put name key k v st, e)
      ],
    )

config_loaded :
    (name key : Bytes) (cfg : List (Bytes × Entries)) (st : Loading)
    → IsConfig cfg
    → at name key (run (print_config cfg) st) ≡ latest name key cfg (at name key st)
unfolding print_config load_lines latest lines
config_loaded name key [] st h = refl
config_loaded name key ((n, es) ∷ cfg) st h =
    let st₁ = record st { current_section = n } in
    let (st', ran, said) = entries_loaded name key es (print_config cfg) st₁ h.0.0 h.0.2 in
    ap (at name key) {y = run (print_config cfg) st'} (
      run_line (header_line n) (print_entries es (print_config cfg)) st (header-NoLf n h.0.1)
      ∙ rw (header-loaded n h.0.1 st) ran)
    ∙ config_loaded name key cfg st' h.1
    ∙ ap (latest name key cfg) said

-- A printed configuration, with the values in quotes, loads back: every key of every section has
-- the last value that the file gives it there, and the one from before where it gives none; where
-- the names are not empty, the keys stand for themselves, and no text holds a comment sign or a
-- line feed.
pub load-print_config :
    (cfg : List (Bytes × Entries)) (m : ConfigMgr) (name key : Bytes)
    → IsConfig cfg
    → get key (section name (load (some (print_config cfg)) m))
      ≡ latest name key cfg (get key (section name m))
unfolding load
load-print_config cfg m name key h =
    config_loaded name key cfg (record { current_section = []; config_map = m }) h
