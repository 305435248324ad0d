-- ===== src/Config.antt =====
-- media-svc/config/ConfigMgr.h and ConfigMgr.cpp: the INI reader. A file is its bytes, or `none`
-- where it cannot be opened.
pub mod Logging
pub mod Trim
mod Runs
pub mod Lookup
pub mod RoundTrip
pub mod Comments
use namecon.Common.{
  ℕ, Bool, true, false, ◌&&◌, ◌||◌, List, [], ◌∷◌, Option, none, some, ◌==◌, if◌then◌else◌,
}
use namecon.Common.Bytes.{Bytes}
use namecon.Common.Text.{bytes_eq, lines}

-- `_section_datas`
abbrev pub SectionInfo : Type 0
SectionInfo = List (Bytes × Bytes)

-- `_config_map`
abbrev pub ConfigMgr : Type 0
ConfigMgr = List (Bytes × SectionInfo)

-- `SectionInfo::operator[]`: empty where the key is missing.
unfoldable pub get : Bytes → SectionInfo → Bytes
get key [] = []
get key ((k, v) ∷ rest) = if bytes_eq k key then v else get key rest

-- `ConfigMgr::operator[]`: empty where the section is missing.
unfoldable pub section : Bytes → ConfigMgr → SectionInfo
section name [] = []
section name ((n, s) ∷ rest) = if bytes_eq n name then s else section name rest

unfoldable pub put_key : Bytes → Bytes → SectionInfo → SectionInfo
put_key key val [] = (key, val) ∷ []
put_key key val ((k, v) ∷ rest) =
    if bytes_eq k key then (k, val) ∷ rest else (k, v) ∷ put_key key val rest

-- `_config_map[currentSection]._section_datas[key] = val`
unfoldable pub put : Bytes → Bytes → Bytes → ConfigMgr → ConfigMgr
put name key val [] = (name, put_key key val []) ∷ []
put name key val ((n, s) ∷ rest) =
    if bytes_eq n name then (n, put_key key val s) ∷ rest else (n, s) ∷ put name key val rest

abbrev pub is_edge : ℕ → Bool
is_edge c = c == 32 || (c == 9 || c == 13)

unfoldable pub trim_left : Bytes → Bytes
trim_left [] = []
trim_left (c ∷ s) = if is_edge c then trim_left s else c ∷ s

abbrev pub keep_edge : ℕ → Bytes → Bytes
keep_edge c [] = if is_edge c then [] else c ∷ []
keep_edge c (d ∷ s) = c ∷ d ∷ s

unfoldable pub trim_right : Bytes → Bytes
trim_right [] = []
trim_right (c ∷ s) = keep_edge c (trim_right s)

-- `s.erase(s.find_first_of("#;"))`
unfoldable pub cut_comment : Bytes → Bytes
cut_comment [] = []
cut_comment (c ∷ s) = if c == 35 || c == 59 then [] else c ∷ cut_comment s

unfoldable pub trim : Bytes → Bytes
trim s = cut_comment (trim_right (trim_left s))

unfoldable pub last_is : ℕ → Bytes → Bool
last_is c [] = false
last_is c (d ∷ []) = d == c
last_is c (d ∷ e ∷ s) = last_is c (e ∷ s)

unfoldable pub drop_last : Bytes → Bytes
drop_last [] = []
drop_last (c ∷ []) = []
drop_last (c ∷ d ∷ s) = c ∷ drop_last (d ∷ s)

-- `line.substr(1, line.size() - 2)` of a line in brackets. For the line "[" the count wraps around,
-- but the line is no header, since it does not end in "]".
unfoldable pub bracketed : Bytes → Option Bytes
bracketed [] = none
bracketed (c ∷ s) = if c == 91 && last_is 93 (c ∷ s) then some (drop_last s) else none

unfoldable pub split_eq : Bytes → Option (Bytes × Bytes)
split_eq [] = none
split_eq (c ∷ s) =
    let rest = split_eq s in
    if c == 61 then some ([], s) else elim rest [ none ↦ none | some (k, v) ↦ some (c ∷ k, v) ]

-- A value in quotes of one kind; of two characters at least.
unfoldable pub unquote : Bytes → Bytes
unquote [] = []
unquote (c ∷ []) = c ∷ []
unquote (c ∷ d ∷ s) =
    if (c == 34 && last_is 34 (d ∷ s)) || (c == 39 && last_is 39 (d ∷ s))
    then drop_last (d ∷ s)
    else c ∷ d ∷ s

abbrev pub is_empty : Bytes → Bool
is_empty [] = true
is_empty (c ∷ s) = false

-- `currentSection` and the map.
pub record Loading : Type 0 where
  pub current_section : Bytes
  pub config_map : ConfigMgr

unfoldable pub store : Bytes → Bytes → Loading → Loading
store key val st =
    if is_empty st.current_section || is_empty key
    then st
    else record st { config_map = put st.current_section key val st.config_map }

abbrev pub key_line : Option (Bytes × Bytes) → Loading → Loading
key_line none st = st
key_line (some (key, val)) st = store (trim key) (unquote (trim val)) st

abbrev pub trimmed_line : Bytes → Option Bytes → Loading → Loading
trimmed_line line none st = key_line (split_eq line) st
trimmed_line line (some name) st = record st { current_section = name }

-- A line of the file; an empty one has neither brackets nor "=".
unfoldable pub load_line : Bytes → Loading → Loading
load_line line st = let line' = trim line in trimmed_line line' (bracketed line') st

unfoldable pub load_lines : List Bytes → Loading → Loading
load_lines [] st = st
load_lines (line ∷ rest) st = load_lines rest (load_line line st)

abbrev pub load_text : Bytes → ConfigMgr → ConfigMgr
load_text text m =
    (load_lines (lines text) (record { current_section = []; config_map = m })).config_map

-- `Load`, up to what it logs.
unfoldable pub load : Option Bytes → ConfigMgr → ConfigMgr
load none m = m
load (some text) m = load_text text m
