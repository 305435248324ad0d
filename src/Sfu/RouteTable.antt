-- ===== src/Sfu/RouteTable.antt =====
-- media-svc/sfu/RouteTable.h and RouteTable.cpp: which peer sends an SSRC. Each call holds the
-- table's lock throughout.
pub mod Lookup
pub mod Refinement
use namecon.Common.{ℕ, List, [], ◌∷◌, Option, ◌==◌, if◌then◌else◌}
use namecon.Common.Store.{insert, lookup}

abbrev pub RouteTable : Type 0
RouteTable = List (ℕ × ℕ)

unfoldable pub find_peer : ℕ → RouteTable → Option ℕ
find_peer ssrc table = lookup ssrc table

unfoldable pub bind : ℕ → ℕ → RouteTable → RouteTable
bind ssrc peer table = insert ssrc peer table

unfoldable pub unbind_peer : ℕ → RouteTable → RouteTable
unbind_peer peer [] = []
unbind_peer peer ((ssrc, p) ∷ table) =
    if p == peer then unbind_peer peer table else (ssrc, p) ∷ unbind_peer peer table
