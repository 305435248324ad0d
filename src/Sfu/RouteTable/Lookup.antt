-- ===== src/Sfu/RouteTable/Lookup.antt =====
-- RouteTable: what `lookup` finds after `bind` and after `unbindPeer`.
use namecon.Common.Store.{lookup-insert, lookup}
use namecon.Sfu.RouteTable.{RouteTable, unbind_peer, bind, find_peer}
use namecon.Common.{ℕ, ◌≡◌, ◌≢◌, some, [], ◌∷◌, arith, if◌then◌else◌, ◌==◌}

-- After `bind` the SSRC leads to the peer, and every other SSRC where it led before.
pub find-bind :
    (ssrc peer s : ℕ) (table : RouteTable)
    → find_peer s (bind ssrc peer table) ≡ (if ssrc == s then some peer else find_peer s table)
unfolding find_peer bind
find-bind ssrc peer s table = lookup-insert ssrc s peer table

-- After `unbindPeer` no SSRC leads to the peer, and an SSRC that led to another peer still does.
pub find-unbind_peer :
    (peer s : ℕ) (table : RouteTable)
    → (find_peer s (unbind_peer peer table) ≢ some peer)
      × ((q : ℕ)
          → q ≢ peer
          → find_peer s table ≡ some q
          → find_peer s (unbind_peer peer table) ≡ some q)
unfolding find_peer unbind_peer lookup
find-unbind_peer peer s [] = (λ e. cc, λ q ne e. e)
find-unbind_peer peer s ((ssrc, p) ∷ table) =
    let (gone, kept) = find-unbind_peer peer s table in
    (λ e. ground (arith, gone), λ q ne e. ground (arith, ne, kept q ne))
