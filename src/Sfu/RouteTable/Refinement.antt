-- ===== src/Sfu/RouteTable/Refinement.antt =====
-- RouteTable against a function from SSRCs to peers.
use namecon.Common.{
  ℕ, ◌≡◌, refl, ap, ◌∙◌, List, [], ◌∷◌, Option, none, some, ◌==◌, if◌then◌else◌, arith, Bool-cases,
  ==_iff, inl, inr,
}
use namecon.Common.Store.{insert, lookup, lookup-nil, lookup-insert}
use namecon.Sfu.RouteTable.{RouteTable, find_peer, bind, unbind_peer}
use namecon.Sfu.RouteTable.Lookup.{find-bind}

-- What the calls promise, on the function that `lookup` shows.
abbrev pub Routes : Type 0
Routes = ℕ → Option ℕ

abbrev pub dropped : ℕ → Option ℕ → Option ℕ
dropped peer none = none
dropped peer (some q) = if q == peer then none else some q

unfoldable pub bound : ℕ → ℕ → Routes → Routes
bound ssrc peer f s = if ssrc == s then some peer else f s

unfoldable pub unbound : ℕ → Routes → Routes
unbound peer f s = dropped peer (f s)

pub data Call : Type 0 where
  bind_call : ℕ → ℕ → Call
  unbind_call : ℕ → Call

unfoldable pub run_table : List Call → RouteTable → RouteTable
run_table [] table = table
run_table (bind_call ssrc peer ∷ calls) table = run_table calls (bind ssrc peer table)
run_table (unbind_call peer ∷ calls) table = run_table calls (unbind_peer peer table)

unfoldable pub run_routes : List Call → Routes → Routes
run_routes [] f = f
run_routes (bind_call ssrc peer ∷ calls) f = run_routes calls (bound ssrc peer f)
run_routes (unbind_call peer ∷ calls) f = run_routes calls (unbound peer f)

-- Every SSRC stands once.
abbrev KeysOnce : RouteTable → Type 0
KeysOnce [] = Unit {0}
KeysOnce ((k, p) ∷ table) = (lookup k table ≡ none) × KeysOnce table

insert-KeysOnce : (k v : ℕ) (table : RouteTable) → KeysOnce table → KeysOnce (insert k v table)
unfolding insert
insert-KeysOnce k v [] h = (lookup-nil k, tt)
insert-KeysOnce k v ((k', p) ∷ table) h = elim (Bool-cases (k' == k)) [
  | inl e ↦ rw e (h.0, h.1)
  | inr e ↦ rw e (lookup-insert k k' v table ∙ ground (arith, h.0), insert-KeysOnce k v table h.1)
]

unbind_peer-none :
    (k peer : ℕ) (table : RouteTable)
    → lookup k table ≡ none
    → lookup k (unbind_peer peer table) ≡ none
unfolding unbind_peer lookup
unbind_peer-none k peer [] e = refl
unbind_peer-none k peer ((k', p) ∷ table) e = ground (arith, unbind_peer-none k peer table)

unbind_peer-KeysOnce :
    (peer : ℕ) (table : RouteTable) → KeysOnce table → KeysOnce (unbind_peer peer table)
unfolding unbind_peer
unbind_peer-KeysOnce peer [] h = tt
unbind_peer-KeysOnce peer ((k, p) ∷ table) h = elim (Bool-cases (p == peer)) [
  | inl e ↦ rw e (unbind_peer-KeysOnce peer table h.1)
  | inr e ↦ rw e (unbind_peer-none k peer table h.0, unbind_peer-KeysOnce peer table h.1)
]

find-unbound :
    (peer s : ℕ) (table : RouteTable)
    → KeysOnce table
    → find_peer s (unbind_peer peer table) ≡ dropped peer (find_peer s table)
unfolding find_peer unbind_peer lookup
find-unbound peer s [] h = refl
find-unbound peer s ((k, p) ∷ table) h =
    let rest = find-unbound peer s table h.1 in
    elim (Bool-cases (k == s)) [
      | inl at_s ↦
          let gone = unbind_peer-none k peer table h.0 in
          elim (Bool-cases (p == peer)) [
            | inl e ↦ rw (e, at_s, e) (rw (← (==_iff k s).0 at_s) gone)
            | inr e ↦ rw (e, at_s, e)
          ]
      | inr past ↦ elim (Bool-cases (p == peer)) [
        | inl e ↦ rw (e, past) rest
        | inr e ↦ rw (e, past) rest
      ]
    ]

-- A table stands for a function.
pub record Stands (table : RouteTable) (f : Routes) : Type 0 where
  pub once : KeysOnce table
  pub same : (s : ℕ) → find_peer s table ≡ f s

bind-Stands :
    (ssrc peer : ℕ) (table : RouteTable) (f : Routes)
    → Stands table f
    → Stands (bind ssrc peer table) (bound ssrc peer f)
unfolding bind bound
bind-Stands ssrc peer table f h = record {
  once = insert-KeysOnce ssrc peer table h.once;
  same = λ s. find-bind ssrc peer s table ∙ rw (h.same s);
}

unbind_peer-Stands :
    (peer : ℕ) (table : RouteTable) (f : Routes)
    → Stands table f
    → Stands (unbind_peer peer table) (unbound peer f)
unfolding unbound
unbind_peer-Stands peer table f h = record {
  once = unbind_peer-KeysOnce peer table h.once;
  same = λ s. find-unbound peer s table h.once ∙ ap (dropped peer) (h.same s);
}

run-Stands :
    (calls : List Call) (table : RouteTable) (f : Routes)
    → Stands table f
    → Stands (run_table calls table) (run_routes calls f)
unfolding run_table run_routes
run-Stands [] table f h = h
run-Stands (bind_call ssrc peer ∷ calls) table f h =
    run-Stands calls (bind ssrc peer table) (bound ssrc peer f) (bind-Stands ssrc peer table f h)
run-Stands (unbind_call peer ∷ calls) table f h =
    run-Stands calls (unbind_peer peer table) (unbound peer f) (unbind_peer-Stands peer table f h)

-- Any calls of bind and unbindPeer on a new table leave what the same calls leave on a function
-- from SSRCs to peers that starts out empty: lookup of every SSRC gives the function's value.
pub run_table-run_routes :
    (calls : List Call) (s : ℕ) → find_peer s (run_table calls []) ≡ run_routes calls (λ t. none) s
unfolding find_peer
run_table-run_routes calls s =
    (run-Stands calls [] (λ t. none) (record { once = tt; same = λ t. lookup-nil t })).same s
