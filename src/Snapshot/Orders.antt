-- ===== src/Snapshot/Orders.antt =====
-- What the mirror holds of one order id while the matching engine works.
use trading_matching_engine.Base.{
  ◌≤◌, ◌<◌, ◌≡◌, refl, ap, sym, ◌∙◌, min, ◌-◌, append_assoc, ◌≢◌, List, [], ◌∷◌, ◌++◌, Option, none,
  some, arith, ◌==◌, if◌then◌else◌, Option-cases, inl, inr,
}
use trading_matching_engine.Dict.{lookup, lookup-insert, lookup-erase, nat_Eq}
use trading_matching_engine.Types.{OrderId, Qty}
use trading_matching_engine.Messages.{BookUpdate, MarketUpdateType, trade, cancel, modify, add}
use trading_matching_engine.Book.{BookOrder, find_node}
use trading_matching_engine.Book.Nodes.{seen, copies}
use trading_matching_engine.Match.{Taker, Matching, visit, node_update}
use trading_matching_engine.Match.Orders.{match_orders}
use trading_matching_engine.Match.Watch.{match_orders-watch}
use trading_matching_engine.Snapshot.{
  SnapshotEntry, Entries, entry_of_update, requantify_entry, apply_kind, apply_all,
  apply_all-append,
}

-- A resting order as a snapshot shows it.
abbrev pub entry_of : BookOrder → SnapshotEntry
entry_of o = record { order_id = o.order_id; side = o.side; price = o.price; qty = o.qty }

-- What a reader of the updates from the first on knows of an id.
abbrev pub mirrored : OrderId → List BookUpdate → Option SnapshotEntry
mirrored j us = lookup j (apply_all us [])

abbrev pub with_qty : Qty → Option SnapshotEntry → Option SnapshotEntry
with_qty q none = none
with_qty q (some e) = some (record e { qty = q })

lookup-requantify_entry :
    (k j : OrderId) (q : Qty) (d : Entries)
    → lookup j (requantify_entry k q d) ≡ (if k == j then with_qty q (lookup j d) else lookup j d)
unfolding requantify_entry
lookup-requantify_entry k j q d = elim (Option-cases (lookup k d)) [
  | inl e ↦ ground arith
  | inr (x, e) ↦ ground (arith, lookup-insert k j (record x { qty = q }) d)
]

-- What one more update says of an id.
abbrev pub learn :
    MarketUpdateType → BookUpdate → OrderId → Option SnapshotEntry → Option SnapshotEntry
learn add u j old = if u.order_id == j then some (entry_of_update u) else old
learn modify u j old = if u.order_id == j then with_qty u.qty old else old
learn cancel u j old = if u.order_id == j then none else old
learn _ u j old = old

lookup-apply_kind :
    (kind : MarketUpdateType) (u : BookUpdate) (j : OrderId) (d : Entries)
    → lookup j (apply_kind kind u d) ≡ learn kind u j (lookup j d)
unfolding apply_kind
lookup-apply_kind add u j d = lookup-insert u.order_id j (entry_of_update u) d
lookup-apply_kind modify u j d = lookup-requantify_entry u.order_id j u.qty d
lookup-apply_kind cancel u j d = lookup-erase u.order_id j d
lookup-apply_kind _ u j d = refl

pub mirrored-send :
    (j : OrderId) (us : List BookUpdate) (u : BookUpdate)
    → mirrored j (us ++ (u ∷ [])) ≡ learn u.kind u j (mirrored j us)
unfolding apply_all
mirrored-send j us u =
    rw (apply_all-append us (u ∷ []) []) (lookup-apply_kind u.kind u j (apply_all us []))

mirrored-send_two :
    (j : OrderId) (us : List BookUpdate) (u v : BookUpdate)
    → mirrored j (us ++ (u ∷ v ∷ [])) ≡ learn v.kind v j (learn u.kind u j (mirrored j us))
mirrored-send_two j us u v =
    ap (mirrored j) (sym (append_assoc us (u ∷ []) (v ∷ [])))
    ∙ mirrored-send j (us ++ (u ∷ [])) v
    ∙ ap (learn v.kind v j) (mirrored-send j us u)

visit-mirrored_here :
    (j : OrderId) (t : Taker) (o : BookOrder) (m : Matching)
    → o.order_id ≡ j
    → mirrored j m.updates ≡ some (entry_of o)
    → mirrored j (visit t o.price o m).1.updates
      ≡ seen entry_of (find_node j (visit t o.price o m).0)
unfolding visit find_node
visit-mirrored_here j t o m e h =
    let q = min m.leaves_qty o.qty in
    ground (
      arith,
      mirrored-send_two j m.updates (node_update t trade o o.price q)
          (node_update t cancel o o.price 0),
      mirrored-send_two j m.updates (node_update t trade o o.price q)
          (node_update t modify o o.price (o.qty - q)),
    )

visit-mirrored_elsewhere :
    (j : OrderId) (t : Taker) (o : BookOrder) (m : Matching)
    → o.order_id ≢ j
    → mirrored j (visit t o.price o m).1.updates ≡ mirrored j m.updates
unfolding visit
visit-mirrored_elsewhere j t o m e =
    let q = min m.leaves_qty o.qty in
    ground (
      arith,
      mirrored-send_two j m.updates (node_update t trade o o.price q)
          (node_update t cancel o o.price 0),
      mirrored-send_two j m.updates (node_update t trade o o.price q)
          (node_update t modify o o.price (o.qty - q)),
    )

-- The mirror follows every order through a matching pass.
pub match_orders-mirrored :
    (j : OrderId) (t : Taker) (os : List BookOrder) (m : Matching)
    → copies j os ≤ 1
    → (0 < copies j os → mirrored j m.updates ≡ seen entry_of (find_node j os))
    → mirrored j (match_orders t os m).1.updates ≡ (
        if copies j os == 0
        then mirrored j m.updates
        else seen entry_of (find_node j (match_orders t os m).0))
match_orders-mirrored j =
    match_orders-watch j entry_of (λ m. mirrored j m.updates) (visit-mirrored_here j)
      (visit-mirrored_elsewhere j)
