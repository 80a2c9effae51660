-- ===== src/Match/Watch.antt =====
-- What is seen of one order id while a matching pass goes on: in the index, and by a reader of the
-- book updates.
use native.Mathlib.Decide.{ℕ_discrete}
use trading_matching_engine.Base.{
  ◌≤◌, ◌<◌, ◌≡◌, refl, ◌≢◌, List, [], ◌∷◌, Option, some, arith, ◌==◌, if◌then◌else◌,
}
use trading_matching_engine.Types.{OrderId}
use trading_matching_engine.Book.{BookOrder, place_of, find_node}
use trading_matching_engine.Book.Nodes.{seen, copies, find_node-append, find_node_absent}
use trading_matching_engine.Match.{Taker, Matching, visit}
use trading_matching_engine.Match.Orders.{match_orders}
use trading_matching_engine.Match.Survivors.{match_orders-copies-le, visit-copies-le}

module _ {X : Type 0} (j : OrderId) (see : BookOrder → X) (obs : Matching → Option X)
    (here : (t : Taker) (o : BookOrder) (m : Matching)
      → o.order_id ≡ j
      → obs m ≡ some (see o)
      → obs (visit t o.price o m).1 ≡ seen see (find_node j (visit t o.price o m).0))
    (elsewhere : (t : Taker) (o : BookOrder) (m : Matching)
      → o.order_id ≢ j
      → obs (visit t o.price o m).1 ≡ obs m) where
  pub match_orders-watch :
      (t : Taker) (os : List BookOrder) (m : Matching)
      → copies j os ≤ 1
      → (0 < copies j os → obs m ≡ seen see (find_node j os))
      → obs (match_orders t os m).1
        ≡ (if copies j os == 0 then obs m else seen see (find_node j (match_orders t os m).0))
  unfolding match_orders copies find_node
  match_orders-watch t [] m h k = refl
  match_orders-watch t (o ∷ os) m h k =
      let m' = (visit t o.price o m).1 in
      let rest = (match_orders t os m').0 in
      elim (ℕ_discrete o.order_id j) [
        | yes same ↦ ground (
          arith,
          here t o m same,
          match_orders-watch t os m',
          find_node-append j (visit t o.price o m).0 rest,
          find_node_absent j rest,
          match_orders-copies-le t os m' j,
        )
        | no other ↦ ground (
          arith,
          elsewhere t o m other,
          match_orders-watch t os m',
          find_node-append j (visit t o.price o m).0 rest,
          find_node_absent j (visit t o.price o m).0,
          visit-copies-le t o.price o m j,
        )
      ]

visit-order_index_here :
    (j : OrderId) (t : Taker) (o : BookOrder) (m : Matching)
    → o.order_id ≡ j
    → m.order_index j ≡ some (place_of o)
    → (visit t o.price o m).1.order_index j ≡ seen place_of (find_node j (visit t o.price o m).0)
unfolding visit find_node
visit-order_index_here j t o m e h = ground arith

visit-order_index_elsewhere :
    (j : OrderId) (t : Taker) (o : BookOrder) (m : Matching)
    → o.order_id ≢ j
    → (visit t o.price o m).1.order_index j ≡ m.order_index j
unfolding visit
visit-order_index_elsewhere j t o m e = ground arith

-- The index entry of an id.
pub match_orders-order_index :
    (j : OrderId) (t : Taker) (os : List BookOrder) (m : Matching)
    → copies j os ≤ 1
    → (0 < copies j os → m.order_index j ≡ seen place_of (find_node j os))
    → (match_orders t os m).1.order_index j ≡ (
        if copies j os == 0
        then m.order_index j
        else seen place_of (find_node j (match_orders t os m).0))
match_orders-order_index j =
    match_orders-watch j place_of (λ m. m.order_index j) (visit-order_index_here j)
      (visit-order_index_elsewhere j)
