-- ===== src/Book/Valid.antt =====
-- The well-formed books: both sides in order, no id twice, and the index in step with the levels.
use trading_matching_engine.Base.{
  ◌≤◌, ◌<◌, ◌≡◌, refl, true, false, List, [], ◌∷◌, ◌++◌, none, some, arith, Option-cases, inl, inr,
  ◌⊎◌,
}
use trading_matching_engine.Types.{OrderId, Side, Symbol, is_buy, buy, sell}
use trading_matching_engine.Book.{
  BookOrder, PriceLevel, SymbolOrderBook, place_of, new_book, find_node, find_order, levels,
}
use trading_matching_engine.Book.Nodes.{seen, copies, find_node-append_cases, find_node-All}
use trading_matching_engine.Book.Levels.{flat, Fits, IsSide, node_at, node_at-flat}

-- Every order of the book, bids first, in priority order.
abbrev pub resting : SymbolOrderBook → List BookOrder
resting b = flat b.bids ++ flat b.asks

pub record IsValid (b : SymbolOrderBook) : Type 0 where
  pub bids_side : IsSide buy b.bids
  pub asks_side : IsSide sell b.asks
  pub unique : (j : OrderId) → copies j (resting b) ≤ 1
  pub indexed : (j : OrderId) → b.order_index j ≡ seen place_of (find_node j (resting b))

-- A new book is well-formed.
pub new_book-IsValid : (s : Symbol) → IsValid (new_book s)
unfolding new_book flat copies find_node
new_book-IsValid s = record {
  bids_side = tt;
  asks_side = tt;
  unique = λ j. omega arith;
  indexed = λ j. refl;
}

pub side-Fits :
    (side : Side) (id : OrderId) (ls : List PriceLevel) {o : BookOrder}
    → IsSide side ls
    → find_node id (flat ls) ≡ some o
    → Fits side o.price o
unfolding flat find_node
side-Fits side id [] s h = cc
side-Fits side id (l ∷ ls) {o} s h = elim (find_node-append_cases id l.orders (flat ls) h) [
  | inl here ↦
      let f = find_node-All (Fits side l.price) id l.orders here s.1 in
      record { at_price = refl; on_side = f.on_side; live = f.live }
  | inr later ↦ side-Fits side id ls s.3 later.1
]

-- Where an order of a well-formed book stands.
abbrev pub Located : OrderId → BookOrder → SymbolOrderBook → Type 0
Located id o b =
    ((is_buy o.side ≡ true) × (find_node id (flat b.bids) ≡ some o))
    ⊎ ((is_buy o.side ≡ false)
        × (find_node id (flat b.bids) ≡ none)
        × (find_node id (flat b.asks) ≡ some o))

pub located :
    {b : SymbolOrderBook} (id : OrderId) {o : BookOrder}
    → IsValid b
    → find_node id (resting b) ≡ some o
    → Located id o b
located {b} id {o} v h = elim (find_node-append_cases id (flat b.bids) (flat b.asks) h) [
  | inl bid ↦ inl ((side-Fits buy id b.bids v.bids_side bid).on_side, bid)
  | inr (no_bid, ask) ↦ inr ((side-Fits sell id b.asks v.asks_side ask).on_side, no_bid, ask)
]

-- A resting order is live.
pub resting-live :
    {b : SymbolOrderBook} (id : OrderId) {o : BookOrder}
    → IsValid b
    → find_node id (resting b) ≡ some o
    → 0 < o.qty
resting-live {b} id {o} v h = elim (located id v h) [
  | inl (_, bid) ↦ (side-Fits buy id b.bids v.bids_side bid).live
  | inr (_, _, ask) ↦ (side-Fits sell id b.asks v.asks_side ask).live
]

pub node_at_place :
    {b : SymbolOrderBook} (id : OrderId) {o : BookOrder}
    → IsValid b
    → find_node id (resting b) ≡ some o
    → node_at o.price id (levels o.side b) ≡ some o
node_at_place {b} id {o} v h = elim (located id v h) [
  | inl (s, bid) ↦ rw (levels, s) (node_at-flat buy id b.bids v.bids_side bid)
  | inr (s, _, ask) ↦ rw (levels, s) (node_at-flat sell id b.asks v.asks_side ask)
]

-- In a well-formed book, the look-up of an id through the index, the map of the side and the list
-- of the level finds the order that a scan of the whole book finds, or nothing if the scan does
-- not.
pub find_order-resting :
    {b : SymbolOrderBook} (id : OrderId) → IsValid b → find_order id b ≡ find_node id (resting b)
unfolding find_order
find_order-resting {b} id v = elim (Option-cases (find_node id (resting b))) [
  | inl e ↦ rw (v.indexed id, e, find_order)
  | inr (o, e) ↦ rw (v.indexed id, e, find_order) (node_at_place id v e)
]
