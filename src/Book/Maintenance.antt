-- ===== src/Book/Maintenance.antt =====
-- What removing, resizing and resting an order do to a well-formed book.
use trading_matching_engine.Base.{
  ◌<◌, ◌≡◌, refl, sym, ap, ◌∙◌, Option, none, some, arith, ◌==◌, if◌then◌else◌, Bool-cases,
  Option-cases, inl, inr,
}
use trading_matching_engine.Types.{OrderId, Qty, is_buy, buy, sell}
use trading_matching_engine.Book.{
  BookOrder, PriceLevel, SymbolOrderBook, place_of, find_level, find_node, levels, unlink,
  unlink_order, set_node, remove_order, resize_order,
}
use trading_matching_engine.Book.Nodes.{
  seen, copies_of_some, copies_of_none, find_node-unlink, copies-unlink-le, find_node-set_node,
  copies-set_node, unlink-append_left, unlink-append_right, set_node-append_left,
  set_node-append_right, resized,
}
use trading_matching_engine.Book.Levels.{
  flat, flat-unlink_order, flat-set_order, unlink_order-IsSide, set_order-IsSide,
}
use trading_matching_engine.Book.Valid.{resting, IsValid, located, node_at_place}

-- The level of a resting order is there.
level_found :
    {b : SymbolOrderBook} (id : OrderId) {o : BookOrder}
    → IsValid b
    → find_node id (resting b) ≡ some o
    → (l : PriceLevel) × (find_level o.price (levels o.side b) ≡ some l)
level_found {b} id {o} v h = elim (Option-cases (find_level o.price (levels o.side b))) [
  | inl e ↦ absurd (ground (arith, node_at_place id v h))
  | inr l ↦ l
]

module _ {b : SymbolOrderBook} (o : BookOrder) (v : IsValid b)
    (h : find_node o.order_id (resting b) ≡ some o) where
  abbrev id : OrderId
  id = o.order_id

  pub remove_order-open : remove_order o b ≡ (
      if is_buy o.side
      then record b {
        bids = unlink_order o.price id b.bids;
        order_index = λ j. if id == j then none else b.order_index j;
      }
      else record b {
        asks = unlink_order o.price id b.asks;
        order_index = λ j. if id == j then none else b.order_index j;
      })
  unfolding remove_order
  remove_order-open = let (l, e) = level_found id v h in rw (e, remove_order) (ground arith)

  -- Removing an order that rests in a well-formed book unlinks that order and leaves all others, in
  -- their order.
  pub resting-remove_order : resting (remove_order o b) ≡ unlink id (resting b)
  resting-remove_order = rw remove_order-open (elim (located id v h) [
    | inl (s, bid) ↦
        rw (s, flat-unlink_order buy id b.bids v.bids_side bid)
          (sym (
            unlink-append_left id (flat b.bids) (flat b.asks)
              (copies_of_some id (flat b.bids) o bid)))
    | inr (s, no_bid, ask) ↦
        rw (s, flat-unlink_order sell id b.asks v.asks_side ask)
          (sym (
            unlink-append_right id (flat b.bids) (flat b.asks)
              (copies_of_none id (flat b.bids) no_bid)))
  ])

  pub find_node-remove_order :
      (j : OrderId)
      → find_node j (resting (remove_order o b))
        ≡ (if id == j then none else find_node j (resting b))
  find_node-remove_order j =
      ap (find_node j) resting-remove_order ∙ find_node-unlink id j (resting b) (v.unique id)

  -- Removing a resting order keeps the book well-formed.
  pub remove_order-IsValid : IsValid (remove_order o b)
  remove_order-IsValid = record {
    bids_side = rw remove_order-open (elim (Bool-cases (is_buy o.side)) [
      | inl s ↦ rw s (unlink_order-IsSide buy o.price id b.bids v.bids_side)
      | inr s ↦ rw s v.bids_side
    ]);
    asks_side = rw remove_order-open (elim (Bool-cases (is_buy o.side)) [
      | inl s ↦ rw s v.asks_side
      | inr s ↦ rw s (unlink_order-IsSide sell o.price id b.asks v.asks_side)
    ]);
    unique =
        λ j. rw resting-remove_order (omega (arith, copies-unlink-le id j (resting b), v.unique j));
    indexed = λ j. ground (arith, find_node-remove_order j, remove_order-open, v.indexed j);
  }

  module _ (q : Qty) where
    pub resting-resize_order : resting (resize_order o q b) ≡ set_node id q (resting b)
    unfolding resize_order
    resting-resize_order = elim (located id v h) [
      | inl (s, bid) ↦
          rw (s, flat-set_order buy id q b.bids v.bids_side bid)
            (sym (
              set_node-append_left id q (flat b.bids) (flat b.asks)
                (copies_of_some id (flat b.bids) o bid)))
      | inr (s, no_bid, ask) ↦
          rw (s, flat-set_order sell id q b.asks v.asks_side ask)
            (sym (
              set_node-append_right id q (flat b.bids) (flat b.asks)
                (copies_of_none id (flat b.bids) no_bid)))
    ]

    pub find_node-resize_order :
        (j : OrderId)
        → find_node j (resting (resize_order o q b))
          ≡ (if id == j then resized q (find_node j (resting b)) else find_node j (resting b))
    find_node-resize_order j =
        ap (find_node j) resting-resize_order ∙ find_node-set_node id q j (resting b)

    resize_order-order_index : (j : OrderId) → (resize_order o q b).order_index j ≡ b.order_index j
    unfolding resize_order
    resize_order-order_index j = ground arith

    place-resized : (x : Option BookOrder) → seen place_of (resized q x) ≡ seen place_of x
    place-resized none = refl
    place-resized (some x) = refl

    -- Resizing a resting order to a positive quantity keeps the book well-formed.
    pub resize_order-IsValid : 0 < q → IsValid (resize_order o q b)
    unfolding resize_order
    resize_order-IsValid pos_q = record {
      bids_side = elim (Bool-cases (is_buy o.side)) [
        | inl s ↦ rw s (set_order-IsSide buy o.price id q b.bids pos_q v.bids_side)
        | inr s ↦ rw s v.bids_side
      ];
      asks_side = elim (Bool-cases (is_buy o.side)) [
        | inl s ↦ rw s v.asks_side
        | inr s ↦ rw s (set_order-IsSide sell o.price id q b.asks pos_q v.asks_side)
      ];
      unique = λ j. rw (resting-resize_order, copies-set_node id q j (resting b)) (v.unique j);
      indexed = λ j. ground (
        arith,
        resize_order-order_index j,
        v.indexed j,
        find_node-resize_order j,
        place-resized (find_node j (resting b)),
      );
    }
