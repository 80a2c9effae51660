-- ===== src/Entry/Within.antt =====
-- Removing and resizing orders of an uncrossed book, and what an order that rests in it may face.
use trading_matching_engine.Base.{
  ◌≡◌, List, [], ◌∷◌, some, arith, All, All-append, All-append_parts, All-map, Bool-cases,
  Option-cases, inl, inr,
}
use trading_matching_engine.Base.Int.{eqb_ℤ}
use trading_matching_engine.Types.{OrderId, ClientId, Qty, Price, Side, buy, is_buy}
use trading_matching_engine.Book.{
  BookOrder, PriceLevel, SymbolOrderBook, find_node, find_level, unlink, unlink_order, set_node,
  set_order, remove_order, resize_order, levels,
}
use trading_matching_engine.Book.Nodes.{unlink-All, find_node-All}
use trading_matching_engine.Book.Levels.{flat, flat-put_level}
use trading_matching_engine.Book.Valid.{resting, IsValid, located}
use trading_matching_engine.Match.Reach.{opposite_orders}
use trading_matching_engine.Match.Uncrossed.{IsUncrossed, Covers, Covers-IsUncrossed, Apart, Faces}

unlink_order-All :
    (P : BookOrder → Type 0) (p : Price) (id : OrderId) (ls : List PriceLevel)
    → All P (flat ls)
    → All P (flat (unlink_order p id ls))
unfolding unlink_order flat
unlink_order-All P p id [] a = tt
unlink_order-All P p id (l ∷ ls) a =
    let (first_level, others) = All-append_parts P l.orders (flat ls) a in
    elim (Bool-cases (eqb_ℤ l.price p)) [
      | inl e ↦
          rw (e, flat-put_level l.price (unlink id l.orders) ls)
            (All-append P (unlink id l.orders) (flat ls) (unlink-All P id l.orders first_level)
              others)
      | inr e ↦ rw e (
          All-append P l.orders (flat (unlink_order p id ls)) first_level
            (unlink_order-All P p id ls others))
    ]

module _ (Q : Price → ClientId → Type 0) where
  abbrev On : BookOrder → Type 0
  On o = Q o.price o.client_id

  set_node-All :
      (id : OrderId) (q : Qty) (os : List BookOrder) → All On os → All On (set_node id q os)
  unfolding set_node
  set_node-All id q [] a = tt
  set_node-All id q (o ∷ os) a = ground (arith, set_node-All id q os a.1)

  set_order-All :
      (p : Price) (id : OrderId) (q : Qty) (ls : List PriceLevel)
      → All On (flat ls)
      → All On (flat (set_order p id q ls))
  unfolding set_order flat
  set_order-All p id q [] a = tt
  set_order-All p id q (l ∷ ls) a =
      let (first_level, others) = All-append_parts On l.orders (flat ls) a in
      elim (Bool-cases (eqb_ℤ l.price p)) [
        | inl e ↦ rw e (
            All-append On (set_node id q l.orders) (flat ls)
              (set_node-All id q l.orders first_level) others)
        | inr e ↦ rw e (
            All-append On l.orders (flat (set_order p id q ls)) first_level
              (set_order-All p id q ls others))
      ]

-- Both sides of one book are covered by those of another.
abbrev pub Within : SymbolOrderBook → SymbolOrderBook → Type 1
Within b' b = Covers (flat b'.bids) (flat b.bids) × Covers (flat b'.asks) (flat b.asks)

pub remove_order-Within : (o : BookOrder) (b : SymbolOrderBook) → Within (remove_order o b) b
unfolding remove_order
remove_order-Within o b = elim (Option-cases (find_level o.price (levels o.side b))) [
  | inl gone ↦ rw (gone, remove_order) (λ Q h. h, λ Q h. h)
  | inr (l, there) ↦ elim (Bool-cases (is_buy o.side)) [
    | inl s ↦
        rw (there, remove_order, s)
          (
            λ Q h. unlink_order-All (λ x. Q x.price x.client_id) o.price o.order_id b.bids h,
            λ Q h. h,
          )
    | inr s ↦
        rw (there, remove_order, s)
          (
            λ Q h. h,
            λ Q h. unlink_order-All (λ x. Q x.price x.client_id) o.price o.order_id b.asks h,
          )
  ]
]

pub resize_order-Within :
    (o : BookOrder) (q : Qty) (b : SymbolOrderBook) → Within (resize_order o q b) b
unfolding resize_order
resize_order-Within o q b = elim (Bool-cases (is_buy o.side)) [
  | inl s ↦ rw s (λ Q h. set_order-All Q o.price o.order_id q b.bids h, λ Q h. h)
  | inr s ↦ rw s (λ Q h. h, λ Q h. set_order-All Q o.price o.order_id q b.asks h)
]

pub Within-IsUncrossed : (b b' : SymbolOrderBook) → Within b' b → IsUncrossed b → IsUncrossed b'
Within-IsUncrossed b b' w u = Covers-IsUncrossed b b' w.0 w.1 u

-- A resting order faces only what it may face.
pub standing :
    (side : Side) {b : SymbolOrderBook} (id : OrderId) {o : BookOrder}
    → IsValid b
    → IsUncrossed b
    → find_node id (resting b) ≡ some o
    → is_buy o.side ≡ is_buy side
    → All (Faces side o.price o.client_id) (opposite_orders side b)
standing buy {b} id v u h e = elim (located id v h) [
  | inl (s, bid) ↦
      find_node-All (λ x. All (λ y. Apart x.price x.client_id y.price y.client_id) (flat b.asks)) id
        (flat b.bids) bid u
  | inr (s, _, ask) ↦ absurd (ground arith)
]
standing _ {b} id {o} v u h e = elim (located id v h) [
  | inl (s, bid) ↦ absurd (ground arith)
  | inr (s, _, ask) ↦
      All-map (λ x. All (λ y. Apart x.price x.client_id y.price y.client_id) (flat b.asks))
        (λ x. Apart x.price x.client_id o.price o.client_id) (flat b.bids)
        (λ x k.
          find_node-All (λ y. Apart x.price x.client_id y.price y.client_id) id (flat b.asks) ask k)
        u
]

pub Faces-Within :
    (side : Side) (p : Price) (c : ClientId) (b b' : SymbolOrderBook)
    → Within b' b
    → All (Faces side p c) (opposite_orders side b)
    → All (Faces side p c) (opposite_orders side b')
Faces-Within buy p c b b' w h = w.1 (Apart p c) h
Faces-Within _ p c b b' w h = w.0 (λ q d. Apart q d p c) h
