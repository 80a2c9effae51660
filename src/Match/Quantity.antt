-- ===== src/Match/Quantity.antt =====
-- Quantities in a matching pass: what is filled, what is left, and whose orders are spared.
use trading_matching_engine.Base.{
  ◌+◌, ◌-◌, ◌≤◌, ◌<◌, ◌≡◌, refl, true, false, min, List, [], ◌∷◌, ◌++◌, arith, ltb, ◌==◌,
  if◌then◌else◌, All, All-append, Bool-cases, inl, inr, append_assoc, append-nil, ◌∙◌, sym, ap, ap₂,
}
use trading_matching_engine.Types.{ClientId, OrderId, Qty, Price}
use trading_matching_engine.Messages.{BookUpdate, MarketUpdateType, trade}
use trading_matching_engine.Book.{BookOrder}
use trading_matching_engine.Book.Nodes.{total_qty, total_qty-append}
use trading_matching_engine.Match.{Taker, Matching, visit}
use trading_matching_engine.Match.Orders.{match_orders}

-- What a list of orders offers to a client: all but the client's own.
unfoldable pub supply : ClientId → List BookOrder → Qty
supply c [] = 0
supply c (o ∷ os) = if o.client_id == c then supply c os else o.qty + supply c os

-- A client's own orders in a list.
unfoldable pub own : ClientId → List BookOrder → List BookOrder
own c [] = []
own c (o ∷ os) = if o.client_id == c then o ∷ own c os else own c os

-- An order by its id, a price and a quantity.
pub record Trade : Type 0 where
  pub order_id : OrderId
  pub price : Price
  pub qty : Qty

-- How a quantity is to be shared out: in the order of the list, as much as there is to each order
-- of another client until nothing is left.
unfoldable pub allot : ClientId → Qty → List BookOrder → List Trade
allot c n [] = []
allot c n (o ∷ os) =
    let skip = allot c n os in
    let rest = allot c (n - min n o.qty) os in
    if o.client_id == c
    then skip
    else if n == 0
    then []
    else record { order_id = o.order_id; price = o.price; qty = min n o.qty } ∷ rest

abbrev pub trade_of : MarketUpdateType → BookUpdate → List Trade
trade_of trade u = record { order_id = u.order_id; price = u.price; qty = u.qty } ∷ []
trade_of _ u = []

-- The trades that a list of book updates reports.
unfoldable pub trades : List BookUpdate → List Trade
trades [] = []
trades (u ∷ us) = trade_of u.kind u ++ trades us

pub trades-append : (us vs : List BookUpdate) → trades (us ++ vs) ≡ trades us ++ trades vs
unfolding trades
trades-append [] vs = refl
trades-append (u ∷ us) vs =
    ap (◌++◌ (trade_of u.kind u)) (trades-append us vs)
    ∙ sym (append_assoc (trade_of u.kind u) (trades us) (trades vs))

pub own-append : (c : ClientId) (xs ys : List BookOrder) → own c (xs ++ ys) ≡ own c xs ++ own c ys
unfolding own
own-append c [] ys = refl
own-append c (x ∷ xs) ys = ground (arith, own-append c xs ys)

-- The trade that meeting one order makes, if any.
abbrev deal : ClientId → Qty → Price → BookOrder → List Trade
deal c n p o =
    if o.client_id == c
    then []
    else if n == 0
    then []
    else record { order_id = o.order_id; price = p; qty = min n o.qty } ∷ []

allot_done : (c : ClientId) (n : Qty) (os : List BookOrder) → n ≡ 0 → allot c n os ≡ []
unfolding allot
allot_done c n [] h = refl
allot_done c n (o ∷ os) h = ground (arith, allot_done c n os h)

allot-cons :
    (c : ClientId) (n : Qty) (o : BookOrder) (os : List BookOrder)
    → allot c n (o ∷ os)
      ≡ deal c n o.price o ++ allot c (if o.client_id == c then n else n - o.qty) os
unfolding allot
allot-cons c n o os =
    let less : n - min n o.qty ≡ n - o.qty = omega arith in
    ground (arith, less, allot_done c (n - o.qty) os)

none_left : (n : Qty) → (n == 0) ≡ true → ltb 0 n ≡ false
none_left n h = ground arith

some_left : (n : Qty) → (n == 0) ≡ false → ltb 0 n ≡ true
some_left n h = ground arith

module _ (t : Taker) (p : Price) (o : BookOrder) (m : Matching) where
  visit-leaves :
      (visit t p o m).1.leaves_qty
      ≡ (if o.client_id == t.client_id then m.leaves_qty else m.leaves_qty - o.qty)
  unfolding visit
  visit-leaves = ground arith

  visit-total_qty :
      total_qty (visit t p o m).0 + m.leaves_qty ≡ o.qty + (visit t p o m).1.leaves_qty
  unfolding visit total_qty
  visit-total_qty = ground arith

  visit-spent :
      0 < (visit t p o m).1.leaves_qty → All (λ x. x.client_id ≡ t.client_id) (visit t p o m).0
  unfolding visit
  visit-spent h = ground arith

  visit-own : own t.client_id (visit t p o m).0 ≡ own t.client_id (o ∷ [])
  unfolding visit own
  visit-own = ground arith

  visit-trades :
      trades (visit t p o m).1.updates ≡ trades m.updates ++ deal t.client_id m.leaves_qty p o
  unfolding visit trades
  visit-trades = elim (Bool-cases (o.client_id == t.client_id)) [
    | inl same ↦ rw same (sym (append-nil (trades m.updates)))
    | inr other ↦ elim (Bool-cases (m.leaves_qty == 0)) [
      | inl spent ↦
          rw (other, none_left m.leaves_qty spent, spent) (sym (append-nil (trades m.updates)))
      | inr more ↦ elim (Bool-cases (o.qty - min m.leaves_qty o.qty == 0)) [
        | inl gone ↦ rw (other, some_left m.leaves_qty more, more, gone) (trades-append m.updates _)
        | inr stays ↦
            rw (other, some_left m.leaves_qty more, more, stays) (trades-append m.updates _)
      ]
    ]
  ]

module _ (t : Taker) where
  -- What is left of an incoming quantity is what the other clients' orders do not cover.
  pub match_orders-leaves :
      (os : List BookOrder) (m : Matching)
      → (match_orders t os m).1.leaves_qty ≡ m.leaves_qty - supply t.client_id os
  unfolding match_orders supply
  match_orders-leaves [] m = omega arith
  match_orders-leaves (o ∷ os) m =
      ground (arith, match_orders-leaves os (visit t o.price o m).1, visit-leaves t o.price o m)

  -- The resting quantity falls by as much as the incoming quantity.
  pub match_orders-total_qty :
      (os : List BookOrder) (m : Matching)
      → total_qty (match_orders t os m).0 + m.leaves_qty
        ≡ total_qty os + (match_orders t os m).1.leaves_qty
  unfolding match_orders total_qty
  match_orders-total_qty [] m = omega arith
  match_orders-total_qty (o ∷ os) m = omega (
    arith,
    total_qty-append (visit t o.price o m).0 (match_orders t os (visit t o.price o m).1).0,
    match_orders-total_qty os (visit t o.price o m).1,
    visit-total_qty t o.price o m,
  )

  match_orders-leaves-le :
      (os : List BookOrder) (m : Matching) → (match_orders t os m).1.leaves_qty ≤ m.leaves_qty
  match_orders-leaves-le os m = omega (arith, match_orders-leaves os m)

  -- If something is left, only the taker's own orders are.
  pub match_orders-spent :
      (os : List BookOrder) (m : Matching)
      → 0 < (match_orders t os m).1.leaves_qty
      → All (λ x. x.client_id ≡ t.client_id) (match_orders t os m).0
  unfolding match_orders
  match_orders-spent [] m h = tt
  match_orders-spent (o ∷ os) m h =
      let m' = (visit t o.price o m).1 in
      All-append (λ x. x.client_id ≡ t.client_id) (visit t o.price o m).0 (match_orders t os m').0
        (visit-spent t o.price o m (omega (arith, match_orders-leaves-le os m')))
        (match_orders-spent os m' h)

  -- The taker's own orders stay as they are.
  pub match_orders-own :
      (os : List BookOrder) (m : Matching)
      → own t.client_id (match_orders t os m).0 ≡ own t.client_id os
  unfolding match_orders
  match_orders-own [] m = refl
  match_orders-own (o ∷ os) m =
      let m' = (visit t o.price o m).1 in
      own-append t.client_id (visit t o.price o m).0 (match_orders t os m').0
      ∙ ap₂ ◌++◌ (visit-own t o.price o m) (match_orders-own os m')
      ∙ sym (own-append t.client_id (o ∷ []) os)

  -- The trades are the allotment.
  pub match_orders-trades :
      (os : List BookOrder) (m : Matching)
      → trades (match_orders t os m).1.updates
        ≡ trades m.updates ++ allot t.client_id m.leaves_qty os
  unfolding match_orders allot
  match_orders-trades [] m = sym (append-nil (trades m.updates))
  match_orders-trades (o ∷ os) m =
      let m' = (visit t o.price o m).1 in
      match_orders-trades os m'
      ∙ ap (λ l. l ++ allot t.client_id m'.leaves_qty os) (visit-trades t o.price o m)
      ∙ append_assoc (trades m.updates) (deal t.client_id m.leaves_qty o.price o)
          (allot t.client_id m'.leaves_qty os)
      ∙ ap
          (λ n.
            trades m.updates ++ (deal t.client_id m.leaves_qty o.price o ++ allot t.client_id n os))
          (visit-leaves t o.price o m)
      ∙ ap (◌++◌ (trades m.updates)) (sym (allot-cons t.client_id m.leaves_qty o os))
