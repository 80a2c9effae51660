-- ===== src/System/Tags.antt =====
-- The symbol that the book updates of order_book.cpp carry.
pub mod Requests
use trading_matching_engine.Base.{
  ◌-◌, ◌≡◌, refl, sym, subst, ◌∙◌, true, false, min, Bool, not, ◌&&◌, ◌||◌, List, [], ◌∷◌, ◌++◌,
  Option, none, some, arith, ltb, ◌==◌, if◌then◌else◌, All, All-append, Bool-cases, Option-cases,
  inl, inr,
}
use trading_matching_engine.Base.Int.{eqb_ℤ}
use trading_matching_engine.Types.{
  OrderId, ClientId, Qty, Price, Side, Symbol, Nanos, OrderType, limit, market, ioc, cancel, modify,
  invalid_price,
}
use trading_matching_engine.Messages.{
  EngineOrderRequest, BookUpdate, MarketUpdateType, add, trade, cancel as canceling,
  modify as modifying,
}
use trading_matching_engine.Book.{
  BookOrder, PriceLevel, SymbolOrderBook, rest_order, remove_order, resize_order, is_indexed,
  send_book_update, find_order, levels, new_book,
}
use trading_matching_engine.Match.{
  Taker, Matching, fill, visit, match_level, match_levels, match_incoming, taker, matching, too_far,
  opposite, node_update,
}
use trading_matching_engine.Entry.{
  rest_remainder, cancel_remainder, add_limit_order, add_market_order, add_ioc_order, cancel_order,
  reprice, requantify, is_bad_change, modify_order,
}
use trading_matching_engine.Entry.Sync.{
  updates-remove_order, updates-resize_order, updates-rest_order,
}
use trading_matching_engine.Core.{dispatch, process_request, bad_qty, bad_price}
use trading_matching_engine.Core.Valid.{process_all}

abbrev pub AreOf : Symbol → List BookUpdate → Type 0
AreOf s us = All (λ u. u.symbol ≡ s) us

-- All updates that a book has sent carry its symbol.
abbrev pub IsTagged : Symbol → SymbolOrderBook → Type 0
IsTagged s b = (b.symbol ≡ s) × AreOf s b.updates

AreOf-append : (s : Symbol) (us vs : List BookUpdate) → AreOf s us → AreOf s vs → AreOf s (us ++ vs)
AreOf-append s us vs = All-append (λ u. u.symbol ≡ s) us vs

module _ (t : Taker) where
  visit-AreOf :
      (p : Price) (o : BookOrder) (m : Matching)
      → AreOf t.symbol m.updates
      → AreOf t.symbol (visit t p o m).1.updates
  unfolding visit fill
  visit-AreOf p o m h =
      let q = min m.leaves_qty o.qty in
      let two : (v : BookUpdate)
          → v.symbol ≡ t.symbol
          → AreOf t.symbol (m.updates ++ (node_update t trade o p q ∷ v ∷ [])) =
        λ v e.
          AreOf-append t.symbol m.updates (node_update t trade o p q ∷ v ∷ []) h (refl, (e, tt)) in
      elim (Bool-cases (not (o.client_id == t.client_id) && ltb 0 m.leaves_qty)) [
        | inl meets ↦ elim (Bool-cases (o.qty - q == 0)) [
          | inl gone ↦ rw (meets, fill, gone) (two (node_update t canceling o p 0) refl)
          | inr left ↦ rw (meets, fill, left) (two (node_update t modifying o p (o.qty - q)) refl)
        ]
        | inr passes ↦ rw passes h
      ]

  match_level-AreOf :
      (p : Price) (os : List BookOrder) (m : Matching)
      → AreOf t.symbol m.updates
      → AreOf t.symbol (match_level t p os m).1.updates
  unfolding match_level
  match_level-AreOf p [] m h = h
  match_level-AreOf p (o ∷ os) m h = match_level-AreOf p os (visit t p o m).1 (visit-AreOf p o m h)

  match_levels-AreOf :
      (ls : List PriceLevel) (m : Matching)
      → AreOf t.symbol m.updates
      → AreOf t.symbol (match_levels t ls m).1.updates
  unfolding match_levels
  match_levels-AreOf [] m h = h
  match_levels-AreOf (l ∷ ls) m h =
      elim (Bool-cases (ltb 0 m.leaves_qty && not (too_far t l.price))) [
        | inl goes ↦
            rw (goes, match_levels)
              (match_levels-AreOf ls (match_level t l.price l.orders m).1
                (match_level-AreOf l.price l.orders m h))
        | inr stops ↦ rw (stops, match_levels) h
      ]

symbol-rest_order :
    (client_id : ClientId) (order_id : OrderId) (type : OrderType) (side : Side) (price : Price)
    (original_qty qty : Qty) (now : Nanos) (b : SymbolOrderBook)
    → (rest_order client_id order_id type side price original_qty qty now b).symbol ≡ b.symbol
unfolding rest_order
symbol-rest_order client_id order_id type side price original_qty qty now b = ground arith

symbol-remove_order : (o : BookOrder) (b : SymbolOrderBook) → (remove_order o b).symbol ≡ b.symbol
unfolding remove_order
symbol-remove_order o b = ground arith

pub symbol-resize_order :
    (o : BookOrder) (q : Qty) (b : SymbolOrderBook) → (resize_order o q b).symbol ≡ b.symbol
unfolding resize_order
symbol-resize_order o q b = ground arith

module _ (s : Symbol) where
  -- A book that has changed neither its symbol nor its updates.
  pub IsTagged-same :
      (b b' : SymbolOrderBook)
      → b'.symbol ≡ b.symbol
      → b'.updates ≡ b.updates
      → IsTagged s b
      → IsTagged s b'
  IsTagged-same b b' same kept (e, h) = (same ∙ e, subst (AreOf s) (sym kept) h)

  -- One more update.
  pub IsTagged-send :
      (kind : MarketUpdateType) (order_id : OrderId) (side : Side) (price : Price) (qty : Qty)
      (b : SymbolOrderBook)
      → IsTagged s b
      → IsTagged s (send_book_update kind order_id side price qty b)
  IsTagged-send kind order_id side price qty b (e, h) = (e, AreOf-append s b.updates _ h (e, tt))

  pub rest_order-IsTagged :
      (client_id : ClientId) (order_id : OrderId) (type : OrderType) (side : Side) (price : Price)
      (original_qty qty : Qty) (now : Nanos) (b : SymbolOrderBook)
      → IsTagged s b
      → IsTagged s (rest_order client_id order_id type side price original_qty qty now b)
  rest_order-IsTagged client_id order_id type side price original_qty qty now b =
      IsTagged-same b (rest_order client_id order_id type side price original_qty qty now b)
        (symbol-rest_order client_id order_id type side price original_qty qty now b)
        (updates-rest_order client_id order_id type side price original_qty qty now b)

  pub remove_order-IsTagged :
      (o : BookOrder) (b : SymbolOrderBook) → IsTagged s b → IsTagged s (remove_order o b)
  remove_order-IsTagged o b =
      IsTagged-same b (remove_order o b) (symbol-remove_order o b) (updates-remove_order o b)

  pub match_incoming-IsTagged :
      (client_id : ClientId) (order_id : OrderId) (side : Side) (price : Price) (has_limit : Bool)
      (qty : Qty) (b : SymbolOrderBook)
      → IsTagged s b
      → IsTagged s (match_incoming client_id order_id side price has_limit qty b).0
  unfolding match_incoming
  match_incoming-IsTagged client_id order_id side price has_limit qty b (e, h) =
      let t = taker client_id order_id side price has_limit b in
      let own : AreOf b.symbol b.updates = subst (λ k. AreOf k b.updates) (sym e) h in
      (
        e,
        subst (λ k. AreOf k (match_levels t (levels (opposite side) b) (matching b qty)).1.updates)
            e (match_levels-AreOf t (levels (opposite side) b) (matching b qty) own),
      )
