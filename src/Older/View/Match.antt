-- ===== src/Older/View/Match.antt =====
-- `matchIncoming` of exchange/market_data/order_book.cpp against the one of exchange/matcher.
use trading_matching_engine.Base.{
  ◌-◌, ◌≡◌, refl, Bool, not, ◌&&◌, List, [], ◌∷◌, min, ltb, ◌==◌, Bool-cases, inl, inr,
}
use trading_matching_engine.Types.{OrderId, ClientId, Qty, Price, Side, is_buy}
use trading_matching_engine.Messages.{trade, modify, cancel}
use trading_matching_engine.Book.{BookOrder, PriceLevel, SymbolOrderBook, levels}
use trading_matching_engine.Match.{
  Taker, Matching, fill, visit, match_level, match_levels, match_incoming, too_far, taker, matching,
  opposite, node_update,
}
use trading_matching_engine.Older
use trading_matching_engine.Older.Match as Earlier
use trading_matching_engine.Older.View.{
  view_order, view_orders, view_levels, view_updates, view, view_updates-append,
}
use trading_matching_engine.Older.View.Maintenance.{view_orders-append, put_level-view, levels-view}

abbrev view_matching : Matching → Matching
view_matching m = record m { updates = view_updates m.updates }

abbrev view_kept : List BookOrder × Matching → List Older.BookOrder × Matching
view_kept (os, m) = (view_orders os, view_matching m)

module _ (t : Taker) where
  fill-view :
      (p : Price) (o : BookOrder) (m : Matching)
      → Earlier.fill t p (view_order o) (view_matching m) ≡ view_kept (fill t p o m)
  unfolding fill Earlier.fill view_updates
  fill-view p o m =
      let q = min m.leaves_qty o.qty in
      let traded = node_update t trade o p q in
      elim (Bool-cases (o.qty - q == 0)) [
        | inl gone ↦
            rw (gone, view_updates-append m.updates (traded ∷ node_update t cancel o p 0 ∷ []))
        | inr left ↦ rw (
          left,
          view_updates-append m.updates (traded ∷ node_update t modify o p (o.qty - q) ∷ []),
        )
      ]

  visit-view :
      (p : Price) (o : BookOrder) (m : Matching)
      → Earlier.visit t p (view_order o) (view_matching m) ≡ view_kept (visit t p o m)
  unfolding visit Earlier.visit
  visit-view p o m = elim (Bool-cases (not (o.client_id == t.client_id) && ltb 0 m.leaves_qty)) [
    | inl meets ↦ rw meets (fill-view p o m)
    | inr passes ↦ rw passes
  ]

  match_level-view :
      (p : Price) (os : List BookOrder) (m : Matching)
      → Earlier.match_level t p (view_orders os) (view_matching m)
        ≡ view_kept (match_level t p os m)
  unfolding match_level Earlier.match_level
  match_level-view p [] m = refl
  match_level-view p (o ∷ os) m =
      let (kept, m') = visit t p o m in
      rw (
        visit-view p o m,
        match_level-view p os m',
        view_orders-append kept ((match_level t p os m').0),
      )

  abbrev view_side : List PriceLevel × Matching → List Older.PriceLevel × Matching
  view_side (ls, m) = (view_levels ls, view_matching m)

  match_levels-view :
      (ls : List PriceLevel) (m : Matching)
      → Earlier.match_levels t (view_levels ls) (view_matching m) ≡ view_side (match_levels t ls m)
  unfolding match_levels Earlier.match_levels
  match_levels-view [] m = refl
  match_levels-view (l ∷ ls) m =
      let r = match_level t l.price l.orders m in
      let m' : Matching = r.1 in
      elim (Bool-cases (ltb 0 m.leaves_qty && not (too_far t l.price))) [
        | inl goes ↦ rw (
          goes,
          match_level-view l.price l.orders m,
          match_levels-view ls m',
          put_level-view l.price r.0 ((match_levels t ls m').0),
        )
        | inr stops ↦ rw stops
      ]

pub match_incoming-view :
    (client_id : ClientId) (order_id : OrderId) (side : Side) (price : Price) (has_limit : Bool)
    (qty : Qty) (b : SymbolOrderBook)
    → Earlier.match_incoming client_id order_id side price has_limit qty (view b) ≡ (
      view (match_incoming client_id order_id side price has_limit qty b).0,
      (match_incoming client_id order_id side price has_limit qty b).1,
    )
unfolding match_incoming Earlier.match_incoming
match_incoming-view client_id order_id side price has_limit qty b =
    let t = taker client_id order_id side price has_limit b in
    let ls = levels (opposite side) b in
    let met = match_levels-view t ls (matching b qty) in
    elim (Bool-cases (is_buy side)) [
      | inl s ↦ rw (Earlier.match_incoming, levels-view (opposite side) b, met, s)
      | inr s ↦ rw (Earlier.match_incoming, levels-view (opposite side) b, met, s)
    ]
