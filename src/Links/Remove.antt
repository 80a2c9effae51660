-- ===== src/Links/Remove.antt =====
-- The link handling of removeOrder (exchange/matcher/order_book.cpp).
use trading_matching_engine.Base.{
  ◌≡◌, refl, sym, ◌∙◌, [], ◌∷◌, ◌++◌, none, some, arith, update, subst, length-append, ◌↔◌,
}
use trading_matching_engine.Book.{BookOrder, unlink}
use trading_matching_engine.Book.Nodes.{copies, unlink-append_right}
use trading_matching_engine.Links.{
  Pointer, Node, LinkedLevel, set_next, set_prev, put_node, pass_forward, pass_back, remove_node,
  count_down,
}
use trading_matching_engine.Links.Chain.{
  Blocks, first_of, last_of, Chain, Absent, AbsentAt, Apart, Distinct, Represents, first_of-append,
  last_of-append, Chain-append, Chain-append_parts, Chain-update, Distinct-append,
  Distinct-append_parts, Apart-head, Apart-tail, last_of-AbsentAt, relink_last, node_between,
  order_count-nil, orders_of, orders_of-append,
}

-- The node is passed on the way forward.
record Passed (xs : Blocks) (p : Pointer) (o : BookOrder) (bs : Blocks) (l : LinkedLevel)
    : Type 0 where
  chain_before : Chain l.store none xs (first_of bs none)
  here : l.store p ≡ some (node_between xs o bs)
  chain_after : Chain l.store (some p) bs none
  head : l.head ≡ first_of xs (first_of bs none)

-- The node is passed both ways.
record Freed (xs bs : Blocks) (l : LinkedLevel) : Type 0 where
  chain_before : Chain l.store none xs (first_of bs none)
  chain_after : Chain l.store (last_of none xs) bs none
  head : l.head ≡ first_of xs (first_of bs none)
  tail : l.tail ≡ last_of (last_of none xs) bs

pass_forward-Passed :
    (xs : Blocks) (p : Pointer) (o : BookOrder) (bs : Blocks) (l : LinkedLevel)
    → Distinct xs
    → Absent p xs
    → Apart xs bs
    → Chain l.store none xs (some p)
    → l.store p ≡ some (node_between xs o bs)
    → Chain l.store (some p) bs none
    → l.head ≡ first_of xs (some p)
    → (l' : LinkedLevel) × (pass_forward p l ≡ some l')
      × Passed xs p o bs l'
      × (l'.tail ≡ l.tail)
      × (l'.order_count ≡ l.order_count)
unfolding pass_forward set_next
pass_forward-Passed [] p o bs l d a far before here after head =
    let passed : Passed [] p o bs (record l { head = first_of bs none }) = record {
      chain_before = tt;
      here = here;
      chain_after = after;
      head = refl;
    } in
    (record l { head = first_of bs none }, rw (pass_forward, here), passed, refl, refl)
pass_forward-Passed (x ∷ xs) p o bs l d a far before here after head =
    let (q, n, e, f, c, g) = relink_last l.store none (some p) (first_of bs none) x xs d before in
    let n' : Node = record n { next = first_of bs none } in
    let q_far : Absent q bs =
      subst (λ r. AbsentAt r bs) e (last_of-AbsentAt none (x ∷ xs) bs tt far) in
    let passed : Passed (x ∷ xs) p o bs (put_node q n' l) = record {
      chain_before = c;
      here = rw (g p a) here;
      chain_after = Chain-update l.store q (some n') (some p) none bs q_far after;
      head = head;
    } in
    (put_node q n' l, rw (pass_forward, here, e, set_next, f), passed, refl, refl)

pass_back-Freed :
    (xs : Blocks) (p : Pointer) (o : BookOrder) (bs : Blocks) (l : LinkedLevel)
    → Distinct bs
    → Apart xs bs
    → l.tail ≡ last_of (some p) bs
    → Passed xs p o bs l
    → (l' : LinkedLevel) × (pass_back p l ≡ some l')
      × Freed xs bs l'
      × (l'.order_count ≡ l.order_count)
unfolding pass_back set_prev
pass_back-Freed xs p o [] l d far tail h =
    let freed : Freed xs [] (record l { tail = last_of none xs }) = record {
      chain_before = h.chain_before;
      chain_after = tt;
      head = h.head;
      tail = refl;
    } in
    (record l { tail = last_of none xs }, rw (pass_back, h.here), freed, refl)
pass_back-Freed xs p o (b ∷ bs) l d far tail h =
    let n' : Node = record { order = b.1; prev = last_of none xs; next = first_of bs none } in
    let l' : LinkedLevel = put_node b.0 n' l in
    let freed : Freed xs (b ∷ bs) l' = record {
      chain_before =
          Chain-update l.store b.0 (some n') none (some b.0) xs (Apart-head xs b bs far)
            h.chain_before;
      chain_after =
          (ground arith, Chain-update l.store b.0 (some n') (some b.0) none bs d.0 h.chain_after.1);
      head = h.head;
      tail = tail;
    } in
    (l', rw (pass_back, h.here, set_prev, h.chain_after.0), freed, refl)

-- If the nodes of a level are chained up in an order and one of them is removed, no bad pointer is
-- followed, and the others are chained up in the same order.
pub remove_node-Represents :
    (xs : Blocks) (p : Pointer) (o : BookOrder) (bs : Blocks) (l : LinkedLevel)
    → Represents l (xs ++ ((p, o) ∷ bs))
    → (l' : LinkedLevel) × (remove_node p l ≡ some l') × Represents l' (xs ++ bs)
unfolding remove_node
remove_node-Represents xs p o bs l r =
    let (before, (here, after)) = Chain-append_parts l.store none none xs ((p, o) ∷ bs) r.chain in
    let (dx, (pb, db), far) = Distinct-append_parts xs ((p, o) ∷ bs) r.distinct in
    let px = Apart-head xs (p, o) bs far in
    let far' = Apart-tail xs (p, o) bs far in
    let (l1, e1, passed, t1, c1) =
      pass_forward-Passed xs p o bs l dx px far' before here after
        (r.head ∙ first_of-append xs ((p, o) ∷ bs) none) in
    let (l2, e2, freed, c2) =
      pass_back-Freed xs p o bs l1 db far' (t1 ∙ r.tail ∙ last_of-append none xs ((p, o) ∷ bs))
        passed in
    let l3 : LinkedLevel = record l2 {
      store = update l2.store p none;
      order_count = count_down l2.order_count;
    } in
    let shorter = length-append xs bs in
    let longer = length-append xs ((p, o) ∷ bs) in
    let done : Represents l3 (xs ++ bs) = record {
      chain =
          Chain-append l3.store none none xs bs
            (Chain-update l2.store p none none (first_of bs none) xs px freed.chain_before)
            (Chain-update l2.store p none (last_of none xs) none bs pb freed.chain_after);
      distinct = Distinct-append xs bs dx db far';
      head = freed.head ∙ sym (first_of-append xs bs none);
      tail = freed.tail ∙ sym (last_of-append none xs bs);
      order_count = ground (arith, r.order_count, c1, c2, r.in_range, shorter, longer);
      in_range = omega (arith, r.in_range, shorter, longer);
    } in
    (l3, rw (remove_node, e1, e2), done)

-- If the nodes of a level are chained up in an order and one of them is removed, whose id none
-- before it has, no bad pointer is followed, the others are chained up in the same order, their
-- orders are what `unlink` makes of the list, and the count is zero, which erases the level,
-- exactly if no order is left.
pub remove_node-unlink :
    (xs : Blocks) (p : Pointer) (o : BookOrder) (bs : Blocks) (l : LinkedLevel)
    → Represents l (xs ++ ((p, o) ∷ bs))
    → copies o.order_id (orders_of xs) ≡ 0
    → (l' : LinkedLevel) × (remove_node p l ≡ some l')
      × Represents l' (xs ++ bs)
      × (orders_of (xs ++ bs) ≡ unlink o.order_id (orders_of (xs ++ ((p, o) ∷ bs))))
      × ((l'.order_count ≡ 0) ↔ (orders_of (xs ++ bs) ≡ []))
unfolding unlink
remove_node-unlink xs p o bs l r new =
    let (l', e, r') = remove_node-Represents xs p o bs l r in
    let orders = orders_of-append xs ((p, o) ∷ bs) in
    let first_here : unlink o.order_id (o ∷ orders_of bs) ≡ orders_of bs = ground arith in
    let same = unlink-append_right o.order_id (orders_of xs) (o ∷ orders_of bs) new in
    (
      l',
      e,
      r',
      rw (orders, same, first_here) (orders_of-append xs bs),
      order_count-nil (xs ++ bs) l' r',
    )
