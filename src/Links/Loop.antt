-- ===== src/Links/Loop.antt =====
-- The inner loop of matchIncoming (exchange/matcher/order_book.cpp) over the linked nodes of a
-- level.
use trading_matching_engine.Base.{
  ℕ, zero, suc, ◌-◌, ◌≤◌, ◌≡◌, refl, sym, ◌∙◌, ap₂, true, false, not, ◌&&◌, min, [], ◌∷◌, ◌++◌,
  none, some, arith, ◌==◌, ltb, update, subst, length, length-append, append_assoc, Bool-cases, inl,
  inr,
}
use trading_matching_engine.Types.{Price}
use trading_matching_engine.Book.{BookOrder}
use trading_matching_engine.Match.{Taker, Matching, fill, visit, match_level}
use trading_matching_engine.Links.{Pointer, Node, LinkedLevel, put_node, visit_node, match_nodes}
use trading_matching_engine.Links.Chain.{
  Blocks, orders_of, orders_of-append, first_of, Apart, Represents, first_of-append, last_of-append,
  Chain-append, Chain-append_parts, Chain-update, Distinct-append, Distinct-append_parts,
  Apart-head, node_between,
}
use trading_matching_engine.Links.Remove.{remove_node-Represents}

-- The node of a block of a level.
node_of :
    (xs : Blocks) (p : Pointer) (o : BookOrder) (bs : Blocks) (l : LinkedLevel)
    → Represents l (xs ++ ((p, o) ∷ bs))
    → l.store p ≡ some (node_between xs o bs)
node_of xs p o bs l r = (Chain-append_parts l.store none none xs ((p, o) ∷ bs) r.chain).1.0

Apart-same :
    (xs : Blocks) (p : Pointer) (o o' : BookOrder) (bs : Blocks)
    → Apart xs ((p, o) ∷ bs)
    → Apart xs ((p, o') ∷ bs)
Apart-same [] p o o' bs far = tt
Apart-same (x ∷ xs) p o o' bs far = (far.0, Apart-same xs p o o' bs far.1)

-- An order is written in its block.
put_node-Represents :
    (xs : Blocks) (p : Pointer) (o o' : BookOrder) (bs : Blocks) (l : LinkedLevel)
    → Represents l (xs ++ ((p, o) ∷ bs))
    → Represents (put_node p (node_between xs o' bs) l) (xs ++ ((p, o') ∷ bs))
put_node-Represents xs p o o' bs l r =
    let (before, (here, after)) = Chain-append_parts l.store none none xs ((p, o) ∷ bs) r.chain in
    let (dx, (pb, db), far) = Distinct-append_parts xs ((p, o) ∷ bs) r.distinct in
    let n : Node = node_between xs o' bs in
    let new = length-append xs ((p, o') ∷ bs) in
    let old = length-append xs ((p, o) ∷ bs) in
    record {
      chain =
          Chain-append (update l.store p (some n)) none none xs ((p, o') ∷ bs)
            (Chain-update l.store p (some n) none (some p) xs (Apart-head xs (p, o) bs far) before)
            (ground arith, Chain-update l.store p (some n) (some p) none bs pb after);
      distinct = Distinct-append xs ((p, o') ∷ bs) dx (pb, db) (Apart-same xs p o o' bs far);
      head =
          r.head
          ∙ first_of-append xs ((p, o) ∷ bs) none
          ∙ sym (first_of-append xs ((p, o') ∷ bs) none);
      tail =
          r.tail
          ∙ last_of-append none xs ((p, o) ∷ bs)
          ∙ sym (last_of-append none xs ((p, o') ∷ bs));
      order_count = omega (arith, r.order_count, new, old);
      in_range = omega (arith, r.in_range, new, old);
    }

module _ (t : Taker) (price : Price) where
  -- A visit of a node leaves some blocks in its place, with the orders that `visit` keeps.
  abbrev Visited : Blocks → Pointer → BookOrder → Blocks → LinkedLevel → Matching → Type 0
  Visited xs p o bs l m =
      (l' : LinkedLevel) × (kept : Blocks) × (visit_node t price p (node_between xs o bs) l m
        ≡ some (l', (visit t price o m).1))
      × Represents l' (xs ++ (kept ++ bs))
      × (orders_of kept ≡ (visit t price o m).0)

  visit_meets :
      (o : BookOrder) (m : Matching)
      → (not (o.client_id == t.client_id) && ltb 0 m.leaves_qty) ≡ true
      → visit t price o m ≡ fill t price o m
  unfolding visit fill
  visit_meets o m meets = rw meets refl

  visit_passes :
      (o : BookOrder) (m : Matching)
      → (not (o.client_id == t.client_id) && ltb 0 m.leaves_qty) ≡ false
      → visit t price o m ≡ (o ∷ [], m)
  unfolding visit
  visit_passes o m passes = rw passes refl

  fill_gone :
      (o : BookOrder) (m : Matching)
      → (o.qty - min m.leaves_qty o.qty == 0) ≡ true
      → (fill t price o m).0 ≡ []
  unfolding fill
  fill_gone o m gone = rw gone refl

  fill_stays :
      (o : BookOrder) (m : Matching)
      → (o.qty - min m.leaves_qty o.qty == 0) ≡ false
      → (fill t price o m).0 ≡ record o { qty = o.qty - min m.leaves_qty o.qty } ∷ []
  unfolding fill
  fill_stays o m stays = rw stays refl

  visited :
      (xs : Blocks) (p : Pointer) (o : BookOrder) (bs : Blocks) (l : LinkedLevel) (m : Matching)
      → Represents l (xs ++ ((p, o) ∷ bs))
      → Visited xs p o bs l m
  unfolding visit_node
  visited xs p o bs l m r =
      let left = o.qty - min m.leaves_qty o.qty in
      elim (Bool-cases (not (o.client_id == t.client_id) && ltb 0 m.leaves_qty)) [
        | inr passes ↦ (
          l,
          (p, o) ∷ [],
          rw (visit_node, visit_passes o m passes, passes) refl,
          r,
          rw (visit_passes o m passes) refl,
        )
        | inl meets ↦ elim (Bool-cases (left == 0)) [
          | inl gone ↦
              let (l', e, r') = remove_node-Represents xs p o bs l r in
              (
                l',
                [],
                rw (visit_node, visit_meets o m meets, meets, gone, e) refl,
                r',
                rw (visit_meets o m meets) (sym (fill_gone o m gone)),
              )
          | inr stays ↦
              let o' : BookOrder = record o { qty = left } in
              (
                put_node p (node_between xs o' bs) l,
                (p, o') ∷ [],
                rw (visit_node, visit_meets o m meets, meets, stays) refl,
                put_node-Represents xs p o o' bs l r,
                rw (visit_meets o m meets) (sym (fill_stays o m stays)),
              )
        ]
      ]

  abbrev Matched : ℕ → Blocks → Blocks → LinkedLevel → Matching → Type 0
  Matched fuel xs bs l m =
      (l' : LinkedLevel) × (kept : Blocks) × (match_nodes fuel t price (first_of bs none) l m
        ≡ some (l', (match_level t price (orders_of bs) m).1))
      × Represents l' (xs ++ kept)
      × (orders_of kept ≡ (match_level t price (orders_of bs) m).0)

  matched :
      (fuel : ℕ) (xs bs : Blocks) (l : LinkedLevel) (m : Matching)
      → Represents l (xs ++ bs)
      → length bs ≤ fuel
      → Matched fuel xs bs l m
  unfolding match_nodes match_level
  matched zero xs [] l m r enough = (l, [], refl, r, refl)
  matched zero xs (b ∷ bs) l m r enough = absurd (omega arith)
  matched (suc fuel) xs [] l m r enough = (l, [], refl, r, refl)
  matched (suc fuel) xs ((p, o) ∷ bs) l m r enough =
      let (l1, k, e, r1, f) = visited xs p o bs l m r in
      let m1 = (visit t price o m).1 in
      let (l2, ks, e2, r2, f2) =
        matched fuel (xs ++ k) bs l1 m1 (subst (Represents l1) (sym (append_assoc xs k bs)) r1)
          (omega arith) in
      (
        l2,
        k ++ ks,
        rw (node_of xs p o bs l r, e) e2,
        subst (Represents l2) (append_assoc xs k ks) r2,
        orders_of-append k ks ∙ ap₂ ◌++◌ f f2,
      )

  -- If the nodes of a level are chained up in an order, the loop over them, with the number of
  -- orders of the level as fuel, ends without following a bad pointer, though it removes nodes on
  -- its way. It sends and leaves what `match_level` does on the list of the orders, and the nodes
  -- that stay are chained up and hold the orders that `match_level` keeps.
  pub match_nodes-match_level :
      (bs : Blocks) (l : LinkedLevel) (m : Matching)
      → Represents l bs
      → (l' : LinkedLevel) × (kept : Blocks) × (match_nodes l.order_count t price l.head l m
          ≡ some (l', (match_level t price (orders_of bs) m).1))
        × Represents l' kept
        × (orders_of kept ≡ (match_level t price (orders_of bs) m).0)
  match_nodes-match_level bs l m r =
      let (l', kept, e, done, f) =
        matched l.order_count [] bs l m r (omega (arith, r.order_count)) in
      (
        l',
        kept,
        subst
            (λ q.
              match_nodes l.order_count t price q l m
              ≡ some (l', (match_level t price (orders_of bs) m).1))
            (sym r.head) e,
        done,
        f,
      )
