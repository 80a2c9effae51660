-- ===== src/Links/Append.antt =====
-- The link handling of restOrder (exchange/matcher/order_book.cpp).
use trading_matching_engine.Base.{
  ◌≡◌, refl, sym, ◌∙◌, ap, [], ◌∷◌, ◌++◌, Option, none, some, arith, subst, length, length-append,
  suc, ◌<◌, ◌^◌,
}
use trading_matching_engine.Book.{BookOrder}
use trading_matching_engine.Links.{
  Pointer, Node, LinkedLevel, set_next, put_node, append_node, count_up,
}
use trading_matching_engine.Links.Chain.{
  Blocks, first_of, last_of, Chain, Absent, Apart, Distinct, Represents, first_of-append,
  last_of-append, Chain-append, Chain-update, Distinct-append, relink_last,
}

Apart-single : (bs : Blocks) (p : Pointer) (o : BookOrder) → Absent p bs → Apart bs ((p, o) ∷ [])
Apart-single [] p o a = tt
Apart-single (b ∷ bs) p o a = ((ground (arith, a.0), tt), Apart-single bs p o a.1)

set_next_at :
    (q : Pointer) (n : Node) (next : Option Pointer) (l : LinkedLevel)
    → l.store q ≡ some n
    → set_next (some q) next l ≡ some (put_node q (record n { next = next }) l)
unfolding set_next
set_next_at q n next l e = rw (set_next, e)

module _ (p : Pointer) (o : BookOrder) where
  -- The node as it is linked behind some blocks.
  abbrev tail_node : Blocks → Node
  tail_node bs = record { order = o; prev = last_of none bs; next = none }

  linked :
      (bs : Blocks) (l : LinkedLevel)
      → Distinct bs
      → Absent p bs
      → Chain l.store none bs none
      → l.head ≡ first_of bs none
      → (l' : LinkedLevel) × (set_next (last_of none bs) (some p) (put_node p (tail_node bs) l)
          ≡ some l')
        × Chain l'.store none bs (some p)
        × (l'.store p ≡ some (tail_node bs))
        × (l'.head ≡ first_of bs (some p))
        × (l'.order_count ≡ l.order_count)
  unfolding set_next
  linked [] l d a c head =
      (record (put_node p (tail_node []) l) { head = some p }, refl, tt, ground arith, refl, refl)
  linked (b ∷ bs) l d a c head =
      let l1 = put_node p (tail_node (b ∷ bs)) l in
      let c1 = Chain-update l.store p (some (tail_node (b ∷ bs))) none none (b ∷ bs) a c in
      let (q, n, e, f, c2, g) = relink_last l1.store none none (some p) b bs d c1 in
      let n' : Node = record n { next = some p } in
      (
        put_node q n' l1,
        ap (λ x. set_next x (some p) l1) e ∙ set_next_at q n (some p) l1 f,
        c2,
        rw (g p a) (ground arith),
        head,
        refl,
      )

-- If the nodes of a level are chained up in an order, an order in a block that is not among them is
-- appended behind the last one, and no bad pointer is followed.
pub append_node-Represents :
    (bs : Blocks) (p : Pointer) (o : BookOrder) (l : LinkedLevel)
    → Represents l bs
    → Absent p bs
    → suc (length bs) < 2 ^ 64
    → (l' : LinkedLevel) × (append_node p o l ≡ some l') × Represents l' (bs ++ ((p, o) ∷ []))
unfolding append_node
append_node-Represents bs p o l r a small =
    let (l1, e, before, here, head, count) = linked p o bs l r.distinct a r.chain r.head in
    let l2 : LinkedLevel = record l1 { tail = some p; order_count = count_up l1.order_count } in
    let longer = length-append bs ((p, o) ∷ []) in
    let done : Represents l2 (bs ++ ((p, o) ∷ [])) = record {
      chain = Chain-append l1.store none none bs ((p, o) ∷ []) before (here, tt);
      distinct = Distinct-append bs ((p, o) ∷ []) r.distinct (tt, tt) (Apart-single bs p o a);
      head = head ∙ sym (first_of-append bs ((p, o) ∷ []) none);
      tail = sym (last_of-append none bs ((p, o) ∷ []));
      order_count = ground (arith, r.order_count, count, small, longer);
      in_range = omega (arith, small, longer);
    } in
    let linking : set_next l.tail (some p)
          (put_node p (record { order = o; prev = l.tail; next = none }) l)
        ≡ some l1 =
      subst
        (λ x.
          set_next x (some p) (put_node p (record { order = o; prev = x; next = none }) l)
          ≡ some l1)
        (sym r.tail) e in
    (l2, rw (append_node, linking), done)
