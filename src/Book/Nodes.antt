-- ===== src/Book/Nodes.antt =====
-- Lists of orders: which ids they hold, and what `unlink` and the in-place write do to them.
use trading_matching_engine.Base.{
  ℕ, suc, ◌+◌, ◌≤◌, ◌<◌, ◌≡◌, refl, ap, List, [], ◌∷◌, ◌++◌, Option, none, some, arith, ◌==◌,
  if◌then◌else◌, first, All, Bool-cases, Option-cases, ◌⊎◌, inl, inr, subst,
}
use mathlib.Core.Option.{some-injective}
use trading_matching_engine.Types.{OrderId, Qty}
use trading_matching_engine.Book.{BookOrder, find_node, unlink, set_node}

-- What is seen of an order, if there is one.
abbrev pub seen {ℓ} : {X : Type ℓ} → (BookOrder → X) → Option BookOrder → Option X
seen see none = none
seen see (some o) = some (see o)

-- How often a list holds an id.
unfoldable pub copies : OrderId → List BookOrder → ℕ
copies id [] = 0
copies id (o ∷ os) = if o.order_id == id then suc (copies id os) else copies id os

-- The total quantity of a list.
unfoldable pub total_qty : List BookOrder → ℕ
total_qty [] = 0
total_qty (o ∷ os) = o.qty + total_qty os

pub copies-append :
    (id : OrderId) (xs ys : List BookOrder) → copies id (xs ++ ys) ≡ copies id xs + copies id ys
unfolding copies
copies-append id [] ys = omega arith
copies-append id (x ∷ xs) ys = ground (arith, copies-append id xs ys)

pub total_qty-append : (xs ys : List BookOrder) → total_qty (xs ++ ys) ≡ total_qty xs + total_qty ys
unfolding total_qty
total_qty-append [] ys = omega arith
total_qty-append (x ∷ xs) ys = omega (arith, total_qty-append xs ys)

pub find_node-append :
    (id : OrderId) (xs ys : List BookOrder)
    → find_node id (xs ++ ys) ≡ first (find_node id xs) (find_node id ys)
unfolding find_node
find_node-append id [] ys = refl
find_node-append id (x ∷ xs) ys = ground (arith, find_node-append id xs ys)

pub find_node-append_cases :
    (id : OrderId) (xs ys : List BookOrder) {o : BookOrder}
    → find_node id (xs ++ ys) ≡ some o
    → (find_node id xs ≡ some o) ⊎ ((find_node id xs ≡ none) × (find_node id ys ≡ some o))
find_node-append_cases id xs ys {o} h = elim (Option-cases (find_node id xs)) [
  | inl e ↦ inr (e, ground (arith, find_node-append id xs ys))
  | inr (x, e) ↦ inl (ground (arith, find_node-append id xs ys))
]

pub find_node_absent :
    (id : OrderId) (os : List BookOrder) → copies id os ≡ 0 → find_node id os ≡ none
unfolding find_node copies
find_node_absent id [] h = refl
find_node_absent id (o ∷ os) h = ground (arith, find_node_absent id os)

pub copies_of_none :
    (id : OrderId) (os : List BookOrder) → find_node id os ≡ none → copies id os ≡ 0
unfolding find_node copies
copies_of_none id [] h = refl
copies_of_none id (o ∷ os) h = ground (arith, copies_of_none id os)

pub copies_of_some :
    (id : OrderId) (os : List BookOrder) (o : BookOrder)
    → find_node id os ≡ some o
    → 0 < copies id os
unfolding find_node copies
copies_of_some id [] o h = cc
copies_of_some id (x ∷ os) o h = ground (arith, copies_of_some id os o)

pub find_node-order_id :
    (id : OrderId) (os : List BookOrder) (o : BookOrder)
    → find_node id os ≡ some o
    → o.order_id ≡ id
unfolding find_node
find_node-order_id id [] o h = cc
find_node-order_id id (x ∷ os) o h = ground (arith, find_node-order_id id os o)

-- What holds of every order holds of the one found.
pub find_node-All {ℓ} :
    (P : BookOrder → Type ℓ) (id : OrderId) (os : List BookOrder) {o : BookOrder}
    → find_node id os ≡ some o
    → All P os
    → P o
unfolding find_node
find_node-All P id [] h a = cc
find_node-All P id (x ∷ os) {o} h a = elim (Bool-cases (x.order_id == id)) [
  | inl here ↦ subst P (some-injective x o (rw here at h)) a.0
  | inr later ↦ find_node-All P id os (rw later at h) a.1
]

pub copies-unlink-le :
    (id j : OrderId) (os : List BookOrder) → copies j (unlink id os) ≤ copies j os
unfolding copies unlink
copies-unlink-le id j [] = omega arith
copies-unlink-le id j (o ∷ os) = ground (arith, copies-unlink-le id j os)

pub copies-unlink_self :
    (id : OrderId) (os : List BookOrder) → copies id os ≤ 1 → copies id (unlink id os) ≡ 0
unfolding copies unlink
copies-unlink_self id [] h = refl
copies-unlink_self id (o ∷ os) h = ground (arith, copies-unlink_self id os)

pub total_qty-unlink :
    (id : OrderId) (os : List BookOrder) {o : BookOrder}
    → find_node id os ≡ some o
    → total_qty (unlink id os) + o.qty ≡ total_qty os
unfolding find_node unlink total_qty
total_qty-unlink id [] h = cc
total_qty-unlink id (x ∷ os) {o} h = ground (arith, total_qty-unlink id os {o = o})

pub find_node-unlink :
    (id j : OrderId) (os : List BookOrder)
    → copies id os ≤ 1
    → find_node j (unlink id os) ≡ (if id == j then none else find_node j os)
unfolding find_node unlink copies
find_node-unlink id j [] h = ground arith
find_node-unlink id j (o ∷ os) h = ground (arith, find_node-unlink id j os, find_node_absent id os)

pub unlink-All {ℓ} :
    (P : BookOrder → Type ℓ) (id : OrderId) (os : List BookOrder) → All P os → All P (unlink id os)
unfolding unlink
unlink-All P id [] a = tt
unlink-All P id (o ∷ os) a = ground (arith, unlink-All P id os a.1)

pub unlink-append_left :
    (id : OrderId) (xs ys : List BookOrder)
    → 0 < copies id xs
    → unlink id (xs ++ ys) ≡ unlink id xs ++ ys
unfolding unlink copies
unlink-append_left id [] ys h = absurd (omega arith)
unlink-append_left id (x ∷ xs) ys h = ground (arith, unlink-append_left id xs ys)

pub unlink-append_right :
    (id : OrderId) (xs ys : List BookOrder)
    → copies id xs ≡ 0
    → unlink id (xs ++ ys) ≡ xs ++ unlink id ys
unfolding unlink copies
unlink-append_right id [] ys h = refl
unlink-append_right id (x ∷ xs) ys h = ground (arith, unlink-append_right id xs ys)

pub set_node-append_left :
    (id : OrderId) (q : Qty) (xs ys : List BookOrder)
    → 0 < copies id xs
    → set_node id q (xs ++ ys) ≡ set_node id q xs ++ ys
unfolding set_node copies
set_node-append_left id q [] ys h = absurd (omega arith)
set_node-append_left id q (x ∷ xs) ys h = ground (arith, set_node-append_left id q xs ys)

pub set_node-append_right :
    (id : OrderId) (q : Qty) (xs ys : List BookOrder)
    → copies id xs ≡ 0
    → set_node id q (xs ++ ys) ≡ xs ++ set_node id q ys
unfolding set_node copies
set_node-append_right id q [] ys h = refl
set_node-append_right id q (x ∷ xs) ys h = ground (arith, set_node-append_right id q xs ys)

pub copies-set_node :
    (id : OrderId) (q : Qty) (j : OrderId) (os : List BookOrder)
    → copies j (set_node id q os) ≡ copies j os
unfolding copies set_node
copies-set_node id q j [] = refl
copies-set_node id q j (o ∷ os) = ground (arith, copies-set_node id q j os)

-- Where an order stands in a list: behind some orders and in front of others.
abbrev pub Stands : BookOrder → List BookOrder → List BookOrder → List BookOrder → Type 0
Stands o xs ys os = os ≡ xs ++ (o ∷ ys)

-- The write reaches the order with the id, where it stands.
pub set_node-Stands :
    (id : OrderId) (q : Qty) (os : List BookOrder) {o : BookOrder}
    → find_node id os ≡ some o
    → (xs : List BookOrder) × (ys : List BookOrder) × Stands o xs ys os
      × Stands (record o { qty = q; original_qty = q }) xs ys (set_node id q os)
unfolding find_node set_node
set_node-Stands id q [] h = cc
set_node-Stands id q (x ∷ os) {o} h = elim (Bool-cases (x.order_id == id)) [
  | inl here ↦
      let same : x ≡ o = some-injective x o (rw here at h) in
      (
        [],
        os,
        ap (λ y. y ∷ os) same,
        rw here (ap {A = BookOrder} (λ y. record y { qty = q; original_qty = q } ∷ os) same),
      )
  | inr later ↦
      let (xs, ys, old, new) = set_node-Stands id q os (rw later at h) in
      (x ∷ xs, ys, ap (◌∷◌ x) old, rw later (ap (◌∷◌ x) new))
]

-- An order with new quantities.
abbrev pub resized : Qty → Option BookOrder → Option BookOrder
resized q none = none
resized q (some o) = some (record o { qty = q; original_qty = q })

pub find_node-set_node :
    (id : OrderId) (q : Qty) (j : OrderId) (os : List BookOrder)
    → find_node j (set_node id q os)
      ≡ (if id == j then resized q (find_node j os) else find_node j os)
unfolding find_node set_node
find_node-set_node id q j [] = ground arith
find_node-set_node id q j (o ∷ os) = ground (arith, find_node-set_node id q j os)
