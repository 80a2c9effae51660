-- ===== src/Links.antt =====
-- The intrusive list of a price level, pointer by pointer: book_order.h, and of order_book.cpp
-- (exchange/matcher) the link handling of restOrder and removeOrder and the inner loop of
-- matchIncoming. A pointer is the number of a block of the order pool, `nullptr` is `none`, and the
-- blocks in use are a function. To follow a pointer to a block that is not in use gives `none`.
pub mod Chain
pub mod Append
pub mod Loop
pub mod Pool
pub mod Remove
use trading_matching_engine.Base.{
  ℕ, zero, suc, ◌+◌, ◌-◌, ◌%◌, ◌^◌, min, Bool, not, ◌&&◌, List, [], ◌∷◌, Option, none, some, ltb,
  ◌==◌, if◌then◌else◌, update,
}
use trading_matching_engine.Types.{Price}
use trading_matching_engine.Book.{BookOrder}
use trading_matching_engine.Match.{Taker, Matching, fill}

abbrev pub Pointer : Type 0
Pointer = ℕ

-- A `BookOrder` with its links.
pub record Node : Type 0 where
  pub order : BookOrder
  pub prev : Option Pointer
  pub next : Option Pointer

-- The blocks in use, and the fields of the level that name some of them.
pub record LinkedLevel : Type 0 where
  pub store : Pointer → Option Node
  pub head : Option Pointer
  pub tail : Option Pointer
  pub order_count : ℕ

-- A level with no orders.
abbrev pub new_level : (Pointer → Option Node) → LinkedLevel
new_level store = record { store = store; head = none; tail = none; order_count = 0 }

abbrev pub put_node : Pointer → Node → LinkedLevel → LinkedLevel
put_node p node l = record l { store = update l.store p (some node) }

-- `if (p) p->next_ = next; else head_ = next`.
unfoldable pub set_next : Option Pointer → Option Pointer → LinkedLevel → Option LinkedLevel
set_next none next l = some (record l { head = next })
set_next (some p) next l = elim (l.store p) [
  | none ↦ none
  | some node ↦ some (put_node p (record node { next = next }) l)
]

-- `if (p) p->prev_ = prev; else tail_ = prev`.
unfoldable pub set_prev : Option Pointer → Option Pointer → LinkedLevel → Option LinkedLevel
set_prev none prev l = some (record l { tail = prev })
set_prev (some p) prev l = elim (l.store p) [
  | none ↦ none
  | some node ↦ some (put_node p (record node { prev = prev }) l)
]

-- `++order_count_` and `--order_count_` of a `size_t`.
abbrev pub count_up : ℕ → ℕ
count_up n = (n + 1) % 2 ^ 64

abbrev pub count_down : ℕ → ℕ
count_down n = (n + (2 ^ 64 - 1)) % 2 ^ 64

-- The new node is allocated at `p` and becomes the tail.
unfoldable pub append_node : Pointer → BookOrder → LinkedLevel → Option LinkedLevel
unfolding set_next
append_node p order l =
    elim (set_next l.tail (some p)
      (put_node p (record { order = order; prev = l.tail; next = none }) l)) [
        | none ↦ none
        | some l' ↦ some (record l' { tail = some p; order_count = count_up l'.order_count })
      ]

-- `order->prev_->next_ = order->next_`, or the head.
unfoldable pub pass_forward : Pointer → LinkedLevel → Option LinkedLevel
unfolding set_next
pass_forward p l = elim (l.store p) [ none ↦ none | some node ↦ set_next node.prev node.next l ]

-- `order->next_->prev_ = order->prev_`, or the tail.
unfoldable pub pass_back : Pointer → LinkedLevel → Option LinkedLevel
unfolding set_prev
pass_back p l = elim (l.store p) [ none ↦ none | some node ↦ set_prev node.next node.prev l ]

-- The node is taken out of the list and its block given back to the pool.
unfoldable pub remove_node : Pointer → LinkedLevel → Option LinkedLevel
unfolding pass_forward pass_back
remove_node p l = elim (pass_forward p l) [
  | none ↦ none
  | some l1 ↦ elim (pass_back p l1) [
    | none ↦ none
    | some l2 ↦
        some (record l2 { store = update l2.store p none; order_count = count_down l2.order_count })
  ]
]

-- The body of the loop over the nodes: a node that meets the incoming order is filled, and removed
-- if that empties it.
unfoldable pub visit_node :
    Taker → Price → Pointer → Node → LinkedLevel → Matching → Option (LinkedLevel × Matching)
visit_node t level_price p node l m =
    let left = node.order.qty - min m.leaves_qty node.order.qty in
    let m' = (fill t level_price node.order m).1 in
    if not (node.order.client_id == t.client_id) && ltb 0 m.leaves_qty
    then (if left == 0
        then elim (remove_node p l) [ none ↦ none | some l' ↦ some (l', m') ]
        else some (put_node p (record node { order = record node.order { qty = left } }) l, m'))
    else some (l, m)

-- The loop from a pointer on; the link to the next node is read before the node is visited. `none`
-- is a bad pointer, or that the fuel has run out.
unfoldable pub match_nodes :
    ℕ → Taker → Price → Option Pointer → LinkedLevel → Matching → Option (LinkedLevel × Matching)
unfolding visit_node
match_nodes fuel t level_price none l m = some (l, m)
match_nodes zero t level_price (some p) l m = none
match_nodes (suc fuel) t level_price (some p) l m = elim (l.store p) [
  | none ↦ none
  | some node ↦ elim (visit_node t level_price p node l m) [
    | none ↦ none
    | some (l', m') ↦ match_nodes fuel t level_price node.next l' m'
  ]
]
