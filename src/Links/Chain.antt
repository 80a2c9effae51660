-- ===== src/Links/Chain.antt =====
-- What it means that the nodes of a level are chained up in an order, and what a write to one node
-- leaves of that.
use trading_matching_engine.Base.{
  ◌↔◌, ◌<◌, ◌^◌, ◌≡◌, refl, ◌∙◌, ap, false, List, [], ◌∷◌, ◌++◌, Option, none, some, arith, ◌==◌,
  update, All, length,
}
use trading_matching_engine.Book.{BookOrder}
use trading_matching_engine.Links.{new_level, Pointer, Node, LinkedLevel}

-- Blocks with the orders in them.
abbrev pub Blocks : Type 0
Blocks = List (Pointer × BookOrder)

abbrev pub orders_of : Blocks → List BookOrder
orders_of [] = []
orders_of ((p, o) ∷ bs) = o ∷ orders_of bs

abbrev pub first_of : Blocks → Option Pointer → Option Pointer
first_of [] next = next
first_of ((p, o) ∷ bs) next = some p

abbrev pub last_of : Option Pointer → Blocks → Option Pointer
last_of prev [] = prev
last_of prev ((p, o) ∷ bs) = last_of (some p) bs

-- The blocks hold their orders and are linked one to the next and back, the first one back to
-- `prev` and the last one on to `next`.
abbrev pub Chain : (Pointer → Option Node) → Option Pointer → Blocks → Option Pointer → Type 0
Chain h prev [] next = Unit
Chain h prev ((p, o) ∷ bs) next =
    (h p ≡ some (record { order = o; prev = prev; next = first_of bs next }))
    × Chain h (some p) bs next

-- A block is not among some; no block is.
abbrev pub Absent : Pointer → Blocks → Type 0
Absent p = All (λ b. (p == b.0) ≡ false)

abbrev pub AbsentAt : Option Pointer → Blocks → Type 0
AbsentAt none bs = Unit
AbsentAt (some p) bs = Absent p bs

abbrev pub Apart : Blocks → Blocks → Type 0
Apart xs bs = All (λ a. Absent a.0 bs) xs

abbrev pub Distinct : Blocks → Type 0
Distinct [] = Unit
Distinct (b ∷ bs) = Absent b.0 bs × Distinct bs

-- The level holds these orders in these blocks.
pub record Represents (l : LinkedLevel) (bs : Blocks) : Type 0 where
  pub chain : Chain l.store none bs none
  pub distinct : Distinct bs
  pub head : l.head ≡ first_of bs none
  pub tail : l.tail ≡ last_of none bs
  pub order_count : l.order_count ≡ length bs
  pub in_range : length bs < 2 ^ 64

pub new_level-Represents : (store : Pointer → Option Node) → Represents (new_level store) []
new_level-Represents store = record {
  chain = tt;
  distinct = tt;
  head = refl;
  tail = refl;
  order_count = refl;
  in_range = omega arith;
}

-- The count is zero exactly if there is no order.
pub order_count-nil :
    (bs : Blocks) (l : LinkedLevel) → Represents l bs → (l.order_count ≡ 0) ↔ (orders_of bs ≡ [])
order_count-nil [] l r = (λ e. refl, λ e. r.order_count)
order_count-nil (b ∷ bs) l r = (λ e. absurd (omega (arith, r.order_count)), λ e. absurd cc)

pub first_of-append :
    (xs bs : Blocks) (next : Option Pointer)
    → first_of (xs ++ bs) next ≡ first_of xs (first_of bs next)
first_of-append [] bs next = refl
first_of-append (a ∷ xs) bs next = refl

pub last_of-append :
    (prev : Option Pointer) (xs bs : Blocks)
    → last_of prev (xs ++ bs) ≡ last_of (last_of prev xs) bs
last_of-append prev [] bs = refl
last_of-append prev (a ∷ xs) bs = last_of-append (some a.0) xs bs

module _ (h : Pointer → Option Node) where
  pub Chain-append :
      (prev next : Option Pointer) (xs bs : Blocks)
      → Chain h prev xs (first_of bs next)
      → Chain h (last_of prev xs) bs next
      → Chain h prev (xs ++ bs) next
  Chain-append prev next [] bs c d = d
  Chain-append prev next (a ∷ xs) bs c d =
      (rw (first_of-append xs bs next) c.0, Chain-append (some a.0) next xs bs c.1 d)

  pub Chain-append_parts :
      (prev next : Option Pointer) (xs bs : Blocks)
      → Chain h prev (xs ++ bs) next
      → Chain h prev xs (first_of bs next) × Chain h (last_of prev xs) bs next
  Chain-append_parts prev next [] bs c = (tt, c)
  Chain-append_parts prev next (a ∷ xs) bs c =
      let (first_part, second_part) = Chain-append_parts (some a.0) next xs bs c.1 in
      (
        (
          c.0
              ∙ ap (λ x. some (record { order = a.1; prev = prev; next = x }))
                  (first_of-append xs bs next),
          first_part,
        ),
        second_part,
      )

  pub Chain-update :
      (p : Pointer) (v : Option Node) (prev next : Option Pointer) (bs : Blocks)
      → Absent p bs
      → Chain h prev bs next
      → Chain (update h p v) prev bs next
  Chain-update p v prev next [] a c = tt
  Chain-update p v prev next (b ∷ bs) a c =
      (rw a.0 c.0, Chain-update p v (some b.0) next bs a.1 c.1)

pub Absent-append : (p : Pointer) (xs bs : Blocks) → Absent p xs → Absent p bs → Absent p (xs ++ bs)
Absent-append p [] bs h k = k
Absent-append p (a ∷ xs) bs h k = (h.0, Absent-append p xs bs h.1 k)

pub Absent-append_parts :
    (p : Pointer) (xs bs : Blocks) → Absent p (xs ++ bs) → Absent p xs × Absent p bs
Absent-append_parts p [] bs h = (tt, h)
Absent-append_parts p (a ∷ xs) bs h = let (x, y) = Absent-append_parts p xs bs h.1 in ((h.0, x), y)

pub Distinct-append :
    (xs bs : Blocks) → Distinct xs → Distinct bs → Apart xs bs → Distinct (xs ++ bs)
Distinct-append [] bs d e x = e
Distinct-append (a ∷ xs) bs d e x =
    (Absent-append a.0 xs bs d.0 x.0, Distinct-append xs bs d.1 e x.1)

pub Distinct-append_parts :
    (xs bs : Blocks) → Distinct (xs ++ bs) → Distinct xs × Distinct bs × Apart xs bs
Distinct-append_parts [] bs d = (tt, d, tt)
Distinct-append_parts (a ∷ xs) bs d =
    let (x, y) = Absent-append_parts a.0 xs bs d.0 in
    let (da, db, far) = Distinct-append_parts xs bs d.1 in ((x, da), db, (y, far))

-- The head of the second part is not in the first one.
pub Apart-head :
    (xs : Blocks) (b : Pointer × BookOrder) (bs : Blocks) → Apart xs (b ∷ bs) → Absent b.0 xs
Apart-head [] b bs x = tt
Apart-head (a ∷ xs) b bs x = (ground (arith, x.0.0), Apart-head xs b bs x.1)

pub Apart-tail :
    (xs : Blocks) (b : Pointer × BookOrder) (bs : Blocks) → Apart xs (b ∷ bs) → Apart xs bs
Apart-tail [] b bs x = tt
Apart-tail (a ∷ xs) b bs x = (x.0.1, Apart-tail xs b bs x.1)

pub last_of-AbsentAt :
    (prev : Option Pointer) (xs bs : Blocks)
    → AbsentAt prev bs
    → Apart xs bs
    → AbsentAt (last_of prev xs) bs
last_of-AbsentAt prev [] bs h x = h
last_of-AbsentAt prev (a ∷ xs) bs h x = last_of-AbsentAt (some a.0) xs bs x.0 x.1

pub first_of-AbsentAt : (xs bs : Blocks) → Apart xs bs → AbsentAt (first_of bs none) xs
first_of-AbsentAt xs [] x = tt
first_of-AbsentAt xs (b ∷ bs) x = Apart-head xs b bs x

pub orders_of-append : (xs ys : Blocks) → orders_of (xs ++ ys) ≡ orders_of xs ++ orders_of ys
orders_of-append [] ys = refl
orders_of-append (x ∷ xs) ys = ap (◌∷◌ x.1) (orders_of-append xs ys)

-- A node between others, linked to both sides.
abbrev pub node_between : Blocks → BookOrder → Blocks → Node
node_between xs o bs = record { order = o; prev = last_of none xs; next = first_of bs none }

-- The last node of a chain, and the chain once its link is set to another node.
abbrev pub Relinked : (Pointer → Option Node) → Option Pointer → Blocks → Option Pointer → Type 0
Relinked h prev bs next =
    (q : Pointer) × (n : Node) × (last_of prev bs ≡ some q)
    × (h q ≡ some n)
    × Chain (update h q (some (record n { next = next }))) prev bs next
    × ((r : Pointer) → Absent r bs → (q == r) ≡ false)

pub relink_last :
    (h : Pointer → Option Node) (prev next other : Option Pointer) (b : Pointer × BookOrder)
    (bs : Blocks)
    → Distinct (b ∷ bs)
    → Chain h prev (b ∷ bs) next
    → Relinked h prev (b ∷ bs) other
relink_last h prev next other b [] d c =
    let n : Node = record { order = b.1; prev = prev; next = next } in
    (b.0, n, refl, c.0, (ground arith, tt), λ r a. ground arith)
relink_last h prev next other b (b' ∷ bs) d c =
    let (q, n, e, f, c', g) = relink_last h (some b.0) next other b' bs d.1 c.1 in
    (q, n, e, f, (rw (g b.0 d.0) c.0, c'), λ r a. g r a.1)
