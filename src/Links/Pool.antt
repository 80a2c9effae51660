-- ===== src/Links/Pool.antt =====
-- The nodes of order_book.cpp in the blocks of memory_pool.h.
use trading_matching_engine.Base.{
  ℕ, suc, zero, ◌<◌, ◌^◌, ◌≡◌, refl, sym, ap, ◌∙◌, subst, true, false, List, [], ◌∷◌, ◌++◌, Option,
  none, some, arith, ◌==◌, length, get_elem?, set, update, if◌then◌else◌, Bool-cases, Option-cases,
  inl, inr,
}
use trading_matching_engine.Book.{BookOrder}
use trading_matching_engine.Pool.{
  ObjectBlock, MemPool, is_free_at, update_next_free_index, occupy, allocate, deallocate, returned,
}
use trading_matching_engine.Pool.Space.{update-found, returned-injective, Result-cases}
use trading_matching_engine.Links.{put_node, Pointer, Node, LinkedLevel, append_node}
use trading_matching_engine.Links.Chain.{
  Blocks, Chain, Absent, Represents, Chain-append_parts, node_between,
}
use trading_matching_engine.Links.Append.{append_node-Represents}

-- What a pointer leads to: the object of a block that is in use.
abbrev pub in_use : List (ObjectBlock Node) → Pointer → Option Node
in_use store p = elim (get_elem? store p) [
  | none ↦ none
  | some block ↦ if block.is_free then none else some block.object
]

get_elem?-set :
    (store : List (ObjectBlock Node)) (p q : ℕ) (b : ObjectBlock Node)
    → p < length store
    → get_elem? (set store p b) q ≡ (if p == q then some b else get_elem? store q)
get_elem?-set [] p q b h = absurd (omega arith)
get_elem?-set (x ∷ xs) zero zero b h = ground arith
get_elem?-set (x ∷ xs) zero (suc q) b h = ground arith
get_elem?-set (x ∷ xs) (suc p) zero b h = ground arith
get_elem?-set (x ∷ xs) (suc p) (suc q) b h = ground (arith, get_elem?-set xs p q b)

get_elem?-inside :
    (store : List (ObjectBlock Node)) (p : ℕ) (b : ObjectBlock Node)
    → get_elem? store p ≡ some b
    → p < length store
get_elem?-inside [] p b h = cc
get_elem?-inside (x ∷ xs) zero b h = omega arith
get_elem?-inside (x ∷ xs) (suc p) b h = omega (arith, get_elem?-inside xs p b h)

free-inside :
    (store : List (ObjectBlock Node)) (p : ℕ) → is_free_at store p ≡ true → p < length store
free-inside [] p h = cc
free-inside (x ∷ xs) zero h = omega arith
free-inside (x ∷ xs) (suc p) h = omega (arith, free-inside xs p h)

in_use-set :
    (store : List (ObjectBlock Node)) (p q : ℕ) (b : ObjectBlock Node)
    → p < length store
    → in_use (set store p b) q
      ≡ update (in_use store) p (if b.is_free then none else some b.object) q
in_use-set store p q b h = elim (Bool-cases (p == q)) [
  | inl e ↦ rw (in_use, get_elem?-set store p q b h, e)
  | inr e ↦ rw (in_use, get_elem?-set store p q b h, e)
]

free-in_use :
    (store : List (ObjectBlock Node)) (p : Pointer)
    → is_free_at store p ≡ true
    → in_use store p ≡ none
free-in_use [] p h = refl
free-in_use (x ∷ xs) zero h = rw (in_use, h)
free-in_use (x ∷ xs) (suc p) h = free-in_use xs p h

-- The block of an allocation was free and holds the object afterwards.
abbrev Holds : Node → MemPool Node → ℕ → MemPool Node → Type 0
Holds n pool p pool' =
    (is_free_at pool.store p ≡ true)
    × (pool'.store ≡ set pool.store p (record { object = n; is_free = false }))

allocate-Holds :
    (n : Node) (pool pool' : MemPool Node) (p : Pointer)
    → allocate n pool ≡ returned (p, pool')
    → Holds n pool p pool'
unfolding allocate
allocate-Holds n pool pool' p h =
    let k = pool.next_free_index in
    elim (Bool-cases (is_free_at pool.store k)) [
      | inr taken ↦ absurd (ground arith)
      | inl free ↦ elim (Result-cases (update_next_free_index (occupy n pool))) [
        | inl (text, ended) ↦ absurd (ground arith)
        | inr (inl ended) ↦ absurd (ground arith)
        | inr (inr (q, went_on)) ↦
            let same : (k, q) ≡ (p, pool') =
              returned-injective (k, q) (p, pool') (rw (free, went_on, allocate) at h) in
            let (store, _) = update-found (occupy n pool) q went_on in
            subst (λ r. Holds n pool r.0 r.1) same (free, store)
      ]
    ]

-- A block that is not in use is none of those of a chain.
Chain-Absent :
    (h : Pointer → Option Node) (p : Pointer) (prev next : Option Pointer) (bs : Blocks)
    → h p ≡ none
    → Chain h prev bs next
    → Absent p bs
Chain-Absent h p prev next [] e c = tt
Chain-Absent h p prev next (b ∷ bs) e c = (
  elim (Bool-cases (p == b.0)) [
    | inl same ↦
        (let k : p ≡ b.0 = ground arith in
          let other : h p ≡ h b.0 = ap h k in absurd (ground (arith, c.0)))
    | inr other ↦ other
  ],
  Chain-Absent h p (some b.0) next bs e c.1,
)

-- The level links blocks of the pool.
abbrev pub IsPooled : MemPool Node → LinkedLevel → Type 0
IsPooled pool l = (p : Pointer) → l.store p ≡ in_use pool.store p

-- The pool never hands out a block that holds an order of a level whose nodes are blocks of it. The
-- order that is allocated there can be appended: the level then holds the others and, behind them,
-- this one; and the pool holds what the level had stored and the new node.
pub allocate-append_node :
    (pool pool' : MemPool Node) (l : LinkedLevel) (bs : Blocks) (o : BookOrder) (p : Pointer)
    → IsPooled pool l
    → Represents l bs
    → suc (length bs) < 2 ^ 64
    → allocate (record { order = o; prev = l.tail; next = none }) pool ≡ returned (p, pool')
    → Absent p bs
      × ((l' : LinkedLevel) × (append_node p o l ≡ some l') × Represents l' (bs ++ ((p, o) ∷ [])))
      × IsPooled pool' (put_node p (record { order = o; prev = l.tail; next = none }) l)
allocate-append_node pool pool' l bs o p pooled r small h =
    let n : Node = record { order = o; prev = l.tail; next = none } in
    let (free, store) = allocate-Holds n pool pool' p h in
    let absent =
      Chain-Absent l.store p none none bs (pooled p ∙ free-in_use pool.store p free) r.chain in
    let new : ObjectBlock Node = record { object = n; is_free = false } in
    (
      absent,
      append_node-Represents bs p o l r absent small,
      λ q.
          ground (arith, pooled q)
          ∙ sym (in_use-set pool.store p q new (free-inside pool.store p free))
          ∙ ap (λ s. in_use s q) (sym store),
    )

-- The block of an order that is removed from a level of the pool is in use, so that the pool takes
-- it back without a failing assertion, and it is in use no longer.
pub remove_node-deallocate :
    (pool : MemPool Node) (l : LinkedLevel) (xs : Blocks) (p : Pointer) (o : BookOrder)
    (bs : Blocks)
    → IsPooled pool l
    → Represents l (xs ++ ((p, o) ∷ bs))
    → (pool' : MemPool Node) × (deallocate p pool ≡ some pool')
      × IsPooled pool' (record l { store = update l.store p none })
unfolding deallocate
remove_node-deallocate pool l xs p o bs pooled r =
    let used : in_use pool.store p ≡ some (node_between xs o bs) =
      sym (pooled p) ∙ (Chain-append_parts l.store none none xs ((p, o) ∷ bs) r.chain).1.0 in
    elim (Option-cases (get_elem? pool.store p)) [
      | inl e ↦ absurd (let k : none ≡ some (node_between xs o bs) = rw (in_use, e) at used in cc)
      | inr (b, e) ↦ elim (Bool-cases b.is_free) [
        | inl free ↦
            absurd (let k : none ≡ some (node_between xs o bs) = rw (in_use, e, free) at used in cc)
        | inr taken ↦
            let back : ObjectBlock Node = record b { is_free = true } in
            let inside : p < length pool.store = get_elem?-inside pool.store p b e in
            (
              record pool { store = set pool.store p back },
              rw (deallocate, e, taken) refl,
              λ q. ground (arith, pooled q) ∙ sym (in_use-set pool.store p q back inside),
            )
      ]
    ]
