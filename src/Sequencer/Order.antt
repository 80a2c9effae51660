-- ===== src/Sequencer/Order.antt =====
-- What the sequencer of request_sequencer.h routes, in which order, and how much it buffers.
use trading_matching_engine.Base.{
  ℕ, suc, ◌+◌, ◌≤◌, ◌<◌, ◌≡◌, refl, sym, ap, ◌∙◌, Bool, true, false, List, [], ◌∷◌, ◌++◌, map,
  append-nil, append_assoc, arith, leb, length, length-append, ◌==◌, if◌then◌else◌, All, Bool-cases,
  inl, inr,
}
use trading_matching_engine.Base.Int.{ltb_ℤ}
use trading_matching_engine.Types.{Nanos}
use trading_matching_engine.Messages.{EngineOrderRequest}
use trading_matching_engine.Sequencer.{
  RequestSequencer, flush, enqueue, tag, max_pending_gateway_requests,
}

-- How many requests of a list are of some kind.
unfoldable pub count : (EngineOrderRequest → Bool) → List EngineOrderRequest → ℕ
count p [] = 0
count p (r ∷ rs) = if p r then suc (count p rs) else count p rs

-- No request was received after one that comes behind it.
abbrev pub IsSorted : List EngineOrderRequest → Type 0
IsSorted [] = Unit {0}
IsSorted (r ∷ rs) = All (λ s. ltb_ℤ s.recv_time r.recv_time ≡ false) rs × IsSorted rs

-- What `std::sort` promises for the comparison of receive times.
pub record SortLaws (sort : List EngineOrderRequest → List EngineOrderRequest) : Type 0 where
  pub sorted : (rs : List EngineOrderRequest) → IsSorted (sort rs)
  pub same :
      (p : EngineOrderRequest → Bool) (rs : List EngineOrderRequest)
      → count p (sort rs) ≡ count p rs

pub count-append :
    (p : EngineOrderRequest → Bool) (xs ys : List EngineOrderRequest)
    → count p (xs ++ ys) ≡ count p xs + count p ys
unfolding count
count-append p [] ys = omega arith
count-append p (x ∷ xs) ys = ground (arith, count-append p xs ys)

pub count_nil : (p : EngineOrderRequest → Bool) → count p [] ≡ 0
unfolding count
count_nil p = refl

-- The requests as the sequencer buffers them.
abbrev pub tags : List (Nanos × EngineOrderRequest) → List EngineOrderRequest
tags batch = map (λ x. tag x.0 x.1) batch

length_zero : (xs : List EngineOrderRequest) → (length xs == 0) ≡ true → xs ≡ []
length_zero [] h = refl
length_zero (x ∷ xs) h = absurd (ground arith)

module _ (sort : List EngineOrderRequest → List EngineOrderRequest) where
  -- The loop of `drainInbox`.
  unfoldable pub enqueue_all :
      List (Nanos × EngineOrderRequest) → RequestSequencer → RequestSequencer
  unfolding enqueue
  enqueue_all [] s = s
  enqueue_all ((rx_time, request) ∷ rest) s = enqueue_all rest (enqueue sort rx_time request s)

  pub flush_all : (s : RequestSequencer) → (flush sort s).pending ≡ []
  unfolding flush
  flush_all s = elim (Bool-cases (length s.pending == 0)) [
    | inl none_left ↦ rw none_left (length_zero s.pending none_left)
    | inr more ↦ rw more refl
  ]

  enqueue_room :
      (rx_time : Nanos) (request : EngineOrderRequest) (s : RequestSequencer)
      → length s.pending < max_pending_gateway_requests
      → enqueue sort rx_time request s
        ≡ record s { pending = s.pending ++ (tag rx_time request ∷ []) }
  unfolding enqueue
  enqueue_room rx_time request s h =
      elim (Bool-cases (leb max_pending_gateway_requests (length s.pending))) [
        | inl full ↦ absurd (ground arith)
        | inr room ↦ rw room refl
      ]

  -- While there is room, requests gather.
  pub enqueue_all_short :
      (batch : List (Nanos × EngineOrderRequest)) (s : RequestSequencer)
      → length s.pending + length batch ≤ max_pending_gateway_requests
      → enqueue_all batch s ≡ record s { pending = s.pending ++ tags batch }
  unfolding enqueue_all enqueue
  enqueue_all_short [] s h = ap (λ l. record s { pending = l }) (sym (append-nil s.pending))
  enqueue_all_short ((rx_time, request) ∷ rest) s h =
      let s' : RequestSequencer = record s { pending = s.pending ++ (tag rx_time request ∷ []) } in
      ap (enqueue_all rest) (enqueue_room rx_time request s (omega arith))
      ∙ enqueue_all_short rest s'
          (omega (arith, length-append s.pending (tag rx_time request ∷ [])))
      ∙ ap (λ l. record s { pending = l })
          (append_assoc s.pending (tag rx_time request ∷ []) (tags rest))

  -- A buffer of at most 8192 requests never holds more than that after another request has come.
  pub enqueue-bounds :
      (rx_time : Nanos) (request : EngineOrderRequest) (s : RequestSequencer)
      → length s.pending ≤ max_pending_gateway_requests
      → length (enqueue sort rx_time request s).pending ≤ max_pending_gateway_requests
  unfolding enqueue flush
  enqueue-bounds rx_time request s h =
      elim (Bool-cases (leb max_pending_gateway_requests (length s.pending))) [
        | inl full ↦ rw (full, flush_all s) (omega arith)
        | inr room ↦ rw room (ground (arith, length-append s.pending (tag rx_time request ∷ [])))
      ]

  module _ (laws : SortLaws sort) (p : EngineOrderRequest → Bool) where
    pub flush-count :
        (s : RequestSequencer)
        → count p (flush sort s).routed + count p (flush sort s).pending
          ≡ count p s.routed + count p s.pending
    unfolding flush count
    flush-count s = ground (arith, count-append p s.routed (sort s.pending), laws.same p s.pending)

    enqueue-count :
        (rx_time : Nanos) (request : EngineOrderRequest) (s : RequestSequencer)
        → count p (enqueue sort rx_time request s).routed
            + count p (enqueue sort rx_time request s).pending
          ≡ count p s.routed + count p s.pending + count p (tag rx_time request ∷ [])
    unfolding enqueue
    enqueue-count rx_time request s =
        let new = tag rx_time request ∷ [] in
        elim (Bool-cases (leb max_pending_gateway_requests (length s.pending))) [
          | inl full ↦
              rw full (omega (arith, flush-count s, count-append p (flush sort s).pending new))
          | inr room ↦ rw room (omega (arith, count-append p s.pending new))
        ]

    pub enqueue_all-count :
        (batch : List (Nanos × EngineOrderRequest)) (s : RequestSequencer)
        → count p (enqueue_all batch s).routed + count p (enqueue_all batch s).pending
          ≡ count p s.routed + count p s.pending + count p (tags batch)
    unfolding enqueue_all enqueue
    enqueue_all-count [] s = unfold count in omega arith
    enqueue_all-count ((rx_time, request) ∷ rest) s = omega (
      arith,
      enqueue_all-count rest (enqueue sort rx_time request s),
      enqueue-count rx_time request s,
      count-append p (tag rx_time request ∷ []) (tags rest),
    )

  -- A flush routes what was pending, in the order of receive times.
  pub flush-routed :
      SortLaws sort
      → (s : RequestSequencer)
      → (batch : List EngineOrderRequest) × ((flush sort s).routed ≡ s.routed ++ batch)
        × IsSorted batch
        × ((p : EngineOrderRequest → Bool) → count p batch ≡ count p s.pending)
  unfolding flush
  flush-routed laws s = elim (Bool-cases (length s.pending == 0)) [
    | inl none_left ↦ rw none_left (
      [],
      sym (append-nil s.routed),
      tt,
      λ p. ap (count p) (sym (length_zero s.pending none_left)),
    )
    | inr more ↦ rw more (sort s.pending, refl, laws.sorted s.pending, λ p. laws.same p s.pending)
  ]
