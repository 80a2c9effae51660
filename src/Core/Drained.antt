-- ===== src/Core/Drained.antt =====
-- How long the thread of a symbol in matching_core.h has to run for its requests to be handled.
use text.Mathlib.Text.{◌==◌ as str_eq}
use trading_matching_engine.Base.{
  ℕ, suc, ◌-◌, ◌≤◌, ◌<◌, ◌≡◌, true, ◌&&◌, ltb, refl, sym, ap, ◌∙◌, List, [], ◌∷◌, ◌++◌, append-nil,
  some, arith, length, if◌then◌else◌, Bool-cases, inl, inr, subst,
}
use trading_matching_engine.Dict.{lookup, string_Eq}
use trading_matching_engine.Types.{Symbol, Nanos}
use trading_matching_engine.Messages.{EngineOrderRequest}
use trading_matching_engine.Book.{new_book}
use trading_matching_engine.Core.{SymbolContext, MatchingCore, serve, new_core}
use trading_matching_engine.Core.Valid.{process_all}
use trading_matching_engine.Core.Runs.{
  Event, routed, served, step, run, routed_to, requests, own_step, own_run, run-own,
}
use trading_matching_engine.Core.Answers.{AnswersAll, process_all-AnswersAll}
use trading_matching_engine.Core.Handled.{has_room, serve-Holds_empty, serve-Holds}
use trading_matching_engine.Queue.Holds.{Holds}
use trading_matching_engine.Core.Reachable.{reachable-HandledFromNew}

-- The rounds of a symbol's thread among some events.
unfoldable pub rounds_of : Symbol → List Event → ℕ
rounds_of s [] = 0
rounds_of s (routed req ∷ es) = rounds_of s es
rounds_of s (served k now ∷ es) = let rest = rounds_of s es in if str_eq k s then suc rest else rest

-- Where nothing is routed, nothing can overrun.
none_routed-has_room :
    (size : ℕ) (s : Symbol) (n : ℕ) (fs : List Event)
    → routed_to s fs ≡ []
    → has_room size s n fs ≡ true
unfolding has_room routed_to
none_routed-has_room size s n [] h = refl
none_routed-has_room size s n (routed req ∷ fs) h = elim (Bool-cases (str_eq req.symbol s)) [
  | inl own ↦ absurd (ground (arith, h))
  | inr other ↦ rw other (none_routed-has_room size s n fs (rw other at h))
]
none_routed-has_room size s n (served k now ∷ fs) h =
    none_routed-has_room size s (if str_eq k s then n - 1 else n) fs h

has_room-append :
    (size : ℕ) (s : Symbol) (n : ℕ) (es fs : List Event)
    → routed_to s fs ≡ []
    → has_room size s n es ≡ true
    → has_room size s n (es ++ fs) ≡ true
unfolding has_room
has_room-append size s n [] fs none_new h = none_routed-has_room size s n fs none_new
has_room-append size s n (routed req ∷ es) fs none_new h = elim (Bool-cases (str_eq req.symbol s)) [
  | inl own ↦
      let here : (ltb n size && has_room size s (suc n) es) ≡ true = rw own at h in
      rw own (ground (arith, has_room-append size s (suc n) es fs none_new))
  | inr other ↦
      let here : has_room size s n es ≡ true = rw other at h in
      rw other (has_room-append size s n es fs none_new here)
]
has_room-append size s n (served k now ∷ es) fs none_new h =
    has_room-append size s (if str_eq k s then n - 1 else n) es fs none_new h

-- A round of a thread whose ring holds some requests.
count-served :
    (size : ℕ) (now : Nanos) (rounds : ℕ) (ctx : SymbolContext) (at_end : ℕ)
    → ((queue : List EngineOrderRequest)
        → Holds size queue (serve now ctx).request_queue
        → at_end ≡ length queue - rounds)
    → (queue : List EngineOrderRequest) → Holds size queue ctx.request_queue
    → at_end ≡ length queue - suc rounds
count-served size now rounds ctx at_end next [] h =
    omega (arith, next [] (serve-Holds_empty size now ctx h))
count-served size now rounds ctx at_end next (req ∷ rest) h =
    omega (arith, next rest (serve-Holds size now ctx req rest h))

-- Each round takes one request off the ring, as long as there is one.
own_run-count :
    (size : ℕ) (s : Symbol) (es : List Event) (queue : List EngineOrderRequest)
    (ctx : SymbolContext)
    → Holds size queue ctx.request_queue
    → routed_to s es ≡ []
    → (own_run s es ctx).request_queue.num_elements ≡ length queue - rounds_of s es
unfolding own_run own_step routed_to rounds_of
own_run-count size s [] queue ctx h none_new = omega (arith, h.count)
own_run-count size s (routed req ∷ es) queue ctx h none_new =
    elim (Bool-cases (str_eq req.symbol s)) [
      | inl own ↦ absurd (ground (arith, none_new))
      | inr other ↦
          rw (own_run, own_step, other) (own_run-count size s es queue ctx h (rw other at none_new))
    ]
own_run-count size s (served k now ∷ es) queue ctx h none_new = elim (Bool-cases (str_eq k s)) [
  | inl own ↦
      rw (own_run, own_step, own)
        (count-served size now (rounds_of s es) ctx
          (own_run s es (serve now ctx)).request_queue.num_elements
          (λ q hq. own_run-count size s es q (serve now ctx) hq none_new) queue h)
  | inr other ↦ rw (own_run, own_step, other) (own_run-count size s es queue ctx h none_new)
]

run-append : (es fs : List Event) (core : MatchingCore) → run (es ++ fs) core ≡ run fs (run es core)
unfolding run
run-append [] fs core = refl
run-append (e ∷ es) fs core = run-append es fs (step e core)

empty-length : {A : Type 0} (xs : List A) → length xs ≡ 0 → xs ≡ []
empty-length [] h = refl
empty-length (x ∷ xs) h = absurd (omega arith)

-- The responses of a book that has handled some requests from new.
new_book-AnswersAll :
    (s : Symbol) (done : List (EngineOrderRequest × Nanos)) (reqs : List EngineOrderRequest)
    → requests done ≡ reqs
    → AnswersAll reqs (process_all done (new_book s)).responses
unfolding new_book
new_book-AnswersAll s done reqs e =
    let (rs, all, answers) = process_all-AnswersAll done (new_book s) in
    subst (λ l. AnswersAll l (process_all done (new_book s)).responses) e
      (subst (AnswersAll (requests done)) (sym all) answers)

-- The thread of a symbol has handled everything that was ever routed to it, and answered each of
-- the requests with a response of its own.
abbrev pub IsDrained : ℕ → Symbol → List Event → List Symbol → Type 0
IsDrained size s es symbols =
    (ctx : SymbolContext) × (lookup s (run es (new_core size symbols)).contexts ≡ some ctx)
    × (ctx.request_queue.num_elements ≡ 0)
    × (done : List (EngineOrderRequest × Nanos)) × (requests done ≡ routed_to s es)
    × (ctx.book ≡ process_all done (new_book s))
    × AnswersAll (routed_to s es) ctx.book.responses

pub run-IsDrained :
    (size : ℕ) (symbols : List Symbol) (es fs : List Event) (s : Symbol) (ctx : SymbolContext)
    → 0 < size
    → has_room size s 0 es ≡ true
    → lookup s (run es (new_core size symbols)).contexts ≡ some ctx
    → routed_to s fs ≡ []
    → ctx.request_queue.num_elements ≤ rounds_of s fs
    → IsDrained size s (es ++ fs) symbols
run-IsDrained size symbols es fs s ctx pos_size room there none_new enough =
    let (_, queue, holds, _, _) =
      reachable-HandledFromNew size symbols es s ctx pos_size room there in
    let ctx' = own_run s fs ctx in
    let at_end : lookup s (run (es ++ fs) (new_core size symbols)).contexts ≡ some ctx' =
      ap (λ c. lookup s c.contexts) (run-append es fs (new_core size symbols))
      ∙ run-own s fs (run es (new_core size symbols)) there in
    let empty : ctx'.request_queue.num_elements ≡ 0 =
      omega (arith, own_run-count size s fs queue ctx holds none_new, holds.count) in
    let (done, queued, left, all, book) =
      reachable-HandledFromNew size symbols (es ++ fs) s ctx' pos_size
        (has_room-append size s 0 es fs none_new room) at_end in
    let handled : requests done ≡ routed_to s (es ++ fs) =
      sym (append-nil (requests done))
      ∙ ap (◌++◌ (requests done)) (sym (empty-length queued (omega (arith, left.count))))
      ∙ all in
    (
      ctx',
      at_end,
      empty,
      done,
      handled,
      book,
      subst (λ b. AnswersAll (routed_to s (es ++ fs)) b.responses) (sym book)
          (new_book-AnswersAll s done (routed_to s (es ++ fs)) handled),
    )
