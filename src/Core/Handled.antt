-- ===== src/Core/Handled.antt =====
-- What the thread of a symbol in matching_core.h has done with the requests that were routed to the
-- symbol, as long as the ring of its requests has room.
use text.Mathlib.Text.{◌==◌ as str_eq}
use trading_matching_engine.Base.{
  ℕ, suc, ◌-◌, ◌≡◌, refl, sym, ap, ◌∙◌, Bool, true, not, ◌&&◌, ◌||◌, List, [], ◌∷◌, ◌++◌,
  append_assoc, append-nil, arith, length, ltb, if◌then◌else◌, Bool-cases, inl, inr,
}
use trading_matching_engine.Dict.{string_Eq}
use trading_matching_engine.Types.{Symbol, Nanos}
use trading_matching_engine.Messages.{EngineOrderRequest}
use trading_matching_engine.Queue.{push}
use trading_matching_engine.Queue.Holds.{Holds, push-Holds, read_none, read-Holds, length-snoc}
use trading_matching_engine.Core.{SymbolContext, process_request, serve}
use trading_matching_engine.Core.Valid.{process_all}
use trading_matching_engine.Core.Runs.{
  Event, routed, served, routed_to, own_step, own_run, requests,
}

-- No more than a number of requests ever wait for a symbol, if some wait at the start: each is
-- routed while fewer do.
unfoldable pub has_room : ℕ → Symbol → ℕ → List Event → Bool
has_room size s waiting [] = true
has_room size s waiting (routed req ∷ es) =
    let own = str_eq req.symbol s in
    let rest = has_room size s (if own then suc waiting else waiting) es in
    (not own || ltb waiting size) && rest
has_room size s waiting (served k now ∷ es) =
    has_room size s (if str_eq k s then waiting - 1 else waiting) es

-- What a symbol's thread has done by the end of some events, if some requests were queued at their
-- start: it has handled some requests one after the other, and these, with what the ring of its
-- requests holds, are all that came, in their order.
abbrev pub Handled :
    ℕ → Symbol → List Event → List EngineOrderRequest → SymbolContext → SymbolContext → Type 0
Handled size s es queue ctx ctx' =
    (done : List (EngineOrderRequest × Nanos)) × (queued : List EngineOrderRequest) × Holds size
      queued ctx'.request_queue
    × (requests done ++ queued ≡ queue ++ routed_to s es)
    × (ctx'.book ≡ process_all done ctx.book)

-- A round of the thread.
module _ (size : ℕ) (s : Symbol) (now : Nanos) (es : List Event) (ctx ctx' : SymbolContext) where
  idle-Handled :
      Holds size [] ctx.request_queue
      → Handled size s es [] (serve now ctx) ctx'
      → Handled size s es [] ctx ctx'
  unfolding serve
  idle-Handled h (done, queued, holds, all, book) =
      let same : serve now ctx ≡ ctx = rw (read_none size h, serve) refl in
      (done, queued, holds, all, book ∙ ap (λ c. process_all done c.book) same)

  busy-Handled :
      (req : EngineOrderRequest) (rest : List EngineOrderRequest)
      → Holds size (req ∷ rest) ctx.request_queue
      → Handled size s es rest (serve now ctx) ctx'
      → Handled size s es (req ∷ rest) ctx ctx'
  unfolding serve process_all
  busy-Handled req rest h (done, queued, holds, all, book) =
      let (read, _) = read-Holds size req rest h in
      let same : (serve now ctx).book ≡ process_request req now ctx.book = rw (read, serve) refl in
      ((req, now) ∷ done, queued, holds, ap (◌∷◌ req) all, book ∙ ap (process_all done) same)

pub serve-Holds_empty :
    (size : ℕ) (now : Nanos) (ctx : SymbolContext)
    → Holds size [] ctx.request_queue
    → Holds size [] (serve now ctx).request_queue
unfolding serve
serve-Holds_empty size now ctx h = rw (read_none size h, serve) h

pub serve-Holds :
    (size : ℕ) (now : Nanos) (ctx : SymbolContext) (req : EngineOrderRequest)
    (rest : List EngineOrderRequest)
    → Holds size (req ∷ rest) ctx.request_queue
    → Holds size rest (serve now ctx).request_queue
unfolding serve
serve-Holds size now ctx req rest h =
    let (read, left) = read-Holds size req rest h in rw (read, serve) left

served-Handled :
    (size : ℕ) (s : Symbol) (now : Nanos) (es : List Event) (ctx ctx' : SymbolContext)
    → ((queue : List EngineOrderRequest)
        → Holds size queue (serve now ctx).request_queue
        → has_room size s (length queue) es ≡ true
        → Handled size s es queue (serve now ctx) ctx')
    → (queue : List EngineOrderRequest) → Holds size queue ctx.request_queue
    → has_room size s (length queue - 1) es ≡ true
    → Handled size s es queue ctx ctx'
served-Handled size s now es ctx ctx' next [] h later =
    idle-Handled size s now es ctx ctx' h (next [] (serve-Holds_empty size now ctx h) later)
served-Handled size s now es ctx ctx' next (req ∷ rest) h later =
    let less : length rest ≡ length (req ∷ rest) - 1 = omega arith in
    busy-Handled size s now es ctx ctx' req rest h (
      next rest (serve-Holds size now ctx req rest h) (ap (λ n. has_room size s n es) less ∙ later))

pub own_run-Handled :
    (size : ℕ) (s : Symbol) (es : List Event) (queue : List EngineOrderRequest)
    (ctx : SymbolContext)
    → Holds size queue ctx.request_queue
    → has_room size s (length queue) es ≡ true
    → Handled size s es queue ctx (own_run s es ctx)
unfolding own_run routed_to own_step process_all has_room
own_run-Handled size s [] queue ctx h room = ([], queue, h, sym (append-nil queue), refl)
own_run-Handled size s (routed req ∷ es) queue ctx h room =
    elim (Bool-cases (str_eq req.symbol s)) [
      | inl e ↦
          let ctx' : SymbolContext = record ctx { request_queue = push req ctx.request_queue } in
          let here : (ltb (length queue) size && has_room size s (suc (length queue)) es) ≡ true =
            rw e at room in
          let later : has_room size s (length (queue ++ (req ∷ []))) es ≡ true =
            rw (length-snoc queue req) (ground arith) in
          let (done, queued, holds, all, book) =
            own_run-Handled size s es (queue ++ (req ∷ [])) ctx'
              (push-Holds size queue req (ground arith) h) later in
          rw (own_run, own_step, e)
            (done, queued, holds, all ∙ append_assoc queue (req ∷ []) (routed_to s es), book)
      | inr e ↦
          let later : has_room size s (length queue) es ≡ true = rw e at room in
          rw (own_run, own_step, e) (own_run-Handled size s es queue ctx h later)
    ]
own_run-Handled size s (served k now ∷ es) queue ctx h room = elim (Bool-cases (str_eq k s)) [
  | inl e ↦
      let later : has_room size s (length queue - 1) es ≡ true = rw e at room in
      rw (own_run, own_step, e)
        (served-Handled size s now es ctx (own_run s es (serve now ctx))
          (λ q hq r. own_run-Handled size s es q (serve now ctx) hq r) queue h later)
  | inr e ↦
      let later : has_room size s (length queue) es ≡ true = rw e at room in
      rw (own_run, own_step, e) (own_run-Handled size s es queue ctx h later)
]
