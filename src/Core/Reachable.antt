-- ===== src/Core/Reachable.antt =====
-- What a matching core can become from its construction, whatever requests are routed to it and
-- however its threads are interleaved.
use mathlib.Core.Option.{some-injective}
use text.Mathlib.Text.{◌==◌ as str_eq}
use text.Mathlib.TextEquality.{eq_iff}
use trading_matching_engine.Core.Handled.{has_room, own_run-Handled}
use trading_matching_engine.Queue.Holds.{Holds, new_queue-Holds}
use trading_matching_engine.Base.{
  ℕ, ◌<◌, true, ◌≡◌, refl, sym, ap, ◌∙◌, List, [], ◌∷◌, ◌++◌, subst, some, none, arith, Bool-cases,
  Option-cases, inl, inr,
}
use trading_matching_engine.Dict.{lookup, insert, string_Eq, lookup-insert}
use trading_matching_engine.Types.{Symbol, Nanos}
use trading_matching_engine.Messages.{EngineOrderRequest}
use trading_matching_engine.Book.{new_book}
use trading_matching_engine.Book.Valid.{IsValid, new_book-IsValid}
use trading_matching_engine.Match.Uncrossed.{IsUncrossed, new_book-IsUncrossed}
use trading_matching_engine.Core.{
  SymbolContext, MatchingCore, route_request, serve_symbol, new_core, new_contexts, new_context,
  blank_request,
}
use trading_matching_engine.Core.Valid.{process_all, process_all-IsValid}
use trading_matching_engine.Core.Uncrossed.{process_all-IsUncrossed}
use trading_matching_engine.Core.Runs.{
  Event, routed, served, step, run, routed_to, requests, own_run, run-own, own_run-Processed,
  same_context,
}

-- Every context is as it was made.
abbrev IsNew : ℕ → List (Symbol × SymbolContext) → Type 0
IsNew size d = (s : Symbol) (ctx : SymbolContext) → lookup s d ≡ some ctx → ctx ≡ new_context size s

insert-IsNew :
    (size : ℕ) (s : Symbol) (d : List (Symbol × SymbolContext))
    → IsNew size d
    → IsNew size (insert s (new_context size s) d)
insert-IsNew size s d n j ctx h = elim (Bool-cases (str_eq s j)) [
  | inl e ↦
      sym (
        some-injective (new_context size s) ctx
          (sym (lookup-insert s j (new_context size s) d ∙ rw e refl) ∙ h))
      ∙ ap (new_context size) ((eq_iff s j).0 e)
  | inr e ↦ n j ctx (sym (lookup-insert s j (new_context size s) d ∙ rw e refl) ∙ h)
]

new_contexts-IsNew :
    (size : ℕ) (ss : List Symbol) (d : List (Symbol × SymbolContext))
    → IsNew size d
    → IsNew size (new_contexts size ss d)
unfolding new_contexts
new_contexts-IsNew size [] d n = n
new_contexts-IsNew size (s ∷ ss) d n = elim (Option-cases (lookup s d)) [
  | inl e ↦
      rw (e, new_contexts)
        (new_contexts-IsNew size ss (insert s (new_context size s) d) (insert-IsNew size s d n))
  | inr (c, e) ↦ rw (e, new_contexts) (new_contexts-IsNew size ss d n)
]

absent_changed :
    (s k : Symbol) (d : List (Symbol × SymbolContext)) (ctx : SymbolContext) {c : SymbolContext}
    → lookup s d ≡ none
    → lookup k d ≡ some c
    → lookup s (insert k ctx d) ≡ none
absent_changed s k d ctx h g = elim (Bool-cases (str_eq k s)) [
  | inl e ↦ absurd (ground (arith, same_context s k d e))
  | inr e ↦ lookup-insert k s ctx d ∙ rw e h
]

step-absent :
    (s : Symbol) (e : Event) (core : MatchingCore)
    → lookup s core.contexts ≡ none
    → lookup s (step e core).contexts ≡ none
unfolding step route_request serve_symbol
step-absent s (routed req) core h = elim (Option-cases (lookup req.symbol core.contexts)) [
  | inl gone ↦ rw (gone, route_request) h
  | inr (c, there) ↦ rw (there, route_request) (absent_changed s req.symbol core.contexts _ h there)
]
step-absent s (served k now) core h = elim (Option-cases (lookup k core.contexts)) [
  | inl gone ↦ rw (gone, serve_symbol) h
  | inr (c, there) ↦ rw (there, serve_symbol) (absent_changed s k core.contexts _ h there)
]

run-absent :
    (s : Symbol) (es : List Event) (core : MatchingCore)
    → lookup s core.contexts ≡ none
    → lookup s (run es core).contexts ≡ none
unfolding run
run-absent s [] core h = h
run-absent s (e ∷ es) core h = run-absent s es (step e core) (step-absent s e core h)

-- A context of a core after some events has started new.
started_new :
    (size : ℕ) (symbols : List Symbol) (es : List Event) (s : Symbol) {ctx : SymbolContext}
    → lookup s (run es (new_core size symbols)).contexts ≡ some ctx
    → lookup s (new_core size symbols).contexts ≡ some (new_context size s)
unfolding new_core
started_new size symbols es s h = elim (Option-cases (lookup s (new_core size symbols).contexts)) [
  | inl gone ↦ absurd (ground (arith, run-absent s es (new_core size symbols)))
  | inr (c, there) ↦
      there ∙ ap some (new_contexts-IsNew size symbols [] (λ j x g. unfold lookup in cc) s c there)
]

-- What has become of a context is what its own events make of a new one.
pub reached_own :
    (size : ℕ) (symbols : List Symbol) (es : List Event) (s : Symbol) (ctx : SymbolContext)
    → lookup s (run es (new_core size symbols)).contexts ≡ some ctx
    → own_run s es (new_context size s) ≡ ctx
reached_own size symbols es s ctx h =
    some-injective (own_run s es (new_context size s)) ctx
      (sym (run-own s es (new_core size symbols) (started_new size symbols es s h)) ∙ h)

-- The book of a symbol after some events is the outcome of handling, one after the other from an
-- empty book, a prefix of the requests that were routed to the symbol, and the ring of its requests
-- holds the rest.
abbrev pub HandledFromNew : ℕ → Symbol → List Event → SymbolContext → Type 0
HandledFromNew size s es ctx =
    (done : List (EngineOrderRequest × Nanos)) × (queued : List EngineOrderRequest) × Holds size
      queued ctx.request_queue
    × (requests done ++ queued ≡ routed_to s es)
    × (ctx.book ≡ process_all done (new_book s))

-- Whatever requests of whatever symbols are routed to a new matching core, and however the rounds
-- of the symbols' threads fall between them: if a request is only routed to a symbol while the ring
-- of its requests has room, the symbol's book is what handling a prefix of its own requests, in the
-- order of their routing, makes of an empty book; the ring holds the rest of them.
pub reachable-HandledFromNew :
    (size : ℕ) (symbols : List Symbol) (es : List Event) (s : Symbol) (ctx : SymbolContext)
    → 0 < size
    → has_room size s 0 es ≡ true
    → lookup s (run es (new_core size symbols)).contexts ≡ some ctx
    → HandledFromNew size s es ctx
reachable-HandledFromNew size symbols es s ctx pos_size room h =
    subst (HandledFromNew size s es) (reached_own size symbols es s ctx h) (
      own_run-Handled size s es [] (new_context size s)
        (new_queue-Holds size blank_request pos_size) room)

-- Every book is the outcome of handling some requests, even if rings have been overrun.
pub reachable_book :
    (size : ℕ) (symbols : List Symbol) (es : List Event) (s : Symbol) (ctx : SymbolContext)
    → lookup s (run es (new_core size symbols)).contexts ≡ some ctx
    → (done : List (EngineOrderRequest × Nanos)) × (ctx.book ≡ process_all done (new_book s))
reachable_book size symbols es s ctx h =
    let (done, processed) = own_run-Processed s es (new_context size s) in
    (done, ap (λ c. c.book) (sym (reached_own size symbols es s ctx h)) ∙ processed)

-- In every reachable state of a matching core, the book of every symbol is well-formed, and a bid
-- in it at or above an ask belongs to the client of that ask, even if the rings of the requests
-- have been overrun.
pub reachable-IsValid :
    (size : ℕ) (symbols : List Symbol) (es : List Event) (s : Symbol) (ctx : SymbolContext)
    → lookup s (run es (new_core size symbols)).contexts ≡ some ctx
    → IsValid ctx.book × IsUncrossed ctx.book
reachable-IsValid size symbols es s ctx h =
    let (done, book) = reachable_book size symbols es s ctx h in
    (
      subst IsValid (sym book) (process_all-IsValid done (new_book-IsValid s)),
      subst IsUncrossed (sym book)
          (process_all-IsUncrossed done (new_book s) (new_book-IsValid s) (new_book-IsUncrossed s)),
    )
