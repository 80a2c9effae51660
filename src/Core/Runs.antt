-- ===== src/Core/Runs.antt =====
-- The interleavings of the routing thread with the symbol threads of matching_core.h: every order
-- of `routeRequest` calls and rounds of `run` is a list of events.
use mathlib.Core.Option.{some-injective}
use text.Mathlib.Text.{◌==◌ as str_eq}
use text.Mathlib.TextEquality.{eq_iff}
use trading_matching_engine.Base.{
  ◌≡◌, refl, sym, ap, ◌∙◌, true, false, List, [], ◌∷◌, map, some, none, arith, if◌then◌else◌,
  Bool-cases, Option-cases, inl, inr,
}
use trading_matching_engine.Dict.{lookup, insert, string_Eq, lookup-insert}
use trading_matching_engine.Types.{Symbol, Nanos}
use trading_matching_engine.Messages.{EngineOrderRequest}
use trading_matching_engine.Core.{
  SymbolContext, MatchingCore, process_request, route_request, serve, serve_symbol,
}
use trading_matching_engine.Queue.{push, get_next_to_read}
use trading_matching_engine.Core.Valid.{process_all}

pub data Event : Type 0 where
  routed : EngineOrderRequest → Event
  served : Symbol → Nanos → Event

unfoldable pub step : Event → MatchingCore → MatchingCore
unfolding route_request serve_symbol
step (routed req) core = route_request req core
step (served s now) core = serve_symbol s now core

unfoldable pub run : List Event → MatchingCore → MatchingCore
unfolding step
run [] core = core
run (e ∷ es) core = run es (step e core)

-- The requests of a symbol among the events, in the order of their routing.
unfoldable pub routed_to : Symbol → List Event → List EngineOrderRequest
routed_to s [] = []
routed_to s (routed req ∷ es) =
    let rest = routed_to s es in if str_eq req.symbol s then req ∷ rest else rest
routed_to s (served k now ∷ es) = routed_to s es

-- What an event does to the context of a symbol.
unfoldable pub own_step : Symbol → Event → SymbolContext → SymbolContext
unfolding serve
own_step s (routed req) ctx =
    if str_eq req.symbol s then record ctx { request_queue = push req ctx.request_queue } else ctx
own_step s (served k now) ctx = if str_eq k s then serve now ctx else ctx

pub same_context :
    (s k : Symbol) (d : List (Symbol × SymbolContext)) → str_eq k s ≡ true → lookup k d ≡ lookup s d
same_context s k d e = ap (λ i. lookup i d) ((eq_iff k s).0 e)

other_symbol :
    (s k : Symbol) (d : List (Symbol × SymbolContext)) {ctx : SymbolContext}
    → lookup s d ≡ some ctx
    → lookup k d ≡ none
    → str_eq k s ≡ false
other_symbol s k d h g = elim (Bool-cases (str_eq k s)) [
  | inl e ↦ absurd (ground (arith, same_context s k d e))
  | inr e ↦ e
]

-- The contexts after one of them has changed.
lookup-changed :
    (s k : Symbol) (f : SymbolContext → SymbolContext) (d : List (Symbol × SymbolContext))
    {ctx c : SymbolContext}
    → lookup s d ≡ some ctx
    → lookup k d ≡ some c
    → lookup s (insert k (f c) d) ≡ some (if str_eq k s then f ctx else ctx)
lookup-changed s k f d {ctx} {c} h g = elim (Bool-cases (str_eq k s)) [
  | inl e ↦ rw e (
      lookup-insert k s (f c) d
      ∙ rw e (ap (λ x. some (f x)) (some-injective c ctx (sym g ∙ same_context s k d e ∙ h))))
  | inr e ↦ rw e (lookup-insert k s (f c) d ∙ rw e h)
]

module _ (s : Symbol) (core : MatchingCore) {ctx : SymbolContext}
    (h : lookup s core.contexts ≡ some ctx) where
  step-own : (e : Event) → lookup s (step e core).contexts ≡ some (own_step s e ctx)
  unfolding step own_step route_request serve_symbol
  step-own (routed req) = elim (Option-cases (lookup req.symbol core.contexts)) [
    | inl gone ↦ rw (gone, route_request, other_symbol s req.symbol core.contexts h gone) h
    | inr (c, there) ↦
        rw (there, route_request)
          (lookup-changed s req.symbol (λ x. record x { request_queue = push req x.request_queue })
            core.contexts h there)
  ]
  step-own (served k now) = elim (Option-cases (lookup k core.contexts)) [
    | inl gone ↦ rw (gone, serve_symbol, other_symbol s k core.contexts h gone) h
    | inr (c, there) ↦
        rw (there, serve_symbol) (lookup-changed s k (serve now) core.contexts h there)
  ]

-- A context only sees its own events.
unfoldable pub own_run : Symbol → List Event → SymbolContext → SymbolContext
unfolding own_step
own_run s [] ctx = ctx
own_run s (e ∷ es) ctx = own_run s es (own_step s e ctx)

pub run-own :
    (s : Symbol) (es : List Event) (core : MatchingCore) {ctx : SymbolContext}
    → lookup s core.contexts ≡ some ctx
    → lookup s (run es core).contexts ≡ some (own_run s es ctx)
unfolding run own_run
run-own s [] core h = h
run-own s (e ∷ es) core h = run-own s es (step e core) (step-own s core h e)

abbrev pub requests : List (EngineOrderRequest × Nanos) → List EngineOrderRequest
requests done = map (λ x. x.0) done

-- A context's book is what handling some requests, one after the other, has made of it.
abbrev pub Processed : SymbolContext → SymbolContext → Type 0
Processed ctx ctx' =
    (done : List (EngineOrderRequest × Nanos)) × (ctx'.book ≡ process_all done ctx.book)

serve-Processed :
    (now : Nanos) (ctx ctx' : SymbolContext) → Processed (serve now ctx) ctx' → Processed ctx ctx'
unfolding serve process_all
serve-Processed now ctx ctx' p = elim (Option-cases (get_next_to_read ctx.request_queue)) [
  | inl empty ↦
      let same : serve now ctx ≡ ctx = rw (empty, serve) refl in
      (p.0, p.1 ∙ ap (λ c. process_all p.0 c.book) same)
  | inr (req, there) ↦
      let same : (serve now ctx).book ≡ process_request req now ctx.book = rw (there, serve) refl in
      ((req, now) ∷ p.0, p.1 ∙ ap (process_all p.0) same)
]

pub own_run-Processed :
    (s : Symbol) (es : List Event) (ctx : SymbolContext) → Processed ctx (own_run s es ctx)
unfolding own_run own_step process_all
own_run-Processed s [] ctx = ([], refl)
own_run-Processed s (routed req ∷ es) ctx = elim (Bool-cases (str_eq req.symbol s)) [
  | inl e ↦
      rw (own_run, own_step, e)
        (own_run-Processed s es (record ctx { request_queue = push req ctx.request_queue }))
  | inr e ↦ rw (own_run, own_step, e) (own_run-Processed s es ctx)
]
own_run-Processed s (served k now ∷ es) ctx = elim (Bool-cases (str_eq k s)) [
  | inl e ↦
      rw (own_run, own_step, e)
        (serve-Processed now ctx (own_run s es (serve now ctx))
          (own_run-Processed s es (serve now ctx)))
  | inr e ↦ rw (own_run, own_step, e) (own_run-Processed s es ctx)
]
