-- ===== src/Program/Symbols.antt =====
-- The routing of the orders of exchange_main.cpp to the books that it makes for their symbols.
use text.Mathlib.TextEquality.{eq_iff}
use trading_matching_engine.Base.{
  ℕ, Bool, ◌≡◌, refl, subst, ◌∙◌, true, false, List, [], ◌∷◌, some, arith, if◌then◌else◌, All,
  Bool-cases, Option-cases, inl, inr,
}
use trading_matching_engine.Dict.{lookup, insert, string_Eq, lookup-insert}
use trading_matching_engine.Types.{Symbol, Nanos}
use trading_matching_engine.Messages.{EngineOrderRequest}
use trading_matching_engine.Core.{
  SymbolContext, MatchingCore, new_core, new_contexts, route_request, serve_symbol,
}
use trading_matching_engine.Core.Runs.{Event, routed, served, step, run}
use trading_matching_engine.Program.{is_known, symbols_of}
use trading_matching_engine.Program.Collected.{symbols_of-Serves}

-- The symbol has a context.
abbrev pub HasContext : Symbol → List (Symbol × SymbolContext) → Type 0
HasContext s d = (ctx : SymbolContext) × (lookup s d ≡ some ctx)

HasContext-insert :
    (s k : Symbol) (c : SymbolContext) (d : List (Symbol × SymbolContext))
    → HasContext s d
    → HasContext s (insert k c d)
HasContext-insert s k c d (ctx, h) = elim (Bool-cases (string_Eq.beq k s)) [
  | inl e ↦ (c, lookup-insert k s c d ∙ rw e refl)
  | inr e ↦ (ctx, lookup-insert k s c d ∙ rw e h)
]

insert-HasContext :
    (s : Symbol) (c : SymbolContext) (d : List (Symbol × SymbolContext))
    → HasContext s (insert s c d)
insert-HasContext s c d = (c, lookup-insert s s c d ∙ rw ((eq_iff s s).1 refl) refl)

new_contexts-keeps :
    (size : ℕ) (ss : List Symbol) (d : List (Symbol × SymbolContext)) (s : Symbol)
    → HasContext s d
    → HasContext s (new_contexts size ss d)
unfolding new_contexts
new_contexts-keeps size [] d s h = h
new_contexts-keeps size (t ∷ ss) d s h = elim (Option-cases (lookup t d)) [
  | inl e ↦ rw (e, new_contexts) (new_contexts-keeps size ss _ s (HasContext-insert s t _ d h))
  | inr (c, e) ↦ rw (e, new_contexts) (new_contexts-keeps size ss d s h)
]

new_contexts-HasContext :
    (size : ℕ) (ss : List Symbol) (d : List (Symbol × SymbolContext)) (s : Symbol)
    → is_known s ss ≡ true
    → HasContext s (new_contexts size ss d)
unfolding new_contexts is_known
new_contexts-HasContext size [] d s h = cc
new_contexts-HasContext size (t ∷ ss) d s h = elim (Bool-cases (string_Eq.beq t s)) [
  | inl here ↦
      subst (λ k. HasContext k (new_contexts size (t ∷ ss) d)) ((eq_iff t s).0 here) (made t ss d)
  | inr later ↦ elim (Option-cases (lookup t d)) [
    | inl e ↦ rw (e, new_contexts) (new_contexts-HasContext size ss _ s (ground arith))
    | inr (c, e) ↦ rw (e, new_contexts) (new_contexts-HasContext size ss d s (ground arith))
  ]
]
  where
    made :
        (t : Symbol) (ss : List Symbol) (d : List (Symbol × SymbolContext))
        → HasContext t (new_contexts size (t ∷ ss) d)
    made t ss d = elim (Option-cases (lookup t d)) [
      | inl e ↦ rw (e, new_contexts) (new_contexts-keeps size ss _ t (insert-HasContext t _ d))
      | inr (c, e) ↦ rw (e, new_contexts) (new_contexts-keeps size ss d t (c, e))
    ]

-- Every request that is routed by some events is of a known symbol.
abbrev pub Routes : List Symbol → List Event → Type 0
Routes ss [] = Unit {0}
Routes ss (routed req ∷ es) = (is_known req.symbol ss ≡ true) × Routes ss es
Routes ss (served s now ∷ es) = Routes ss es

-- All symbols of a list have their contexts, and nothing was unknown.
abbrev pub Covers : List Symbol → MatchingCore → Type 0
Covers ss core =
    ((s : Symbol) → is_known s ss ≡ true → HasContext s core.contexts)
    × (core.unknown_symbol_responses ≡ [])

route_request-Covers :
    (ss : List Symbol) (req : EngineOrderRequest) (core : MatchingCore)
    → is_known req.symbol ss ≡ true
    → Covers ss core
    → Covers ss (route_request req core)
unfolding route_request
route_request-Covers ss req core k (there, none_unknown) =
    let (c, e) = there req.symbol k in
    rw (e, route_request)
      (λ s h. HasContext-insert s req.symbol _ core.contexts (there s h), none_unknown)

serve_symbol-Covers :
    (ss : List Symbol) (k : Symbol) (now : Nanos) (core : MatchingCore)
    → Covers ss core
    → Covers ss (serve_symbol k now core)
unfolding serve_symbol
serve_symbol-Covers ss k now core (there, none_unknown) =
    elim (Option-cases (lookup k core.contexts)) [
      | inl e ↦ rw (e, serve_symbol) (there, none_unknown)
      | inr (c, e) ↦
          rw (e, serve_symbol)
            (λ s h. HasContext-insert s k _ core.contexts (there s h), none_unknown)
    ]

run-Covers :
    (ss : List Symbol) (es : List Event) (core : MatchingCore)
    → Routes ss es
    → Covers ss core
    → Covers ss (run es core)
unfolding run step
run-Covers ss [] core r c = c
run-Covers ss (routed req ∷ es) core r c =
    run-Covers ss es (route_request req core) r.1 (route_request-Covers ss req core r.0 c)
run-Covers ss (served s now ∷ es) core r c =
    run-Covers ss es (serve_symbol s now core) r (serve_symbol-Covers ss s now core c)

new_core-Covers : (size : ℕ) (ss : List Symbol) → Covers ss (new_core size ss)
unfolding new_core
new_core-Covers size ss = (λ s h. new_contexts-HasContext size ss [] s h, refl)

-- Whether one of some orders names a symbol.
unfoldable pub is_named : Symbol → List EngineOrderRequest → Bool
is_named s [] = false
is_named s (o ∷ os) = let rest = is_named s os in if string_Eq.beq o.symbol s then true else rest

-- Every request that is routed by some events is of the symbol of one of some orders.
abbrev pub RoutesOrders : List EngineOrderRequest → List Event → Type 0
RoutesOrders os [] = Unit {0}
RoutesOrders os (routed req ∷ es) = (is_named req.symbol os ≡ true) × RoutesOrders os es
RoutesOrders os (served s now ∷ es) = RoutesOrders os es

named-is_known :
    (s : Symbol) (os : List EngineOrderRequest) (ss : List Symbol)
    → All (λ o. is_known o.symbol ss ≡ true) os
    → is_named s os ≡ true
    → is_known s ss ≡ true
unfolding is_named
named-is_known s [] ss a h = cc
named-is_known s (o ∷ os) ss a h = elim (Bool-cases (string_Eq.beq o.symbol s)) [
  | inl here ↦ subst (λ t. is_known t ss ≡ true) ((eq_iff o.symbol s).0 here) a.0
  | inr later ↦ named-is_known s os ss a.1 (rw later at h)
]

RoutesOrders-Routes :
    (os : List EngineOrderRequest) (es : List Event)
    → RoutesOrders os es
    → Routes (symbols_of os []) es
RoutesOrders-Routes os [] r = tt
RoutesOrders-Routes os (routed req ∷ es) r = (
  named-is_known req.symbol os (symbols_of os []) (symbols_of-Serves os).1 r.0,
  RoutesOrders-Routes os es r.1,
)
RoutesOrders-Routes os (served s now ∷ es) r = RoutesOrders-Routes os es r

-- Let `main` make a core for the symbols that it collects from some orders. However the rounds of
-- the symbols' threads fall between them: if only requests of symbols of these orders are routed to
-- the core, none of them is answered as of an unknown symbol.
pub run_none_unknown :
    (size : ℕ) (os : List EngineOrderRequest) (es : List Event)
    → RoutesOrders os es
    → (run es (new_core size (symbols_of os []))).unknown_symbol_responses ≡ []
run_none_unknown size os es r =
    (run-Covers (symbols_of os []) es (new_core size (symbols_of os []))
      (RoutesOrders-Routes os es r) (new_core-Covers size (symbols_of os []))).1
