-- ===== src/System/Replies.antt =====
-- From the orders in the inbox of order_server.h through matching_core.h back to the responses that
-- the callback of the gateway is given.
use text.Mathlib.Text.{◌==◌ as str_eq}
use text.Mathlib.TextEquality.{eq_iff}
use trading_matching_engine.Base.{
  ℕ, ◌≤◌, ◌<◌, ◌≡◌, refl, sym, ap, ap₂, subst, ◌∙◌, true, List, [], ◌∷◌, ◌++◌, append_assoc, map,
  some, arith, length, All, if◌then◌else◌, Bool-cases, inl, inr,
}
use trading_matching_engine.Dict.{lookup, string_Eq}
use trading_matching_engine.Types.{Symbol}
use trading_matching_engine.Messages.{EngineOrderRequest, EngineOrderResponse}
use trading_matching_engine.Queue.{LfQueue, new_queue}
use trading_matching_engine.Core.{SymbolContext, MatchingCore, new_core}
use trading_matching_engine.Core.Runs.{Event, routed, served, run, routed_to}
use trading_matching_engine.Core.Answers.{AnswersAll}
use trading_matching_engine.Core.Handled.{has_room}
use trading_matching_engine.Core.Drained.{rounds_of, run-IsDrained}
use trading_matching_engine.Gateway.{OrderGatewayServer, run_round}
use trading_matching_engine.Gateway.Responses.{responses_in, run_round-delivered}
use trading_matching_engine.Program.{is_known}
use trading_matching_engine.System.{
  blank_response, read_all, write_all, responses_of, responses_sent, response_queues,
}
use trading_matching_engine.System.Rings.{read_all-write_all}

-- All requests that are routed, in their order.
unfoldable pub routed_in : List Event → List EngineOrderRequest
routed_in [] = []
routed_in (routed req ∷ es) = req ∷ routed_in es
routed_in (served s now ∷ es) = routed_in es

-- Those of some requests that are of a symbol.
unfoldable pub of_symbol : Symbol → List EngineOrderRequest → List EngineOrderRequest
of_symbol s [] = []
of_symbol s (req ∷ reqs) =
    let rest = of_symbol s reqs in if str_eq req.symbol s then req ∷ rest else rest

routed_to-of_symbol : (s : Symbol) (es : List Event) → routed_to s es ≡ of_symbol s (routed_in es)
unfolding routed_to routed_in of_symbol
routed_to-of_symbol s [] = refl
routed_to-of_symbol s (routed req ∷ es) =
    ap (λ rest. if str_eq req.symbol s then req ∷ rest else rest) (routed_to-of_symbol s es)
routed_to-of_symbol s (served k now ∷ es) = routed_to-of_symbol s es

routed_to-append_none :
    (s : Symbol) (es fs : List Event)
    → routed_to s fs ≡ []
    → routed_to s (es ++ fs) ≡ routed_to s es
unfolding routed_to
routed_to-append_none s [] fs h = h
routed_to-append_none s (routed req ∷ es) fs h =
    ap (λ rest. if str_eq req.symbol s then req ∷ rest else rest) (routed_to-append_none s es fs h)
routed_to-append_none s (served k now ∷ es) fs h = routed_to-append_none s es fs h

-- What the gateway reads of rings.
abbrev pub read_rings : List (LfQueue EngineOrderResponse) → List (List EngineOrderResponse)
read_rings qs = map (λ q. read_all q.num_elements q) qs

-- None of the queues of a core has been written to more often than it has slots.
abbrev pub FitsQueues : ℕ → List Symbol → MatchingCore → Type 0
FitsQueues size symbols core = All (λ rs. length rs ≤ size) (responses_sent symbols core)

read_rings-response_queues :
    (size : ℕ) (symbols : List Symbol) (core : MatchingCore)
    → 0 < size
    → FitsQueues size symbols core
    → read_rings (response_queues size symbols core) ≡ responses_sent symbols core
unfolding response_queues
read_rings-response_queues size symbols core pos_size fits = go (responses_sent symbols core) fits
  where
    go :
        (xs : List (List EngineOrderResponse))
        → All (λ rs. length rs ≤ size) xs
        → read_rings (map (λ rs. write_all rs (new_queue size blank_response)) xs) ≡ xs
    go [] h = refl
    go (rs ∷ xs) h = ap₂ ◌∷◌ (read_all-write_all blank_response size pos_size rs h.0) (go xs h.1)

-- Some responses stand in one piece in a list.
abbrev pub Within : List EngineOrderResponse → List EngineOrderResponse → Type 0
Within own all =
    (before : List EngineOrderResponse) × (after : List EngineOrderResponse) × (all
      ≡ before ++ (own ++ after))

Within-behind : (xs own all : List EngineOrderResponse) → Within own all → Within own (xs ++ all)
Within-behind xs own all (before, after, e) =
    (xs ++ before, after, ap (◌++◌ xs) e ∙ sym (append_assoc xs before (own ++ after)))

responses_in-Within :
    (s : Symbol) (symbols : List Symbol) (core : MatchingCore)
    → is_known s symbols ≡ true
    → Within (responses_of (lookup s core.contexts)) (responses_in (responses_sent symbols core))
unfolding responses_in is_known
responses_in-Within s [] core k = cc
responses_in-Within s (t ∷ ts) core k = elim (Bool-cases (string_Eq.beq t s)) [
  | inl here ↦
      let e : t ≡ s = (eq_iff t s).0 here in
      (
        [],
        responses_in (responses_sent ts core),
        ap (λ x. responses_of (lookup x core.contexts) ++ responses_in (responses_sent ts core)) e,
      )
  | inr later ↦
      Within-behind (responses_of (lookup t core.contexts)) (responses_of (lookup s core.contexts))
        (responses_in (responses_sent ts core)) (responses_in-Within s ts core (ground arith))
]

-- Of the requests of a symbol each has an answer of its own, in their order, in one piece of what
-- has been delivered.
abbrev pub AreAnswered : Symbol → List EngineOrderRequest → List EngineOrderResponse → Type 0
AreAnswered s reqs delivered =
    (own : List EngineOrderResponse) × AnswersAll (of_symbol s reqs) own × Within own delivered

pub run_round-AreAnswered :
    (sort : List EngineOrderRequest → List EngineOrderRequest) (size : ℕ) (symbols : List Symbol)
    (g g' : OrderGatewayServer) (es fs : List Event) (s : Symbol) (ctx : SymbolContext)
    → 0 < size
    → is_known s symbols ≡ true
    → routed_in es ≡ (run_round sort g).sequencer.routed
    → has_room size s 0 es ≡ true
    → lookup s (run es (new_core size symbols)).contexts ≡ some ctx
    → routed_to s fs ≡ []
    → ctx.request_queue.num_elements ≤ rounds_of s fs
    → FitsQueues size symbols (run (es ++ fs) (new_core size symbols))
    → g'.response_callback ≡ true
    → g'.incoming_responses
      ≡ read_rings (response_queues size symbols (run (es ++ fs) (new_core size symbols)))
    → AreAnswered s (run_round sort g).sequencer.routed (run_round sort g').delivered
run_round-AreAnswered sort size symbols g g' es fs s ctx pos_size known given room there none_new
      enough fits callback wired =
    let core = run (es ++ fs) (new_core size symbols) in
    let (ctx', at_end, _, _, _, _, answers) =
      run-IsDrained size symbols es fs s ctx pos_size room there none_new enough in
    let reqs : routed_to s (es ++ fs) ≡ of_symbol s (run_round sort g).sequencer.routed =
      routed_to-append_none s es fs none_new ∙ routed_to-of_symbol s es ∙ ap (of_symbol s) given in
    let all : (run_round sort g').delivered
        ≡ g'.delivered ++ responses_in (responses_sent symbols core) =
      (run_round-delivered sort g').0
      ∙ ap (λ c. if c then g'.delivered ++ responses_in g'.incoming_responses else g'.delivered)
          callback
      ∙ ap (λ qs. g'.delivered ++ responses_in qs)
          (wired ∙ read_rings-response_queues size symbols core pos_size fits) in
    let inside =
      Within-behind g'.delivered (responses_of (lookup s core.contexts))
        (responses_in (responses_sent symbols core)) (responses_in-Within s symbols core known) in
    (
      ctx'.book.responses,
      subst (λ l. AnswersAll l ctx'.book.responses) reqs answers,
      subst (λ l. Within ctx'.book.responses l) (sym all)
          (subst (λ own. Within own (g'.delivered ++ responses_in (responses_sent symbols core)))
            (ap responses_of at_end) inside),
    )
