-- ===== src/System/Snapshots.antt =====
-- From the requests of matching_core.h through market_data_feed.h to the mirror of
-- book_snapshot_service.h.
use text.Mathlib.TextEquality.{eq_iff}
use trading_matching_engine.Base.{
  ℕ, ◌<◌, ◌≤◌, length, map, ◌≡◌, refl, sym, ap, ap₂, subst, ◌∙◌, true, false, List, [], ◌∷◌, ◌++◌,
  some, arith, append-nil, Bool-cases, Option-cases, inl, inr,
}
use trading_matching_engine.Dict.{lookup, string_Eq, nat_Eq}
use trading_matching_engine.Types.{OrderId, Symbol, Nanos}
use trading_matching_engine.Messages.{EngineOrderRequest, BookUpdate}
use trading_matching_engine.Book.{SymbolOrderBook, new_book, find_node}
use trading_matching_engine.Book.Nodes.{seen}
use trading_matching_engine.Book.Valid.{resting, IsValid, new_book-IsValid}
use trading_matching_engine.Entry.Sync.{SyncedAt, new_book-IsSynced}
use trading_matching_engine.Core.{SymbolContext, MatchingCore, new_core, process_request}
use trading_matching_engine.Core.Valid.{process_all, process_request-IsValid}
use trading_matching_engine.Core.Sync.{Remains, process_request-SyncedAt}
use trading_matching_engine.Core.Runs.{Event, run}
use trading_matching_engine.Core.Reachable.{reachable_book}
use trading_matching_engine.System.Rings.{
  histories, FitsRings, drained-update_queues, drained-update_ring,
}
use trading_matching_engine.Feed.{new_feed, run_feed, waiting, run_feed-waiting}
use trading_matching_engine.Snapshot.{or_empty, apply_all}
use trading_matching_engine.Snapshot.Streams.{updates_of, entries-apply_stream}
use trading_matching_engine.Snapshot.Orders.{entry_of, mirrored}
use trading_matching_engine.Snapshot.Rounds.{
  Round, run_rounds, arrivals, new_service, run_rounds-mirror,
}
use trading_matching_engine.Program.{is_known}
use trading_matching_engine.Program.Collected.{IsDistinct}
use trading_matching_engine.System.{update_queues, updates_from, update_ring, drained}
use trading_matching_engine.System.Tags.{AreOf, IsTagged}
use trading_matching_engine.System.Tags.Requests.{process_all-IsTagged}

updates_of-append :
    (s : Symbol) (us vs : List BookUpdate)
    → updates_of s (us ++ vs) ≡ updates_of s us ++ updates_of s vs
unfolding updates_of
updates_of-append s [] vs = refl
updates_of-append s (u ∷ us) vs = elim (Bool-cases (string_Eq.beq u.symbol s)) [
  | inl e ↦ rw e (ap (◌∷◌ u) (updates_of-append s us vs))
  | inr e ↦ rw e (updates_of-append s us vs)
]

updates_of_own : (s : Symbol) (us : List BookUpdate) → AreOf s us → updates_of s us ≡ us
unfolding updates_of
updates_of_own s [] h = refl
updates_of_own s (u ∷ us) h = rw ((eq_iff u.symbol s).1 h.0) (ap (◌∷◌ u) (updates_of_own s us h.1))

updates_of_other :
    (s k : Symbol) (us : List BookUpdate)
    → string_Eq.beq k s ≡ false
    → AreOf k us
    → updates_of s us ≡ []
unfolding updates_of
updates_of_other s k [] d h = refl
updates_of_other s k (u ∷ us) d h =
    let other : string_Eq.beq u.symbol s ≡ false = ap (λ x. string_Eq.beq x s) h.0 ∙ d in
    rw other (updates_of_other s k us d h.1)

-- Every context's updates carry its symbol.
abbrev AreTagged : MatchingCore → Type 0
AreTagged core = (k : Symbol) → AreOf k (updates_from (lookup k core.contexts))

module _ (core : MatchingCore) (tagged : AreTagged core) (s : Symbol) where
  updates_of_absent :
      (ss : List Symbol) → is_known s ss ≡ false → updates_of s (waiting (histories ss core)) ≡ []
  unfolding waiting is_known updates_of
  updates_of_absent [] h = refl
  updates_of_absent (k ∷ ss) h =
      let us = updates_from (lookup k core.contexts) in
      updates_of-append s us (waiting (histories ss core))
      ∙ ap₂ ◌++◌ (updates_of_other s k us (ground arith) (tagged k))
          (updates_of_absent ss (ground arith))

  updates_of_present :
      (ss : List Symbol)
      → IsDistinct ss
      → is_known s ss ≡ true
      → updates_of s (waiting (histories ss core)) ≡ updates_from (lookup s core.contexts)
  unfolding waiting is_known
  updates_of_present [] d h = cc
  updates_of_present (k ∷ ss) d h =
      let us = updates_from (lookup k core.contexts) in
      let rest = waiting (histories ss core) in
      elim (Bool-cases (string_Eq.beq k s)) [
        | inl here ↦
            let e : k ≡ s = (eq_iff k s).0 here in
            updates_of-append s us rest
            ∙ ap₂ ◌++◌ (updates_of_own s us (subst (λ x. AreOf x us) e (tagged k)))
                (updates_of_absent ss (subst (λ x. is_known x ss ≡ false) e d.0))
            ∙ append-nil us
            ∙ ap (λ x. updates_from (lookup x core.contexts)) e
        | inr later ↦
            updates_of-append s us rest
            ∙ ap₂ ◌++◌ (updates_of_other s k us later (tagged k))
                (updates_of_present ss d.1 (ground arith))
      ]

reachable-AreTagged :
    (size : ℕ) (symbols : List Symbol) (es : List Event)
    → AreTagged (run es (new_core size symbols))
reachable-AreTagged size symbols es k =
    elim (Option-cases (lookup k (run es (new_core size symbols)).contexts)) [
      | inl gone ↦ rw gone tt
      | inr (ctx, there) ↦
          let (done, book) = reachable_book size symbols es k ctx there in
          let new : IsTagged k (new_book k) = unfold new_book in (refl, tt) in
          rw there (
            subst (λ b. AreOf k b.updates) (sym book)
              (process_all-IsTagged k done (new_book k) new).1)
    ]

-- None of the requests is an accepted modification that changes the price of the order with an id
-- and has it filled at once.
abbrev pub Stays : OrderId → List (EngineOrderRequest × Nanos) → SymbolOrderBook → Type 0
Stays j [] b = Unit {0}
Stays j ((req, now) ∷ rest) b =
    Remains req.order_type req j b × Stays j rest (process_request req now b)

process_all-SyncedAt :
    (j : OrderId) (reqs : List (EngineOrderRequest × Nanos)) (b : SymbolOrderBook)
    → IsValid b
    → Stays j reqs b
    → SyncedAt j b
    → SyncedAt j (process_all reqs b)
unfolding process_all
process_all-SyncedAt j [] b v r s = s
process_all-SyncedAt j ((req, now) ∷ rest) b v r s =
    process_all-SyncedAt j rest (process_request req now b) (process_request-IsValid req now v) r.1
      (process_request-SyncedAt req now j v r.0 s)

-- All updates of a core, as the feed hands them on when it has read the rings of the core empty.
abbrev pub fed : ℕ → List Symbol → MatchingCore → List BookUpdate
fed size symbols core =
    (run_feed (new_feed (map drained (update_queues size symbols core)))).snapshot_feed

pub run_rounds-resting :
    (size : ℕ) (symbols : List Symbol) (es : List Event) (rs : List Round) (s : Symbol)
    (ctx : SymbolContext) (j : OrderId) (done : List (EngineOrderRequest × Nanos))
    → 0 < size
    → IsDistinct symbols
    → is_known s symbols ≡ true
    → lookup s (run es (new_core size symbols)).contexts ≡ some ctx
    → ctx.book ≡ process_all done (new_book s)
    → Stays j done (new_book s)
    → FitsRings size symbols (run es (new_core size symbols))
    → length (fed size symbols (run es (new_core size symbols))) ≤ size
    → arrivals rs ≡ drained (update_ring size (fed size symbols (run es (new_core size symbols))))
    → lookup j (or_empty (lookup s (run_rounds rs new_service).mirror))
      ≡ seen entry_of (find_node j (resting ctx.book))
run_rounds-resting size symbols es rs s ctx j done pos_size distinct known there book stays fits few
      arrived =
    let core = run es (new_core size symbols) in
    let handed_on : fed size symbols core ≡ waiting (histories symbols core) =
      (run_feed-waiting (new_feed (map drained (update_queues size symbols core)))).1
      ∙ unfold new_feed in ap waiting (drained-update_queues size symbols core pos_size fits) in
    let all : arrivals rs ≡ waiting (histories symbols core) =
      arrived ∙ drained-update_ring size (fed size symbols core) pos_size few ∙ handed_on in
    let own : updates_of s (arrivals rs) ≡ ctx.book.updates =
      ap (updates_of s) all
      ∙ updates_of_present core (reachable-AreTagged size symbols es) s symbols distinct known
      ∙ ap updates_from there in
    let none_yet : or_empty (lookup s []) ≡ [] = unfold lookup in refl in
    let synced : SyncedAt j ctx.book = subst (SyncedAt j) (sym book) (
      process_all-SyncedAt j done (new_book s) (new_book-IsValid s) stays
        (new_book-IsSynced s j)) in
    ap (λ m. lookup j (or_empty (lookup s m))) (run_rounds-mirror rs new_service refl)
    ∙ ap (lookup j) (
        entries-apply_stream s (arrivals rs) []
        ∙ ap (apply_all (updates_of s (arrivals rs))) none_yet)
    ∙ ap (mirrored j) own
    ∙ synced
