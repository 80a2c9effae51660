-- ===== src/Feed.antt =====
-- exchange/market_data/market_data_feed.h: the fan-out of the updates to the subscribers and to the
-- queue of the snapshot service. A subscriber is the history of its calls, a queue the list of what
-- waits in it, oldest first.
use trading_matching_engine.Base.{
  List, [], ◌∷◌, ◌++◌, map, ◌≡◌, refl, sym, ap, ap₂, ◌∙◌, append-nil, append_assoc,
}
use trading_matching_engine.Messages.{BookUpdate}

pub record MarketDataFeed : Type 0 where
  pub engine_updates : List (List BookUpdate)
  pub subscribers : List (List BookUpdate)
  pub snapshot_feed : List BookUpdate

unfoldable pub new_feed : List (List BookUpdate) → MarketDataFeed
new_feed engine_updates = record {
  engine_updates = engine_updates;
  subscribers = [];
  snapshot_feed = [];
}

unfoldable pub subscribe : MarketDataFeed → MarketDataFeed
subscribe f = record f { subscribers = f.subscribers ++ ([] ∷ []) }

-- The body of the inner loop of `run`.
unfoldable pub publish : BookUpdate → MarketDataFeed → MarketDataFeed
publish u f = record f {
  subscribers = map (λ calls. calls ++ (u ∷ [])) f.subscribers;
  snapshot_feed = f.snapshot_feed ++ (u ∷ []);
}

unfoldable pub publish_all : List BookUpdate → MarketDataFeed → MarketDataFeed
unfolding publish
publish_all [] f = f
publish_all (u ∷ us) f = publish_all us (publish u f)

unfoldable publish_queues : List (List BookUpdate) → MarketDataFeed → MarketDataFeed
unfolding publish_all
publish_queues [] f = f
publish_queues (q ∷ qs) f = publish_queues qs (publish_all q f)

-- One round of `run`: every queue is read until it is empty.
unfoldable pub run_feed : MarketDataFeed → MarketDataFeed
unfolding publish_queues
run_feed f = record (publish_queues f.engine_updates f) {
  engine_updates = map (λ q. []) f.engine_updates;
}

-- What waits in the queues, one queue after the other.
unfoldable pub waiting : List (List BookUpdate) → List BookUpdate
waiting [] = []
waiting (q ∷ qs) = q ++ waiting qs

unfoldable extend : List (List BookUpdate) → List BookUpdate → List (List BookUpdate)
extend calls us = map (λ c. c ++ us) calls

extend_twice :
    (calls : List (List BookUpdate)) (us vs : List BookUpdate)
    → extend (extend calls us) vs ≡ extend calls (us ++ vs)
unfolding extend
extend_twice [] us vs = refl
extend_twice (c ∷ calls) us vs = ap₂ ◌∷◌ (append_assoc c us vs) (extend_twice calls us vs)

extend_nil : (calls : List (List BookUpdate)) → extend calls [] ≡ calls
unfolding extend
extend_nil [] = refl
extend_nil (c ∷ calls) = ap₂ ◌∷◌ (append-nil c) (extend_nil calls)

abbrev sent : List BookUpdate → MarketDataFeed → MarketDataFeed
sent us f = record f {
  subscribers = extend f.subscribers us;
  snapshot_feed = f.snapshot_feed ++ us;
}

sent_nil : (f : MarketDataFeed) → sent [] f ≡ f
sent_nil f =
    ap₂ (λ s q. record f { subscribers = s; snapshot_feed = q }) (extend_nil f.subscribers)
      (append-nil f.snapshot_feed)

sent_twice :
    (us vs : List BookUpdate) (f : MarketDataFeed) → sent vs (sent us f) ≡ sent (us ++ vs) f
sent_twice us vs f =
    ap₂ (λ s q. record f { subscribers = s; snapshot_feed = q }) (extend_twice f.subscribers us vs)
      (append_assoc f.snapshot_feed us vs)

publish_all-sent : (us : List BookUpdate) (f : MarketDataFeed) → publish_all us f ≡ sent us f
unfolding publish_all publish
publish_all-sent [] f = sym (sent_nil f)
publish_all-sent (u ∷ us) f =
    publish_all-sent us (publish u f) ∙ unfold extend in sent_twice (u ∷ []) us f

publish_queues-sent :
    (qs : List (List BookUpdate)) (f : MarketDataFeed) → publish_queues qs f ≡ sent (waiting qs) f
unfolding publish_queues waiting
publish_queues-sent [] f = sym (sent_nil f)
publish_queues-sent (q ∷ qs) f =
    publish_queues-sent qs (publish_all q f)
    ∙ ap (sent (waiting qs)) (publish_all-sent q f)
    ∙ sent_twice q (waiting qs) f

none_waiting : (qs : List (List BookUpdate)) → waiting (map (λ q. []) qs) ≡ []
unfolding waiting
none_waiting [] = refl
none_waiting (q ∷ qs) = none_waiting qs

-- A round of the feed gives every subscriber, and the queue of the snapshot service, all updates
-- that waited, in the same order: none is lost, and all see the same history.
pub run_feed-waiting :
    (f : MarketDataFeed)
    → ((run_feed f).subscribers ≡ map (λ calls. calls ++ waiting f.engine_updates) f.subscribers)
      × ((run_feed f).snapshot_feed ≡ f.snapshot_feed ++ waiting f.engine_updates)
      × (waiting (run_feed f).engine_updates ≡ [])
unfolding run_feed extend
run_feed-waiting f =
    let e = publish_queues-sent f.engine_updates f in
    (ap (λ x. x.subscribers) e, ap (λ x. x.snapshot_feed) e, none_waiting f.engine_updates)
