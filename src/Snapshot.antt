-- ===== src/Snapshot.antt =====
-- exchange/market_data/book_snapshot_service.h: the mirror of the books, kept from the stream of
-- book updates alone.
pub mod Streams
pub mod Orders
pub mod Rounds
use trading_matching_engine.Base.{
  ℕ, List, [], ◌∷◌, ◌++◌, Option, none, some, map, if◌then◌else◌, ◌≡◌, refl,
}
use trading_matching_engine.Dict.{lookup, insert, erase, nat_Eq, string_Eq}
use trading_matching_engine.Types.{OrderId, Symbol, Price, Qty, Side}
use trading_matching_engine.Messages.{BookUpdate, MarketUpdateType, add, modify, cancel}

pub record SnapshotEntry : Type 0 where
  pub order_id : OrderId
  pub side : Side
  pub price : Price
  pub qty : Qty

-- OrderId -> entry, for one symbol.
abbrev pub Entries : Type 0
Entries = List (OrderId × SnapshotEntry)

-- Symbol -> OrderId -> entry.
abbrev pub Mirror : Type 0
Mirror = List (Symbol × Entries)

abbrev pub or_empty : Option Entries → Entries
or_empty none = []
or_empty (some d) = d

-- A modified order that the mirror does not know stays unknown.
unfoldable pub requantify_entry : OrderId → Qty → Entries → Entries
requantify_entry id qty d = elim (lookup id d) [
  | none ↦ d
  | some entry ↦ insert id (record entry { qty = qty }) d
]

abbrev pub entry_of_update : BookUpdate → SnapshotEntry
entry_of_update u = record { order_id = u.order_id; side = u.side; price = u.price; qty = u.qty }

-- The `switch` of `applyUpdate`.
unfoldable pub apply_kind : MarketUpdateType → BookUpdate → Entries → Entries
apply_kind add u d = insert u.order_id (entry_of_update u) d
apply_kind modify u d = requantify_entry u.order_id u.qty d
apply_kind cancel u d = erase u.order_id d
apply_kind _ u d = d

-- `mirror_[symbol]` makes an empty book for a symbol that is new, whatever the update is.
unfoldable pub apply_update : BookUpdate → Mirror → Mirror
unfolding apply_kind
apply_update u mirror =
    insert u.symbol (apply_kind u.kind u (or_empty (lookup u.symbol mirror))) mirror

-- The entries that the iteration over the inner map visits.
abbrev pub values : Entries → List SnapshotEntry
values d = map (λ e. e.1) d

unfoldable pub snapshot_for : Symbol → Mirror → List SnapshotEntry
snapshot_for symbol mirror = values (or_empty (lookup symbol mirror))

-- A stream of updates of one book, from the first on.
unfoldable pub apply_all : List BookUpdate → Entries → Entries
unfolding apply_kind
apply_all [] d = d
apply_all (u ∷ us) d = apply_all us (apply_kind u.kind u d)

-- The inner loop of `run`: every update that waits in the queue.
unfoldable pub apply_stream : List BookUpdate → Mirror → Mirror
unfolding apply_update
apply_stream [] mirror = mirror
apply_stream (u ∷ us) mirror = apply_stream us (apply_update u mirror)

pub apply_all-append :
    (us vs : List BookUpdate) (d : Entries) → apply_all (us ++ vs) d ≡ apply_all vs (apply_all us d)
unfolding apply_all
apply_all-append [] vs d = refl
apply_all-append (u ∷ us) vs d = apply_all-append us vs (apply_kind u.kind u d)
