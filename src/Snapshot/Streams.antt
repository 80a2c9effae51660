-- ===== src/Snapshot/Streams.antt =====
-- The mirror of book_snapshot_service.h under one stream of updates for all symbols.
use trading_matching_engine.Base.{
  ◌≡◌, refl, List, [], ◌∷◌, arith, if◌then◌else◌, Bool-cases, inl, inr, ap,
}
use trading_matching_engine.Dict.{lookup, lookup-insert, string_Eq}
use trading_matching_engine.Types.{Symbol}
use trading_matching_engine.Messages.{BookUpdate}
use trading_matching_engine.Snapshot.{
  Mirror, or_empty, apply_kind, apply_update, apply_all, apply_stream, values, snapshot_for,
}

-- The updates of one symbol, in order.
unfoldable pub updates_of : Symbol → List BookUpdate → List BookUpdate
updates_of s [] = []
updates_of s (u ∷ us) = if string_Eq.beq u.symbol s then u ∷ updates_of s us else updates_of s us

entries-apply_update :
    (s : Symbol) (u : BookUpdate) (mirror : Mirror)
    → or_empty (lookup s (apply_update u mirror)) ≡ (
        if string_Eq.beq u.symbol s
        then apply_kind u.kind u (or_empty (lookup s mirror))
        else or_empty (lookup s mirror))
unfolding apply_update
entries-apply_update s u mirror =
    let d = apply_kind u.kind u (or_empty (lookup u.symbol mirror)) in
    ground (arith, lookup-insert u.symbol s d mirror, string_Eq.beq_iff u.symbol s)

pub entries-apply_stream :
    (s : Symbol) (us : List BookUpdate) (mirror : Mirror)
    → or_empty (lookup s (apply_stream us mirror))
      ≡ apply_all (updates_of s us) (or_empty (lookup s mirror))
unfolding apply_stream apply_all updates_of
entries-apply_stream s [] mirror = refl
entries-apply_stream s (u ∷ us) mirror = elim (Bool-cases (string_Eq.beq u.symbol s)) [
  | inl e ↦
      rw (e, entries-apply_stream s us (apply_update u mirror), entries-apply_update s u mirror, e)
  | inr e ↦
      rw (e, entries-apply_stream s us (apply_update u mirror), entries-apply_update s u mirror, e)
]

-- After a stream of updates of all symbols, the snapshot of a symbol is what its own updates alone
-- make of an empty mirror.
pub snapshot_for-apply_stream :
    (s : Symbol) (us : List BookUpdate)
    → snapshot_for s (apply_stream us []) ≡ values (apply_all (updates_of s us) [])
unfolding snapshot_for lookup
snapshot_for-apply_stream s us = ap values (entries-apply_stream s us [])
