-- ===== src/Aggregate/Update/Rows.antt =====
-- The rows after a snapshot, flow by flow.
use qiftop.Common.{
  ℕ, ◌-◌, ◌≡◌, refl, sym, ◌∙◌, ap, inl, inr, Bool, true, false, not, List, [], ◌∷◌, Option, none,
  some, arith, if◌then◌else◌, list_eq, nat_eq, keep, map,
}
use qiftop.Containers.Map.{
  Map, find, contains, put, Unique, Unique-put, Unique-keep, find-keep, find-contains, passing,
}
use qiftop.Flow.Types.{Text, Address, Connection}
use qiftop.Flow.Key.{KeyText, connection_key}
use qiftop.Aggregate.Real.{Real}
use qiftop.Aggregate.Udp.{aggregate_udp}
use qiftop.Aggregate.Rows.{
  Row, is_overdue, new_row, mark_stale, refresh_row, update_row, update_rows, prune_rows,
  index_rows, additions, append_rows,
}
use qiftop.Aggregate.Rows.Lookup.{
  IsKeyed, or_else, by_key, updated, find-update_rows, Unique-update_rows, survives,
  find-prune_rows, Unique-prune_rows, find-index_rows, position, none-position, position-none,
  or_else-none,
}
use qiftop.Aggregate.Rows.Append.{
  is_new, additions-keep, IsIndexed, Disjoint, added, Appended, append_rows-Appended, some≢none,
}
use qiftop.Aggregate.Update.{Aggregator, with_direction, index_flows, snapshot, update_connections}

module _ (q : KeyText) where
  IsKeyed-put :
      (c : Connection) (m : Map Text Connection)
      → IsKeyed q m
      → IsKeyed q (put (connection_key q c) c m)
  unfolding put
  IsKeyed-put c [] h = (refl, tt)
  IsKeyed-put c ((k, x) ∷ m) h = ground (arith, IsKeyed-put c m h.1)

  index_flows-IsKeyed :
      (cs : List Connection) (m : Map Text Connection)
      → IsKeyed q m
      → Unique m
      → IsKeyed q (index_flows q m cs) × Unique (index_flows q m cs)
  unfolding index_flows
  index_flows-IsKeyed [] m h u = (h, u)
  index_flows-IsKeyed (c ∷ cs) m h u =
      index_flows-IsKeyed cs _ (IsKeyed-put c m h) (Unique-put (connection_key q c) c m u)

  IsKeyed-keep :
      (p : Text × Connection → Bool) (m : Map Text Connection) → IsKeyed q m → IsKeyed q (keep p m)
  IsKeyed-keep p [] h = tt
  IsKeyed-keep p ((k, c) ∷ m) h = ground (arith, IsKeyed-keep p m h.1)

-- The rows have distinct keys, and the index gives their positions.
pub record IsSound {Num : Type 0} (d : Real Num) (q : KeyText) (a : Aggregator Num) : Type 0 where
  pub unique : Unique (by_key q a.rows)
  pub indexed : (k : Text) → find k a.key_to_idx ≡ position q k 0 a.rows

module _ {Num : Type 0} (d : Real Num) (q : KeyText) (is_null : Address → Bool) (now : ℕ)
    (connections : List Connection) (a : Aggregator Num) where
  -- The flows of the snapshot by key, as updateConnections groups and directs them.
  abbrev pub incoming : Map Text Connection
  incoming = (snapshot q a now connections).1

  abbrev IsIndexable : List Connection → Type 0
  IsIndexable cs = IsKeyed q (index_flows q [] cs) × Unique (index_flows q [] cs)

  index_flows-IsIndexable : (cs : List Connection) → IsIndexable cs
  index_flows-IsIndexable cs = index_flows-IsKeyed q cs [] tt tt

  incoming-IsKeyed : IsKeyed q incoming × Unique incoming
  unfolding snapshot
  incoming-IsKeyed =
      let directed = map (with_direction a) connections in
      let grouped = aggregate_udp q now a.settings.stale_retention_ms_udp a.udp_agg directed in
      index_flows-IsIndexable
        (if a.settings.udp_aggregate_by_peer then grouped else ([], directed)).1

  -- What becomes of a flow: its place in the snapshot, and its row.
  abbrev pub expected : Text → Option Connection → Option (Row Num) → Option (Row Num)
  expected k none none = none
  expected k none (some r) =
      let r' = if r.stale then r else mark_stale d r in
      if is_overdue a.settings now r' then none else some r'
  expected k (some c) none = some (new_row d now c)
  expected k (some c) (some r) =
      some (refresh_row d a.settings now (now - a.last_elapsed_ms) (find k a.prev) c r)

  abbrev refreshed : List (Row Num)
  refreshed = (update_rows d q a.settings now (now - a.last_elapsed_ms) a.prev incoming 0 a.rows).0

  abbrev kept : List (Row Num)
  kept = (prune_rows a.settings now 0 refreshed).0

  abbrev idx : Map Text ℕ
  idx = index_rows q 0 kept []

  module _ (u : Unique (by_key q a.rows)) where
    Unique-kept : Unique (by_key q kept)
    Unique-kept =
        Unique-prune_rows q a.settings now 0 refreshed
          (Unique-update_rows q d a.settings now _ a.prev incoming incoming-IsKeyed.0 0 a.rows u)

    idx-IsIndexed : IsIndexed d q now kept idx
    unfolding find
    idx-IsIndexed k = find-index_rows q k 0 kept [] Unique-kept ∙ or_else-none _

    Disjoint-kept : Disjoint d q now kept (keep (is_new idx) incoming)
    Disjoint-kept k c e = elim (find-contains k idx) [
      | inl there ↦ absurd (
          dropped (find k incoming) (sym (find-keep (is_new idx) k incoming incoming-IsKeyed.1) ∙ e)
            there.0)
      | inr absent ↦ none-position q k 0 kept (sym (idx-IsIndexed k) ∙ absent.1)
    ]
      where
        dropped :
            (x : Option Connection) → passing (is_new idx) k x ≡ some c → contains k idx ≡ true → ⊥
        dropped none e h = ground arith
        dropped (some x) e h = ground arith

    update-Appended :
        Appended d q now kept
          (keep (is_new idx) incoming)
          (append_rows d q now kept idx (additions idx incoming))
    update-Appended = rw (additions-keep idx incoming) (
        append_rows-Appended d q now _ kept idx (IsKeyed-keep q _ incoming incoming-IsKeyed.0)
          (Unique-keep _ incoming incoming-IsKeyed.1) Disjoint-kept Unique-kept idx-IsIndexed)

    contains-idx : (k : Text) → find k (by_key q kept) ≡ none → contains k idx ≡ false
    contains-idx k h = elim (find-contains k idx) [
      | inl there ↦
          absurd (some≢none (sym there.1.1 ∙ idx-IsIndexed k ∙ position-none q k 0 kept h))
      | inr absent ↦ absent.0
    ]

  -- If rows have distinct keys and the index gives their positions, this is so again after any
  -- snapshot.
  pub update_connections-IsSound :
      IsSound d q a → IsSound d q (update_connections d q is_null now connections a).0
  unfolding update_connections
  update_connections-IsSound s = record {
    unique = (update-Appended s.unique).unique;
    indexed = (update-Appended s.unique).indexed;
  }

  -- The row of a flow, by its place in the snapshot and its row before.
  expected_row :
      (k : Text) (x : Option Connection) (y : Option (Row Num))
      → find k incoming ≡ x
      → find k (by_key q kept)
        ≡ passing
            (λ e. survives q a.settings now e.1)
            k
            (updated q d a.settings now (now - a.last_elapsed_ms) a.prev incoming k y)
      → find k (keep (is_new idx) incoming) ≡ passing (is_new idx) k x
      → (find k (by_key q kept) ≡ none → contains k idx ≡ false)
      → or_else (find k (by_key q kept)) (added d q now (find k (keep (is_new idx) incoming)))
        ≡ expected k x y
  unfolding update_row refresh_row mark_stale
  expected_row k none none hx left fresh idle = rw (left, fresh) refl
  expected_row k (some c) none hx left fresh idle = rw (left, fresh, idle left) refl
  expected_row k (some c) (some r) hx left fresh idle = rw (left, hx) refl
  expected_row k none (some r) hx left fresh idle = rw (left, fresh, hx) (gone r.stale)
    where
      pruned :
          (r' : Row Num) (b : Bool)
          → or_else (if not b then some r' else none) none ≡ (if b then none else some r')
      pruned r' true = refl
      pruned r' false = refl

      gone :
          (b : Bool)
          → or_else
              (let result : Row Num × Bool = if b then (r, false) else (mark_stale d r, true) in
                passing (λ e. survives q a.settings now e.1) k (some result.0))
              none
            ≡ (let r' = if b then r else mark_stale d r in
                if is_overdue a.settings now r' then none else some r')
      gone true = pruned r (is_overdue a.settings now r)
      gone false = pruned (mark_stale d r) (is_overdue a.settings now (mark_stale d r))

  -- Flow by flow, a snapshot does to a sound list of rows what it should: a flow that is there
  -- refreshes its row or gets a new one, one that is gone leaves its row stale, or without a row
  -- once its time is over, and there is no other row.
  pub update_connections-rows :
      (k : Text)
      → IsSound d q a
      → find k (by_key q (update_connections d q is_null now connections a).0.rows)
        ≡ expected k (find k incoming) (find k (by_key q a.rows))
  unfolding update_connections
  update_connections-rows k s =
      let left = find-prune_rows q a.settings now k 0 refreshed (
        Unique-update_rows q d a.settings now _ a.prev incoming incoming-IsKeyed.0 0 a.rows
          s.unique) in
      let done =
        find-update_rows q d a.settings now (now - a.last_elapsed_ms) a.prev incoming
          incoming-IsKeyed.0 k 0 a.rows in
      (update-Appended s.unique).rows_of k
      ∙ expected_row k _ _ refl (left ∙ ap (passing (λ e. survives q a.settings now e.1) k) done)
          (find-keep (is_new idx) k incoming incoming-IsKeyed.1) (contains-idx s.unique k)
