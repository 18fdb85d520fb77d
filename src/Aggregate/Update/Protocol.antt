-- ===== src/Aggregate/Update/Protocol.antt =====
-- The signals of updateConnections, as an adapter receives them.
use qiftop.Common.{
  ℕ, ◌+◌, ◌-◌, ◌<◌, ◌≡◌, refl, sym, ◌∙◌, ap, subst, Bool, true, false, not, ◌&&◌, List, [], ◌∷◌,
  ◌++◌, some, arith, if◌then◌else◌, length, All,
}
use qiftop.Flow.Types.{Address, Connection}
use qiftop.Flow.Key.{KeyText}
use qiftop.Aggregate.Real.{Real}
use qiftop.Aggregate.Runs.{runs_of}
use qiftop.Aggregate.Runs.Cover.{runs_of-rows}
use qiftop.Aggregate.Rows.{resolves, rows_inserted, update_rows, prune_rows, index_rows, additions}
use qiftop.Aggregate.Rows.Adapter.{
  Pending, idle, and_then, receive_all, and_then-append, prune_rows-receive, runs-receive,
  length-append_rows, length-update_rows, update_rows-All, receive-resolves, receive-rows_inserted,
  receive-rows_about_to_be_inserted,
}
use qiftop.Aggregate.Update.{
  Aggregator, snapshot, updates, request_resolution, request_all, insertion, update_connections,
}

module _ (is_null : Address → Bool) (enabled : Bool) where
  request_resolution-receive :
      (x : ℕ × Pending) (addr : Address)
      → receive_all (request_resolution is_null enabled addr) x ≡ some x
  unfolding request_resolution
  request_resolution-receive x addr =
      elim (enabled && not (is_null addr))
        as (λ b. receive_all (if b then resolves addr ∷ [] else []) x ≡ some x) [
          | true ↦ receive-resolves addr x
          | false ↦ refl
        ]

  request_all-receive :
      (x : ℕ × Pending) (cs : List Connection)
      → receive_all (request_all is_null enabled cs) x ≡ some x
  unfolding request_all
  request_all-receive x [] = refl
  request_all-receive x (c ∷ cs) =
      and_then-append (request_resolution is_null enabled c.local.address) _ (some x)
      ∙ ap (and_then _) (request_resolution-receive x c.local.address)
      ∙ and_then-append (request_resolution is_null enabled c.remote.address) _ (some x)
      ∙ ap (and_then _) (request_resolution-receive x c.remote.address)
      ∙ request_all-receive x cs

  insertion-receive :
      (n : ℕ) (cs : List Connection)
      → receive_all (insertion is_null enabled n cs) (n, idle) ≡ some (n + length cs, idle)
  unfolding insertion
  insertion-receive n [] = let e : n + 0 ≡ n = omega arith in rw e refl
  insertion-receive n (c ∷ cs) =
      let requests = request_all is_null enabled (c ∷ cs) in
      ap (and_then (requests ++ rows_inserted ∷ []))
        (receive-rows_about_to_be_inserted n (length cs))
      ∙ and_then-append requests (rows_inserted ∷ []) _
      ∙ ap (and_then (rows_inserted ∷ [])) (request_all-receive _ (c ∷ cs))
      ∙ receive-rows_inserted n (length cs)

module _ {Num : Type 0} (d : Real Num) (q : KeyText) (is_null : Address → Bool) where
  -- An adapter that counts the rows follows every snapshot: each range that is announced or
  -- reported is one of rows that are there, each announcement is followed by its change, and in
  -- the end the adapter counts the rows.
  pub update_connections-receive :
      (now : ℕ) (connections : List Connection) (a : Aggregator Num)
      → let (a', signals) = update_connections d q is_null now connections a in
        receive_all signals (length a.rows, idle) ≡ some (length a'.rows, idle)
  unfolding update_connections
  update_connections-receive now connections a =
      let delta_ms = now - a.last_elapsed_ms in
      let incoming = (snapshot q a now connections).1 in
      let refreshed = update_rows d q a.settings now delta_ms a.prev incoming 0 a.rows in
      let kept = prune_rows a.settings now 0 refreshed.0 in
      let idx = index_rows q 0 kept.0 [] in
      let added = additions idx incoming in
      let same = length-update_rows d q a.settings now delta_ms a.prev incoming 0 a.rows in
      let covered = runs_of-rows refreshed.1 in
      let reported =
        update_rows-All d q a.settings now delta_ms a.prev incoming 0 (length a.rows) a.rows
          (omega arith) in
      let zero_on : (n : ℕ) → 0 + n ≡ n = λ n. omega arith in
      let pruned = prune_rows-receive a.settings now 0 refreshed.0 in
      and_then-append (updates refreshed.1) _ (some (length a.rows, idle))
      ∙ ap (and_then _) (
          runs-receive (length a.rows) (runs_of refreshed.1) covered.1
            (subst (All (λ j. j < length a.rows)) (sym covered.0) reported))
      ∙ and_then-append kept.1 _ _
      ∙ ap (and_then _) (rw (zero_on (length refreshed.0), zero_on (length kept.0), same) at pruned)
      ∙ insertion-receive is_null a.resolve_enabled (length kept.0) added
      ∙ ap (λ n. some (n, idle)) (sym (length-append_rows d q now kept.0 idx added))
