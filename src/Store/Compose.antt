-- ===== src/Store/Compose.antt =====
-- The composition that `undo_database::merge` computes: two consecutive sessions become one.
use karma_core.Base.{ℕ, ◌*◌, ◌^◌, ◌≤◌, ◌≡◌, true, none, arith, Option-cases, inl, inr}
use karma_core.Base.Dict.{lookup, contains, Distinct}
use karma_core.Store.Types.{space_type, Store, UndoState}
use karma_core.Store.Undo.{merge_old_values, merge_new_ids, merge_next_ids, merge_states}
use karma_core.Store.Objects.{AreIndexIds, next_overlay}
use karma_core.Store.Records.{Records, Explained, IsFresh}
use karma_core.Store.Merge.{
  lookup-merge_old_values, merge_old_values_rest, contains-merge_new_ids, merge_new_ids_rest,
  lookup-merge_next_ids, merge_next_ids_rest, merge_removed-Removes, merge_removed_rest,
}

module _ {V : Type 0} (s t : UndoState V) (b m a : Store V) (fresh : IsFresh b) (r : Records s b m)
    (q : Records t m a) where
  abbrev s1 : UndoState V
  s1 = merge_old_values t.old_values s

  abbrev s2 : UndoState V
  s2 = merge_new_ids t.new_ids s1

  abbrev s3 : UndoState V
  s3 = merge_next_ids t.old_index_next_ids s2

  -- What the later session made was not there before the earlier one.
  later-absent : (k : ℕ) → contains k t.new_ids ≡ true → b.objects k ≡ none
  later-absent k h = elim (Option-cases (b.objects k)) [
    | inl e ↦ e
    | inr (v, e) ↦ absurd (ground (arith, fresh k, q.new_above k h, r.next_mono (space_type k)))
  ]

  merged-Explained :
      (k : ℕ)
      → let c = merge_states s t in
        Explained
          (contains k c.new_ids)
          (lookup k c.old_values)
          (lookup k c.removed)
          (b.objects k)
          (a.objects k)
  unfolding merge_states
  merged-Explained k =
      let d = merge_removed-Removes t.removed s3 q.distinct_removed in
      ground (
        arith,
        later-absent k,
        r.explained k,
        q.explained k,
        lookup-merge_old_values t.old_values s k,
        merge_old_values_rest t.old_values s,
        contains-merge_new_ids t.new_ids s1 k,
        merge_new_ids_rest t.new_ids s1,
        merge_next_ids_rest t.old_index_next_ids s2 q.index_keys,
        d.new_ids k,
        d.old_values k,
        d.removed k,
      )

  merged-next_back :
      (i : ℕ) → next_overlay (merge_states s t).old_index_next_ids a.next_ids i ≡ b.next_ids i
  unfolding merge_states
  merged-next_back i = ground (
    arith,
    r.next_back i,
    q.next_back i,
    merge_old_values_rest t.old_values s,
    merge_new_ids_rest t.new_ids s1,
    lookup-merge_next_ids t.old_index_next_ids s2 (i * 2 ^ 48),
    merge_removed_rest t.removed s3,
  )

  merged-new_above :
      (k : ℕ) → contains k (merge_states s t).new_ids ≡ true → b.next_ids (space_type k) ≤ k
  unfolding merge_states
  merged-new_above k h =
      let d = merge_removed-Removes t.removed s3 q.distinct_removed in
      ground (
        arith,
        r.new_above k,
        q.new_above k,
        r.next_mono (space_type k),
        merge_old_values_rest t.old_values s,
        contains-merge_new_ids t.new_ids s1 k,
        merge_next_ids_rest t.old_index_next_ids s2 q.index_keys,
        d.new_ids k,
      )

  merged-Distinct :
      let c = merge_states s t in
      Distinct c.old_values
      × Distinct c.new_ids
      × Distinct c.removed
      × Distinct c.old_index_next_ids
      × AreIndexIds c.old_index_next_ids
  unfolding merge_states
  merged-Distinct = ground (
    arith,
    r.distinct_old,
    r.distinct_new,
    r.distinct_removed,
    r.distinct_next,
    r.index_keys,
    merge_old_values_rest t.old_values s,
    merge_new_ids_rest t.new_ids s1,
    merge_next_ids_rest t.old_index_next_ids s2 q.index_keys,
    merge_removed_rest t.removed s3,
  )

  -- The merged state records everything from before the earlier session to after the later one.
  pub merge_states-Records : Records (merge_states s t) b a
  merge_states-Records = record {
    explained = merged-Explained;
    next_back = merged-next_back;
    next_mono = λ i. ground (arith, r.next_mono i, q.next_mono i);
    new_above = merged-new_above;
    distinct_old = merged-Distinct.0;
    distinct_new = merged-Distinct.1;
    distinct_removed = merged-Distinct.2;
    distinct_next = merged-Distinct.3;
    index_keys = merged-Distinct.4;
  }
