-- ===== src/Resolver/History.antt =====
-- The cache of the schema resolver after any interleaving of calls and events.
use cel_admission_webhook.Common.{
  ◌≡◌, refl, ◌∙◌, Bool, true, Option, none, some, List, [], ◌∷◌, arith, if◌then◌else◌, inl, inr,
  Bool-cases,
}
use cel_admission_webhook.Kinds.{GroupVersionKind, group_kind, gvk_eq, gvk_eq_iff}
use cel_admission_webhook.Resolver.{
  CrdEvent, added, updated, deleted, CacheEntry, SchemaCache, lookup, purge, fill, handle_crd,
}
use cel_admission_webhook.Resolver.Laws.{in_group_kind, lookup-purge, lookup-store}

-- The critical sections that write: the second half of a call of `ResolveSchema`, with what
-- discovery answers then, and the handler of an event. Several calls may have missed the cache
-- before one of them fills it, so fills come in any number and order.
pub data Section (Schema : Type 0) : Type 0 where
  fills : GroupVersionKind → (GroupVersionKind → CacheEntry Schema) → Section Schema
  handles : CrdEvent → Section Schema

-- Whether an event purges a key.
abbrev pub purges : CrdEvent → GroupVersionKind → Bool
purges (added crd) k = in_group_kind (group_kind crd.object_kind) k
purges (updated old new) k =
    if in_group_kind (group_kind new.object_kind) k
    then true
    else in_group_kind (group_kind old.object_kind) k
purges (deleted crd) k = in_group_kind (group_kind crd.object_kind) k

module _ {Schema : Type 0} where
  unfoldable pub run : SchemaCache Schema → List (Section Schema) → SchemaCache Schema
  run cache [] = cache
  run cache (fills k d ∷ sections) = run (fill k d cache).1 sections
  run cache (handles event ∷ sections) = run (handle_crd event cache) sections

  -- What a reader of the history would expect at one key: the answer of discovery at the key's last
  -- fill, unless a later event purged the key.
  abbrev pub expected :
      GroupVersionKind
      → Option (CacheEntry Schema)
      → List (Section Schema)
      → Option (CacheEntry Schema)
  expected k held [] = held
  expected k held (fills j d ∷ sections) =
      expected k (if gvk_eq j k then some (d k) else held) sections
  expected k held (handles event ∷ sections) =
      expected k (if purges event k then none else held) sections

  lookup-handle_crd :
      (event : CrdEvent) (k : GroupVersionKind) (cache : SchemaCache Schema)
      → lookup k (handle_crd event cache) ≡ (if purges event k then none else lookup k cache)
  unfolding handle_crd
  lookup-handle_crd (added crd) k cache = lookup-purge (group_kind crd.object_kind) k cache
  lookup-handle_crd (updated old new) k cache = ground (
    arith,
    lookup-purge (group_kind new.object_kind) k (purge (group_kind old.object_kind) cache),
    lookup-purge (group_kind old.object_kind) k cache,
  )
  lookup-handle_crd (deleted crd) k cache = lookup-purge (group_kind crd.object_kind) k cache

  -- The key of a fill is the key that discovery is asked.
  lookup-fill :
      (j k : GroupVersionKind) (d : GroupVersionKind → CacheEntry Schema)
      (cache : SchemaCache Schema)
      → lookup k (fill j d cache).1 ≡ (if gvk_eq j k then some (d k) else lookup k cache)
  unfolding fill
  lookup-fill j k d cache = elim (Bool-cases (gvk_eq j k)) [
    | inl same ↦ lookup-store j k (d j) cache ∙ rw (same, (gvk_eq_iff j k).0 same)
    | inr other ↦ lookup-store j k (d j) cache ∙ rw other
  ]

  -- After any sequence of critical sections the cache holds at each key what the history says: the
  -- last discovery answer for that key, or nothing if an event about an object of the key's own group
  -- and kind came after it. In particular no answer that is older than such an event survives it.
  pub lookup-run :
      (k : GroupVersionKind) (sections : List (Section Schema)) (cache : SchemaCache Schema)
      → lookup k (run cache sections) ≡ expected k (lookup k cache) sections
  unfolding run
  lookup-run k [] cache = refl
  lookup-run k (fills j d ∷ sections) cache =
      rw (← lookup-fill j k d cache) (lookup-run k sections (fill j d cache).1)
  lookup-run k (handles event ∷ sections) cache =
      rw (← lookup-handle_crd event k cache) (lookup-run k sections (handle_crd event cache))
