-- ===== src/Resolver/Laws.antt =====
-- The cache of the schema resolver, call by call.
use cel_admission_webhook.Common.{
  ◌≡◌, refl, ◌∙◌, ◌≢◌, Bool, true, ◌&&◌, none, some, [], ◌∷◌, arith, ◌==◌, eq_iff, if◌then◌else◌,
  Option-cases, ◌↔◌, inl, inr,
}
use cel_admission_webhook.Kinds.{GroupVersionKind, GroupKind, group_kind, gvk_eq, gvk_eq_iff}
use cel_admission_webhook.Resolver.{
  CrdEvent, added, updated, deleted, CacheEntry, SchemaCache, lookup, store, purge,
  resolve_from_cache, fill, resolve_schema, handle_crd,
}

-- A key is purged with a group kind, at every version.
abbrev pub in_group_kind : GroupKind → GroupVersionKind → Bool
in_group_kind gk k = k.group == gk.group && k.kind == gk.kind

-- No object of the event has itself the group and kind of the key.
abbrev pub Elsewhere : CrdEvent → GroupVersionKind → Type 0
Elsewhere (added crd) k = group_kind k ≢ group_kind crd.object_kind
Elsewhere (updated old new) k =
    (group_kind k ≢ group_kind old.object_kind) × (group_kind k ≢ group_kind new.object_kind)
Elsewhere (deleted crd) k = group_kind k ≢ group_kind crd.object_kind

in_group_kind_iff :
    (gk : GroupKind) (k : GroupVersionKind) → (in_group_kind gk k ≡ true) ↔ (group_kind k ≡ gk)
in_group_kind_iff gk k = ground (arith, eq_iff k.group gk.group, eq_iff k.kind gk.kind)

module _ {Schema : Type 0} where
  pub lookup-purge :
      (gk : GroupKind) (k : GroupVersionKind) (cache : SchemaCache Schema)
      → lookup k (purge gk cache) ≡ (if in_group_kind gk k then none else lookup k cache)
  unfolding lookup purge
  lookup-purge gk k [] = ground arith
  lookup-purge gk k ((j, e) ∷ cache) = ground (arith, lookup-purge gk k cache, gvk_eq_iff j k)

  pub lookup-store :
      (j k : GroupVersionKind) (e : CacheEntry Schema) (cache : SchemaCache Schema)
      → lookup k (store j e cache) ≡ (if gvk_eq j k then some e else lookup k cache)
  unfolding lookup store
  lookup-store j k e [] = refl
  lookup-store j k e ((i, f) ∷ cache) =
      ground (arith, lookup-store j k e cache, gvk_eq_iff j k, gvk_eq_iff i j, gvk_eq_iff i k)

  resolve_schema-hit :
      (k : GroupVersionKind) (d : GroupVersionKind → CacheEntry Schema) (e : CacheEntry Schema)
      (cache : SchemaCache Schema)
      → lookup k cache ≡ some e
      → resolve_schema k d cache ≡ (e, cache)
  unfolding resolve_schema resolve_from_cache
  resolve_schema-hit k d e cache h = rw (h, resolve_schema)

  resolve_schema-miss :
      (k : GroupVersionKind) (d : GroupVersionKind → CacheEntry Schema) (cache : SchemaCache Schema)
      → lookup k cache ≡ none
      → resolve_schema k d cache ≡ (d k, store k (d k) cache)
  unfolding resolve_schema resolve_from_cache fill
  resolve_schema-miss k d cache h = rw (h, resolve_schema)

  -- A call that is answered keeps answering the same, schema or error, whatever discovery says
  -- later: the second call returns the first one's answer and leaves the cache as it is.
  pub resolve_schema-again :
      (k : GroupVersionKind) (d d' : GroupVersionKind → CacheEntry Schema)
      (cache : SchemaCache Schema)
      → resolve_schema k d' (resolve_schema k d cache).1 ≡ resolve_schema k d cache
  resolve_schema-again k d d' cache = elim (Option-cases (lookup k cache)) [
    | inl missing ↦ rw (resolve_schema-miss k d cache missing) (
        resolve_schema-hit k d' (d k) (store k (d k) cache)
          (ground (arith, lookup-store k k (d k) cache, gvk_eq_iff k k)))
    | inr (e, found) ↦
        rw (resolve_schema-hit k d e cache found) (resolve_schema-hit k d' e cache found)
  ]

  purge-keeps :
      (gk : GroupKind) (k : GroupVersionKind) (cache : SchemaCache Schema)
      → group_kind k ≢ gk
      → lookup k (purge gk cache) ≡ lookup k cache
  purge-keeps gk k cache h = ground (arith, lookup-purge gk k cache, in_group_kind_iff gk k)

  -- The bug: the handlers purge the group and kind of the CRD object itself, so no event about a CRD
  -- touches an entry of another group or kind, those of the kind that the CRD defines included.
  pub handle_crd-keeps :
      (event : CrdEvent) (k : GroupVersionKind) (cache : SchemaCache Schema)
      → Elsewhere event k
      → lookup k (handle_crd event cache) ≡ lookup k cache
  unfolding handle_crd
  handle_crd-keeps (added crd) k cache h = purge-keeps (group_kind crd.object_kind) k cache h
  handle_crd-keeps (updated old new) k cache h =
      purge-keeps (group_kind new.object_kind) k (purge (group_kind old.object_kind) cache) h.1
      ∙ purge-keeps (group_kind old.object_kind) k cache h.0
  handle_crd-keeps (deleted crd) k cache h = purge-keeps (group_kind crd.object_kind) k cache h
