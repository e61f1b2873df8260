-- ===== src/Lister.antt =====
-- pkg/controller/lister.go: reads from an informer's cache, in one namespace or in all. The indexer
-- and the constructor of not-found errors stand outside the repository.
pub mod Laws
pub mod Generated
use cel_admission_webhook.Common.{String, Option, none, some, List, [], ◌∷◌, ◌++◌}
use cel_admission_webhook.Common.Errors.{Error, Result, ok, err}
use cel_admission_webhook.Kinds.{GroupResource}
use Prim.Native.String.{◌++◌ as str_append}

-- `cache.Indexer`: `GetByKey`, and the objects that `ListAll` and `ListAllByNamespace` hand to
-- their callback before they return.
pub record Indexer (Object Selector : Type 0) : Type 0 where
  pub get_by_key : String → Result (Option Object)
  pub list_all : Selector → List Object × Option Error
  pub list_namespace : String → Selector → List Object × Option Error

-- `NamespacedLister[T]`; the object that comes with an error is the zero value.
pub record NamespacedLister (Object Selector : Type 0) : Type 0 where
  pub list : Selector → List Object × Option Error
  pub get : String → Result Object

-- The callback appends each object to `ret`.
collect : {Object : Type 0} → List Object → List Object → List Object
collect ret [] = ret
collect ret (m ∷ objects) = collect (ret ++ m ∷ []) objects

-- The three ways of `Get` behind `GetByKey`.
abbrev pub found_or : {Object : Type 0} → Error → Result (Option Object) → Result Object
found_or missing (err e) = err e
found_or missing (ok none) = err missing
found_or missing (ok (some obj)) = ok obj

-- `schema.GroupResource{}`
abbrev pub no_resource : GroupResource
no_resource = record { group = ""; resource = "" }

-- `v1alpha1.Resource("validationruleset")`: the v1alpha1 of this file is k8s.io/api/node/v1alpha1.
abbrev pub validation_rule_set : GroupResource
validation_rule_set = record { group = "node.k8s.io"; resource = "validationruleset" }

module _ {Object Selector : Type 0} (new_not_found : GroupResource → String → Error) where
  -- `namespacedLister`
  unfoldable pub namespaced : Indexer Object Selector → String → NamespacedLister Object Selector
  unfolding collect
  namespaced indexer namespace = record {
    list = λ selector.
        let (objects, e) = indexer.list_namespace namespace selector in (collect [] objects, e);
    get = λ name.
        found_or (new_not_found no_resource name)
          (indexer.get_by_key (str_append namespace (str_append "/" name)));
  }

  -- `lister`
  unfoldable pub cluster_wide : Indexer Object Selector → NamespacedLister Object Selector
  unfolding collect
  cluster_wide indexer = record {
    list = λ selector. let (objects, e) = indexer.list_all selector in (collect [] objects, e);
    get = λ name. found_or (new_not_found validation_rule_set name) (indexer.get_by_key name);
  }
