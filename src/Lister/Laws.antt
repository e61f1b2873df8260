-- ===== src/Lister/Laws.antt =====
-- What a lister returns of its indexer.
use mathlib.Core.List.{append-nil, append_assoc}
use cel_admission_webhook.Common.{String, ◌≡◌, ◌∙◌, sym, List, [], ◌∷◌, ◌++◌}
use cel_admission_webhook.Common.Errors.{Error}
use cel_admission_webhook.Kinds.{GroupResource}
use cel_admission_webhook.Lister.{Indexer, collect, namespaced, cluster_wide}

collect-append :
    {Object : Type 0} (ret objects : List Object) → collect ret objects ≡ ret ++ objects
unfolding collect
collect-append ret [] = sym (append-nil ret)
collect-append ret (m ∷ objects) =
    collect-append (ret ++ m ∷ []) objects ∙ append_assoc ret (m ∷ []) objects

-- A listing is what the indexer hands out, all of it and in its order, with the indexer's error.
pub list_lem :
    {Object Selector : Type 0} (nf : GroupResource → String → Error)
    (indexer : Indexer Object Selector) (namespace : String) (selector : Selector)
    → ((cluster_wide nf indexer).list selector ≡ indexer.list_all selector)
      × ((namespaced nf indexer namespace).list selector
          ≡ indexer.list_namespace namespace selector)
unfolding namespaced cluster_wide
list_lem nf indexer namespace selector = (
  λ i. (collect-append [] (indexer.list_all selector).0 i, (indexer.list_all selector).1),
  λ i. (
    collect-append [] (indexer.list_namespace namespace selector).0 i,
    (indexer.list_namespace namespace selector).1,
  ),
)
