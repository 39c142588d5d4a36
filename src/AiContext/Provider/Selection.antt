-- ===== src/AiContext/Provider/Selection.antt =====
-- Sequences of calls of a provider, the selection that they keep, and what the listeners know of it.
use khulnasoft_lsp.Base.{
  false, List, [], ◌∷◌, ◌++◌, Option, none, some, String, is_some, find, contains, remove,
  contains-append, text_key, ◌===◌, ===_iff, All, if_both, ◌≡◌, refl, ap, arith,
}
use khulnasoft_lsp.AiContext.Items.{ProviderType, ContextItem, type_key, ids_of}
use khulnasoft_lsp.AiContext.Provider.{
  Notice, item_added, item_to_be_removed, all_items_to_be_removed, Provider, with_id, Policy,
  add_selected_context_item, remove_selected_context_item, clear_selected_context_items,
  replace_selected_context_item,
}

pub data Operation : Type 0 where
  add_item : ContextItem → Operation
  remove_item : String → Operation
  clear_all : Operation
  replace_item : ContextItem → ContextItem → Operation

-- A call that rejects changes nothing.
abbrev pub or_same : Provider → Option Provider → Provider
or_same provider none = provider
or_same provider (some next) = next

unfoldable pub step : Policy → Operation → Provider → Provider
step policy (add_item item) provider =
    or_same provider (add_selected_context_item policy item provider)
step policy (remove_item id) provider = or_same provider (remove_selected_context_item id provider)
step policy clear_all provider = clear_selected_context_items provider
step policy (replace_item old item) provider =
    or_same provider (replace_selected_context_item old item provider)

unfoldable pub run : Policy → List Operation → Provider → Provider
unfolding step
run policy [] provider = provider
run policy (o ∷ os) provider = run policy os (step policy o provider)

-- An item is replaced by one with its id, and with the type of the provider.
abbrev pub Keeps : ProviderType → Operation → Type 0
Keeps type (replace_item old item) = (item.id ≡ old.id) × (item.metadata.sub_type ≡ type)
Keeps type _ = Unit

abbrev pub AreDistinct : List String → Type 0
AreDistinct [] = Unit
AreDistinct (id ∷ rest) = (contains rest id ≡ false) × AreDistinct rest

abbrev pub HasType : ProviderType → ContextItem → Type 0
HasType type item = item.metadata.sub_type ≡ type

-- A listener that keeps the ids it is told of.
abbrev pub hear : List String → Notice → List String
hear known (item_added item) = known ++ item.id ∷ []
hear known (item_to_be_removed item) = remove known item.id
hear known all_items_to_be_removed = []

unfoldable pub hear_all : List String → List Notice → List String
hear_all known [] = known
hear_all known (notice ∷ notices) = hear_all (hear known notice) notices

-- The items selected have distinct ids and the type of the provider, and the listeners know of just these items, in
-- their order.
pub record IsSelection (type : ProviderType) (items : List ContextItem) (notices : List Notice)
    : Type 0 where
  pub distinct : AreDistinct (ids_of items)
  pub typed : All (HasType type) items
  pub heard : hear_all [] notices ≡ ids_of items

abbrev pub HasSelection : Provider → Type 0
HasSelection p = IsSelection p.type p.selected_context_items p.notices

pub hear_all-append :
    (known : List String) (notices : List Notice) (notice : Notice)
    → hear_all known (notices ++ notice ∷ []) ≡ hear (hear_all known notices) notice
unfolding hear_all
hear_all-append known [] notice = refl
hear_all-append known (n ∷ ns) notice = hear_all-append (hear known n) ns notice

pub is_some-find :
    (id : String) (items : List ContextItem)
    → is_some (find (with_id id) items) ≡ contains (ids_of items) id
unfolding find contains
is_some-find id [] = refl
is_some-find id (item ∷ items) = ground (arith, is_some-find id items)

pub ids_of-append :
    (items : List ContextItem) (item : ContextItem)
    → ids_of (items ++ item ∷ []) ≡ ids_of items ++ item.id ∷ []
ids_of-append [] item = refl
ids_of-append (i ∷ items) item = ap (◌∷◌ i.id) (ids_of-append items item)

pub AreDistinct-append :
    (xs : List String) (a : String)
    → AreDistinct xs
    → contains xs a ≡ false
    → AreDistinct (xs ++ a ∷ [])
unfolding contains
AreDistinct-append [] a d n = (refl, tt)
AreDistinct-append (x ∷ xs) a (d, ds) n = (
  rw (contains-append xs (a ∷ []) x) (ground (arith, ===_iff a x, ===_iff x a)),
  AreDistinct-append xs a ds (ground arith),
)

pub All-HasType :
    (type : ProviderType) (items : List ContextItem) (item : ContextItem)
    → All (HasType type) items
    → HasType type item
    → All (HasType type) (items ++ item ∷ [])
All-HasType type [] item h t = (t, tt)
All-HasType type (i ∷ items) item (h, hs) t = (h, All-HasType type items item hs t)

pub remove_absent : (xs : List String) (a : String) → contains xs a ≡ false → remove xs a ≡ xs
unfolding contains remove
remove_absent [] a h = refl
remove_absent (x ∷ xs) a h = ground (arith, remove_absent xs a)

remove_keeps_absent :
    (xs : List String) (a b : String) → contains xs b ≡ false → contains (remove xs a) b ≡ false
unfolding contains remove
remove_keeps_absent [] a b h = refl
remove_keeps_absent (x ∷ xs) a b h = ground (arith, remove_keeps_absent xs a b)

pub remove-AreDistinct :
    (xs : List String) (a : String) → AreDistinct xs → AreDistinct (remove xs a)
unfolding remove
remove-AreDistinct [] a d = tt
remove-AreDistinct (x ∷ xs) a (d, ds) =
    if_both AreDistinct (x === a) _ _ (remove-AreDistinct xs a ds)
      (remove_keeps_absent xs a x d, remove-AreDistinct xs a ds)
