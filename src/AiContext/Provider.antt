-- ===== src/AiContext/Provider.antt =====
-- `ai_context_provider.ts`: the items selected with one provider. What a subclass adds, and the listeners of it, are
-- parameters; a call that rejects gives `none`, and changes nothing.
pub mod Selection
pub mod Selecting
use khulnasoft_lsp.Base.{
  ℕ, zero, suc, Bool, true, false, not, List, [], ◌∷◌, ◌++◌, Option, none, some, String,
  if◌then◌else◌, is_some, find, text_key, ◌===◌,
}
use khulnasoft_lsp.AiContext.Items.{ProviderType, ContextItem, PolicyResponse, type_key}

-- What the callbacks of the subclass are told.
pub data Notice : Type 0 where
  item_added : ContextItem → Notice
  item_to_be_removed : ContextItem → Notice
  all_items_to_be_removed : Notice

pub record Provider : Type 0 where
  pub type : ProviderType
  pub selected_context_items : List ContextItem
  pub notices : List Notice

unfoldable pub new : ProviderType → Provider
new type = record { type = type; selected_context_items = []; notices = [] }

abbrev pub with_id : String → ContextItem → Bool
with_id id item = item.id === id

unfoldable pub find_item_with_id : String → Provider → Option ContextItem
unfolding find
find_item_with_id id provider = find (with_id id) provider.selected_context_items

-- `findIndex`, with the item at the index; `#findItemIndex` throws if there is none.
unfoldable pub find_item_index : String → List ContextItem → Option (ℕ × ContextItem)
find_item_index id [] = none
find_item_index id (item ∷ items) =
    let rest = find_item_index id items in
    if with_id id item
    then some (0, item)
    else elim rest [ none ↦ none | some (n, found) ↦ some (suc n, found) ]

-- `items.splice(index, 1)`
unfoldable pub splice : ℕ → List ContextItem → List ContextItem
splice n [] = []
splice zero (item ∷ items) = items
splice (suc n) (item ∷ items) = item ∷ splice n items

-- `items[index] = item`
unfoldable pub put : ℕ → ContextItem → List ContextItem → List ContextItem
put n item [] = []
put zero item (old ∷ items) = item ∷ items
put (suc n) item (old ∷ items) = old ∷ put n item items

abbrev pub notify : Notice → Provider → Provider
notify notice provider = record provider { notices = provider.notices ++ notice ∷ [] }

-- An object is truthy, whatever its fields.
abbrev pub is_truthy : PolicyResponse → Bool
is_truthy response = true

-- The optional `canItemBeAdded` of a subclass, which may reject.
abbrev pub Policy : Type 0
Policy = Option (ContextItem → Option PolicyResponse)

unfoldable pub item_allowed_by_policies : Policy → ContextItem → Option PolicyResponse
item_allowed_by_policies none item = some (record { enabled = true; disabled_reasons = [] })
item_allowed_by_policies (some can_item_be_added) item = can_item_be_added item

abbrev pub push : ContextItem → Provider → Provider
push item provider =
    notify (item_added item)
      (record provider { selected_context_items = provider.selected_context_items ++ item ∷ [] })

unfoldable pub add_unless_there : ContextItem → Provider → Provider
unfolding find_item_with_id
add_unless_there item provider =
    if not (item.metadata.sub_type === provider.type)
    then provider
    else if is_some (find_item_with_id item.id provider)
    then provider
    else push item provider

unfoldable pub add_selected_context_item : Policy → ContextItem → Provider → Option Provider
unfolding item_allowed_by_policies add_unless_there
add_selected_context_item policy item provider = elim (item_allowed_by_policies policy item) [
  | none ↦ none
  | some can_be_added ↦
      some (if not (is_truthy can_be_added) then provider else add_unless_there item provider)
]

unfoldable pub remove_selected_context_item : String → Provider → Option Provider
unfolding find_item_index splice
remove_selected_context_item id provider =
    elim (find_item_index id provider.selected_context_items) [
      | none ↦ none
      | some (index, item) ↦ some (record (notify (item_to_be_removed item) provider) {
        selected_context_items = splice index provider.selected_context_items;
      })
    ]

abbrev clear_items : List ContextItem → Provider → Provider
clear_items [] provider = provider
clear_items (item ∷ items) provider = record (notify all_items_to_be_removed provider) {
  selected_context_items = [];
}

unfoldable pub clear_selected_context_items : Provider → Provider
clear_selected_context_items provider = clear_items provider.selected_context_items provider

unfoldable pub replace_selected_context_item :
    ContextItem → ContextItem → Provider → Option Provider
unfolding find_item_index put
replace_selected_context_item old new provider =
    elim (find_item_index old.id provider.selected_context_items) [
      | none ↦ none
      | some (index, item) ↦ some (record provider {
        selected_context_items = put index new provider.selected_context_items;
      })
    ]

-- `isAvailable`, with the answer of the feature access if a feature is required.
unfoldable pub is_available : Option (Option PolicyResponse) → Option PolicyResponse
is_available none = some (record { enabled = true; disabled_reasons = [] })
is_available (some response) = response
