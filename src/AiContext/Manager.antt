-- ===== src/AiContext/Manager.antt =====
-- `ai_context_manager.ts`. `#availableProviders` is a mark on each provider, since it is filled with providers of
-- `#providers` in their order. What the classes of the providers implement is a parameter, by their type.
pub mod Searching
pub mod Retrieving
use khulnasoft_lsp.Base.{
  ℕ, Bool, true, false, not, List, [], ◌∷◌, ◌++◌, map, Option, none, some, ◌&&◌, if◌then◌else◌,
  find, filter, contains, is_some, String, JsText, text_key, ◌===◌,
}
use khulnasoft_lsp.AiContext.Items.{
  ProviderType, type_key, Category, ContextItem, PolicyResponse, context_mapping, categories,
  ids_of,
}
use khulnasoft_lsp.AiContext.Provider.{
  Provider, Policy, add_selected_context_item, remove_selected_context_item,
  clear_selected_context_items,
}
use khulnasoft_lsp.AiContext.Transformers.{Transformer}

pub record SearchQuery : Type 0 where
  pub category : Category
  pub query : String
  pub workspace_folders : Option (List String)

-- The methods of a class of providers; `none` means that a call rejects.
pub record ProviderClass : Type 0 where
  pub can_item_be_added : Policy
  pub search_context_items : SearchQuery → Option (List ContextItem)
  pub retrieve_with_content : List ContextItem → Option (List ContextItem)
  pub get_item_with_content : ContextItem → Option ContextItem
  pub is_available : Option PolicyResponse

pub record Entry : Type 0 where
  pub provider : Provider
  pub available : Bool

pub record Manager : Type 0 where
  pub providers : List Entry
  pub workspace_folders : List String

-- An available provider of the type
abbrev pub serves : ProviderType → Entry → Bool
serves type entry = entry.available && entry.provider.type === type

-- A call of the first provider that serves the type; `none` if there is none, or if the call rejects.
unfoldable pub perform :
    ProviderType → (Provider → Option Provider) → List Entry → Option (List Entry)
perform type callback [] = none
perform type callback (entry ∷ entries) =
    let rest = perform type callback entries in
    if serves type entry
    then elim (callback entry.provider) [
      | none ↦ none
      | some next ↦ some (record entry { provider = next } ∷ entries)
    ]
    else elim rest [ none ↦ none | some next ↦ some (entry ∷ next) ]

-- The result of a call that catches.
abbrev pub caught : Manager → Option (List Entry) → Manager × Bool
caught manager none = (manager, false)
caught manager (some entries) = (record manager { providers = entries }, true)

unfoldable pub collect_selected : List Entry → List ContextItem
collect_selected [] = []
collect_selected (entry ∷ entries) =
    if entry.available
    then entry.provider.selected_context_items ++ collect_selected entries
    else collect_selected entries

unfoldable pub get_selected_context_items : Manager → List ContextItem
unfolding collect_selected
get_selected_context_items manager = collect_selected manager.providers

-- `flat` of the answers; `Promise.all` rejects if one rejects.
unfoldable pub gather : List (Option (List ContextItem)) → Option (List ContextItem)
gather [] = some []
gather (none ∷ answers) = none
gather (some items ∷ answers) = elim (gather answers) [
  | none ↦ none
  | some rest ↦ some (items ++ rest)
]

-- The comparison of `#disabledContextItemsToTheBack`: whether the first may stay before the second.
abbrev pub in_order : ContextItem → ContextItem → Bool
in_order a b = if b.metadata.enabled then a.metadata.enabled else true

-- A stable sort, as `sort` of arrays is.
unfoldable pub insert : ContextItem → List ContextItem → List ContextItem
insert item [] = item ∷ []
insert item (other ∷ items) =
    if in_order item other then item ∷ other ∷ items else other ∷ insert item items

unfoldable pub disabled_context_items_to_the_back : List ContextItem → List ContextItem
unfolding insert
disabled_context_items_to_the_back [] = []
disabled_context_items_to_the_back (item ∷ items) =
    insert item (disabled_context_items_to_the_back items)

abbrev pub or_folders : Option (List String) → List String → List String
or_folders none folders = folders
or_folders (some own) folders = own

abbrev pub is_unselected : List String → ContextItem → Bool
is_unselected selected item = not (contains selected item.id)

abbrev pub results_of : List ContextItem → Option (List ContextItem) → List ContextItem
results_of selected none = []
results_of selected (some items) =
    disabled_context_items_to_the_back (filter (is_unselected (ids_of selected)) items)

abbrev pub category_of : ProviderType → Option Category
category_of type =
    find (λ (category : Category). contains (context_mapping category) type) categories

unfoldable pub available_types : List Entry → List ProviderType
available_types [] = []
available_types (entry ∷ entries) =
    if entry.available
    then entry.provider.type ∷ available_types entries
    else available_types entries

-- `map`, and the `filter` of what is not undefined
unfoldable pub categories_of : List ProviderType → List Category
unfolding find contains
categories_of [] = []
categories_of (type ∷ types) = elim (category_of type) [
  | none ↦ categories_of types
  | some category ↦ category ∷ categories_of types
]

unfoldable pub clear_context_items : Manager → Manager × Bool
unfolding clear_selected_context_items
clear_context_items manager = (
  record manager {
    providers =
        map
          (λ (entry : Entry).
            if entry.available
            then record entry { provider = clear_selected_context_items entry.provider }
            else entry)
          manager.providers;
  },
  true,
)

-- `#transformItemContent`, with the transformers
unfoldable pub transform_item_content : Transformer → ContextItem → ContextItem
transform_item_content transform item = elim (transform item) [
  | none ↦ record item { content = none }
  | some next ↦ next
]

module _ (class_of : ProviderType → ProviderClass) where
  unfoldable pub add_context_item : ContextItem → Manager → Manager × Bool
  unfolding perform
  add_context_item item manager = caught manager (
      perform item.metadata.sub_type
        (λ provider.
          add_selected_context_item (class_of provider.type).can_item_be_added item provider)
        manager.providers)

  unfoldable pub remove_context_item : ContextItem → Manager → Manager × Bool
  unfolding perform
  remove_context_item item manager =
      caught manager
        (perform item.metadata.sub_type (remove_selected_context_item item.id) manager.providers)

  -- The answers of the available providers for the category.
  unfoldable pub search_all : SearchQuery → List Entry → List (Option (List ContextItem))
  search_all query [] = []
  search_all query (entry ∷ entries) =
      if entry.available && contains (context_mapping query.category) entry.provider.type
      then (class_of entry.provider.type).search_context_items query ∷ search_all query entries
      else search_all query entries

  unfoldable pub search_context_items_for_category : SearchQuery → Manager → List ContextItem
  unfolding search_all gather get_selected_context_items
  search_context_items_for_category query manager =
      let provider_query = record query {
        workspace_folders = some (or_folders query.workspace_folders manager.workspace_folders);
      } in
      results_of (get_selected_context_items manager)
        (gather (search_all provider_query manager.providers))

  -- `#availableProviders` anew; `none` if `isAvailable` of a provider rejects.
  unfoldable pub mark_available : List Entry → Option (List Entry)
  mark_available [] = some []
  mark_available (entry ∷ entries) =
      let rest = mark_available entries in
      elim (class_of entry.provider.type).is_available [
        | none ↦ none
        | some response ↦ elim rest [
          | none ↦ none
          | some marked ↦ some (record entry { available = response.enabled } ∷ marked)
        ]
      ]

  -- With the flag `DuoAdditionalContext`
  unfoldable pub get_available_categories : Bool → Manager → Option (Manager × List Category)
  unfolding mark_available available_types categories_of
  get_available_categories flag manager =
      if not flag then some (manager, []) else elim (mark_available manager.providers) [
        | none ↦ none
        | some marked ↦
            some (record manager { providers = marked }, categories_of (available_types marked))
      ]

  unfoldable pub retrieve_all : List Entry → List (Option (List ContextItem))
  retrieve_all [] = []
  retrieve_all (entry ∷ entries) =
      if entry.available
      then (class_of entry.provider.type).retrieve_with_content
          entry.provider.selected_context_items
        ∷ retrieve_all entries
      else retrieve_all entries

  -- The first argument tells that the request is for code suggestions, for which it throws.
  unfoldable pub retrieve_context_items_with_content :
      Bool → Transformer → Manager → Option (List ContextItem)
  unfolding retrieve_all gather transform_item_content
  retrieve_context_items_with_content for_code_suggestions transform manager =
      if for_code_suggestions then none else elim (gather (retrieve_all manager.providers)) [
        | none ↦ none
        | some items ↦ some (map (transform_item_content transform) items)
      ]

  unfoldable pub get_item_with_content : Transformer → ContextItem → Manager → Option ContextItem
  unfolding find transform_item_content
  get_item_with_content transform item manager =
      elim (find (serves item.metadata.sub_type) manager.providers) [
        | none ↦ none
        | some entry ↦ elim ((class_of entry.provider.type).get_item_with_content item) [
          | none ↦ none
          | some found ↦ some (transform_item_content transform found)
        ]
      ]

-- `onConfigChange`
unfoldable pub on_config_change : Option (List String) → Manager → Manager
on_config_change folders manager = record manager { workspace_folders = or_folders folders [] }
