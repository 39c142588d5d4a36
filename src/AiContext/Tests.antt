-- ===== src/AiContext/Tests.antt =====
-- The theorems on two items of open tabs, of which one is disabled.
use khulnasoft_lsp.Base.{
  Bool, true, false, List, [], ◌∷◌, none, some, All, String, JsText, contains, filter, text_key,
  ◌≡◌, refl,
}
use khulnasoft_lsp.AiContext.Items.{ProviderType, Category, ContextItem, PolicyResponse, ids_of}
use khulnasoft_lsp.AiContext.Provider.{
  Provider, new, Policy, add_selected_context_item, remove_selected_context_item,
  replace_selected_context_item,
}
use khulnasoft_lsp.AiContext.Provider.Selection.{
  Operation, add_item, remove_item, replace_item, run, IsSelection,
}
use khulnasoft_lsp.AiContext.Provider.Selecting.{run-new-IsSelection}
use khulnasoft_lsp.AiContext.Manager.{
  SearchQuery, ProviderClass, Manager, disabled_context_items_to_the_back,
  search_context_items_for_category, retrieve_context_items_with_content, get_item_with_content,
}
use khulnasoft_lsp.AiContext.Manager.Retrieving.{transform, IsRedacted, retrieve-IsRedacted}

abbrev tab : String → Bool → ContextItem
tab id enabled = record {
  id = id;
  category = Category.file;
  content = some (97 ∷ []);
  metadata = record { enabled = enabled; disabled_reasons = []; sub_type = ProviderType.open_tab };
}

abbrev refusal : PolicyResponse
refusal = record { enabled = false; disabled_reasons = "File disabled by context policy" ∷ [] }

abbrev refusing : Policy
refusing = some (λ item. some refusal)

abbrev calls : List Operation
calls =
    add_item (tab "a" true)
    ∷ add_item (tab "b" false)
    ∷ add_item (tab "a" true)
    ∷ replace_item (tab "b" false) (tab "b" true)
    ∷ remove_item "a"
    ∷ []

abbrev after_calls : Provider
after_calls = run refusing calls (new ProviderType.open_tab)

run-new-IsSelection_example :
    IsSelection ProviderType.open_tab after_calls.selected_context_items after_calls.notices
run-new-IsSelection_example =
    run-new-IsSelection ProviderType.open_tab refusing calls
      (tt, (tt, (tt, ((refl, refl), (tt, tt)))))

b_is_left : ids_of after_calls.selected_context_items ≡ "b" ∷ []
unfolding run new add_selected_context_item remove_selected_context_item
    replace_selected_context_item
b_is_left = refl

-- Every provider finds the same three tabs, and gives them with their content.
abbrev class_of : ProviderType → ProviderClass
class_of type = record {
  can_item_be_added = refusing;
  search_context_items = λ query. some (tab "a" false ∷ tab "b" true ∷ tab "c" true ∷ []);
  retrieve_with_content = λ items. some items;
  get_item_with_content = λ item. some item;
  is_available = some (record { enabled = true; disabled_reasons = [] });
}

abbrev manager : Manager
manager = record {
  providers =
      record {
        provider = record {
          type = ProviderType.open_tab;
          selected_context_items = tab "b" true ∷ [];
          notices = [];
        };
        available = true;
      }
      ∷ [];
  workspace_folders = [];
}

abbrev query : SearchQuery
query = record { category = Category.file; query = ""; workspace_folders = none }

abbrev found : List ContextItem
found = tab "a" false ∷ tab "b" true ∷ tab "c" true ∷ []

found_tabs :
    search_context_items_for_category class_of query manager ≡ tab "c" true ∷ tab "a" false ∷ []
unfolding search_context_items_for_category contains disabled_context_items_to_the_back filter
found_tabs = refl

abbrev same_case : JsText → JsText
same_case text = text

retrieve-IsRedacted_example :
    (retrieve_context_items_with_content class_of false (transform same_case []) manager
        ≡ some (tab "b" true ∷ [])
      → All (IsRedacted same_case []) (tab "b" true ∷ []))
    × (get_item_with_content class_of (transform same_case []) (tab "a" true) manager
          ≡ some (tab "a" true)
        → IsRedacted same_case [] (tab "a" true))
retrieve-IsRedacted_example =
    retrieve-IsRedacted same_case [] class_of manager (tab "a" true) (tab "a" true)
      (tab "b" true ∷ [])
