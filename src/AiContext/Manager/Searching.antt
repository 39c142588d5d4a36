-- ===== src/AiContext/Manager/Searching.antt =====
-- What a search gives, and what becomes of a request to add an item.
use khulnasoft_lsp.Base.{
  Bool, true, false, not, List, [], ◌∷◌, ◌++◌, Option, none, some, ◌||◌, if◌then◌else◌, find,
  filter, contains, contains-append, is_some, String, text_key, ◌===◌, ===_iff, Bool-cases,
  Option-cases, if_cases, inl, inr, ◌≡◌, refl, ap, sym, ◌∙◌, arith,
}
use khulnasoft_lsp.AiContext.Items.{ProviderType, type_key, ContextItem, PolicyResponse, ids_of}
use khulnasoft_lsp.AiContext.Provider.{
  Provider, Policy, is_truthy, push, item_allowed_by_policies, with_id, find_item_with_id,
  add_unless_there, add_selected_context_item,
}
use khulnasoft_lsp.AiContext.Provider.Selection.{is_some-find}
use khulnasoft_lsp.AiContext.Manager.{
  SearchQuery, ProviderClass, Entry, Manager, serves, perform, caught, collect_selected,
  get_selected_context_items, gather, insert, disabled_context_items_to_the_back, or_folders,
  is_unselected, add_context_item, search_all, search_context_items_for_category,
}

abbrev pub is_enabled : ContextItem → Bool
is_enabled item = item.metadata.enabled

abbrev pub is_disabled : ContextItem → Bool
is_disabled item = not item.metadata.enabled

insert-enabled :
    (item : ContextItem) (items : List ContextItem)
    → is_enabled item ≡ true
    → insert item items ≡ item ∷ items
unfolding insert
insert-enabled item [] e = refl
insert-enabled item (other ∷ items) e = ground arith

insert-disabled :
    (item : ContextItem) (xs ys : List ContextItem)
    → is_enabled item ≡ false
    → insert item (filter is_enabled xs ++ filter is_disabled ys)
      ≡ filter is_enabled xs ++ (item ∷ filter is_disabled ys)
unfolding insert filter
insert-disabled item [] [] e = refl
insert-disabled item [] (y ∷ ys) e = ground (arith, insert-disabled item [] ys e)
insert-disabled item (x ∷ xs) ys e = ground (arith, insert-disabled item xs ys e)

disabled_to_the_back :
    (items : List ContextItem)
    → disabled_context_items_to_the_back items ≡ filter is_enabled items ++ filter is_disabled items
unfolding disabled_context_items_to_the_back filter
disabled_to_the_back [] = refl
disabled_to_the_back (item ∷ items) = rw (disabled_to_the_back items) (
    ground (
      arith,
      insert-enabled item (filter is_enabled items ++ filter is_disabled items),
      insert-disabled item items items,
    ))

-- What is offered of the items found: those that are not selected, the enabled ones first, each kind in the order in which it
-- was found.
abbrev pub offered : List String → List ContextItem → List ContextItem
offered selected found =
    filter is_enabled (filter (is_unselected selected) found)
    ++ filter is_disabled (filter (is_unselected selected) found)

module _ (class_of : ProviderType → ProviderClass) (query : SearchQuery) (manager : Manager) where
  abbrev pub answers : List (Option (List ContextItem))
  answers =
      search_all class_of
        (record query {
          workspace_folders = some (or_folders query.workspace_folders manager.workspace_folders);
        })
        manager.providers

  -- A search offers the items that the available providers of the category find and that are not selected, the
  -- enabled ones first and otherwise in their order; and nothing if the search of one of these providers fails.
  pub search-offered :
      (found : List ContextItem)
      → (gather answers ≡ some found
          → search_context_items_for_category class_of query manager
            ≡ offered (ids_of (get_selected_context_items manager)) found)
        × (gather answers ≡ none → search_context_items_for_category class_of query manager ≡ [])
  unfolding search_context_items_for_category
  search-offered found = (λ e. rw e (disabled_to_the_back _), λ e. rw e refl)

-- The item is selected with a provider that an entry has.
abbrev IsSelected : String → List Entry → Type 0
IsSelected id entries = contains (ids_of (collect_selected entries)) id ≡ true

ids_of-append_all : (xs ys : List ContextItem) → ids_of (xs ++ ys) ≡ ids_of xs ++ ids_of ys
ids_of-append_all [] ys = refl
ids_of-append_all (x ∷ xs) ys = ap (◌∷◌ x.id) (ids_of-append_all xs ys)

contains-append_all :
    (xs ys : List ContextItem) (id : String)
    → contains (ids_of (xs ++ ys)) id ≡ (contains (ids_of xs) id || contains (ids_of ys) id)
contains-append_all xs ys id =
    rw (ids_of-append_all xs ys) (contains-append (ids_of xs) (ids_of ys) id)

abbrev HasId : String → Provider → Type 0
HasId id p = contains (ids_of p.selected_context_items) id ≡ true

push-HasId : (item : ContextItem) (p : Provider) → HasId item.id (push item p)
push-HasId item p =
    contains-append_all p.selected_context_items (item ∷ []) item.id
    ∙ unfold contains in ground (arith, ===_iff item.id item.id)

-- With a provider of the item's type, the item is selected once it has been added.
add_unless_there-HasId :
    (item : ContextItem) (p : Provider)
    → p.type ≡ item.metadata.sub_type
    → HasId item.id (add_unless_there item p)
unfolding add_unless_there find_item_with_id
add_unless_there-HasId item p t =
    if_cases (HasId item.id) (not (item.metadata.sub_type === p.type)) _ _
      (λ e. absurd (ground (arith, ===_iff item.metadata.sub_type p.type)))
      (λ e.
        if_cases (HasId item.id) (is_some (find (with_id item.id) p.selected_context_items)) _ _
          (λ f. sym (is_some-find item.id p.selected_context_items) ∙ f) (λ f. push-HasId item p))

add-HasId :
    (policy : Policy) (item : ContextItem) (p q : Provider)
    → p.type ≡ item.metadata.sub_type
    → add_selected_context_item policy item p ≡ some q
    → HasId item.id q
unfolding add_selected_context_item
add-HasId policy item p q t e = go (item_allowed_by_policies policy item) e
  where
    go :
        (o : Option PolicyResponse)
        → (elim o [
          | none ↦ none
          | some can_be_added ↦
              some (if not (is_truthy can_be_added) then p else add_unless_there item p)
        ])
          ≡ some q
        → HasId item.id q
    go none h = absurd (cc)
    go (some r) h =
        let f : add_unless_there item p ≡ q = cc in rw (← f) (add_unless_there-HasId item p t)

module _ (type : ProviderType) (callback : Provider → Option Provider) (id : String)
    (gives : (p q : Provider) → p.type ≡ type → callback p ≡ some q → HasId id q) where
  perform-IsSelected :
      (entries next : List Entry) → perform type callback entries ≡ some next → IsSelected id next
  unfolding perform collect_selected
  perform-IsSelected [] next e = absurd (cc)
  perform-IsSelected (entry ∷ entries) next e = elim (Bool-cases (serves type entry)) [
    | inl s ↦ elim (Option-cases (callback entry.provider)) [
      | inl n ↦ absurd (ground arith)
      | inr (q, c) ↦
          let f : next ≡ (record entry { provider = q } ∷ entries) = ground arith in
          let g : HasId id q =
            gives entry.provider q (ground (arith, ===_iff entry.provider.type type)) c in
          let a : entry.available ≡ true = ground arith in
          rw f (
            simp a (
              contains-append_all q.selected_context_items (collect_selected entries) id
              ∙ ground arith))
    ]
    | inr s ↦ elim (Option-cases (perform type callback entries)) [
      | inl n ↦ absurd (ground arith)
      | inr (m, c) ↦
          let f : next ≡ (entry ∷ m) = ground arith in
          let g : IsSelected id m = perform-IsSelected entries m c in
          rw f (
            if_cases (λ (items : List ContextItem). contains (ids_of items) id ≡ true)
              entry.available _ _
              (λ a.
                contains-append_all entry.provider.selected_context_items (collect_selected m) id
                ∙ ground arith)
              (λ a. g))
    ]
  ]

caught_told :
    (id : String) (manager : Manager) (o : Option (List Entry))
    → ((next : List Entry) → o ≡ some next → IsSelected id next)
    → ((caught manager o).1 ≡ true → IsSelected id (caught manager o).0.providers)
      × ((caught manager o).1 ≡ false → (caught manager o).0 ≡ manager)
caught_told id manager none h = (λ e. absurd (cc), λ e. refl)
caught_told id manager (some next) h = (λ e. h next refl, λ e. absurd (cc))

module _ (class_of : ProviderType → ProviderClass) (item : ContextItem) (manager : Manager) where
  -- A request to add an item that is answered with true leaves an item of its id selected; one that is answered with
  -- false changes nothing.
  pub add_context_item-told :
      ((add_context_item class_of item manager).1 ≡ true
        → contains
            (ids_of (get_selected_context_items (add_context_item class_of item manager).0))
            item.id
          ≡ true)
      × ((add_context_item class_of item manager).1 ≡ false
          → (add_context_item class_of item manager).0 ≡ manager)
  unfolding add_context_item get_selected_context_items
  add_context_item-told = caught_told item.id manager _ (
      perform-IsSelected item.metadata.sub_type
        (λ provider.
          add_selected_context_item (class_of provider.type).can_item_be_added item provider)
        item.id (λ p q t. add-HasId (class_of p.type).can_item_be_added item p q t)
        manager.providers)
