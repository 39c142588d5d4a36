-- ===== src/AiContext/Provider/Selecting.antt =====
-- What is selected with a provider, over any sequence of calls, and what the listeners know of it.
use khulnasoft_lsp.Base.{
  ℕ, zero, suc, false, not, List, [], ◌∷◌, Option, none, some, String, if◌then◌else◌, is_some, find,
  contains, remove, text_key, ◌===◌, ===_iff, All, if_cases, Bool-cases, Option-cases, inl, inr,
  ◌≡◌, refl, ap, sym, ◌∙◌, arith,
}
use khulnasoft_lsp.AiContext.Items.{ProviderType, ContextItem, PolicyResponse, type_key, ids_of}
use khulnasoft_lsp.AiContext.Provider.{
  Notice, item_added, item_to_be_removed, all_items_to_be_removed, Provider, new, with_id,
  find_item_with_id, find_item_index, splice, put, is_truthy, Policy, item_allowed_by_policies,
  push, add_unless_there, add_selected_context_item, remove_selected_context_item, clear_items,
  clear_selected_context_items, replace_selected_context_item,
}
use khulnasoft_lsp.AiContext.Provider.Selection.{
  Operation, add_item, remove_item, clear_all, replace_item, or_same, step, run, Keeps, AreDistinct,
  HasType, hear_all, IsSelection, hear_all-append, is_some-find, ids_of-append, AreDistinct-append,
  All-HasType, remove_absent, remove-AreDistinct,
}

-- What an index that is found stands for.
record IsFound (id : String) (items : List ContextItem) (n : ℕ) (item : ContextItem) : Type 0 where
  same : item.id ≡ id
  spliced : AreDistinct (ids_of items) → ids_of (splice n items) ≡ remove (ids_of items) id
  stored : (next : ContextItem) → next.id ≡ id → ids_of (put n next items) ≡ ids_of items

find_item_index-IsFound :
    (id : String) (items : List ContextItem) (n : ℕ) (item : ContextItem)
    → find_item_index id items ≡ some (n, item)
    → IsFound id items n item
unfolding find_item_index splice put remove contains
find_item_index-IsFound id [] n item h = absurd (cc)
find_item_index-IsFound id (i ∷ items) n item h = elim (Bool-cases (i.id === id)) [
  | inl e ↦
      let same_id : i.id ≡ id = (===_iff i.id id).0 e in
      let n0 : n ≡ 0 = ground arith in
      let it : item ≡ i = ground arith in
      rw (n0, it)
        (record {
          same = same_id;
          spliced = λ d. rw e (sym (remove_absent (ids_of items) id (rw same_id at d.0)));
          stored = λ next f. ap (λ (x : String). x ∷ ids_of items) (f ∙ sym same_id);
        })
  | inr e ↦ elim (Option-cases (find_item_index id items)) [
    | inl none_found ↦ absurd (ground arith)
    | inr ((m, found), f) ↦
        let g : IsFound id items m found = find_item_index-IsFound id items m found f in
        let nm : n ≡ suc m = ground arith in
        let it : item ≡ found = ground arith in
        rw (nm, it)
          (record {
            same = g.same;
            spliced = λ d. rw e (ap (◌∷◌ i.id) (g.spliced d.1));
            stored = λ next q. ap (◌∷◌ i.id) (g.stored next q);
          })
  ]
]

splice-HasType :
    (type : ProviderType) (n : ℕ) (items : List ContextItem)
    → All (HasType type) items
    → All (HasType type) (splice n items)
unfolding splice
splice-HasType type n [] h = tt
splice-HasType type zero (i ∷ items) (h, hs) = hs
splice-HasType type (suc n) (i ∷ items) (h, hs) = (h, splice-HasType type n items hs)

put-HasType :
    (type : ProviderType) (n : ℕ) (item : ContextItem) (items : List ContextItem)
    → All (HasType type) items
    → HasType type item
    → All (HasType type) (put n item items)
unfolding put
put-HasType type n item [] h t = tt
put-HasType type zero item (i ∷ items) (h, hs) t = (t, hs)
put-HasType type (suc n) item (i ∷ items) (h, hs) t = (h, put-HasType type n item items hs t)

module _ (type : ProviderType) (items : List ContextItem) (notices : List Notice) where
  -- The provider with this state.
  abbrev with_state : Provider
  with_state = record { type = type; selected_context_items = items; notices = notices }

  abbrev Holds : Provider → Type 0
  Holds p = (p.type ≡ type) × IsSelection type p.selected_context_items p.notices

  module _ (s : IsSelection type items notices) where
    push-Holds :
        (item : ContextItem)
        → item.metadata.sub_type ≡ type
        → contains (ids_of items) item.id ≡ false
        → Holds (push item with_state)
    push-Holds item t n = (
      refl,
      record {
        distinct =
            rw (ids_of-append items item) (AreDistinct-append (ids_of items) item.id s.distinct n);
        typed = All-HasType type items item s.typed t;
        heard =
            rw (hear_all-append [] notices (item_added item), ids_of-append items item, s.heard)
              refl;
      },
    )

    add_unless_there-Holds : (item : ContextItem) → Holds (add_unless_there item with_state)
    unfolding add_unless_there find_item_with_id
    add_unless_there-Holds item =
        if_cases Holds (not (item.metadata.sub_type === type)) _ _ (λ e. (refl, s))
          (λ e.
            if_cases Holds (is_some (find (with_id item.id) items)) _ _ (λ f. (refl, s))
              (λ f.
                push-Holds item (ground (arith, ===_iff item.metadata.sub_type type))
                  (sym (is_some-find item.id items) ∙ f)))

    add-Holds :
        (policy : Policy) (item : ContextItem)
        → Holds (or_same with_state (add_selected_context_item policy item with_state))
    unfolding add_selected_context_item
    add-Holds policy item = go (item_allowed_by_policies policy item)
      where
        go :
            (o : Option PolicyResponse)
            → Holds (
                or_same with_state (elim o [
                  | none ↦ none
                  | some can_be_added ↦ some (
                      if not (is_truthy can_be_added)
                      then with_state
                      else add_unless_there item with_state)
                ]))
        go none = (refl, s)
        go (some r) = add_unless_there-Holds item

    remove-Holds :
        (id : String) → Holds (or_same with_state (remove_selected_context_item id with_state))
    unfolding remove_selected_context_item
    remove-Holds id = elim (Option-cases (find_item_index id items)) [
      | inl e ↦ rw (e, remove_selected_context_item) (refl, s)
      | inr ((n, item), e) ↦
          let f : IsFound id items n item = find_item_index-IsFound id items n item e in
          rw (e, remove_selected_context_item)
            (
              refl,
              record {
                distinct =
                    rw (f.spliced s.distinct) (remove-AreDistinct (ids_of items) id s.distinct);
                typed = splice-HasType type n items s.typed;
                heard =
                    rw
                      (
                        hear_all-append [] notices (item_to_be_removed item),
                        f.spliced s.distinct,
                        s.heard,
                        f.same,
                      )
                      refl;
              },
            )
    ]

    replace-Holds :
        (old next : ContextItem)
        → (next.id ≡ old.id) × (next.metadata.sub_type ≡ type)
        → Holds (or_same with_state (replace_selected_context_item old next with_state))
    unfolding replace_selected_context_item
    replace-Holds old next (e, t) = elim (Option-cases (find_item_index old.id items)) [
      | inl o ↦ rw (o, replace_selected_context_item) (refl, s)
      | inr ((n, item), o) ↦
          let f : IsFound old.id items n item = find_item_index-IsFound old.id items n item o in
          rw (o, replace_selected_context_item)
            (
              refl,
              record {
                distinct = rw (f.stored next e) s.distinct;
                typed = put-HasType type n next items s.typed t;
                heard = rw (f.stored next e) s.heard;
              },
            )
    ]

    step-Holds : (policy : Policy) (o : Operation) → Keeps type o → Holds (step policy o with_state)
    unfolding step clear_selected_context_items
    step-Holds policy (add_item item) k = add-Holds policy item
    step-Holds policy (remove_item id) k = remove-Holds id
    step-Holds policy clear_all k = clear items
      where
        clear : (xs : List ContextItem) → Holds (clear_items xs with_state)
        clear [] = (refl, s)
        clear (x ∷ xs) = (
          refl,
          record {
            distinct = tt;
            typed = tt;
            heard = hear_all-append [] notices all_items_to_be_removed;
          },
        )
    step-Holds policy (replace_item old next) k = replace-Holds old next k

step-typed :
    (type t : ProviderType) (items : List ContextItem) (notices : List Notice) (policy : Policy)
    (o : Operation)
    → t ≡ type
    → IsSelection type items notices
    → Keeps type o
    → Holds type items notices (step policy o (with_state t items notices))
step-typed type t items notices policy o e s k = rw e (step-Holds type items notices s policy o k)

run-IsSelection :
    (type : ProviderType) (policy : Policy) (os : List Operation) (p : Provider)
    → All (Keeps type) os
    → (p.type ≡ type) × IsSelection type p.selected_context_items p.notices
    → (let q = run policy os p in IsSelection type q.selected_context_items q.notices)
unfolding run
run-IsSelection type policy [] p k (t, s) = s
run-IsSelection type policy (o ∷ os) p (k, ks) (t, s) =
    run-IsSelection type policy os (step policy o p) ks
      (step-typed type p.type p.selected_context_items p.notices policy o t s k)

-- Whatever is added, removed, cleared, or replaced by an item of the same id and of the provider's type, and whatever
-- policies say: the items selected have distinct ids_of and the provider's type, and a listener who follows the
-- callbacks knows just their ids_of, in their order.
pub run-new-IsSelection :
    (type : ProviderType) (policy : Policy) (os : List Operation)
    → All (Keeps type) os
    → IsSelection type
        (run policy os (new type)).selected_context_items
        (run policy os (new type)).notices
unfolding new hear_all
run-new-IsSelection type policy os k =
    run-IsSelection type policy os (new type) k
      (refl, record { distinct = tt; typed = tt; heard = refl })

-- A policy has no say: whether its answer is that the item is enabled or disabled, the item is added as if there were no policy.
pub add_despite_policy :
    (policy : Policy) (item : ContextItem) (p : Provider) (answer : PolicyResponse)
    → item_allowed_by_policies policy item ≡ some answer
    → add_selected_context_item policy item p ≡ add_selected_context_item none item p
unfolding add_selected_context_item item_allowed_by_policies
add_despite_policy none item p answer e = refl
add_despite_policy (some can_item_be_added) item p answer e =
    let q : can_item_be_added item ≡ some answer = e in rw (q, add_selected_context_item) refl
