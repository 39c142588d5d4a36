-- ===== src/Repositories/Matcher/Matching.antt =====
-- The trie as a table of the directories that were added.
use khulnasoft_lsp.Base.{
  Bool, true, false, List, [], ◌∷◌, ◌++◌, Option, none, some, ◌&&◌, if◌then◌else◌, Option-cases,
  inl, inr, JsText, units_key, ◌===◌, ===_iff, ◌≡◌, refl, ap, sym, ◌∙◌, arith,
}
use mathlib.Core.Path.{fun_ext}
use khulnasoft_lsp.Repositories.Matcher.{
  Trie, node, Children, childless, child, empty, split_path, update_child, add_path, get_child,
  dir_to_match, children_of, add_match, find_from, add_directory_to_match,
  find_matching_directories,
}

abbrev pub same_parts : List JsText → List JsText → Bool
same_parts [] [] = true
same_parts [] (q ∷ qs) = false
same_parts (p ∷ ps) [] = false
same_parts (p ∷ ps) (q ∷ qs) = p === q && same_parts ps qs

-- The directory at a path
unfoldable at : List JsText → Trie → Option JsText
at [] trie = dir_to_match trie
at (part ∷ parts) trie = elim (get_child part (children_of trie)) [
  | none ↦ none
  | some next ↦ at parts next
]

get_child-update_child :
    (part q : JsText) (change : Trie → Trie) (children : Children)
    → get_child q (update_child part change children) ≡ (
        if part === q
        then some (elim (get_child part children) [ none ↦ change empty | some t ↦ change t ])
        else get_child q children)
unfolding get_child update_child
get_child-update_child part q change childless = refl
get_child-update_child part q change (child p trie rest) =
    ground (
      arith,
      ===_iff p part,
      ===_iff p q,
      ===_iff part q,
      get_child-update_child part q change rest,
    )

at-empty : (parts : List JsText) → at parts empty ≡ none
unfolding at get_child empty
at-empty [] = refl
at-empty (part ∷ parts) = refl

at-add_path :
    (uri : JsText) (parts qs : List JsText) (trie : Trie)
    → at qs (add_path uri parts trie) ≡ (if same_parts parts qs then some uri else at qs trie)
unfolding at add_path
at-add_path uri [] [] (node dir children) = refl
at-add_path uri [] (q ∷ qs) (node dir children) = refl
at-add_path uri (part ∷ parts) [] (node dir children) = refl
at-add_path uri (part ∷ parts) (q ∷ qs) (node dir children) =
    elim (Option-cases (get_child part children)) [
      | inl n ↦ ground (
        arith,
        get_child-update_child part q (add_path uri parts) children,
        at-add_path uri parts qs empty,
        at-empty qs,
        ===_iff part q,
      )
      | inr (t, e) ↦ ground (
        arith,
        get_child-update_child part q (add_path uri parts) children,
        at-add_path uri parts qs t,
        ===_iff part q,
      )
    ]

abbrev pub at_most_one : Option JsText → List JsText
at_most_one none = []
at_most_one (some uri) = uri ∷ []

-- What a lookup gives at the paths that begin as a file's: the shortest first
abbrev pub matches_by : (List JsText → Option JsText) → List JsText → List JsText
matches_by look [] = []
matches_by look (part ∷ parts) =
    at_most_one (look (part ∷ [])) ++ matches_by (λ (q : List JsText). look (part ∷ q)) parts

matches_by-none : (parts : List JsText) → matches_by (λ q. none) parts ≡ []
matches_by-none [] = refl
matches_by-none (part ∷ parts) = matches_by-none parts

add_match_lem :
    (o : Option JsText) (matches : List JsText) → add_match o matches ≡ at_most_one o ++ matches
add_match_lem none matches = refl
add_match_lem (some uri) matches = refl

matches_below :
    (parts : List JsText)
    → ((t : Trie) → find_from parts t ≡ matches_by (λ q. at q t) parts)
    → (o : Option Trie)
    → (elim o [ none ↦ [] | some next ↦ add_match (dir_to_match next) (find_from parts next) ])
      ≡ at_most_one (elim o [ none ↦ none | some next ↦ dir_to_match next ])
        ++ matches_by (λ (q : List JsText). elim o [ none ↦ none | some next ↦ at q next ]) parts
matches_below parts h none = sym (matches_by-none parts)
matches_below parts h (some t) =
    add_match_lem (dir_to_match t) (find_from parts t)
    ∙ ap (λ (m : List JsText). at_most_one (dir_to_match t) ++ m) (h t)

find_from-matches_by :
    (parts : List JsText) (trie : Trie) → find_from parts trie ≡ matches_by (λ q. at q trie) parts
unfolding find_from at
find_from-matches_by [] trie = refl
find_from-matches_by (part ∷ parts) trie =
    matches_below parts (find_from-matches_by parts) (get_child part (children_of trie))

module _ (decode : JsText → JsText) where
  abbrev pub parts_of : JsText → List JsText
  parts_of uri = split_path (decode uri)

  -- The directories added, the last first, as a table: the last one added with the parts of a path.
  abbrev pub last_with : List JsText → List JsText → Option JsText
  last_with [] parts = none
  last_with (uri ∷ added) parts =
      if same_parts (parts_of uri) parts then some uri else last_with added parts

  unfoldable pub add_all : List JsText → Trie
  unfolding empty
  add_all [] = empty
  add_all (uri ∷ added) = add_directory_to_match decode uri (add_all added)

  at-add_all : (added parts : List JsText) → at parts (add_all added) ≡ last_with added parts
  unfolding add_all add_directory_to_match
  at-add_all [] parts = at-empty parts
  at-add_all (uri ∷ added) parts =
      at-add_path uri (parts_of uri) parts (add_all added)
      ∙ ap (λ (o : Option JsText). if same_parts (parts_of uri) parts then some uri else o)
          (at-add_all added parts)

  -- After any directories were added, those found for a file are the ones whose path has the first parts of the file's
  -- path, one for each number of parts, the fewest first, and of several with the same parts the last added.
  pub find_matching_directories-add_all :
      (added : List JsText) (uri : JsText)
      → find_matching_directories decode uri (add_all added)
        ≡ matches_by (last_with added) (parts_of uri)
  unfolding find_matching_directories
  find_matching_directories-add_all added uri =
      find_from-matches_by (parts_of uri) (add_all added)
      ∙ ap (λ (look : List JsText → Option JsText). matches_by look (parts_of uri))
          (fun_ext (at-add_all added))
