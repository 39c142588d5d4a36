-- ===== src/Repositories/Matcher.antt =====
-- `dir_matcher.ts`, with `splitPath` of `utils.ts`: the directories that hold a file, by a trie over the parts of their
-- paths. A URI is its text, since `URI.parse` takes back what `toString` gives; `decodeURIComponent` is a parameter.
pub mod Matching
use khulnasoft_lsp.Base.{
  ℕ, Bool, List, [], ◌∷◌, ◌++◌, Option, none, some, ◌||◌, eqb, if◌then◌else◌, JsText, units_key,
  ◌===◌,
}

-- `DirectoryMatcherTrie`; its children are in a list of their own.
mutual
  pub data Trie : Type 0 where
    node : Option JsText → Children → Trie

  pub data Children : Type 0 where
    childless : Children
    child : JsText → Trie → Children → Children

unfoldable pub empty : Trie
empty = node none childless

abbrev is_slash : ℕ → Bool
is_slash u = eqb u 47 || eqb u 92

abbrev pub add_part : JsText → List JsText → List JsText
add_part [] parts = parts
add_part (u ∷ part) parts = (u ∷ part) ∷ parts

-- The parts from the one on that has begun
unfoldable pub split_from : JsText → JsText → List JsText
split_from part [] = add_part part []
split_from part (u ∷ text) =
    let next = split_from [] text in
    let longer = split_from (part ++ u ∷ []) text in
    if is_slash u then add_part part next else longer

-- `splitPath`, of a decoded path
unfoldable pub split_path : JsText → List JsText
unfolding split_from
split_path path = split_from [] path

-- The trie at a part, changed; it is made if it is not there.
unfoldable pub update_child : JsText → (Trie → Trie) → Children → Children
unfolding empty
update_child part change childless = child part (change empty) childless
update_child part change (child p trie rest) =
    if p === part then child p (change trie) rest else child p trie (update_child part change rest)

-- `#addPath`, of a directory with the parts of its path
unfoldable pub add_path : JsText → List JsText → Trie → Trie
unfolding update_child
add_path uri [] (node dir children) = node (some uri) children
add_path uri (part ∷ parts) (node dir children) =
    node dir (update_child part (add_path uri parts) children)

unfoldable pub get_child : JsText → Children → Option Trie
get_child part childless = none
get_child part (child p trie rest) = if p === part then some trie else get_child part rest

abbrev pub dir_to_match : Trie → Option JsText
dir_to_match (node dir children) = dir

abbrev pub children_of : Trie → Children
children_of (node dir children) = children

abbrev pub add_match : Option JsText → List JsText → List JsText
add_match none matches = matches
add_match (some uri) matches = uri ∷ matches

-- The loop of `findMatchingDirectories`
unfoldable pub find_from : List JsText → Trie → List JsText
unfolding get_child
find_from [] trie = []
find_from (part ∷ parts) trie = elim (get_child part (children_of trie)) [
  | none ↦ []
  | some next ↦ add_match (dir_to_match next) (find_from parts next)
]

module _ (decode : JsText → JsText) where
  unfoldable pub add_directory_to_match : JsText → Trie → Trie
  unfolding add_path split_path
  add_directory_to_match uri trie = add_path uri (split_path (decode uri)) trie

  unfoldable pub find_matching_directories : JsText → Trie → List JsText
  unfolding find_from split_path
  find_matching_directories uri trie = find_from (split_path (decode uri)) trie
