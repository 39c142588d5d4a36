-- ===== src/DuoAccess/ApiCache.antt =====
-- `api_project_access_cache.ts`, and `checkProjectStatusesByIds` of `project_access_checker.ts`. `uniq` of lodash
-- and the API are parameters.
pub mod Answers
use khulnasoft_lsp.Base.{
  ℕ, Bool, true, false, not, List, [], ◌∷◌, Option, none, some, if◌then◌else◌, filter, number_key,
}
use khulnasoft_lsp.Base.JsMap
use khulnasoft_lsp.Base.JsMap.{JsMap}
use khulnasoft_lsp.DuoAccess.Checker.{DuoProjectStatus, duo_enabled, duo_disabled}

-- `#duoProjects`
abbrev pub Statuses : Type 0
Statuses = JsMap ℕ Bool

abbrev pub or_false : Option Bool → Bool
or_false none = false
or_false (some b) = b

-- The ids that are not known to be enabled.
unfoldable pub missing_from_cache : (List ℕ → List ℕ) → List ℕ → Statuses → List ℕ
unfolding filter
missing_from_cache uniq project_ids m =
    uniq (filter (λ (id : ℕ). not (or_false (JsMap.get m id))) project_ids)

-- An edge of the response, with the id if it can be parsed.
pub record Edge : Type 0 where
  pub id : Option ℕ
  pub duo_features_enabled : Bool

abbrev pub add_edge : Option ℕ → Bool → Statuses → Statuses
add_edge none enabled acc = acc
add_edge (some id) enabled acc = JsMap.set acc id enabled

-- The `reduce` over the edges.
unfoldable pub reduce_edges : Statuses → List Edge → Statuses
reduce_edges acc [] = acc
reduce_edges acc (edge ∷ edges) =
    reduce_edges (add_edge edge.id edge.duo_features_enabled acc) edges

-- `#checkDuoFeaturesEnabled`; nothing is known if the API throws.
unfoldable pub check_duo_features_enabled : Option (List Edge) → Statuses
unfolding reduce_edges
check_duo_features_enabled none = []
check_duo_features_enabled (some edges) = reduce_edges [] edges

-- `{ ...m, ...statuses }`
unfoldable pub merge : Statuses → Statuses → Statuses
merge m [] = m
merge m ((id, enabled) ∷ statuses) = merge (JsMap.set m id enabled) statuses

-- The `reduce` over the ids that were asked for.
unfoldable pub answers_from : Statuses → Statuses → List ℕ → Statuses
answers_from m acc [] = acc
answers_from m acc (id ∷ ids) = answers_from m (JsMap.set acc id (or_false (JsMap.get m id))) ids

module _ (uniq : List ℕ → List ℕ) (fetch : List ℕ → Option (List Edge)) where
  abbrev pub fetch_missing : List ℕ → Statuses → Statuses
  fetch_missing [] m = m
  fetch_missing (id ∷ ids) m = merge m (check_duo_features_enabled (fetch (id ∷ ids)))

  -- `getEnabledForProjects`, with the cache that it leaves.
  unfoldable pub get_enabled_for_projects : List ℕ → Statuses → Statuses × Statuses
  unfolding missing_from_cache merge check_duo_features_enabled answers_from
  get_enabled_for_projects project_ids m =
      let m' = fetch_missing (missing_from_cache uniq project_ids m) m in
      (answers_from m' [] project_ids, m')

-- The status of one project in `checkProjectStatusesByIds`.
unfoldable pub status_by_id : Statuses → ℕ → DuoProjectStatus
status_by_id statuses id = if or_false (JsMap.get statuses id) then duo_enabled else duo_disabled
