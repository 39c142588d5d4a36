-- ===== src/FeatureState/Manager.antt =====
-- `feature_state_manager.ts`. The nine checks are objects, known by their place in the constructor's list;
-- `checks` is what they say at present, which may change before they emit the event. The errors of an `init` of a check are left out.
pub mod Engaged
use khulnasoft_lsp.Base.{
  ℕ, zero, suc, Bool, true, false, List, [], ◌∷◌, ◌++◌, map, filter, find, Option, none, some,
  contains, add, remove, number_key, ◌===◌, if◌then◌else◌,
}
use khulnasoft_lsp.FeatureState.Checks.{
  Feature, authentication, code_suggestions, chat, StateCheckId, check_key, StateCheck,
  FeatureStateCheck, FeatureState, checks_per_feature,
}

-- `notified` are the states that the client was sent.
pub record Manager : Type 0 where
  pub checks : ℕ → StateCheck
  pub precomputed_sorted_checks : Feature → List ℕ
  pub engaged_checks_set : List StateCheckId
  pub notified : List (List FeatureState)

-- `this.#checks`: authentication, version, licence, project access, language, chat enabled, suggestions enabled, chat
-- licence, API error.
abbrev pub all_checks : List ℕ
all_checks = 0 ∷ 1 ∷ 2 ∷ 3 ∷ 4 ∷ 5 ∷ 6 ∷ 7 ∷ 8 ∷ []

abbrev pub with_found : Option ℕ → List ℕ → List ℕ
with_found none rest = rest
with_found (some i) rest = i ∷ rest

unfoldable pub sort_checks_in_priority : List StateCheckId → List ℕ → (ℕ → StateCheck) → List ℕ
unfolding find
sort_checks_in_priority [] unordered checks = []
sort_checks_in_priority (check_id ∷ ordered) unordered checks =
    with_found (find (λ (i : ℕ). (checks i).id === check_id) unordered)
      (sort_checks_in_priority ordered unordered checks)

-- The constructor.
unfoldable pub new : (ℕ → StateCheck) → Manager
unfolding sort_checks_in_priority checks_per_feature
new checks = record {
  checks = checks;
  precomputed_sorted_checks =
      λ feature. sort_checks_in_priority (checks_per_feature feature) all_checks checks;
  engaged_checks_set = [];
  notified = [];
}

unfoldable pub is_engaged : Manager → ℕ → Bool
is_engaged m i = contains m.engaged_checks_set (m.checks i).id

unfoldable pub entry : Manager → ℕ → FeatureStateCheck
unfolding is_engaged
entry m i = record {
  check_id = (m.checks i).id;
  details = (m.checks i).details;
  context = (m.checks i).context;
  engaged = is_engaged m i;
}

-- An entry of `engagedChecks`.
unfoldable pub engaged_entry : Manager → ℕ → FeatureStateCheck
engaged_entry m i = record {
  check_id = (m.checks i).id;
  details = (m.checks i).details;
  context = (m.checks i).context;
  engaged = true;
}

unfoldable pub feature_state : Manager → Feature → FeatureState
unfolding entry engaged_entry filter
feature_state m feature =
    let sorted = m.precomputed_sorted_checks feature in
    record {
      feature_id = feature;
      engaged_checks = map (engaged_entry m) (filter (is_engaged m) sorted);
      all_checks = map (entry m) sorted;
    }

-- `#state`
unfoldable pub state : Manager → List FeatureState
unfolding feature_state
state m = map (feature_state m) (authentication ∷ code_suggestions ∷ chat ∷ [])

-- The listener that `init` gives to each check, which the check calls by an event: it reads what the check says by then.
unfoldable pub update_set : StateCheck → List StateCheckId → List StateCheckId
update_set check ids = if check.engaged then add ids check.id else remove ids check.id

-- `#notifyClient`
unfoldable pub notify_client : Manager → Manager
unfolding state
notify_client m = record m { notified = m.notified ++ state m ∷ [] }

unfoldable pub on_changed : ℕ → Manager → Manager
unfolding update_set notify_client
on_changed i m =
    notify_client (record m { engaged_checks_set = update_set (m.checks i) m.engaged_checks_set })
