-- ===== src/FeatureState/Manager/Engaged.antt =====
-- What the client is told when a check emits its event.
use khulnasoft_lsp.Base.{
  ℕ, Bool, true, false, not, List, [], ◌∷◌, map, filter, String, contains, contains-add,
  contains-remove, add, remove, ◌++◌, number_key, ◌===◌, ===_iff, if◌then◌else◌, ◌≡◌, refl, arith,
  eqb_iff, ◌&&◌, Bool-cases, inl, inr, ap, ===_refl,
}
use mathlib.Core.Path.{fun_ext}
use khulnasoft_lsp.FeatureState.Checks.{
  Feature, authentication, code_suggestions, chat, FeatureState, StateCheckId, check_key,
  StateCheck, FeatureStateCheck, authentication_required, unsupported_khulnasoft_version,
  suggestions_no_license, duo_disabled_for_project, unsupported_language, disabled_language,
  chat_disabled_by_user, suggestions_disabled_by_user, chat_no_license, suggestions_api_error,
}
use khulnasoft_lsp.FeatureState.Language
use khulnasoft_lsp.FeatureState.Language.{LanguageCheck, state_check, update_with_document}
use khulnasoft_lsp.FeatureState.Manager.{
  Manager, new, notify_client, state, is_engaged, entry, engaged_entry, feature_state, update_set,
  on_changed,
}

-- The place of the check that may have an id.
abbrev pub owner : StateCheckId → ℕ
owner authentication_required = 0
owner unsupported_khulnasoft_version = 1
owner suggestions_no_license = 2
owner duo_disabled_for_project = 3
owner unsupported_language = 4
owner disabled_language = 4
owner chat_disabled_by_user = 5
owner suggestions_disabled_by_user = 6
owner chat_no_license = 7
owner suggestions_api_error = 8
owner _ = 9

-- A check says something else; the manager does not know yet.
abbrev pub with_check : ℕ → StateCheck → Manager → Manager
with_check i check m = record m { checks = λ j. if i === j then check else m.checks j }

-- A manager after changes and events of its checks, with the places of those that have emitted an event since they changed. A
-- check has an id of its own, and the language check two.
pub data IsReachable : Manager → List ℕ → Type 0 where
  start : (checks : ℕ → StateCheck) → IsReachable (new checks) []
  changed :
      (m : Manager) (told : List ℕ) (i : ℕ) (check : StateCheck)
      → IsReachable m told
      → IsReachable (with_check i check m) (remove told i)
  emitted :
      (m : Manager) (told : List ℕ) (i : ℕ)
      → owner (m.checks i).id ≡ i
      → IsReachable m told
      → IsReachable (on_changed i m) (add told i)

contains-update_set :
    (check : StateCheck) (ids : List StateCheckId) (j : StateCheckId)
    → contains (update_set check ids) j ≡ (if check.id === j then check.engaged else contains ids j)
unfolding update_set
contains-update_set check ids j = elim (Bool-cases check.engaged) [
  | inl q ↦ rw q (ground (arith, contains-add ids check.id j))
  | inr q ↦ rw q (ground (arith, contains-remove ids check.id j))
]

-- What holds of a check that has changed.
abbrev IsTold : Manager → ℕ → Type 0
IsTold m j = (owner (m.checks j).id ≡ j) × (is_engaged m j ≡ (m.checks j).engaged)

other_id :
    (i j : ℕ) (a b : StateCheckId)
    → owner a ≡ i
    → owner b ≡ j
    → (i === j) ≡ false
    → (a === b) ≡ false
other_id i j a b p q h = elim (Bool-cases (a === b)) [
  | inl e ↦
      let same : a ≡ b = (===_iff a b).0 e in
      let equal : i ≡ j = cc (p, q, ap owner same) in ground (arith, eqb_iff i j, equal)
  | inr e ↦ e
]

-- After an event of one check, what holds of the others does.
on_changed-IsTold :
    (m : Manager) (i j : ℕ)
    → owner (m.checks i).id ≡ i
    → ((i === j) ≡ false → IsTold m j)
    → IsTold (on_changed i m) j
unfolding on_changed notify_client is_engaged
on_changed-IsTold m i j own others = elim (Bool-cases (i === j)) [
  | inl q ↦
      let same : i ≡ j = (===_iff i j).0 q in
      let mine : contains (update_set (m.checks i) m.engaged_checks_set) (m.checks i).id
          ≡ (m.checks i).engaged =
        rw
          (
            contains-update_set (m.checks i) m.engaged_checks_set (m.checks i).id,
            ===_refl (m.checks i).id,
          )
          refl in
      rw (← same) (own, mine)
  | inr q ↦
      let before : IsTold m j = others q in
      let apart : ((m.checks i).id === (m.checks j).id) ≡ false =
        other_id i j (m.checks i).id (m.checks j).id own before.0 q in
      rw (contains-update_set (m.checks i) m.engaged_checks_set (m.checks j).id, apart) before
]

IsReachable-IsTold :
    (m : Manager) (told : List ℕ) (j : ℕ) → IsReachable m told → contains told j ≡ true → IsTold m j
unfolding is_engaged contains
IsReachable-IsTold _ _ j (start checks) h = cc
IsReachable-IsTold _ _ j (changed m told i check r) h = elim (Bool-cases (i === j)) [
  | inl q ↦ absurd (ground (arith, contains-remove told i j))
  | inr q ↦ rw q (IsReachable-IsTold m told j r (ground (arith, contains-remove told i j)))
]
IsReachable-IsTold _ _ j (emitted m told i own r) h =
    on_changed-IsTold m i j own
      (λ q. IsReachable-IsTold m told j r (ground (arith, contains-add told i j)))

entries-filter :
    (m : Manager) (is : List ℕ)
    → map (engaged_entry m) (filter (is_engaged m) is)
      ≡ filter (λ (c : FeatureStateCheck). c.engaged) (map (entry m) is)
unfolding filter entry engaged_entry
entries-filter m [] = refl
entries-filter m (i ∷ is) = elim (Bool-cases (is_engaged m i)) [
  | inl q ↦ rw (q, entries-filter m is) refl
  | inr q ↦ rw (q, entries-filter m is) refl
]

-- The deprecated list of engaged checks has the entries of the list of all checks that are engaged.
pub engaged_checks-filter :
    (m : Manager) (feature : Feature)
    → (feature_state m feature).engaged_checks
      ≡ filter (λ (c : FeatureStateCheck). c.engaged) (feature_state m feature).all_checks
unfolding feature_state
engaged_checks-filter m feature = entries-filter m (m.precomputed_sorted_checks feature)

-- What a check says, with whether it is engaged: for a check that has emitted an event since it changed that it is now, for another
-- what the manager knows
abbrev pub true_entry : List ℕ → Manager → ℕ → FeatureStateCheck
true_entry told m i = record {
  check_id = (m.checks i).id;
  details = (m.checks i).details;
  context = (m.checks i).context;
  engaged = if contains told i then (m.checks i).engaged else is_engaged m i;
}

abbrev pub true_state : List ℕ → Manager → Feature → FeatureState
true_state told m feature =
    let entries = map (true_entry told m) (m.precomputed_sorted_checks feature) in
    record {
      feature_id = feature;
      engaged_checks = filter (λ (c : FeatureStateCheck). c.engaged) entries;
      all_checks = entries;
    }

entry-true :
    (m : Manager) (told : List ℕ) (i : ℕ) → IsReachable m told → entry m i ≡ true_entry told m i
unfolding entry
entry-true m told i r = elim (Bool-cases (contains told i)) [
  | inl q ↦ rw (q, (IsReachable-IsTold m told i r q).1) refl
  | inr q ↦ rw q refl
]

feature_state-true :
    (m : Manager) (told : List ℕ) (feature : Feature)
    → IsReachable m told
    → feature_state m feature ≡ true_state told m feature
unfolding feature_state
feature_state-true m told feature r =
    let sorted = m.precomputed_sorted_checks feature in
    let same : map (entry m) sorted ≡ map (true_entry told m) sorted =
      ap (λ (f : ℕ → FeatureStateCheck). map f sorted) (fun_ext λ i. entry-true m told i r) in
    rw (entries-filter m sorted, same) refl

-- If each check has ids of its own: whatever the checks did before, an event of one sends one notification to the client: for each
-- feature the checks in the precomputed order, with what they say, each of them engaged exactly if it is, if it has emitted an event
-- since it last changed, as the check of the event has; and the list of the engaged ones.
pub on_changed-notified :
    (m : Manager) (told : List ℕ) (i : ℕ)
    → IsReachable m told
    → owner (m.checks i).id ≡ i
    → let after = on_changed i m in
      after.notified
      ≡ m.notified
        ++ map (true_state (add told i) after) (authentication ∷ code_suggestions ∷ chat ∷ []) ∷ []
unfolding on_changed notify_client state
on_changed-notified m told i r own =
    let after = on_changed i m in
    let shown = record m { engaged_checks_set = update_set (m.checks i) m.engaged_checks_set } in
    let same : (f : Feature) → feature_state shown f ≡ true_state (add told i) after f = λ f.
      (unfold feature_state entry engaged_entry is_engaged in
        feature_state-true after (add told i) f (emitted m told i own r)) in
    ap (λ (states : List FeatureState). m.notified ++ states ∷ [])
      (rw (same authentication, same code_suggestions, same chat) refl)

language_owner : (c : LanguageCheck) → owner (state_check c).id ≡ 4
unfolding state_check Language.id_of
language_owner c = elim (Bool-cases (c.is_language_supported && not c.is_language_enabled)) [
  | inl q ↦ rw q refl
  | inr q ↦ rw q refl
]

-- When the language check has changed to a document, whatever its documents and the other checks were
-- before, and has emitted its event, its entry is engaged exactly if the language is not enabled, as the disabled
-- language if it is supported and as an unsupported one otherwise.
pub language-entry :
    (is_enabled is_supported : String → Bool) (c : LanguageCheck) (language : String) (m : Manager)
    → let check = state_check (update_with_document is_enabled is_supported language c) in
      let after = on_changed 4 (with_check 4 check m) in
      ((entry after 4).engaged ≡ not (is_enabled language))
      × ((entry after 4).check_id ≡ (
          if is_supported language && not (is_enabled language)
          then disabled_language
          else unsupported_language))
unfolding on_changed notify_client entry update_with_document Language.update
    Language.check_language_of state_check Language.engaged Language.id_of
language-entry is_enabled is_supported c language m =
    let check = state_check (update_with_document is_enabled is_supported language c) in
    let owned : owner check.id ≡ 4 =
      language_owner (update_with_document is_enabled is_supported language c) in
    ((on_changed-IsTold (with_check 4 check m) 4 4 owned (λ q. cc)).1, refl)
