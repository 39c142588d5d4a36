-- ===== src/FeatureState/Tests.antt =====
-- The theorem on checks that are not engaged at first.
use khulnasoft_lsp.Base.{
  ℕ, true, false, [], ◌∷◌, none, add, remove, map, ◌++◌, number_key, text_key, ◌≡◌, refl,
}
use khulnasoft_lsp.FeatureState.Checks.{
  StateCheck, authentication_required, authentication, code_suggestions, chat,
}
use khulnasoft_lsp.FeatureState.Manager.{Manager, new, notify_client, on_changed}
use khulnasoft_lsp.FeatureState.Manager.Engaged.{
  with_check, IsReachable, start, changed, emitted, true_state, on_changed-notified,
}

-- The check for authentication, in the place of every check.
abbrev calm : ℕ → StateCheck
calm i = record { id = authentication_required; engaged = false; details = none; context = none }

-- The API is no longer reachable.
abbrev alarmed : StateCheck
alarmed = record { id = authentication_required; engaged = true; details = none; context = none }

-- The manager knows that the API is no longer reachable; then it is again, without an event yet.
abbrev knowing : Manager
knowing = with_check 0 (calm 0) (on_changed 0 (with_check 0 alarmed (new calm)))

knowing-IsReachable : IsReachable knowing (remove (add (remove [] 0) 0) 0)
unfolding new on_changed notify_client
knowing-IsReachable =
    changed (on_changed 0 (with_check 0 alarmed (new calm))) (add (remove [] 0) 0) 0 (calm 0) (
      emitted (with_check 0 alarmed (new calm)) (remove [] 0) 0 refl
        (changed (new calm) [] 0 alarmed (start calm)))

on_changed-notified_example :
    (on_changed 0 knowing).notified
    ≡ knowing.notified
      ++ map
          (true_state (add (remove (add (remove [] 0) 0) 0) 0) (on_changed 0 knowing))
          (authentication ∷ code_suggestions ∷ chat ∷ [])
        ∷ []
unfolding new on_changed notify_client
on_changed-notified_example =
    on_changed-notified knowing (remove (add (remove [] 0) 0) 0) 0 knowing-IsReachable refl
