-- ===== src/Streaming/Once.antt =====
-- How often each event of the suggestion is reported in one stream.
use khulnasoft_lsp.Base.{
  ℕ, suc, ◌+◌, Bool, true, false, List, [], ◌∷◌, ◌++◌, if◌then◌else◌, ◌≡◌, refl, arith,
}
use khulnasoft_lsp.Tracking.Events.{
  TrackingEvent, is_event, stream_started, stream_completed, shown, not_provided, rejected,
  cancelled, errored,
}
use khulnasoft_lsp.Streaming.{Report, event, status, model, Stream, start_stream}

-- How often the event was reported.
unfoldable pub count : TrackingEvent → List Report → ℕ
count e [] = 0
count e (event f ∷ rs) = if is_event e f then suc (count e rs) else count e rs
count e (status code ∷ rs) = count e rs
count e (model name ∷ rs) = count e rs

pub count-append :
    (e : TrackingEvent) (rs ts : List Report) → count e (rs ++ ts) ≡ count e rs + count e ts
unfolding count
count-append e [] ts = omega arith
count-append e (event f ∷ rs) ts = ground (arith, count-append e rs ts)
count-append e (status code ∷ rs) ts = count-append e rs ts
count-append e (model name ∷ rs) ts = count-append e rs ts

-- One, for true.
abbrev pub once : Bool → ℕ
once true = 1
once false = 0

-- What the variables of a stream that has not ended say of what was reported.
pub record Consistent (started_once shown_once stream_shown suggestion_provided flag : Bool)
    (reports : List Report) : Type 0 where
  pub started : count stream_started reports ≡ once started_once
  pub seen : count shown reports ≡ once shown_once
  pub same : stream_shown ≡ shown_once
  pub provided : shown_once ≡ true → suggestion_provided ≡ true
  pub completed : count stream_completed reports ≡ 0
  pub missed : count not_provided reports ≡ 0
  pub faultless :
      flag ≡ false → count errored reports + count cancelled reports + count rejected reports ≡ 0

abbrev pub IsConsistent : Stream → Type 0
IsConsistent s =
    Consistent s.started_once s.shown_once s.stream_shown s.suggestion_provided
      s.stream_cancelled_or_errored s.reports

pub start-IsConsistent : IsConsistent start_stream
unfolding start_stream count
start-IsConsistent = record {
  started = refl;
  seen = refl;
  same = refl;
  provided = λ h. cc;
  completed = refl;
  missed = refl;
  faultless = λ h. refl;
}
