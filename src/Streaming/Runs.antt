-- ===== src/Streaming/Runs.antt =====
-- The reports of a stream, whatever happens to it.
use khulnasoft_lsp.Base.{
  ◌+◌, ◌≤◌, Bool, true, false, List, [], ◌∷◌, ◌++◌, Option, none, some, if◌then◌else◌, JsText, ◌≡◌,
  refl, arith,
}
use khulnasoft_lsp.Tracking.Events.{stream_started, stream_completed, shown, not_provided}
use khulnasoft_lsp.Streaming.{
  done, Report, event, Stream, start_stream, report, send_streaming_response, end_stream, cancel,
  notification_handler, Event, sse_received, task_started, task_finished, legacy_finished,
  item_received, failed, cancel_received, ended, finish, finish_task, finish_item, is_idle,
  step_open, step, run,
}
use khulnasoft_lsp.Streaming.Once.{count, count-append, once, IsConsistent, start-IsConsistent}
use khulnasoft_lsp.Streaming.Reports.{
  on_event-IsConsistent, start_task-IsConsistent, receive_item-IsConsistent,
  handle_error-IsConsistent, cancel-IsConsistent, show_item-IsConsistent, if-IsConsistent,
}

-- No more than one report of each, and not both that it was shown and that it was not provided.
abbrev pub IsBounded : List Report → Type 0
IsBounded rs =
    (count stream_started rs ≤ 1)
    × ((count stream_completed rs ≤ 1) × (count shown rs + count not_provided rs ≤ 1))

once_le : (b : Bool) → once b ≤ 1
once_le true = omega arith
once_le false = omega arith

IsConsistent-IsBounded : (s : Stream) → IsConsistent s → IsBounded s.reports
IsConsistent-IsBounded s c = (
  omega (arith, c.started, once_le s.started_once),
  (omega (arith, c.completed), omega (arith, c.seen, c.missed, once_le s.shown_once)),
)

-- What a run keeps: it is consistent until it ends.
abbrev pub IsKept : Stream → Type 0
IsKept s = (s.is_stoppable ≡ true → IsConsistent s) × IsBounded s.reports

pub kept : (s : Stream) → IsConsistent s → IsKept s
kept s c = ((λ h. c), IsConsistent-IsBounded s c)

end-IsBounded : (s : Stream) → IsConsistent s → IsBounded (end_stream s).reports
unfolding end_stream send_streaming_response report count
end-IsBounded s c = go s.stream_cancelled_or_errored s.suggestion_provided refl
  where
    rs : List Report
    rs = s.reports

    e : List Report
    e = event stream_completed ∷ []

    f : List Report
    f = event not_provided ∷ []

    sent : Stream
    sent = send_streaming_response done s

    last : Stream
    last = report (event stream_completed) sent

    go :
        (flag provided : Bool)
        → s.suggestion_provided ≡ provided
        → IsBounded
            (if flag
              then sent
              else (if provided then last else report (event not_provided) last)).reports
    go true p q = IsConsistent-IsBounded s c
    go false true q = (
      omega (arith, c.started, once_le s.started_once, count-append stream_started rs e),
      (
        omega (arith, c.completed, count-append stream_completed rs e),
        omega (
          arith,
          c.seen,
          c.missed,
          once_le s.shown_once,
          count-append shown rs e,
          count-append not_provided rs e,
        ),
      ),
    )
    go false false q =
        let unseen : s.shown_once ≡ false = ground (arith, c.provided) in
        let hidden : count shown rs ≡ 0 = rw unseen at c.seen in
        (
          omega (
            arith,
            c.started,
            once_le s.started_once,
            count-append stream_started rs e,
            count-append stream_started (rs ++ e) f,
          ),
          (
            omega (
              arith,
              c.completed,
              count-append stream_completed rs e,
              count-append stream_completed (rs ++ e) f,
            ),
            omega (
              arith,
              hidden,
              c.missed,
              count-append shown rs e,
              count-append shown (rs ++ e) f,
              count-append not_provided rs e,
              count-append not_provided (rs ++ e) f,
            ),
          ),
        )

module _ (process : JsText → JsText) where
  finish-IsConsistent :
      (o : Option JsText) (s : Stream) → IsConsistent s → IsConsistent (finish process o s)
  unfolding finish send_streaming_response
  finish-IsConsistent none s c = c
  finish-IsConsistent (some buffer) s c = c

  finish_item-IsConsistent :
      (o : Option (Option JsText)) (s : Stream)
      → IsConsistent s
      → IsConsistent (finish_item process o s)
  unfolding finish_item
  finish_item-IsConsistent none s c = c
  finish_item-IsConsistent (some waits) s c =
      show_item-IsConsistent (finish process waits (record s { legacy = none }))
        (finish-IsConsistent waits (record s { legacy = none }) c)

  step-IsKept : (e : Event) (s : Stream) → IsKept s → IsKept (step process e s)
  unfolding step step_open finish_task notification_handler
  step-IsKept e s k = go s.is_stoppable refl
    where
      end_step :
          IsConsistent s
          → (b : Bool) → IsKept (if b then record (end_stream s) { is_stoppable = false } else s)
      end_step c true = ((λ h. cc), end-IsBounded s c)
      end_step c false = k

      open_step :
          (e : Event) → IsConsistent s → s.is_stoppable ≡ true → IsKept (step_open process e s)
      open_step (sse_received sse) c q =
          kept (step_open process (sse_received sse) s) (on_event-IsConsistent sse s c)
      open_step (task_started is_open) c q =
          kept (step_open process (task_started is_open) s)
            (start_task-IsConsistent is_open s.waiting s.running s c)
      open_step task_finished c q =
          kept (step_open process task_finished s)
            (finish-IsConsistent s.running (record s { running = none }) c)
      open_step (item_received chunk is_open) c q =
          kept (step_open process (item_received chunk is_open) s)
            (receive_item-IsConsistent chunk is_open s.legacy s c)
      open_step legacy_finished c q =
          kept (step_open process legacy_finished s) (finish_item-IsConsistent s.legacy s c)
      open_step (failed code) c q =
          kept (step_open process (failed code) s) (handle_error-IsConsistent code s c)
      open_step cancel_received c q =
          kept (step_open process cancel_received s)
            (if-IsConsistent s.is_stoppable (cancel s) s (λ h. cancel-IsConsistent s c) (λ h. c))
      open_step ended c q = end_step c (is_idle s.waiting s.running s.legacy)

      go : (b : Bool) → s.is_stoppable ≡ b → IsKept (if b then step_open process e s else s)
      go true q = open_step e (k.0 q) q
      go false q = k

  pub run-IsKept : (es : List Event) (s : Stream) → IsKept s → IsKept (run process es s)
  unfolding run
  run-IsKept [] s k = k
  run-IsKept (e ∷ es) s k = run-IsKept es (step process e s) (step-IsKept e s k)

  -- Whatever happens to a stream, that it started, that it was shown and that it completed is reported at
  -- most once each, and never both that it was shown and that it was not provided.
  pub run-IsBounded : (es : List Event) → IsBounded (run process es start_stream).reports
  run-IsBounded es = (run-IsKept es start_stream (kept start_stream start-IsConsistent)).1
