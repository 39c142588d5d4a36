-- ===== src/Streaming/Cancelling.antt =====
-- What a stream still does after it is cancelled.
use khulnasoft_lsp.Base.{
  ◌+◌, ◌≤◌, true, false, not, List, [], ◌∷◌, ◌++◌, Option, none, some, ◌&&◌, if◌then◌else◌, JsText,
  has_text, ◌≡◌, refl, arith, ap,
}
use khulnasoft_lsp.Tracking.Events.{shown, cancelled}
use khulnasoft_lsp.Streaming.{
  completion, event, Stream, report, send_streaming_response, track_stream_shown,
  update_suggestion_provided, end_stream, handle_error, cancel, notification_handler, content_chunk,
  queue_notification, show_chunk, on_event, Event, sse_received, task_started, task_finished,
  legacy_finished, item_received, failed, cancel_received, ended, finish, finish_task, show_item,
  finish_item, is_idle, end_when_idle, step_open, step, run,
}
use khulnasoft_lsp.Streaming.Still.{
  completions, completions-push, awaited, awaited_item, begun, IsStill, track_shown-IsStill,
  if-IsStill, end-IsStill, start_task-IsStill, receive_item-IsStill, on_event-IsStill,
}

chunk-shown :
    (s : Stream) (content : JsText)
    → s.shown_once ≡ false
    → has_text (s.sse_buffer ++ content) ≡ true
    → (on_event (content_chunk (some (content ∷ []))) s).reports ≡ s.reports ++ event shown ∷ []
unfolding on_event queue_notification show_chunk track_stream_shown update_suggestion_provided
    report
chunk-shown s content c d = rw (d, c) refl

cancel-reports :
    (s : Stream) → s.stream_shown ≡ false → (cancel s).reports ≡ s.reports ++ event cancelled ∷ []
unfolding cancel report
cancel-reports s h = rw h refl

module _ (process : JsText → JsText) where
  step-open :
      (e : Event) (s : Stream) → s.is_stoppable ≡ true → step process e s ≡ step_open process e s
  unfolding step
  step-open e s h = rw h refl

  cancel-step : (s : Stream) → s.is_stoppable ≡ true → step process cancel_received s ≡ cancel s
  unfolding step_open notification_handler
  cancel-step s h = rw (step-open cancel_received s h, h) refl

  -- When a stream that has shown nothing is cancelled, a chunk with text that comes after it is still
  -- reported as shown, after the report that the stream was cancelled.
  pub shown_after_cancel :
      (s : Stream) (content : JsText)
      → s.is_stoppable ≡ true
      → s.stream_shown ≡ false
      → s.shown_once ≡ false
      → has_text (s.sse_buffer ++ content) ≡ true
      → (run process
          (cancel_received ∷ sse_received (content_chunk (some (content ∷ []))) ∷ [])
          s).reports
        ≡ (s.reports ++ event cancelled ∷ []) ++ event shown ∷ []
  unfolding run step_open
  shown_after_cancel s content a b c d =
      let chunk = sse_received (content_chunk (some (content ∷ []))) in
      let open_ : (cancel s).is_stoppable ≡ true = a in
      rw (cancel-step s a, step-open chunk (cancel s) open_, ← cancel-reports s b)
        (chunk-shown (cancel s) content c d)

  finish-begun :
      (o : Option JsText) (s : Stream)
      → completions (finish process o s).responses ≡ completions s.responses + awaited o
  unfolding finish send_streaming_response completions
  finish-begun none s = omega arith
  finish-begun (some t) s = completions-push s.responses (completion (process t))

  finish-same :
      (o : Option JsText) (s : Stream)
      → ((finish process o s).is_cancellation_requested ≡ s.is_cancellation_requested)
        × (((finish process o s).running ≡ s.running) × ((finish process o s).legacy ≡ s.legacy))
  unfolding finish send_streaming_response
  finish-same none s = (refl, (refl, refl))
  finish-same (some t) s = (refl, (refl, refl))

  finish_task-IsStill :
      (s : Stream) → s.is_cancellation_requested ≡ true → IsStill s (finish_task process s)
  unfolding finish_task
  finish_task-IsStill s h =
      let idle : Stream = record s { running = none } in
      let (f, (g, k)) = finish-same s.running idle in
      (rw f h, rw (g, k) (omega (arith, finish-begun s.running idle)))

  show_item-IsStill : (s : Stream) → s.is_cancellation_requested ≡ true → IsStill s (show_item s)
  unfolding show_item
  show_item-IsStill s h =
      if-IsStill (has_text s.legacy_buffer && not s.stream_cancelled_or_errored) s
        (update_suggestion_provided true (track_stream_shown s)) s
        (track_shown-IsStill s (h, omega arith)) (h, omega arith)

  finish_item-IsStill :
      (o : Option (Option JsText)) (s : Stream)
      → s.legacy ≡ o
      → s.is_cancellation_requested ≡ true
      → IsStill s (finish_item process o s)
  unfolding finish_item
  finish_item-IsStill none s q h = (h, omega arith)
  finish_item-IsStill (some waits) s q h =
      let free : Stream = record s { legacy = none } in
      let sent : Stream = finish process waits free in
      let (f, (g, k)) = finish-same waits free in
      let still : IsStill sent (show_item sent) = show_item-IsStill sent (rw f h) in
      let whole : begun sent ≤ begun s = rw (g, k, q) (omega (arith, finish-begun waits free)) in
      (still.0, omega (arith, still.1, whole))

  step_open-IsStill :
      (e : Event) (s : Stream)
      → s.is_cancellation_requested ≡ true
      → IsStill s (step_open process e s)
  unfolding step_open notification_handler cancel report handle_error end_when_idle
  step_open-IsStill (sse_received sse) s h = on_event-IsStill sse s h
  step_open-IsStill (task_started is_open) s h =
      start_task-IsStill is_open s.waiting s.running s h refl
  step_open-IsStill task_finished s h = finish_task-IsStill s h
  step_open-IsStill (item_received chunk is_open) s h =
      receive_item-IsStill chunk is_open s.legacy s h
  step_open-IsStill legacy_finished s h = finish_item-IsStill s.legacy s refl h
  step_open-IsStill (failed none) s h = (h, omega arith)
  step_open-IsStill (failed (some code)) s h = (h, omega arith)
  step_open-IsStill cancel_received s h =
      if-IsStill s.is_stoppable s (cancel s) s (refl, omega arith) (h, omega arith)
  step_open-IsStill ended s h =
      if-IsStill (is_idle s.waiting s.running s.legacy) s
        (record (end_stream s) { is_stoppable = false }) s (end-IsStill s h) (h, omega arith)

  run-IsStill :
      (es : List Event) (s : Stream)
      → s.is_cancellation_requested ≡ true
      → begun (run process es s) ≤ begun s
  unfolding run step
  run-IsStill [] s h = omega arith
  run-IsStill (e ∷ es) s h =
      let still : IsStill s (if s.is_stoppable then step_open process e s else s) =
        if-IsStill s.is_stoppable s (step_open process e s) s (step_open-IsStill e s h)
          (h, omega arith) in
      omega (arith, run-IsStill es (step process e s) still.0, still.1)

  run-cancel :
      (es : List Event) (s : Stream)
      → s.is_stoppable ≡ true
      → run process (cancel_received ∷ es) s ≡ run process es (cancel s)
  unfolding run
  run-cancel es s h = ap (run process es) (cancel-step s h)

  still_after :
      (es : List Event) (s : Stream) → completions (run process es (cancel s)).responses ≤ begun s
  unfolding cancel report
  still_after es s = omega (arith, run-IsStill es (cancel s) refl)

  -- After a stream is cancelled, whatever happens, no completion is sent but those whose
  -- post-processing had begun before.
  pub cancelled-begun :
      (es : List Event) (s : Stream)
      → s.is_stoppable ≡ true
      → completions (run process (cancel_received ∷ es) s).responses
        ≤ completions s.responses + awaited s.running + awaited_item s.legacy
  cancelled-begun es s h = rw (run-cancel es s h) (still_after es s)
