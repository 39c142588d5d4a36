-- ===== src/Streaming.antt =====
-- `src/common/suggestion/streaming_handler.ts`: the life of one stream, from `startStream` on. Its
-- events are the items of the stream, the tasks of the queue, the post-processing that ends, and the
-- notification that cancels. The post-processors are the parameter `process`; whether the circuit
-- breaker is open comes with the event that asks. The handler is assumed to be initialized. Log lines and
-- the request's fields are left out.
pub mod Cancelling
pub mod Ending
pub mod Once
pub mod Reports
pub mod Runs
pub mod Still
mod Tests
use khulnasoft_lsp.Base.{
  ℕ, zero, suc, ◌+◌, ◌-◌, Bool, true, false, not, List, [], ◌∷◌, ◌++◌, Option, none, some, ◌&&◌,
  ◌||◌, if◌then◌else◌, JsText, has_text, String,
}
use khulnasoft_lsp.Tracking.Events.{
  TrackingEvent, stream_started, stream_completed, shown, not_provided, rejected, cancelled,
  errored,
}

-- What the stream sends to the client: a completion, or that it is done.
pub data Response : Type 0 where
  completion : JsText → Response
  done : Response

-- What is told to the tracker about the suggestion: an event, the status of a failed request, or the
-- model that answers.
pub data Report : Type 0 where
  event : TrackingEvent → Report
  status : ℕ → Report
  model : Option String → Report

pub data BreakerCall : Type 0 where
  success error : BreakerCall

-- The variables of one call of `startStream`. `waiting` is the number of tasks in the queue, which are all
-- alike, and `running` the completion that the task in progress waits for. `legacy` is what the loop
-- over the stream waits for: the post-processing of a completion, if it has not returned before.
pub record Stream : Type 0 where
  pub stream_shown : Bool
  pub suggestion_provided : Bool
  pub stream_cancelled_or_errored : Bool
  pub is_cancellation_requested : Bool
  pub is_stoppable : Bool
  pub started_once : Bool
  pub shown_once : Bool
  pub sse_buffer : JsText
  pub legacy_buffer : JsText
  pub waiting : ℕ
  pub running : Option JsText
  pub legacy : Option (Option JsText)
  pub reports : List Report
  pub responses : List Response
  pub breaker_calls : List BreakerCall

-- `startStream` up to the request.
unfoldable pub start_stream : Stream
start_stream = record {
  stream_shown = false;
  suggestion_provided = false;
  stream_cancelled_or_errored = false;
  is_cancellation_requested = false;
  is_stoppable = true;
  started_once = false;
  shown_once = false;
  sse_buffer = [];
  legacy_buffer = [];
  waiting = 0;
  running = none;
  legacy = none;
  reports = [];
  responses = [];
  breaker_calls = success ∷ [];
}

unfoldable pub report : Report → Stream → Stream
report r s = record s { reports = s.reports ++ r ∷ [] }

unfoldable pub send_streaming_response : Response → Stream → Stream
send_streaming_response r s = record s { responses = s.responses ++ r ∷ [] }

-- `trackStreamStarted`, a function that lodash's `once` wraps.
unfoldable pub track_stream_started : Stream → Stream
unfolding report
track_stream_started s =
    if s.started_once then s else record (report (event stream_started) s) { started_once = true }

unfoldable pub track_stream_shown : Stream → Stream
unfolding report
track_stream_shown s =
    if s.shown_once
    then s
    else record (report (event shown) s) { shown_once = true; stream_shown = true }

unfoldable pub update_suggestion_provided : Bool → Stream → Stream
update_suggestion_provided provided s = record s { suggestion_provided = provided }

-- `endStream`
unfoldable pub end_stream : Stream → Stream
unfolding send_streaming_response report
end_stream s =
    let sent = send_streaming_response done s in
    if s.stream_cancelled_or_errored
    then sent
    else let completed = report (event stream_completed) sent in
      if s.suggestion_provided then completed else report (event not_provided) completed

-- `if (isFetchError(err)) …`: the status of a fetch error.
abbrev pub report_status : Option ℕ → Stream → Stream
report_status none s = s
report_status (some code) s = record s { reports = s.reports ++ status code ∷ [] }

-- `handleError`
unfoldable pub handle_error : Option ℕ → Stream → Stream
unfolding report
handle_error code s =
    record (report (event errored)
      (report_status code (record s { breaker_calls = s.breaker_calls ++ error ∷ [] }))) {
        stream_cancelled_or_errored = true;
      }

-- The listener of `#onStreamCancellation`.
unfoldable pub cancel : Stream → Stream
unfolding report
cancel s =
    report (event (if s.stream_shown then rejected else cancelled))
      (record s { stream_cancelled_or_errored = true; is_cancellation_requested = true })

-- `notificationHandler`: without a listener there is a warning only.
unfoldable pub notification_handler : Stream → Stream
unfolding cancel
notification_handler s = if s.is_stoppable then cancel s else s

-- `#handleStreamNotification` up to its `await`: the completion that it waits for, if it does.
unfoldable pub begin_notification : Bool → JsText → Stream → Option JsText × Stream
unfolding track_stream_started
begin_notification is_open buffer s =
    if s.is_cancellation_requested || is_open
    then (none, s)
    else (some buffer, track_stream_started s)

-- The data of an event of the stream, as it is parsed.
pub data SseData : Type 0 where
  unparsable invalid : SseData
  stream_start : Option String → SseData
  content_chunk : Option (List JsText) → SseData
  stream_end : SseData

-- `for (const choice of event.data.choices) { sseBuffer += choice.delta.content; }`
abbrev pub append_choices : JsText → List JsText → JsText
append_choices buffer [] = buffer
append_choices buffer (content ∷ choices) = append_choices (buffer ++ content) choices

unfoldable pub queue_notification : Stream → Stream
queue_notification s = record s { waiting = suc s.waiting }

-- The parser has the value that `streamCancelledOrErrored` had when it was created: false.
unfoldable pub show_chunk : Stream → Stream
unfolding track_stream_shown update_suggestion_provided
show_chunk s =
    if has_text s.sse_buffer && not false
    then update_suggestion_provided true (track_stream_shown s)
    else s

-- `onEvent` of the parser.
unfoldable pub on_event : SseData → Stream → Stream
unfolding handle_error end_stream report queue_notification show_chunk update_suggestion_provided
on_event unparsable s = end_stream (handle_error none s)
on_event invalid s = s
on_event (stream_start name) s = queue_notification (report (model name) s)
on_event (content_chunk none) s = queue_notification s
on_event (content_chunk (some choices)) s =
    queue_notification (show_chunk (record s { sse_buffer = append_choices s.sse_buffer choices }))
on_event stream_end s = queue_notification (update_suggestion_provided true s)

-- What can happen to a stream. `task_started`, `item_received` and so on say whether the breaker is open.
pub data Event : Type 0 where
  sse_received : SseData → Event
  task_started : Bool → Event
  task_finished legacy_finished : Event
  item_received : JsText → Bool → Event
  failed : Option ℕ → Event
  cancel_received ended : Event

unfoldable pub run_task : Option JsText × Stream → Stream
run_task (waits, s) = record s { running = waits }

-- The queue starts its next task when none is in progress.
unfoldable pub start_task : Bool → ℕ → Option JsText → Stream → Stream
unfolding begin_notification run_task
start_task is_open (suc rest) none s =
    run_task (begin_notification is_open s.sse_buffer (record s { waiting = rest }))
start_task is_open _ _ s = s

unfoldable pub wait_legacy : Option JsText × Stream → Stream
wait_legacy (waits, s) = record s { legacy = some waits }

-- An item of the stream that is not of server-sent events, when the loop asks for the next one.
unfoldable pub receive_item : JsText → Bool → Option (Option JsText) → Stream → Stream
unfolding begin_notification wait_legacy
receive_item chunk is_open (some _) s = s
receive_item chunk is_open none s =
    let buffer = s.legacy_buffer ++ chunk in
    wait_legacy (begin_notification is_open buffer (record s { legacy_buffer = buffer }))

-- The rest of the loop's body.
unfoldable pub show_item : Stream → Stream
unfolding track_stream_shown update_suggestion_provided
show_item s =
    if has_text s.legacy_buffer && not s.stream_cancelled_or_errored
    then update_suggestion_provided true (track_stream_shown s)
    else s

-- `queue.onIdle()`, and the loop that is over.
abbrev pub is_idle : ℕ → Option JsText → Option (Option JsText) → Bool
is_idle zero none none = true
is_idle _ _ _ = false

-- The `finally` block.
unfoldable pub end_when_idle : Stream → Stream
unfolding end_stream
end_when_idle s =
    if is_idle s.waiting s.running s.legacy
    then record (end_stream s) { is_stoppable = false }
    else s

module _ (process : JsText → JsText) where
  unfoldable pub finish : Option JsText → Stream → Stream
  unfolding send_streaming_response
  finish none s = s
  finish (some buffer) s = send_streaming_response (completion (process buffer)) s

  unfoldable pub finish_task : Stream → Stream
  unfolding finish
  finish_task s = finish s.running (record s { running = none })

  unfoldable pub finish_item : Option (Option JsText) → Stream → Stream
  unfolding finish show_item
  finish_item none s = s
  finish_item (some waits) s = show_item (finish waits (record s { legacy = none }))

  unfoldable pub step_open : Event → Stream → Stream
  unfolding on_event start_task finish_task receive_item finish_item handle_error
      notification_handler end_when_idle
  step_open (sse_received sse) s = on_event sse s
  step_open (task_started is_open) s = start_task is_open s.waiting s.running s
  step_open task_finished s = finish_task s
  step_open (item_received chunk is_open) s = receive_item chunk is_open s.legacy s
  step_open legacy_finished s = finish_item s.legacy s
  step_open (failed code) s = handle_error code s
  step_open cancel_received s = notification_handler s
  step_open ended s = end_when_idle s

  -- When the stream has ended nothing more happens.
  unfoldable pub step : Event → Stream → Stream
  unfolding step_open
  step e s = if s.is_stoppable then step_open e s else s

  unfoldable pub run : List Event → Stream → Stream
  unfolding step
  run [] s = s
  run (e ∷ es) s = run es (step e s)
