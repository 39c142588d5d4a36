-- ===== src/Streaming/Reports.antt =====
-- Each part of a step keeps what the variables say of the reports.
use khulnasoft_lsp.Base.{
  ℕ, zero, suc, ◌+◌, Bool, true, false, not, List, [], ◌∷◌, ◌++◌, Option, none, some, ◌&&◌, ◌||◌,
  if◌then◌else◌, JsText, has_text, ◌≡◌, refl, arith,
}
use khulnasoft_lsp.Tracking.Events.{
  TrackingEvent, stream_started, stream_completed, shown, not_provided, rejected, cancelled,
  errored,
}
use khulnasoft_lsp.Streaming.{
  error, Report, event, status, model, Stream, report, send_streaming_response,
  track_stream_started, track_stream_shown, update_suggestion_provided, end_stream, handle_error,
  cancel, begin_notification, SseData, unparsable, invalid, stream_start, content_chunk, stream_end,
  append_choices, queue_notification, show_chunk, on_event, run_task, start_task, wait_legacy,
  receive_item, show_item,
}
use khulnasoft_lsp.Streaming.Once.{count, count-append, IsConsistent}

-- A report of a fault, which raises the flag.
fault-IsConsistent :
    (e : TrackingEvent) (s : Stream)
    → count stream_started (event e ∷ [])
        + count shown (event e ∷ [])
        + count stream_completed (event e ∷ [])
        + count not_provided (event e ∷ [])
      ≡ 0
    → IsConsistent s
    → IsConsistent (record (report (event e) s) { stream_cancelled_or_errored = true })
unfolding report
fault-IsConsistent e s q c = record {
  started = ground (arith, c.started, q, count-append stream_started s.reports (event e ∷ []));
  seen = ground (arith, c.seen, q, count-append shown s.reports (event e ∷ []));
  same = c.same;
  provided = c.provided;
  completed =
      ground (arith, c.completed, q, count-append stream_completed s.reports (event e ∷ []));
  missed = ground (arith, c.missed, q, count-append not_provided s.reports (event e ∷ []));
  faultless = λ h. cc;
}

-- The status and the model are no events.
note-IsConsistent :
    (r : Report) (s : Stream)
    → ((e : TrackingEvent) → count e (r ∷ []) ≡ 0)
    → IsConsistent s
    → IsConsistent (report r s)
unfolding report
note-IsConsistent r s q c = record {
  started =
      ground (arith, c.started, q stream_started, count-append stream_started s.reports (r ∷ []));
  seen = ground (arith, c.seen, q shown, count-append shown s.reports (r ∷ []));
  same = c.same;
  provided = c.provided;
  completed =
      ground
        (arith, c.completed, q stream_completed, count-append stream_completed s.reports (r ∷ []));
  missed = ground (arith, c.missed, q not_provided, count-append not_provided s.reports (r ∷ []));
  faultless = λ h. ground (
    arith,
    c.faultless h,
    q errored,
    q cancelled,
    q rejected,
    count-append errored s.reports (r ∷ []),
    count-append cancelled s.reports (r ∷ []),
    count-append rejected s.reports (r ∷ []),
  );
}

pub if-IsConsistent :
    (b : Bool) (s t : Stream)
    → (b ≡ true → IsConsistent s)
    → (b ≡ false → IsConsistent t)
    → IsConsistent (if b then s else t)
if-IsConsistent true s t h g = h refl
if-IsConsistent false s t h g = g refl

started-IsConsistent : (s : Stream) → IsConsistent s → IsConsistent (track_stream_started s)
unfolding track_stream_started report count
started-IsConsistent s c =
    let rs = s.reports in
    let e = event stream_started ∷ [] in
    if-IsConsistent s.started_once s
      (record (report (event stream_started) s) { started_once = true }) (λ q. c)
      λ q. record {
        started = ground (arith, c.started, q, count-append stream_started rs e);
        seen = ground (arith, c.seen, count-append shown rs e);
        same = c.same;
        provided = c.provided;
        completed = ground (arith, c.completed, count-append stream_completed rs e);
        missed = ground (arith, c.missed, count-append not_provided rs e);
        faultless = λ h. ground (
          arith,
          c.faultless h,
          count-append errored rs e,
          count-append cancelled rs e,
          count-append rejected rs e,
        );
      }

provided-IsConsistent :
    (s : Stream) → IsConsistent s → IsConsistent (update_suggestion_provided true s)
unfolding update_suggestion_provided
provided-IsConsistent s c = record {
  started = c.started;
  seen = c.seen;
  same = c.same;
  provided = λ h. refl;
  completed = c.completed;
  missed = c.missed;
  faultless = c.faultless;
}

-- A suggestion that is shown is provided.
shown-IsConsistent :
    (s : Stream)
    → IsConsistent s
    → IsConsistent (update_suggestion_provided true (track_stream_shown s))
unfolding track_stream_shown report count update_suggestion_provided
shown-IsConsistent s c = go s.shown_once refl
  where
    rs : List Report
    rs = s.reports

    e : List Report
    e = event shown ∷ []

    told : Stream
    told = record (report (event shown) s) { shown_once = true; stream_shown = true }

    go :
        (b : Bool)
        → s.shown_once ≡ b
        → IsConsistent (update_suggestion_provided true (if b then s else told))
    go true q = provided-IsConsistent s c
    go false q = record {
      started = ground (arith, c.started, count-append stream_started rs e);
      seen = ground (arith, c.seen, q, count-append shown rs e);
      same = refl;
      provided = λ h. refl;
      completed = ground (arith, c.completed, count-append stream_completed rs e);
      missed = ground (arith, c.missed, count-append not_provided rs e);
      faultless = λ h. ground (
        arith,
        c.faultless h,
        count-append errored rs e,
        count-append cancelled rs e,
        count-append rejected rs e,
      );
    }

pub handle_error-IsConsistent :
    (code : Option ℕ) (s : Stream) → IsConsistent s → IsConsistent (handle_error code s)
unfolding handle_error report count
handle_error-IsConsistent none s c =
    fault-IsConsistent errored (record s { breaker_calls = s.breaker_calls ++ error ∷ [] }) refl c
handle_error-IsConsistent (some code) s c =
    let called = record s { breaker_calls = s.breaker_calls ++ error ∷ [] } in
    fault-IsConsistent errored (report (status code) called) refl
      (note-IsConsistent (status code) called (λ e. refl) c)

pub cancel-IsConsistent : (s : Stream) → IsConsistent s → IsConsistent (cancel s)
unfolding cancel report count
cancel-IsConsistent s c = go s.stream_shown
  where
    raised : Stream
    raised = record s { is_cancellation_requested = true }

    go :
        (b : Bool)
        → IsConsistent (record (report (event (if b then rejected else cancelled)) raised) {
          stream_cancelled_or_errored = true;
        })
    go true = fault-IsConsistent rejected raised refl c
    go false = fault-IsConsistent cancelled raised refl c

begin-IsConsistent :
    (is_open : Bool) (buffer : JsText) (s : Stream)
    → IsConsistent s
    → IsConsistent (begin_notification is_open buffer s).1
unfolding begin_notification
begin-IsConsistent is_open buffer s c = go (s.is_cancellation_requested || is_open)
  where
    begun : Bool → Option JsText × Stream
    begun b = if b then (none, s) else (some buffer, track_stream_started s)

    go : (b : Bool) → IsConsistent (begun b).1
    go true = c
    go false = started-IsConsistent s c

show_chunk-IsConsistent : (s : Stream) → IsConsistent s → IsConsistent (show_chunk s)
unfolding show_chunk
show_chunk-IsConsistent s c =
    if-IsConsistent (has_text s.sse_buffer && not false) _ s (λ q. shown-IsConsistent s c) (λ q. c)

pub show_item-IsConsistent : (s : Stream) → IsConsistent s → IsConsistent (show_item s)
unfolding show_item
show_item-IsConsistent s c =
    if-IsConsistent (has_text s.legacy_buffer && not s.stream_cancelled_or_errored) _ s
      (λ q. shown-IsConsistent s c) (λ q. c)

pub on_event-IsConsistent :
    (sse : SseData) (s : Stream) → IsConsistent s → IsConsistent (on_event sse s)
unfolding on_event queue_notification count end_stream send_streaming_response handle_error
on_event-IsConsistent unparsable s c = handle_error-IsConsistent none s c
on_event-IsConsistent invalid s c = c
on_event-IsConsistent (stream_start name) s c = note-IsConsistent (model name) s (λ e. refl) c
on_event-IsConsistent (content_chunk none) s c = c
on_event-IsConsistent (content_chunk (some choices)) s c =
    show_chunk-IsConsistent (record s { sse_buffer = append_choices s.sse_buffer choices }) c
on_event-IsConsistent stream_end s c = provided-IsConsistent s c

pub start_task-IsConsistent :
    (is_open : Bool) (n : ℕ) (o : Option JsText) (s : Stream)
    → IsConsistent s
    → IsConsistent (start_task is_open n o s)
unfolding start_task run_task
start_task-IsConsistent is_open zero o s c = c
start_task-IsConsistent is_open (suc rest) (some b) s c = c
start_task-IsConsistent is_open (suc rest) none s c =
    begin-IsConsistent is_open s.sse_buffer (record s { waiting = rest }) c

pub receive_item-IsConsistent :
    (chunk : JsText) (is_open : Bool) (o : Option (Option JsText)) (s : Stream)
    → IsConsistent s
    → IsConsistent (receive_item chunk is_open o s)
unfolding receive_item wait_legacy
receive_item-IsConsistent chunk is_open (some o) s c = c
receive_item-IsConsistent chunk is_open none s c =
    begin-IsConsistent is_open (s.legacy_buffer ++ chunk)
      (record s { legacy_buffer = s.legacy_buffer ++ chunk }) c
