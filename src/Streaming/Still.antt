-- ===== src/Streaming/Still.antt =====
-- What the steps of a cancelled stream leave as it was.
use khulnasoft_lsp.Base.{
  ℕ, zero, suc, ◌+◌, ◌≤◌, Bool, true, false, not, List, [], ◌∷◌, ◌++◌, Option, none, some, ◌&&◌,
  if◌then◌else◌, JsText, has_text, ◌≡◌, refl, arith,
}
use khulnasoft_lsp.Tracking.Events.{stream_completed, shown, not_provided}
use khulnasoft_lsp.Streaming.{
  Response, completion, done, event, Stream, report, send_streaming_response, track_stream_shown,
  update_suggestion_provided, end_stream, handle_error, begin_notification, SseData, unparsable,
  invalid, stream_start, content_chunk, stream_end, append_choices, queue_notification, show_chunk,
  on_event, run_task, start_task, wait_legacy, receive_item,
}

-- The completions that were sent.
unfoldable pub completions : List Response → ℕ
completions [] = 0
completions (completion t ∷ rs) = suc (completions rs)
completions (done ∷ rs) = completions rs

pub completions-push :
    (rs : List Response) (r : Response)
    → completions (rs ++ r ∷ []) ≡ completions rs + completions (r ∷ [])
unfolding completions
completions-push [] r = omega arith
completions-push (completion t ∷ rs) r = omega (arith, completions-push rs r)
completions-push (done ∷ rs) r = completions-push rs r

abbrev pub awaited : Option JsText → ℕ
awaited none = 0
awaited (some t) = 1

abbrev pub awaited_item : Option (Option JsText) → ℕ
awaited_item none = 0
awaited_item (some waits) = awaited waits

-- The completions sent, and those that are being post-processed.
abbrev pub begun : Stream → ℕ
begun s = completions s.responses + awaited s.running + awaited_item s.legacy

-- A step of a cancelled stream begins no completion, and leaves it cancelled.
abbrev pub IsStill : Stream → Stream → Type 0
IsStill s t = (t.is_cancellation_requested ≡ true) × (begun t ≤ begun s)

pub track_shown-IsStill :
    (s : Stream) → IsStill s s → IsStill s (update_suggestion_provided true (track_stream_shown s))
unfolding update_suggestion_provided track_stream_shown report
track_shown-IsStill s h = go s.shown_once
  where
    told : Stream
    told = record (report (event shown) s) { shown_once = true; stream_shown = true }

    go : (b : Bool) → IsStill s (update_suggestion_provided true (if b then s else told))
    go true = h
    go false = h

pub if-IsStill :
    (b : Bool) (s t u : Stream) → IsStill s t → IsStill s u → IsStill s (if b then t else u)
if-IsStill true s t u h g = h
if-IsStill false s t u h g = g

pub end-IsStill :
    (s : Stream)
    → s.is_cancellation_requested ≡ true
    → IsStill s (record (end_stream s) { is_stoppable = false })
unfolding end_stream send_streaming_response report completions
end-IsStill s h = go s.stream_cancelled_or_errored s.suggestion_provided
  where
    sent : Stream
    sent = send_streaming_response done s

    last : Stream
    last = report (event stream_completed) sent

    still : IsStill s sent
    still = (h, omega (arith, completions-push s.responses done))

    go :
        (flag provided : Bool)
        → IsStill s
            (record (if flag
              then sent
              else (if provided then last else report (event not_provided) last)) {
                is_stoppable = false;
              })
    go true p = still
    go false true = still
    go false false = still

-- Nothing is begun.
begin_notification-cancelled :
    (is_open : Bool) (buffer : JsText) (s : Stream)
    → s.is_cancellation_requested ≡ true
    → begin_notification is_open buffer s ≡ (none, s)
unfolding begin_notification
begin_notification-cancelled is_open buffer s h = rw h refl

pub start_task-IsStill :
    (is_open : Bool) (n : ℕ) (o : Option JsText) (s : Stream)
    → s.is_cancellation_requested ≡ true
    → s.running ≡ o
    → IsStill s (start_task is_open n o s)
unfolding start_task run_task
start_task-IsStill is_open zero o s h q = (h, omega arith)
start_task-IsStill is_open (suc rest) (some b) s h q = (h, omega arith)
start_task-IsStill is_open (suc rest) none s h q =
    rw (begin_notification-cancelled is_open s.sse_buffer (record s { waiting = rest }) h)
      (h, rw q (omega arith))

pub receive_item-IsStill :
    (chunk : JsText) (is_open : Bool) (o : Option (Option JsText)) (s : Stream)
    → s.is_cancellation_requested ≡ true
    → IsStill s (receive_item chunk is_open o s)
unfolding receive_item wait_legacy
receive_item-IsStill chunk is_open (some o) s h = (h, omega arith)
receive_item-IsStill chunk is_open none s h =
    rw
      (begin_notification-cancelled is_open (s.legacy_buffer ++ chunk)
        (record s { legacy_buffer = s.legacy_buffer ++ chunk }) h)
      (h, omega arith)

pub on_event-IsStill :
    (sse : SseData) (s : Stream) → s.is_cancellation_requested ≡ true → IsStill s (on_event sse s)
unfolding on_event queue_notification show_chunk update_suggestion_provided report handle_error
    end_stream send_streaming_response completions
on_event-IsStill unparsable s h = (h, omega (arith, completions-push s.responses done))
on_event-IsStill invalid s h = (h, omega arith)
on_event-IsStill (stream_start name) s h = (h, omega arith)
on_event-IsStill (content_chunk none) s h = (h, omega arith)
on_event-IsStill (content_chunk (some choices)) s h =
    let grown : Stream = record s { sse_buffer = append_choices s.sse_buffer choices } in
    if-IsStill (has_text grown.sse_buffer && not false) grown
      (update_suggestion_provided true (track_stream_shown grown)) grown
      (track_shown-IsStill grown (h, omega arith)) (h, omega arith)
on_event-IsStill stream_end s h = (h, omega arith)
