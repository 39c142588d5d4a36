-- ===== src/Streaming/Tests.antt =====
-- The theorems on a stream that sends the text "ab" in one chunk.
use khulnasoft_lsp.Base.{◌≤◌, false, List, [], ◌∷◌, some, refl, JsText}
use khulnasoft_lsp.Streaming.{
  Event, start_stream, sse_received, content_chunk, cancel_received, task_started, task_finished,
  run,
}
use khulnasoft_lsp.Streaming.Runs.{IsBounded, run-IsBounded}
use khulnasoft_lsp.Streaming.Cancelling.{cancelled-begun}
use khulnasoft_lsp.Streaming.Still.{completions}

abbrev same : JsText → JsText
same t = t

-- A chunk that is queued, processed and sent.
abbrev chunk : List Event
chunk =
    sse_received (content_chunk (some ((97 ∷ 98 ∷ []) ∷ [])))
    ∷ task_started false
    ∷ task_finished
    ∷ []

run-IsBounded_example : IsBounded (run same chunk start_stream).reports
run-IsBounded_example = run-IsBounded same chunk

cancelled-begun_example :
    completions (run same (cancel_received ∷ chunk) start_stream).responses ≤ 0
unfolding start_stream completions
cancelled-begun_example = cancelled-begun same chunk start_stream refl
