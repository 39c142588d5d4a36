-- ===== src/Streaming/Ending.antt =====
-- The reports of a stream that ends.
use khulnasoft_lsp.Base.{
  ◌+◌, Bool, true, false, not, List, [], ◌∷◌, ◌++◌, if◌then◌else◌, JsText, ◌≡◌, arith,
}
use khulnasoft_lsp.Tracking.Events.{stream_completed, not_provided, rejected, cancelled, errored}
use khulnasoft_lsp.Streaming.{
  Report, event, Stream, start_stream, report, send_streaming_response, end_stream, Event, ended,
  is_idle, end_when_idle, step_open, step, run,
}
use khulnasoft_lsp.Streaming.Once.{count, count-append, once, IsConsistent, start-IsConsistent}
use khulnasoft_lsp.Streaming.Runs.{kept, run-IsKept}

module _ (process : JsText → JsText) where
  stopped-reports :
      (s : Stream)
      → s.is_stoppable ≡ true
      → is_idle s.waiting s.running s.legacy ≡ true
      → s.stream_cancelled_or_errored ≡ false
      → (step process ended s).reports ≡ (
          if s.suggestion_provided
          then s.reports ++ event stream_completed ∷ []
          else (s.reports ++ event stream_completed ∷ []) ++ event not_provided ∷ [])
  unfolding step step_open end_when_idle end_stream send_streaming_response report
  stopped-reports s q idle fine = rw (q, idle, fine) (ground arith)

  ending-counts :
      (rs : List Report) (b : Bool)
      → count stream_completed rs ≡ 0
      → count not_provided rs ≡ 0
      → count errored rs + count cancelled rs + count rejected rs ≡ 0
      → let after =
          (if b
            then rs ++ event stream_completed ∷ []
            else (rs ++ event stream_completed ∷ []) ++ event not_provided ∷ []) in
        (count stream_completed after ≡ 1)
        × ((count not_provided after ≡ once (not b))
            × (count errored after + count cancelled after + count rejected after ≡ 0))
  unfolding count
  ending-counts rs true p q r =
      let e = event stream_completed ∷ [] in
      (
        omega (arith, p, count-append stream_completed rs e),
        (
          omega (arith, q, count-append not_provided rs e),
          omega (
            arith,
            r,
            count-append errored rs e,
            count-append cancelled rs e,
            count-append rejected rs e,
          ),
        ),
      )
  ending-counts rs false p q r =
      let e = event stream_completed ∷ [] in
      let f = event not_provided ∷ [] in
      (
        omega (
          arith,
          p,
          count-append stream_completed rs e,
          count-append stream_completed (rs ++ e) f,
        ),
        (
          omega (arith, q, count-append not_provided rs e, count-append not_provided (rs ++ e) f),
          omega (
            arith,
            r,
            count-append errored rs e,
            count-append cancelled rs e,
            count-append rejected rs e,
            count-append errored (rs ++ e) f,
            count-append cancelled (rs ++ e) f,
            count-append rejected (rs ++ e) f,
          ),
        ),
      )

  -- When a stream ends that was neither cancelled nor in error, its completion is reported, and that
  -- nothing was provided exactly if the suggestion was not provided; and no fault was reported.
  pub ended-reports :
      (es : List Event)
      → let s = run process es start_stream in
        s.is_stoppable ≡ true
        → is_idle s.waiting s.running s.legacy ≡ true
        → s.stream_cancelled_or_errored ≡ false
        → let after = (step process ended s).reports in
          (count stream_completed after ≡ 1)
          × ((count not_provided after ≡ once (not s.suggestion_provided))
              × (count errored after + count cancelled after + count rejected after ≡ 0))
  ended-reports es q idle fine =
      let s = run process es start_stream in
      let c : IsConsistent s =
        (run-IsKept process es start_stream (kept start_stream start-IsConsistent)).0 q in
      rw (stopped-reports s q idle fine)
        (ending-counts s.reports s.suggestion_provided c.completed c.missed (c.faultless fine))
