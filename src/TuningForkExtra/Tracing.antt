-- ===== src/TuningForkExtra/Tracing.antt =====
-- tuningfork/tuningfork_extra.cpp and tuningfork.cpp: what the traces of the wrapper record.
use mathlib.Core.Option
use gamesdk.Prelude.{ℕ, ◌<◌, ◌≡◌, refl, ap, ◌∙◌, none, some, get_or, length, arith}
use gamesdk.Double.{Arith}
use gamesdk.TuningFork.{TuningFork, cache, start_trace}
use gamesdk.TuningFork.Api.{api_start_trace}
use gamesdk.TuningFork.Traces.{Live, start_trace-Live}
use gamesdk.TuningForkExtra.{
  TraceWrapper, tftick_swappy_swap_time, swappy_pre_swap_buffers_callback,
  swappy_post_swap_buffers_callback,
}

module _ (a : Arith) where
  open a use {Double}

  -- The callbacks around the swap of the buffers.
  abbrev pub traced_swap : TraceWrapper Double → ℕ → ℕ → TraceWrapper Double
  traced_swap w before after =
      swappy_post_swap_buffers_callback a (swappy_pre_swap_buffers_callback a w before) after

  pre_swap_lem :
      (w : TraceWrapper Double) (s : TuningFork Double) (h before : ℕ)
      → w.impl ≡ some s
      → (start_trace s tftick_swappy_swap_time before).1 ≡ some h
      → swappy_pre_swap_buffers_callback a w before ≡ record w {
        impl = some (start_trace s tftick_swappy_swap_time before).0;
        swap_trace_handle = h;
      }
  unfolding swappy_pre_swap_buffers_callback api_start_trace
  pre_swap_lem w s h before made started = ground (arith, made, started)

  post_swap_zero :
      (w : TraceWrapper Double) (s : TuningFork Double) (after : ℕ)
      → swappy_post_swap_buffers_callback a
          (record w { impl = some s; swap_trace_handle = 0 })
          after
        ≡ record w { impl = some s; swap_trace_handle = 0 }
  unfolding swappy_post_swap_buffers_callback
  post_swap_zero w s after = refl

  -- The handle 0, that of the first instrument key without an annotation, is taken for no trace: the callback after
  -- the swap then does nothing, so that no sample is recorded, and the trace stays open.
  traced_swap_zero :
      (w : TraceWrapper Double) (s : TuningFork Double) (before after : ℕ)
      → w.impl ≡ some s
      → (start_trace s tftick_swappy_swap_time before).1 ≡ some 0
      → 0 < length s.live_traces
      → (r : TuningFork Double) × ((traced_swap w before after).impl ≡ some r)
        × (cache r r.current ≡ cache s s.current)
        × (get_or r.live_traces 0 none ≡ some before)
  unfolding Live
  traced_swap_zero w s before after made started inside =
      let s' = (start_trace s tftick_swappy_swap_time before).0 in
      let run =
        ap (λ v. swappy_post_swap_buffers_callback a v after)
          (pre_swap_lem w s 0 before made started)
        ∙ post_swap_zero w s' after in
      let (slot, size, same) = start_trace-Live s tftick_swappy_swap_time before 0 started inside in
      (s', ap (λ (v : TraceWrapper Double). v.impl) run, same, slot)
