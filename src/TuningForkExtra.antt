-- ===== src/TuningForkExtra.antt =====
-- tuningfork/tuningfork_extra.cpp: TuningForkTraceWrapper, which ticks and traces Tuning Fork at Swappy's callbacks,
-- and the thread that downloads fidelity parameters. The clock is an argument of each call. The application's frame
-- callback is counted.
pub mod Tracing
pub mod Download
pub mod Backoff
pub mod Startup
mod Tests
use gamesdk.Prelude.{ℕ, suc, ◌+◌, Bool, true, false, Option, none, some, ◌==◌, if◌then◌else◌}
use gamesdk.Double.{Arith}
use gamesdk.TuningFork.{TuningFork, ErrorCode, ok, no_swappy}
use gamesdk.TuningFork.Api.{api_frame_tick, api_start_trace, api_end_trace}

-- The instrument keys of include/tuningfork/tuningfork.h.
abbrev pub tftick_syscpu : ℕ
tftick_syscpu = 64000

abbrev pub tftick_sysgpu : ℕ
tftick_sysgpu = 64001

abbrev pub tftick_swappy_wait_time : ℕ
tftick_swappy_wait_time = 64002

abbrev pub tftick_swappy_swap_time : ℕ
tftick_swappy_swap_time = 64003

-- The wrapper, with the implementation of Tuning Fork that its calls reach.
pub record TraceWrapper (D : Type 0) : Type 0 where
  pub impl : Option (TuningFork D)
  pub wait_trace_handle : ℕ
  pub swap_trace_handle : ℕ
  pub frame_callbacks : ℕ

-- The handle after `TuningFork_startTrace`, which writes it on success only.
abbrev pub handle_or : ℕ → Option ℕ → ℕ
handle_or old none = old
handle_or old (some h) = h

module _ (a : Arith) where
  open a use {Double}

  unfoldable pub swappy_start_frame_callback : TraceWrapper Double → ℕ → TraceWrapper Double
  unfolding api_frame_tick
  swappy_start_frame_callback w t =
      let (impl, err) = api_frame_tick a w.impl tftick_syscpu t in
      record w { impl = impl; frame_callbacks = w.frame_callbacks + 1 }

  unfoldable pub swappy_pre_wait_callback : TraceWrapper Double → ℕ → TraceWrapper Double
  unfolding api_start_trace
  swappy_pre_wait_callback w now =
      let (impl, err, handle) = api_start_trace a w.impl tftick_swappy_wait_time now in
      record w { impl = impl; wait_trace_handle = handle_or w.wait_trace_handle handle }

  unfoldable pub swappy_pre_swap_buffers_callback : TraceWrapper Double → ℕ → TraceWrapper Double
  unfolding api_start_trace
  swappy_pre_swap_buffers_callback w now =
      let (impl, err, handle) = api_start_trace a w.impl tftick_swappy_swap_time now in
      record w { impl = impl; swap_trace_handle = handle_or w.swap_trace_handle handle }

  unfoldable pub swappy_post_swap_buffers_callback : TraceWrapper Double → ℕ → TraceWrapper Double
  unfolding api_end_trace
  swappy_post_swap_buffers_callback w now = if w.swap_trace_handle == 0 then w else record w {
    impl = (api_end_trace a w.impl w.swap_trace_handle now).0;
    swap_trace_handle = 0;
  }

  -- The end of the trace of the wait, and the tick after it at the time `t`.
  abbrev pub end_wait : TraceWrapper Double → ℕ → TraceWrapper Double
  end_wait w now = if w.wait_trace_handle == 0 then w else record w {
    impl = (api_end_trace a w.impl w.wait_trace_handle now).0;
    wait_trace_handle = 0;
  }

  unfoldable pub swappy_post_wait_callback : TraceWrapper Double → ℕ → ℕ → TraceWrapper Double
  unfolding api_end_trace api_frame_tick
  swappy_post_wait_callback w now t =
      let ended = end_wait w now in
      record ended { impl = (api_frame_tick a ended.impl tftick_sysgpu t).0 }

-- `Init` and `TuningFork_initWithSwappy`, with the result of TuningFork_init and the implementation that it has made:
-- the wrapper, whether its callbacks are registered with Swappy, and the result.
unfoldable pub init_with_swappy :
    {D : Type 0} → Option (TuningFork D) → ErrorCode → (TraceWrapper D × Bool) × ErrorCode
init_with_swappy {D} impl err =
    let w : TraceWrapper D = record {
      impl = impl;
      wait_trace_handle = 0;
      swap_trace_handle = 0;
      frame_callbacks = 0;
    } in
    elim err [ ok ↦ ((w, true), ok) | _ ↦ ((w, false), no_swappy) ]
