-- ===== src/TuningFork.antt =====
-- tuningfork/tuningfork.cpp: the class TuningForkImpl, which turns ticks and traces into samples of the
-- current prong cache and hands full caches to the upload thread. Time is an argument of each call, in
-- nanoseconds (`time_provider_->NowNs()`). System trace sections and log lines are left out.
pub mod Init
pub mod Api
pub mod Keys
pub mod Buffers
pub mod Reach
pub mod Sizes
pub mod Submit
pub mod Traces
pub mod Annotations
mod Tests
use mathlib.Core.Option
use gamesdk.Prelude.{
  ℕ, zero, suc, ◌+◌, ◌-◌, ◌*◌, ◌/◌, ◌%◌, ◌^◌, Bool, true, false, Option, none, some, List, [], ◌∷◌,
  ◌++◌, ltb, leb, ◌==◌, if◌then◌else◌, length, get_elem?, get_or, set, replicate, u64, add_u64,
  mul_u64,
}
use gamesdk.Prelude.Int.{ℤ, sub_ℕ}
use gamesdk.Double.{Arith}
use gamesdk.Annotation.{annotation_error, set_up_radixes}
use gamesdk.Annotation
use gamesdk.Histogram.{TfHistogram, default_num_buckets, of_ℕ}
use gamesdk.Prong.{
  Prong, ProngCache, get, update, tick, trace, set_instrument_keys, clear_cache, new_cache,
}

-- `TFErrorCode` of include/tuningfork/tuningfork.h, in its order.
pub data ErrorCode : Type 0 where
  ok no_settings no_swappy invalid_default_fidelity_params no_fidelity_params : ErrorCode
  tuningfork_not_initialized invalid_annotation invalid_instrument_key : ErrorCode
  invalid_trace_handle timeout bad_parameter b64_encode_failed jni_bad_version : ErrorCode
  jni_bad_thread jni_bad_env jni_exception jni_bad_jvm no_clearcut : ErrorCode
  no_fidelity_params_in_apk couldnt_save_or_delete_fps previous_upload_pending : ErrorCode
  upload_too_frequent : ErrorCode

pub data Submission : Type 0 where
  tick_based time_based : Submission

-- `Settings`, with the aggregation strategy's fields.
pub record Settings (D : Type 0) : Type 0 where
  pub method : Submission
  pub intervalms_or_count : ℕ
  pub max_instrumentation_keys : ℕ
  pub annotation_enum_size : List ℕ
  pub histograms : List (TfHistogram D)

-- The two caches of `prong_caches_`; a pointer to a cache is one of these.
pub data Which : Type 0 where
  first second : Which

abbrev pub other : Which → Which
other first = second
other second = first

-- A trace that is not live has the time `none`, for `TimePoint::min()`. `ready` is the pointer that the
-- upload thread was given.
pub record TuningFork (D : Type 0) : Type 0 where
  pub settings : Settings D
  pub cache_0 : ProngCache D
  pub cache_1 : ProngCache D
  pub current : Which
  pub last_submit_time_ns : ℕ
  pub live_traces : List (Option ℕ)
  pub ready : Option Which
  pub current_annotation : List ℕ
  pub annotation_radix_mult : List ℕ
  pub current_annotation_id : ℕ
  pub ikeys : List ℕ
  pub next_ikey : ℕ

abbrev pub cache : {D : Type 0} → TuningFork D → Which → ProngCache D
cache s first = s.cache_0
cache s second = s.cache_1

abbrev pub set_cache : {D : Type 0} → TuningFork D → Which → ProngCache D → TuningFork D
set_cache s first c = record s { cache_0 = c }
set_cache s second c = record s { cache_1 = c }

-- The search of `GetOrCreateInstrumentKeyIndex`, from the index `i` on, with `n` keys left.
unfoldable pub find_key : List ℕ → ℕ → ℕ → ℕ → Option ℕ
find_key keys zero i key = none
find_key keys (suc n) i key =
    let rest = find_key keys n (i + 1) key in if get_or keys i 0 == key then some i else rest

module _ {D : Type 0} where
  -- The index of a key; `none` is TFERROR_INVALID_INSTRUMENT_KEY, after `next_ikey_--`.
  unfoldable pub get_or_create_instrument_key_index : TuningFork D → ℕ → TuningFork D × Option ℕ
  get_or_create_instrument_key_index s key = elim (find_key s.ikeys s.next_ikey 0 key) [
    | some i ↦ (s, some i)
    | none ↦
        if ltb s.next_ikey (length s.ikeys)
        then (
          record s { ikeys = set s.ikeys s.next_ikey key; next_ikey = s.next_ikey + 1 },
          some s.next_ikey,
        )
        else (s, none)
  ]

  unfoldable pub make_compound_id : TuningFork D → ℕ → ℕ → TuningFork D × Option ℕ
  make_compound_id s k annotation_id =
      let (s', index) = get_or_create_instrument_key_index s k in
      (s', Option.map (λ i. add_u64 i annotation_id) index)

  -- `DecodeAnnotationSerialization`: room is left for the instrument key.
  unfoldable pub decode_annotation : TuningFork D → List ℕ → ℕ
  decode_annotation s ser =
      mul_u64 (Annotation.decode ser s.annotation_radix_mult) s.settings.max_instrumentation_keys

  unfoldable pub set_current_annotation : TuningFork D → List ℕ → TuningFork D × ℕ
  unfolding decode_annotation
  set_current_annotation s annotation =
      let id = decode_annotation s annotation in
      if id == annotation_error
      then (
        record s { current_annotation = annotation; current_annotation_id = 0 },
        annotation_error,
      )
      else (record s { current_annotation = annotation; current_annotation_id = id }, id)

  -- A write outside `live_traces_` is undefined in the source; here it is no write.
  unfoldable pub start_trace : TuningFork D → ℕ → ℕ → TuningFork D × Option ℕ
  start_trace s key now =
      let (s', handle) = make_compound_id s key s.current_annotation_id in
      elim handle [
        | none ↦ (s', none)
        | some h ↦ (record s' { live_traces = set s'.live_traces h (some now) }, some h)
      ]

  -- `UploadThread::Submit`: false while a cache is still waiting.
  unfoldable pub submit : TuningFork D → Which → TuningFork D × Bool
  submit s w = elim s.ready [ none ↦ (record s { ready = some w }, true) | some v ↦ (s, false) ]

  -- One round of `UploadThread::Run`: the cache that is serialized and processed, if one is waiting.
  unfoldable pub run_upload : TuningFork D → TuningFork D × Option (ProngCache D)
  run_upload s = elim s.ready [
    | none ↦ (s, none)
    | some w ↦ (record s { ready = none }, some (cache s w))
  ]

module _ (a : Arith) where
  open a use {Double}

  -- What happens once the upload thread has taken the current cache: the other one is cleared and current.
  unfoldable pub swap_caches : TuningFork Double → TuningFork Double
  swap_caches s =
      let w = other s.current in record (set_cache s w (clear_cache a (cache s w))) { current = w }

  -- `Flush(TimePoint)`.
  unfoldable pub flush_at : TuningFork Double → ℕ → TuningFork Double × ErrorCode
  unfolding submit swap_caches
  flush_at s t_ns =
      let keyed = set_cache s s.current (set_instrument_keys (cache s s.current) s.ikeys) in
      let (s', submitted) = submit keyed s.current in
      if submitted
      then (record (swap_caches s') { last_submit_time_ns = t_ns }, ok)
      else (record s' { last_submit_time_ns = t_ns }, previous_upload_pending)

  -- `Flush()`: at most once a minute.
  unfoldable pub flush : TuningFork Double → ℕ → TuningFork Double × ErrorCode
  flush s t =
      if ltb (s.last_submit_time_ns + 60 * 1000000000) t
      then flush_at s t
      else (s, upload_too_frequent)

  unfoldable pub should_submit : TuningFork Double → ℕ → Option (Prong Double) → Bool
  should_submit s t_ns prong = elim s.settings.method [
    | time_based ↦ leb (s.last_submit_time_ns + s.settings.intervalms_or_count * 1000000) t_ns
    | tick_based ↦ elim prong [
      | none ↦ false
      | some p ↦ leb s.settings.intervalms_or_count p.histogram.count
    ]
  ]

  unfoldable pub check_for_submit :
      TuningFork Double → ℕ → Option (Prong Double) → TuningFork Double × ErrorCode
  check_for_submit s t_ns prong = if should_submit s t_ns prong then flush_at s t_ns else (s, ok)

  -- `TickNanos` and `TraceNanos`: the prong after the call, which is null if the id has none.
  unfoldable pub tick_nanos : TuningFork Double → ℕ → ℕ → TuningFork Double × Option (Prong Double)
  tick_nanos s compound_id t = elim (get (cache s s.current) compound_id) [
    | none ↦ (s, none)
    | some p ↦ (
      set_cache s s.current (update (cache s s.current) compound_id (tick a t)),
      some (tick a t p),
    )
  ]

  unfoldable pub trace_nanos : TuningFork Double → ℕ → ℤ → TuningFork Double × Option (Prong Double)
  trace_nanos s compound_id dt = elim (get (cache s s.current) compound_id) [
    | none ↦ (s, none)
    | some p ↦ (
      set_cache s s.current (update (cache s s.current) compound_id (trace a dt)),
      some (trace a dt p),
    )
  ]

  -- The result of `CheckForSubmit` is dropped.
  unfoldable pub submit_if_recorded :
      TuningFork Double × Option (Prong Double) → ℕ → TuningFork Double
  submit_if_recorded (s, none) t = s
  submit_if_recorded (s, some p) t = (check_for_submit s t (some p)).0

  unfoldable pub end_trace : TuningFork Double → ℕ → ℕ → TuningFork Double × ErrorCode
  end_trace s h now =
      if leb (length s.live_traces) h
      then (s, invalid_trace_handle)
      else elim (get_or s.live_traces h none) [
        | none ↦ (s, invalid_trace_handle)
        | some i ↦
            let s' = (trace_nanos s h (sub_ℕ now i)).0 in
            (record s' { live_traces = set s'.live_traces h none }, ok)
      ]

  unfoldable pub frame_tick : TuningFork Double → ℕ → ℕ → TuningFork Double × ErrorCode
  unfolding submit_if_recorded
  frame_tick s key t =
      let (s', compound_id) = make_compound_id s key s.current_annotation_id in
      elim compound_id [
        | none ↦ (s', invalid_instrument_key)
        | some id ↦ (submit_if_recorded (tick_nanos s' id t) t, ok)
      ]

  unfoldable pub frame_delta_time_nanos :
      TuningFork Double → ℕ → ℤ → ℕ → TuningFork Double × ErrorCode
  unfolding submit_if_recorded
  frame_delta_time_nanos s key dt now =
      let (s', compound_id) = make_compound_id s key s.current_annotation_id in
      elim compound_id [
        | none ↦ (s', invalid_instrument_key)
        | some id ↦ (submit_if_recorded (trace_nanos s' id dt) now, ok)
      ]
