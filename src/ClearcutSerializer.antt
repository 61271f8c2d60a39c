-- ===== src/ClearcutSerializer.antt =====
-- tuningfork/clearcutserializer.cpp: the event that is uploaded. nanopb is a parameter, as the bytes that its functions
-- write to a stream that takes them all: the stream of `SerializeEvent` has no limit, and one that only counts gives
-- their number. A callback of the source gets the tag that nanopb writes for its field, and gives the bytes that it
-- writes. A string is a list of bytes.
pub mod Frames
pub mod Histograms
mod Tests
use gamesdk.Prelude.{ℕ, ◌<◌, List, [], ◌∷◌, ◌++◌, ltb, if◌then◌else◌, length, take}
use gamesdk.Histogram.{Histogram}
use gamesdk.Prong.{Prong, ProngCache}

-- What a callback writes for the tag of its field.
abbrev pub Callback : Type 0
Callback = List ℕ → List ℕ

-- The structures of the generated code, with the callbacks that are put in.
pub record ClearcutHistogram : Type 0 where
  pub instrument_id : ℕ
  pub annotation : Callback
  pub counts : Callback

pub record DeviceInfo : Type 0 where
  pub total_memory_bytes : ℕ
  pub gl_es_version : ℕ
  pub build_fingerprint : Callback
  pub build_version_sdk : Callback
  pub cpu_max_freq_hz : Callback

pub record LogEvent : Type 0 where
  pub fidelityparams : Callback
  pub histograms : Callback
  pub device_info : DeviceInfo
  pub experiment_id : Callback
  pub session_id : Callback
  pub apk_package_name : Callback
  pub apk_version_code : ℕ
  pub tuningfork_version : ℕ

pub record ExtraUploadInfo : Type 0 where
  pub experiment_id : List ℕ
  pub session_id : List ℕ
  pub total_memory_bytes : ℕ
  pub gl_es_version : ℕ
  pub build_fingerprint : List ℕ
  pub build_version_sdk : List ℕ
  pub cpu_max_freq_hz : List ℕ
  pub apk_package_name : List ℕ
  pub apk_version_code : ℕ
  pub tuningfork_version : ℕ

-- pb_encode_varint, pb_encode_tag for the counts, pb_encode_string, and pb_encode of the three messages.
pub record Nanopb : Type 0 where
  pub varint : ℕ → List ℕ
  pub counts_tag : List ℕ
  pub string : List ℕ → List ℕ
  pub histogram : ClearcutHistogram → List ℕ
  pub device : DeviceInfo → List ℕ
  pub event : LogEvent → List ℕ

module _ (pb : Nanopb) where
  -- The loop over the counts.
  unfoldable pub packed : List ℕ → List ℕ
  packed [] = []
  packed (n ∷ counts) = pb.varint n ++ packed counts

  unfoldable pub write_count_array : {D : Type 0} → Histogram D → List ℕ
  unfolding packed
  write_count_array h =
      let counts = take h.num_buckets h.buckets in
      pb.counts_tag ++ pb.varint (length (packed counts)) ++ packed counts

  unfoldable pub write_cpu_freqs : List ℕ → Callback
  write_cpu_freqs [] tag = []
  write_cpu_freqs (f ∷ freqs) tag = (tag ++ pb.varint f) ++ write_cpu_freqs freqs tag

  -- `writeAnnotation` and `writeFidelityParams`, which leave out what is empty.
  unfoldable pub write_annotation : List ℕ → Callback
  write_annotation annotation tag =
      if ltb 0 (length annotation) then tag ++ pb.string annotation else []

  unfoldable pub write_fidelity_params : List ℕ → Callback
  write_fidelity_params fp tag = if ltb 0 (length fp) then tag ++ pb.string fp else []

  unfoldable pub write_string : List ℕ → Callback
  write_string s tag = tag ++ pb.string s

  -- The two functions `Fill` of a prong and its histogram.
  unfoldable pub fill : {D : Type 0} → Prong D → ClearcutHistogram
  unfolding write_annotation write_count_array
  fill p = record {
    instrument_id = p.instrumentation_key;
    annotation = write_annotation p.annotation;
    counts = λ tag. write_count_array p.histogram;
  }

  unfoldable pub fill_device_info : ExtraUploadInfo → DeviceInfo
  unfolding write_string write_cpu_freqs
  fill_device_info info = record {
    total_memory_bytes = info.total_memory_bytes;
    gl_es_version = info.gl_es_version;
    build_fingerprint = write_string info.build_fingerprint;
    build_version_sdk = write_string info.build_version_sdk;
    cpu_max_freq_hz = write_cpu_freqs info.cpu_max_freq_hz;
  }

  -- A message in a message: the tag, its size and its bytes.
  abbrev pub frame : List ℕ → List ℕ → List ℕ
  frame tag message = tag ++ pb.varint (length message) ++ message

  -- The loop of `writeHistograms` over the prongs.
  unfoldable pub write_histograms : {D : Type 0} → List (Prong D) → Callback
  write_histograms [] tag = []
  write_histograms (p ∷ prongs) tag =
      let rest = write_histograms prongs tag in
      if ltb 0 p.histogram.count then frame tag (pb.histogram (fill p)) ++ rest else rest

  unfoldable pub write_device_info : ExtraUploadInfo → Callback
  write_device_info info tag = frame tag (pb.device (fill_device_info info))

  -- `SerializeEvent`, with `FillHistograms` and `FillExtras`: the event is appended to what `evt_ser` has.
  unfoldable pub serialize_event :
      {D : Type 0} → ProngCache D → List ℕ → ExtraUploadInfo → List ℕ → List ℕ
  unfolding write_fidelity_params write_histograms write_string
  serialize_event pc fidelity_params info evt_ser =
      evt_ser
      ++ pb.event (record {
        fidelityparams = write_fidelity_params fidelity_params;
        histograms = write_histograms pc.prongs;
        device_info = fill_device_info info;
        experiment_id = write_string info.experiment_id;
        session_id = write_string info.session_id;
        apk_package_name = write_string info.apk_package_name;
        apk_version_code = info.apk_version_code;
        tuningfork_version = info.tuningfork_version;
      })
