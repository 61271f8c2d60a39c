-- ===== src/TuningForkExtra/Startup.antt =====
-- tuningfork/tuningfork_extra.cpp: the settings and the default fidelity parameters that are found in the APK, and
-- `TuningFork_initFromAssetsWithSwappy`. What nanopb decodes of the settings is an argument: the plain members, and
-- the calls of the two callbacks in order. An asset is a list of bytes, or none if there is no such file.
use Prim.Native.String.{String}
use mathlib.Core.List.{append_assoc, append-nil}
use gamesdk.Prelude.{
  ℕ, ◌%◌, Bool, Option, none, some, List, [], ◌∷◌, ◌++◌, ◌≡◌, ◌≢◌, refl, if◌then◌else◌, u32, ap,
  arith,
}
use gamesdk.Histogram.{TfHistogram}
use gamesdk.TuningFork.{
  Settings, tick_based, time_based, ErrorCode, ok, no_settings, invalid_default_fidelity_params,
}
use gamesdk.TuningForkExtra.Download.{
  SaveFile, get_saved_fidelity_params, saved_fidelity_params_file_exists,
}

-- A call of decodeAnnotationEnumSizes, with the number that was decoded, or of decodeHistograms.
pub data Decoded (D : Type 0) : Type 0 where
  enum_size : ℕ → Decoded D
  histogram : TfHistogram D → Decoded D

pub record PbSettings (D : Type 0) : Type 0 where
  pub is_tick_based : Bool
  pub intervalms_or_count : ℕ
  pub max_instrumentation_keys : ℕ
  pub calls : List (Decoded D)

module _ {D : Type 0} where
  -- The callbacks: each pushes to the end of its array, an enum size as a uint32_t.
  unfoldable pub decode_calls : List (Decoded D) → Settings D → Settings D
  decode_calls [] s = s
  decode_calls (enum_size a ∷ calls) s =
      decode_calls calls
        (record s { annotation_enum_size = s.annotation_enum_size ++ a % u32 ∷ [] })
  decode_calls (histogram h ∷ calls) s =
      decode_calls calls (record s { histograms = s.histograms ++ h ∷ [] })

  -- `TuningFork_deserializeSettings`, after the decoding.
  unfoldable pub deserialize_settings : PbSettings D → Settings D
  unfolding decode_calls
  deserialize_settings pb = decode_calls pb.calls (record {
    method = if pb.is_tick_based then tick_based else time_based;
    intervalms_or_count = pb.intervalms_or_count;
    max_instrumentation_keys = pb.max_instrumentation_keys;
    annotation_enum_size = [];
    histograms = [];
  })

  abbrev pub enum_sizes : List (Decoded D) → List ℕ
  enum_sizes [] = []
  enum_sizes (enum_size a ∷ calls) = a % u32 ∷ enum_sizes calls
  enum_sizes (histogram h ∷ calls) = enum_sizes calls

  abbrev pub histograms_of : List (Decoded D) → List (TfHistogram D)
  histograms_of [] = []
  histograms_of (enum_size a ∷ calls) = histograms_of calls
  histograms_of (histogram h ∷ calls) = h ∷ histograms_of calls

  decode_calls_lem :
      (calls : List (Decoded D)) (s : Settings D)
      → decode_calls calls s ≡ record s {
        annotation_enum_size = s.annotation_enum_size ++ enum_sizes calls;
        histograms = s.histograms ++ histograms_of calls;
      }
  unfolding decode_calls
  decode_calls_lem [] s = rw (append-nil s.annotation_enum_size, append-nil s.histograms) refl
  decode_calls_lem (enum_size a ∷ calls) s =
      rw
        (
          decode_calls_lem calls
              (record s { annotation_enum_size = s.annotation_enum_size ++ a % u32 ∷ [] }),
          append_assoc s.annotation_enum_size (a % u32 ∷ []) (enum_sizes calls),
        )
        refl
  decode_calls_lem (histogram h ∷ calls) s =
      rw
        (
          decode_calls_lem calls (record s { histograms = s.histograms ++ h ∷ [] }),
          append_assoc s.histograms (h ∷ []) (histograms_of calls),
        )
        refl

  -- The settings have the enum sizes and the histograms in the order of the file.
  deserialize_settings_order :
      (pb : PbSettings D)
      → ((deserialize_settings pb).annotation_enum_size ≡ enum_sizes pb.calls)
        × ((deserialize_settings pb).histograms ≡ histograms_of pb.calls)
  unfolding deserialize_settings
  deserialize_settings_order pb = (
    ap (λ (s : Settings D). s.annotation_enum_size) (decode_calls_lem pb.calls _),
    ap (λ (s : Settings D). s.histograms) (decode_calls_lem pb.calls _),
  )

  -- `TuningFork_findSettingsInApk` with a pointer that is not null: the asset of the settings, and what nanopb
  -- decodes of it.
  unfoldable pub find_settings_in_apk :
      Option (List ℕ) → (List ℕ → PbSettings D) → Option (Settings D) × ErrorCode
  unfolding deserialize_settings
  find_settings_in_apk none decode = (none, no_settings)
  find_settings_in_apk (some bytes) decode = (some (deserialize_settings (decode bytes)), ok)

-- `TuningFork_findFidelityParamsInApk`.
unfoldable pub find_fidelity_params_in_apk :
    (String → Option (List ℕ)) → String → Option (List ℕ) × ErrorCode
find_fidelity_params_in_apk assets filename = elim (assets filename) [
  | none ↦ (none, invalid_default_fidelity_params)
  | some bytes ↦ (some bytes, ok)
]

-- The default parameters of `TuningFork_initFromAssetsWithSwappy`: the saved ones if their file exists, and none
-- where it cannot be read; otherwise those of the named asset.
unfoldable pub default_params :
    SaveFile → (String → Option (List ℕ)) → Option String → Option (List ℕ) × ErrorCode
unfolding get_saved_fidelity_params saved_fidelity_params_file_exists find_fidelity_params_in_apk
default_params f assets none =
    if saved_fidelity_params_file_exists f
    then (get_saved_fidelity_params f, ok)
    else (none, invalid_default_fidelity_params)
default_params f assets (some name) =
    if saved_fidelity_params_file_exists f
    then (get_saved_fidelity_params f, ok)
    else find_fidelity_params_in_apk assets name

-- The download thread starts unless the search for parameters failed.
abbrev pub start_download : ErrorCode → Option (List ℕ) → Option (Option (List ℕ)) × ErrorCode
start_download ok params = (some params, ok)
start_download err params = (none, err)

-- `TuningFork_initFromAssetsWithSwappy`: the parameters that the download thread starts with, if it starts, and the
-- result. `init` is the result of `TuningFork_initWithSwappy` with the settings.
unfoldable pub init_from_assets_with_swappy :
    {D : Type 0}
    → Option (Settings D) × ErrorCode
    → (Settings D → ErrorCode)
    → Option (List ℕ) × ErrorCode
    → Option (Option (List ℕ)) × ErrorCode
init_from_assets_with_swappy (none, err) init defaults = (none, err)
init_from_assets_with_swappy (some settings, read) init (params, found) = elim (init settings) [
  | ok ↦ start_download found params
  | err ↦ (none, err)
]

-- A saved file that exists is read, so that a search that succeeds gives parameters.
default_params_found :
    (f : SaveFile) (assets : String → Option (List ℕ)) (name : String)
    → (default_params f assets (some name)).1 ≡ ok
    → (default_params f assets (some name)).0 ≢ none
unfolding default_params get_saved_fidelity_params saved_fidelity_params_file_exists
    find_fidelity_params_in_apk
default_params_found f assets name h e = ground (arith, h, e)
