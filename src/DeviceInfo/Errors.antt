-- ===== src/DeviceInfo/Errors.antt =====
-- device_info/device_info.cpp: the errors that are recorded and the number that is returned.
use Prim.Native.String.{String}
use gamesdk.Prelude.{ℕ, ◌+◌, ◌≡◌, Option, none, some, List, length}
use gamesdk.DeviceInfo.{DeviceErrors, no_errors, read_hardware, read_features, system_props}

abbrev one_if : {A : Type 0} → Option A → ℕ
one_if none = 0
one_if (some a) = 1

-- How many errors are recorded.
abbrev pub recorded : DeviceErrors → ℕ
recorded e =
    one_if e.hardware + one_if e.features + length e.system_props + one_if e.egl + length e.gl

-- The system properties record errors of their own alone.
record Same (e e' : DeviceErrors) : Type 0 where
  hardware : e'.hardware ≡ e.hardware
  features : e'.features ≡ e.features
  egl : e'.egl ≡ e.egl
  gl : e'.gl ≡ e.gl

-- The errors after the files have been read.
abbrev files : Option (List (List ℕ)) → Option (List (List ℕ)) → DeviceErrors × ℕ
files hardware features =
    let (strings, e, n) = read_hardware hardware no_errors in
    let (words, e', n') = read_features features e in (e', n + n')
