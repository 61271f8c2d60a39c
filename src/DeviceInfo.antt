-- ===== src/DeviceInfo.antt =====
-- device_info/device_info.cpp: what is read of the device, and the errors that are recorded meanwhile. A string is the
-- list of its character codes, and a message of an error is kept as its parts. What the files, the system properties,
-- EGL and GL answer are arguments.
pub mod Proto
pub mod Errors
pub mod Words
mod Tests
use Prim.Native.String.{String}
use gamesdk.Prelude.{
  ℕ, zero, suc, ◌+◌, ◌*◌, ◌-◌, Bool, true, false, ◌&&◌, ◌||◌, Option, none, some, List, [], ◌∷◌,
  ◌++◌, ltb, leb, ◌==◌, if◌then◌else◌, length, drop, map,
}
use gamesdk.Prelude.Int.{ℤ, pos, negsuc}

-- `string_util::startsWith`.
unfoldable pub starts_with : List ℕ → List ℕ → Bool
starts_with text [] = true
starts_with [] (c ∷ start) = false
starts_with (x ∷ text) (c ∷ start) = x == c && starts_with text start

-- The order of std::set<std::string>, and its insertion.
unfoldable pub less : List ℕ → List ℕ → Bool
less a [] = false
less [] (y ∷ b) = true
less (x ∷ a) (y ∷ b) = ltb x y || (x == y && less a b)

unfoldable pub insert : List ℕ → List (List ℕ) → List (List ℕ)
unfolding less
insert w [] = w ∷ []
insert w (v ∷ words) =
    let rest = insert w words in
    if less w v then w ∷ v ∷ words else if less v w then v ∷ rest else v ∷ words

-- `if (piece.length() > 0) result->insert(piece)`.
abbrev pub insert_piece : List ℕ → List (List ℕ) → List (List ℕ)
insert_piece piece words = if ltb 0 (length piece) then insert piece words else words

-- The loop of `splitAdd` over the characters that getline takes; `piece` is what it has so far. At the end of the
-- string getline gives what there is, and fails if it is empty.
unfoldable pub split_add : List ℕ → ℕ → List ℕ → List (List ℕ) → List (List ℕ)
unfolding insert
split_add [] delimiter piece words = insert_piece piece words
split_add (x ∷ s) delimiter piece words =
    if x == delimiter
    then split_add s delimiter [] (insert_piece piece words)
    else split_add s delimiter (piece ++ x ∷ []) words

-- `readFile`: none is a failure.
abbrev pub read_file : {A : Type 0} → Option A → A → A
read_file none error = error
read_file (some result) error = result

-- `Errors` of the proto.
pub record DeviceErrors : Type 0 where
  pub hardware : Option String
  pub features : Option String
  pub system_props : List String
  pub egl : Option (String × ℕ)
  pub gl : List ℕ

abbrev pub no_errors : DeviceErrors
no_errors = record { hardware = none; features = none; system_props = []; egl = none; gl = [] }

-- "Hardware", "Features" and what follows them up to the value.
abbrev pub hardware_key : List ℕ
hardware_key = 72 ∷ 97 ∷ 114 ∷ 100 ∷ 119 ∷ 97 ∷ 114 ∷ 101 ∷ 9 ∷ 58 ∷ 32 ∷ []

abbrev pub features_key : List ℕ
features_key = 70 ∷ 101 ∷ 97 ∷ 116 ∷ 117 ∷ 114 ∷ 101 ∷ 115 ∷ 9 ∷ 58 ∷ 32 ∷ []

unfoldable pub hardware_loop : List (List ℕ) → List (List ℕ) → List (List ℕ)
unfolding starts_with
hardware_loop [] result = result
hardware_loop (line ∷ lines) result = hardware_loop lines (
    if starts_with line hardware_key
    then result ++ drop (length hardware_key) line ∷ []
    else result)

unfoldable pub features_loop : List (List ℕ) → List (List ℕ) → List (List ℕ)
unfolding starts_with split_add
features_loop [] result = result
features_loop (line ∷ lines) result = features_loop lines (
    if starts_with line features_key
    then split_add (drop (length features_key) line) 32 [] result
    else result)

-- `readHardware` and `readFeatures`, with the lines of /proc/cpuinfo: the strings, the errors and their number.
unfoldable pub read_hardware :
    Option (List (List ℕ)) → DeviceErrors → List (List ℕ) × DeviceErrors × ℕ
unfolding hardware_loop
read_hardware none e = ([], record e { hardware = some "Could not read." }, 1)
read_hardware (some lines) e = (hardware_loop lines [], e, 0)

unfoldable pub read_features :
    Option (List (List ℕ)) → DeviceErrors → List (List ℕ) × DeviceErrors × ℕ
unfolding features_loop
read_features none e = ([], record e { features = some "Could not read." }, 1)
read_features (some lines) e = (features_loop lines [], e, 0)

-- PROP_VALUE_MAX of the system.
abbrev pub prop_value_max : ℕ
prop_value_max = 92

-- What the system says of its properties: the length and the buffer of __system_property_get, and the value that
-- __system_property_read_callback gives, if the property is found.
pub record SystemProperties : Type 0 where
  pub value_of : String → ℕ × List ℕ
  pub read : String → Option (List ℕ)

unfoldable pub get_system_prop_via_get :
    SystemProperties → String → DeviceErrors → List ℕ × DeviceErrors
get_system_prop_via_get system key e =
    let (buffer_len, buffer) = system.value_of key in
    if ltb prop_value_max buffer_len
    then ([], record e { system_props = e.system_props ++ key ∷ [] })
    else (buffer, e)

unfoldable pub get_system_prop :
    SystemProperties → String → Bool → DeviceErrors → List ℕ × DeviceErrors
unfolding get_system_prop_via_get
get_system_prop system key true e = (read_file (system.read key) [], e)
get_system_prop system key false e = get_system_prop_via_get system key e

-- `atoi` on a string of digits.
unfoldable pub atoi : List ℕ → ℕ → ℕ
atoi [] n = n
atoi (c ∷ s) n = let rest = atoi s (n * 10 + (c - 48)) in if leb 48 c && leb c 57 then rest else n

-- The properties with one key after the other.
unfoldable pub system_props :
    SystemProperties → List String → Bool → DeviceErrors → List (List ℕ) × DeviceErrors
unfolding get_system_prop
system_props system [] use_callback e = ([], e)
system_props system (key ∷ keys) use_callback e =
    let (value, e') = get_system_prop system key use_callback e in
    let (values, e'') = system_props system keys use_callback e' in (value ∷ values, e'')

abbrev pub property_keys : List String
property_keys =
    "ro.chipname" ∷ "ro.board.platform" ∷ "ro.product.board" ∷ "ro.mediatek.platform" ∷ "ro.arch"
    ∷ "ro.build.fingerprint" ∷ []

-- `addSystemProperties`: the version of the SDK with the other properties, the errors and their number.
unfoldable pub add_system_properties :
    SystemProperties → DeviceErrors → List (List ℕ) × DeviceErrors × ℕ
unfolding get_system_prop_via_get atoi system_props
add_system_properties system e =
    let (sdk, e') = get_system_prop_via_get system "ro.build.version.sdk" e in
    let (values, e'') = system_props system property_keys (leb 26 (atoi sdk 0)) e' in
    (sdk ∷ values, e'', length e''.system_props)
