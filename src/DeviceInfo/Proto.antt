-- ===== src/DeviceInfo/Proto.antt =====
-- device_info/device_info.cpp: EGL, GL and `createProto`.
use Prim.Native.String.{String}
use gamesdk.Prelude.{
  ℕ, zero, suc, ◌+◌, Bool, true, false, ◌&&◌, ◌||◌, Option, none, some, List, [], ◌∷◌, ◌++◌, ltb,
  ◌==◌, if◌then◌else◌,
}
use gamesdk.Prelude.Int.{ℤ, pos, negsuc, ltb_ℤ}
use gamesdk.DeviceInfo.{
  DeviceErrors, no_errors, SystemProperties, split_add, read_file, read_hardware, read_features,
  add_system_properties,
}

-- EGL_SUCCESS.
abbrev pub egl_success : ℕ
egl_success = 0x3000

unfoldable pub check_egl_error : String → ℕ → DeviceErrors → DeviceErrors × ℕ
check_egl_error title error e =
    if error == egl_success then (e, 0) else (record e { egl = some (title, error) }, 1)

abbrev pub egl_titles : List String
egl_titles =
    "eglGetDisplay" ∷ "eglInitialize" ∷ "eglChooseConfig" ∷ "eglCreateContext"
    ∷ "eglCreatePbufferSurface" ∷ "eglMakeCurrent" ∷ []

-- `setupEGl`: the calls by their titles, and what eglGetError answers after each; the first error is returned.
unfoldable pub egl_calls : List String → (String → ℕ) → DeviceErrors → DeviceErrors × ℕ
unfolding check_egl_error
egl_calls [] error e = (e, 0)
egl_calls (title ∷ titles) error e =
    let (e', n) = check_egl_error title (error title) e in
    let rest = egl_calls titles error e' in if n == 0 then rest else (e', n)

unfoldable pub setup_egl : (String → ℕ) → DeviceErrors → DeviceErrors × ℕ
unfolding egl_calls
setup_egl error e = egl_calls egl_titles error e

-- `flushGlErrors`, with the errors that glGetError answers before GL_NO_ERROR. `e` is the result of `!=`, since the
-- comparison binds stronger than the assignment, and so is 1 for every error.
unfoldable pub flush_gl_errors : List ℕ → DeviceErrors → DeviceErrors × ℕ
flush_gl_errors [] e = (e, 0)
flush_gl_errors (error ∷ errors) e =
    let (e', n) = flush_gl_errors errors (record e { gl = e.gl ++ 1 ∷ [] }) in (e', n + 1)

-- The functions addGlConstsV..., which read constants.
pub data Consts : Type 0 where
  v2_0 v3_0 v3_1 v3_2 : Consts

pub record Gl : Type 0 where
  pub version_major : ℤ
  pub version_minor : ℤ
  pub extensions : List (List ℕ)
  pub consts : List Consts

-- `major > M || (major == M && minor >= N)`.
abbrev pub at_least : ℤ → ℤ → ℤ → ℤ → Bool
at_least major minor m n =
    ltb_ℤ m major
    || ((if ltb_ℤ major m then false else true) && (if ltb_ℤ minor n then false else true))

-- The functions that are called for a version.
unfoldable pub consts_of : ℤ → ℤ → List Consts
consts_of major minor =
    let call : ℕ → ℕ → Consts → List Consts =
      λ m n c. if at_least major minor (pos m) (pos n) then c ∷ [] else [] in
    call 2 0 v2_0 ++ call 3 0 v3_0 ++ call 3 1 v3_1 ++ call 3 2 v3_2

-- What GL answers: the errors before the version, the version unless it is not known, the extensions one by one and as
-- one string, and the errors at the end.
pub record GlAnswers : Type 0 where
  pub errors_before : List ℕ
  pub version : Option (ℤ × ℤ)
  pub indexed_extensions : List (List ℕ)
  pub all_extensions : List ℕ
  pub errors_after : List ℕ

unfoldable pub gl_of : GlAnswers → Gl
unfolding consts_of split_add
gl_of answers =
    let (major, minor) = read_file answers.version (pos 2, pos 0) in
    record {
      version_major = major;
      version_minor = minor;
      extensions =
          if ltb_ℤ major (pos 3)
          then split_add answers.all_extensions 32 [] []
          else answers.indexed_extensions;
      consts = consts_of major minor;
    }

-- `addGl`.
unfoldable pub add_gl : GlAnswers → DeviceErrors → Gl × DeviceErrors × ℕ
unfolding gl_of flush_gl_errors
add_gl answers e =
    let (e', n) = flush_gl_errors answers.errors_before e in
    let (e'', n') = flush_gl_errors answers.errors_after e' in (gl_of answers, e'', n + n')

-- The cores from an index on, of which there are `left`: the frequency where one above 0 is read.
unfoldable pub cpu_cores : ℕ → ℕ → (ℕ → Option ℤ) → List (Option ℕ)
cpu_cores zero index freq = []
cpu_cores (suc left) index freq =
    (elim (read_file (freq index) (negsuc 0)) [
      | pos f ↦ if ltb 0 f then some f else none
      | negsuc f ↦ none
    ])
    ∷ cpu_cores left (index + 1) freq

-- The surroundings of `createProto`, and `Info` of the proto.
pub record Device : Type 0 where
  pub cpu_index_max : Option ℤ
  pub cpu_freq_max : ℕ → Option ℤ
  pub cpu_present : Option (List ℕ)
  pub cpu_possible : Option (List ℕ)
  pub hardware_lines : Option (List (List ℕ))
  pub features_lines : Option (List (List ℕ))
  pub system : SystemProperties
  pub egl_error : String → ℕ
  pub gl_answers : GlAnswers

pub record Info : Type 0 where
  pub version : ℕ
  pub cpu_max_index : ℤ
  pub cpu_cores : List (Option ℕ)
  pub cpu_present : Option (List ℕ)
  pub cpu_possible : Option (List ℕ)
  pub hardware : List (List ℕ)
  pub cpu_extensions : List (List ℕ)
  pub properties : List (List ℕ)
  pub gl : Option Gl

abbrev pub count_of : ℤ → ℕ
count_of (pos n) = n + 1
count_of (negsuc n) = 0

-- The end of `createProto`, which asks GL only where EGL has been set up.
unfoldable pub add_gl_if : Device → DeviceErrors × ℕ → Option Gl × DeviceErrors × ℕ
unfolding add_gl
add_gl_if d (e, n) =
    let (gl, e', n') = add_gl d.gl_answers e in
    if n == 0 then (some gl, e', n + n') else (none, e, n)

-- `createProto`, on a proto without errors; a string that cannot be read is none, where the source has "ERROR".
unfoldable pub create_proto : Device → Info × DeviceErrors × ℕ
unfolding cpu_cores read_hardware read_features add_system_properties setup_egl add_gl_if
create_proto d =
    let max = read_file d.cpu_index_max (negsuc 0) in
    let (hardware, e1, n1) = read_hardware d.hardware_lines no_errors in
    let (features, e2, n2) = read_features d.features_lines e1 in
    let (properties, e3, n3) = add_system_properties d.system e2 in
    let (gl, e4, n4) = add_gl_if d (setup_egl d.egl_error e3) in
    let info : Info = record {
      version = 1;
      cpu_max_index = max;
      cpu_cores = cpu_cores (count_of max) 0 d.cpu_freq_max;
      cpu_present = d.cpu_present;
      cpu_possible = d.cpu_possible;
      hardware = hardware;
      cpu_extensions = features;
      properties = properties;
      gl = gl;
    } in
    (info, e4, n1 + n2 + n3 + n4)
