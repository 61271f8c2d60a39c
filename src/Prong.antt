-- ===== src/Prong.antt =====
-- tuningfork/prong.h and prong.cpp: a prong is the histogram of one annotation and instrument key, and a
-- cache holds one prong for each pair. A time point is a number of nanoseconds; `none` stands for
-- `time_point::min()`, which no clock reading is.
pub mod Cache
pub mod Samples
mod Tests
use gamesdk.Prelude.{
  ℕ, zero, suc, ◌+◌, ◌-◌, ◌*◌, ◌/◌, ◌%◌, ◌^◌, Bool, true, false, Option, none, some, List, [], ◌∷◌,
  ltb, leb, if◌then◌else◌, length, get_elem?, get_or, map, modify,
}
use gamesdk.Prelude.Int.{ℤ, pos, sub_ℕ}
use gamesdk.Double.{Arith}
use gamesdk.Histogram.{TfHistogram, Histogram, new_histogram, add_sample, clear}

pub record Prong (D : Type 0) : Type 0 where
  pub instrumentation_key : ℕ
  pub annotation : List ℕ
  pub histogram : Histogram D
  pub last_time_ns : Option ℕ

pub record ProngCache (D : Type 0) : Type 0 where
  pub prongs : List (Prong D)
  pub max_num_instrumentation_keys : ℕ

unfoldable pub set_instrument_key : {D : Type 0} → ℕ → Prong D → Prong D
set_instrument_key key p = record p { instrumentation_key = key }

-- The inner loop of `SetInstrumentKeys`: `base` is `j*max_num_instrumentation_keys_`, and the list is
-- `instrument_keys[i..)`.
unfoldable pub keys_loop : {D : Type 0} → List (Prong D) → ℕ → ℕ → List ℕ → List (Prong D)
keys_loop prongs base i [] = prongs
keys_loop prongs base i (k ∷ keys) =
    keys_loop (modify prongs (i + base) (set_instrument_key k)) base (i + 1) keys

-- The outer loop: `n` annotations are left, from the one of index `j` on.
unfoldable pub annotations_loop :
    {D : Type 0} → ℕ → ℕ → ℕ → List (Prong D) → List ℕ → List (Prong D)
annotations_loop zero j max_keys prongs keys = prongs
annotations_loop (suc n) j max_keys prongs keys =
    annotations_loop n (j + 1) max_keys (keys_loop prongs (j * max_keys) 0 keys) keys

-- With no instrument key the division has no result in the source; there are no rounds here.
unfoldable pub set_instrument_keys : {D : Type 0} → ProngCache D → List ℕ → ProngCache D
set_instrument_keys c keys = record c {
  prongs =
      annotations_loop (length c.prongs / c.max_num_instrumentation_keys) 0
        c.max_num_instrumentation_keys c.prongs keys;
}

-- `Get`: the null pointer is `none`.
unfoldable pub get : {D : Type 0} → ProngCache D → ℕ → Option (Prong D)
get c compound_id =
    if leb (length c.prongs) compound_id then none else get_elem? c.prongs compound_id

-- A change of the prong that `Get` returns, through the pointer.
unfoldable pub update : {D : Type 0} → ProngCache D → ℕ → (Prong D → Prong D) → ProngCache D
update c compound_id f = record c { prongs = modify c.prongs compound_id f }

module _ (a : Arith) where
  open a use {Double, of_ℤ, div}

  unfoldable pub new_prong : ℕ → List ℕ → TfHistogram Double → Prong Double
  new_prong key annotation settings = record {
    instrumentation_key = key;
    annotation = annotation;
    histogram = new_histogram a settings;
    last_time_ns = none;
  }

  -- The histogram stores milliseconds.
  unfoldable pub trace : ℤ → Prong Double → Prong Double
  trace dt_ns p = record p {
    histogram = add_sample a p.histogram (div (of_ℤ dt_ns) (of_ℤ (pos 1000000)));
  }

  unfoldable pub tick : ℕ → Prong Double → Prong Double
  tick t_ns p = elim p.last_time_ns [
    | none ↦ record p { last_time_ns = some t_ns }
    | some last ↦ record (trace (sub_ℕ t_ns last) p) { last_time_ns = some t_ns }
  ]

  unfoldable pub clear_prong : Prong Double → Prong Double
  clear_prong p = record p { histogram = clear a p.histogram false; last_time_ns = none }

  -- What `ProngCache::Clear` does to a prong: its last time stays.
  unfoldable pub clear_counted : Prong Double → Prong Double
  clear_counted p =
      if ltb 0 p.histogram.count then record p { histogram = clear a p.histogram false } else p

  unfoldable pub clear_cache : ProngCache Double → ProngCache Double
  clear_cache c = record c { prongs = map clear_counted c.prongs }

  -- The loop of the constructor, with `n` prongs left; `ikey` is a uint16_t. The settings are read at
  -- `ikey`, or at 0 if there are fewer; a list without any, which has no first element, gives `missing`.
  module _ (max_keys : ℕ) (settings : List (TfHistogram Double)) (missing : TfHistogram Double)
      (serialize_id : ℕ → List ℕ) where
    unfoldable pub build : ℕ → ℕ → ℕ → List (Prong Double)
    build zero i ikey = []
    build (suc n) i ikey =
        let h = get_or settings (if ltb ikey (length settings) then ikey else 0) missing in
        let next = (ikey + 1) % 2 ^ 16 in
        new_prong ikey (serialize_id i) h ∷ build n (i + 1) (if leb max_keys next then 0 else next)

    unfoldable pub new_cache : ℕ → ProngCache Double
    new_cache size = record { prongs = build size 0 0; max_num_instrumentation_keys = max_keys }
