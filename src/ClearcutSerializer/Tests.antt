-- ===== src/ClearcutSerializer/Tests.antt =====
-- nanopb as the numbers of Annotation.Base128, runs of the serializer with it, and its theorems at concrete inputs.
use gamesdk.Prelude.{
  ℕ, ◌+◌, ◌-◌, ◌<◌, ◌≡◌, refl, Option, some, List, [], ◌∷◌, ◌++◌, length, drop, u32, arith,
  drop-append, ltb→lt,
}
use gamesdk.Prelude.Int.{ℤ, pos}
use gamesdk.Double.{whole}
use gamesdk.Annotation.Base128.{get_base128, write_base128, write_loop}
use gamesdk.Annotation.Base128.Laws.{
  get_base128-write_base128, write_base128-base128, base128-nonempty,
}
use gamesdk.Histogram.{TfHistogram, new_histogram}
use gamesdk.Prong.{Prong, ProngCache, new_prong}
use gamesdk.ClearcutSerializer.{
  fill, write_annotation, Nanopb, packed, write_histograms, write_count_array,
}
use gamesdk.ClearcutSerializer.Frames.{Reader, messages}
use gamesdk.ClearcutSerializer.Histograms.{counted, write_histograms_reads}

abbrev varint : ℕ → List ℕ
varint n = write_base128 n []

abbrev base128_pb : Nanopb
base128_pb = record {
  varint = varint;
  counts_tag = 26 ∷ [];
  string = λ s. varint (length s) ++ s;
  histogram = λ h. (8 ∷ varint h.instrument_id) ++ h.annotation (18 ∷ []) ++ h.counts (26 ∷ []);
  device = λ d. 8 ∷ varint d.total_memory_bytes;
  event = λ e. e.fidelityparams (10 ∷ []) ++ e.histograms (18 ∷ []);
}

abbrev read_varint : List ℕ → Option (ℕ × List ℕ)
read_varint bytes = let (n, index) = get_base128 bytes 0 in some (n, drop (index + 1) bytes)

varint-nonempty : (n : ℕ) → n < u32 → 0 < length (varint n)
varint-nonempty n h = rw (write_base128-base128 n [] h) (omega (arith, base128-nonempty 8 n))

read_varint_lem :
    (n : ℕ) (after : List ℕ) → n < u32 → read_varint (varint n ++ after) ≡ some (n, after)
read_varint_lem n after h =
    let last : length (varint n) - 1 + 1 ≡ length (varint n) = omega (arith, varint-nonempty n h) in
    rw (get_base128-write_base128 n [] after h, last, drop-append (varint n) after) refl

abbrev base128_reader : Reader base128_pb
base128_reader = record {
  read_varint = read_varint;
  reads = read_varint_lem;
  nonempty = varint-nonempty;
}

abbrev ranged : TfHistogram ℤ
ranged = record { instrument_key = 64000; bucket_min = pos 10; bucket_max = pos 40; n_buckets = 3 }

-- A prong that has counted 301 samples, of which 300 are in one bucket.
abbrev busy : Prong ℤ
busy = record (new_prong whole 64000 [] ranged) {
  histogram = record (new_histogram whole ranged) {
    num_buckets = 5;
    buckets = 0 ∷ 300 ∷ 1 ∷ 0 ∷ 0 ∷ [];
    count = 301;
  };
}

abbrev idle : Prong ℤ
idle = new_prong whole 64001 [] ranged

busy_size : length (base128_pb.histogram (fill base128_pb busy)) < u32
unfolding fill write_count_array packed write_annotation write_base128 write_loop new_prong
    new_histogram
busy_size = ltb→lt (length (base128_pb.histogram (fill base128_pb busy))) u32 refl

idle_size : length (base128_pb.histogram (fill base128_pb idle)) < u32
unfolding fill write_count_array packed write_annotation write_base128 new_prong new_histogram
idle_size = omega arith

write_histograms_reads_example :
    messages base128_pb base128_reader 4 1
      (write_histograms base128_pb (busy ∷ idle ∷ busy ∷ []) (18 ∷ []))
    ≡ some (counted base128_pb (busy ∷ idle ∷ busy ∷ []))
write_histograms_reads_example =
    write_histograms_reads base128_pb base128_reader (busy ∷ idle ∷ busy ∷ []) (18 ∷ [])
      (busy_size, (idle_size, (busy_size, tt)))

abbrev two : ProngCache ℤ
two = record { prongs = idle ∷ idle ∷ []; max_num_instrumentation_keys = 2 }
