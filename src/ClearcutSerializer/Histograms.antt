-- ===== src/ClearcutSerializer/Histograms.antt =====
-- tuningfork/clearcutserializer.cpp: the histograms of an event.
use mathlib.Core.List.{append_assoc}
use gamesdk.Prelude.{
  ℕ, zero, suc, ◌<◌, ◌≡◌, refl, true, false, some, List, [], ◌∷◌, ◌++◌, length, take, drop, All,
  u32, ltb, if◌then◌else◌, arith, Bool-cases, inl, inr, drop-append, subst,
}
use gamesdk.Histogram.{Histogram}
use gamesdk.Prong.{Prong}
use gamesdk.ClearcutSerializer.{Nanopb, packed, frame, fill, write_histograms, write_count_array}
use gamesdk.ClearcutSerializer.Frames.{Reader, numbers, messages, numbers-packed, messages_more}

take-length : (xs : List ℕ) → take (length xs) xs ≡ xs
take-length [] = refl
take-length (x ∷ xs) = ground (arith, take-length xs)

module _ (pb : Nanopb) {D : Type 0} where
  -- The message of a prong, and the messages of the prongs that have counted a sample.
  abbrev pub message : Prong D → List ℕ
  message p = pb.histogram (fill pb p)

  abbrev pub counted : List (Prong D) → List (List ℕ)
  counted [] = []
  counted (p ∷ prongs) =
      if ltb 0 p.histogram.count then message p ∷ counted prongs else counted prongs

  abbrev pub Fits : List (Prong D) → Type 0
  Fits = All (λ p. length (message p) < u32)

  write_some :
      (p : Prong D) (prongs : List (Prong D)) (tag : List ℕ)
      → ltb 0 p.histogram.count ≡ true
      → (write_histograms pb (p ∷ prongs) tag
          ≡ frame pb tag (message p) ++ write_histograms pb prongs tag)
        × (counted (p ∷ prongs) ≡ message p ∷ counted prongs)
  unfolding write_histograms
  write_some p prongs tag e = (ground (arith, e), ground (arith, e))

  write_none :
      (p : Prong D) (prongs : List (Prong D)) (tag : List ℕ)
      → ltb 0 p.histogram.count ≡ false
      → (write_histograms pb (p ∷ prongs) tag ≡ write_histograms pb prongs tag)
        × (counted (p ∷ prongs) ≡ counted prongs)
  unfolding write_histograms
  write_none p prongs tag e = (ground (arith, e), ground (arith, e))

  module _ (r : Reader pb) where
    messages-write_histograms :
        (fuel : ℕ) (prongs : List (Prong D)) (tag : List ℕ)
        → length prongs < fuel
        → Fits prongs
        → messages pb r fuel (length tag) (write_histograms pb prongs tag) ≡ some (counted prongs)
    unfolding write_histograms
    messages-write_histograms zero prongs tag enough small = ground (arith, enough)
    messages-write_histograms (suc fuel) [] tag enough small = refl
    messages-write_histograms (suc fuel) (p ∷ prongs) tag enough (h, small) =
        elim (Bool-cases (ltb 0 p.histogram.count)) [
          | inl e ↦
              let (written, kept) = write_some p prongs tag e in
              rw
                (
                  written,
                  kept,
                  messages_more pb r fuel tag (message p) (write_histograms pb prongs tag) h,
                  messages-write_histograms fuel prongs tag (omega (arith, enough)) small,
                )
                refl
          | inr e ↦
              let (written, kept) = write_none p prongs tag e in
              rw (written, kept)
                (messages-write_histograms (suc fuel) prongs tag (omega (arith, enough)) small)
        ]

    -- The field of histograms can be read back: after each tag there is the size of a message and its bytes, and the
    -- messages are those of the prongs that have counted a sample, in order. Of nanopb it is used that it reads the
    -- varints below 2^32 that it wrote, and that these have a byte; the messages must be shorter than 2^32.
    pub write_histograms_reads :
        (prongs : List (Prong D)) (tag : List ℕ)
        → Fits prongs
        → messages pb r (suc (length prongs)) (length tag) (write_histograms pb prongs tag)
          ≡ some (counted prongs)
    write_histograms_reads prongs tag small =
        messages-write_histograms (suc (length prongs)) prongs tag (omega arith) small

    -- The counts of a histogram can be read back: after the tag there is the size of the packed numbers, which are the
    -- counts of all buckets. The counts and the size must be below 2^32, and there must be as many buckets as the
    -- histogram says.
    write_count_array_reads :
        (h : Histogram D)
        → length h.buckets ≡ h.num_buckets
        → All (λ n. n < u32) h.buckets
        → length (packed pb h.buckets) < u32
        → (r.read_varint (drop (length pb.counts_tag) (write_count_array pb h))
            ≡ some (length (packed pb h.buckets), packed pb h.buckets))
          × (numbers pb r (suc (length h.buckets)) (packed pb h.buckets) ≡ some h.buckets)
    unfolding write_count_array
    write_count_array_reads h sized small fits =
        let all : take h.num_buckets h.buckets ≡ h.buckets =
          subst (λ (n : ℕ). take n h.buckets ≡ h.buckets) sized (take-length h.buckets) in
        let body = packed pb h.buckets in
        (
          rw
              (
                all,
                append_assoc pb.counts_tag (pb.varint (length body)) body,
                drop-append pb.counts_tag (pb.varint (length body) ++ body),
              )
              (r.reads (length body) body fits),
          numbers-packed pb r (suc (length h.buckets)) h.buckets (omega arith) small,
        )
