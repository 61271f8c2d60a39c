-- ===== src/Histogram/Counts.antt =====
-- No sample is lost or counted twice.
use gamesdk.Prelude.{
  ℕ, zero, suc, ◌+◌, ◌%◌, ◌≤◌, ◌<◌, ◌≡◌, refl, ◌∙◌, true, false, List, [], ◌∷◌, ◌++◌, length,
  get_or, set, replicate, length-set, length-replicate, length-append, ◌⊎◌, subst, sym, length-map,
  Bool-cases, inl, inr, u32, arith, if◌then◌else◌, map,
}
use gamesdk.Prelude.Int.{ℤ, pos, negsuc}
use gamesdk.Double.{Arith}
use gamesdk.Histogram.{
  TfHistogram, Histogram, push_capacity, new_histogram, bucket_index, increment, add_ranged,
  add_all, set_range, calc_buckets_from_samples, add_sample, clear,
}

abbrev pub sum : List ℕ → ℕ
sum [] = 0
sum (n ∷ ns) = n + sum ns

-- How many samples a histogram holds: those counted, or those kept until the ranges are set.
abbrev pub recorded : {D : Type 0} → Histogram D → ℕ
recorded h = if h.auto_range then length h.samples else h.count

pub record IsCounted {D : Type 0} (h : Histogram D) : Type 0 where
  pub sized : length h.buckets ≡ h.num_buckets
  pub two : 2 ≤ h.num_buckets
  pub counted : sum h.buckets ≡ h.count

-- The buckets add up to the count; before the ranges are set nothing is counted, and there is room.
pub record IsValid {D : Type 0} (h : Histogram D) : Type 0 where
  pub totals : IsCounted h
  pub room : h.auto_range ≡ true → (h.count ≡ 0) × (length h.samples < h.capacity)

sum-set : (ns : List ℕ) (i n : ℕ) → i < length ns → sum (set ns i n) + get_or ns i 0 ≡ sum ns + n
sum-set [] i n h = elim h [ ]
sum-set (m ∷ ns) zero n h = omega arith
sum-set (m ∷ ns) (suc i) n h = omega (arith, sum-set ns i n (omega arith))

get_or-le-sum : (ns : List ℕ) (i : ℕ) → get_or ns i 0 ≤ sum ns
get_or-le-sum [] i = omega arith
get_or-le-sum (m ∷ ns) zero = omega arith
get_or-le-sum (m ∷ ns) (suc i) = omega (arith, get_or-le-sum ns i)

sum-replicate : (n : ℕ) → sum (replicate n 0) ≡ 0
sum-replicate zero = refl
sum-replicate (suc n) = omega (arith, sum-replicate n)

sum-map_zero : (ns : List ℕ) → sum (map (λ n. 0) ns) ≡ 0
sum-map_zero [] = refl
sum-map_zero (m ∷ ns) = omega (arith, sum-map_zero ns)

bucket_index-lt : (n : ℕ) (i : ℤ) → 2 ≤ n → bucket_index n i < n
unfolding bucket_index
bucket_index-lt n (pos i) h = ground arith
bucket_index-lt n (negsuc i) h = omega arith

sum-increment :
    (ns : List ℕ) (i : ℕ) → i < length ns → sum ns + 1 < u32 → sum (increment ns i) ≡ sum ns + 1
unfolding increment
sum-increment ns i h fits =
    omega (arith, sum-set ns i ((get_or ns i 0 + 1) % u32) h, get_or-le-sum ns i)

length-increment : (ns : List ℕ) (i : ℕ) → length (increment ns i) ≡ length ns
unfolding increment
length-increment ns i = length-set ns i _

module _ (a : Arith) where
  open a use {Double}

  add_ranged-IsCounted :
      (h : Histogram Double) (d : Double)
      → IsCounted h
      → h.count + 1 < u32
      → IsCounted (add_ranged a h d) × ((add_ranged a h d).count ≡ h.count + 1)
  unfolding add_ranged
  add_ranged-IsCounted h d v fits = (
    record {
      sized = length-increment h.buckets _ ∙ v.sized;
      two = v.two;
      counted = omega (
        arith,
        sum-increment h.buckets
            (bucket_index h.num_buckets (a.to_int (a.div (a.sub d h.start_ms) h.bucket_dt_ms)))
            (omega (
              arith,
              bucket_index-lt h.num_buckets (a.to_int (a.div (a.sub d h.start_ms) h.bucket_dt_ms))
                  v.two,
              v.sized,
            ))
            (omega (arith, v.counted)),
        v.counted,
      );
    },
    omega arith,
  )

  add_ranged-auto_range :
      (h : Histogram Double) (d : Double) → (add_ranged a h d).auto_range ≡ h.auto_range
  unfolding add_ranged
  add_ranged-auto_range h d = refl

  add_all-IsCounted :
      (ds : List Double) (h : Histogram Double)
      → IsCounted h
      → h.count + length ds < u32
      → IsCounted (add_all a h ds)
        × ((add_all a h ds).count ≡ h.count + length ds)
        × ((add_all a h ds).auto_range ≡ h.auto_range)
  unfolding add_all
  add_all-IsCounted [] h v fits = (v, omega arith, refl)
  add_all-IsCounted (d ∷ ds) h v fits =
      let (v', e) = add_ranged-IsCounted h d v (omega arith) in
      let (w, f, g) = add_all-IsCounted ds (add_ranged a h d) v' (omega arith) in
      (w, omega arith, g ∙ add_ranged-auto_range h d)

  set_range-same :
      (h : Histogram Double)
      → ((set_range a h).buckets ≡ h.buckets)
        × ((set_range a h).num_buckets ≡ h.num_buckets)
        × ((set_range a h).count ≡ h.count)
        × ((set_range a h).auto_range ≡ false)
  unfolding set_range
  set_range-same h = (refl, refl, refl, refl)

  calc-IsCounted :
      (h : Histogram Double)
      → IsCounted h
      → h.count + length h.samples < u32
      → IsCounted (calc_buckets_from_samples a h)
        × ((calc_buckets_from_samples a h).count ≡ h.count + length h.samples)
        × ((calc_buckets_from_samples a h).auto_range ≡ false)
  unfolding calc_buckets_from_samples set_range
  calc-IsCounted h v fits =
      add_all-IsCounted h.samples (set_range a h)
        (record { sized = v.sized; two = v.two; counted = v.counted }) fits

  abbrev pushed : Histogram Double → Double → Histogram Double
  pushed h d = record h {
    samples = h.samples ++ d ∷ [];
    capacity = push_capacity (length h.samples) h.capacity;
  }

  add_sample_ranged :
      (h : Histogram Double) (d : Double)
      → h.auto_range ≡ false
      → add_sample a h d ≡ add_ranged a h d
  unfolding add_sample
  add_sample_ranged h d e = ground (arith, e)

  -- Before the ranges are set: a sample is kept, and the one that fills the room is the last.
  add_sample_auto :
      (h : Histogram Double) (d : Double)
      → h.auto_range ≡ true
      → length h.samples < h.capacity
      → ((add_sample a h d ≡ pushed h d) × (length h.samples + 1 < h.capacity))
        ⊎ (add_sample a h d ≡ calc_buckets_from_samples a (pushed h d))
  unfolding add_sample
  add_sample_auto h d e room = ground (arith, e)

  abbrev Adds : Histogram Double → Histogram Double → Type 0
  Adds h h' = IsValid h' × (recorded h' ≡ recorded h + 1)

  pushed-Adds :
      (h : Histogram Double) (d : Double)
      → IsValid h
      → h.auto_range ≡ true
      → length h.samples + 1 < h.capacity
      → Adds h (pushed h d)
  pushed-Adds h d v auto room = (
    record {
      totals = record { sized = v.totals.sized; two = v.totals.two; counted = v.totals.counted };
      room = λ e. ((v.room auto).0, ground (arith, length-append h.samples (d ∷ [])));
    },
    ground (arith, auto, length-append h.samples (d ∷ [])),
  )

  calc-Adds :
      (h : Histogram Double) (d : Double)
      → IsValid h
      → h.auto_range ≡ true
      → recorded h + 1 < u32
      → Adds h (calc_buckets_from_samples a (pushed h d))
  calc-Adds h d v auto fits =
      let (w, e, f) =
        calc-IsCounted (pushed h d)
          (record { sized = v.totals.sized; two = v.totals.two; counted = v.totals.counted })
          (ground (arith, auto, (v.room auto).0, length-append h.samples (d ∷ []))) in
      (
        record { totals = w; room = λ t. cc },
        ground (arith, auto, f, e, (v.room auto).0, length-append h.samples (d ∷ [])),
      )

  -- Adding a sample to a valid histogram that has recorded fewer than 2^32 - 1 keeps the histogram valid,
  -- also when it is the sample at which the ranges are set, and the number of recorded samples grows by one.
  pub add_sample-IsValid :
      (h : Histogram Double) (d : Double)
      → IsValid h
      → recorded h + 1 < u32
      → IsValid (add_sample a h d) × (recorded (add_sample a h d) ≡ recorded h + 1)
  add_sample-IsValid h d v fits = elim (Bool-cases h.auto_range) [
    | inl auto ↦ elim (add_sample_auto h d auto (v.room auto).1) [
      | inl (e, room) ↦ subst (Adds h) (sym e) (pushed-Adds h d v auto room)
      | inr e ↦ subst (Adds h) (sym e) (calc-Adds h d v auto fits)
    ]
    | inr ranged ↦
        let (w, e) = add_ranged-IsCounted h d v.totals (ground (arith, ranged)) in
        subst (Adds h) (sym (add_sample_ranged h d ranged)) (
          record { totals = w; room = λ t. cc (add_ranged-auto_range h d) },
          ground (arith, ranged, add_ranged-auto_range h d),
        )
  ]

  -- The constructor gives a valid histogram that holds nothing.
  pub new_histogram-IsValid :
      (hs : TfHistogram Double) → IsValid (new_histogram a hs) × (recorded (new_histogram a hs) ≡ 0)
  unfolding new_histogram
  new_histogram-IsValid hs = (
    record {
      totals = record {
        sized = length-replicate (hs.n_buckets + 2) 0;
        two = omega arith;
        counted = sum-replicate (hs.n_buckets + 2);
      };
      room = λ e. (refl, rw e (omega arith));
    },
    ground arith,
  )

  -- `Clear()` of a valid histogram gives one that is valid and holds nothing, with its ranges kept.
  pub clear-IsValid :
      (h : Histogram Double)
      → IsValid h
      → IsValid (clear a h false)
        × (recorded (clear a h false) ≡ 0)
        × ((clear a h false).start_ms ≡ h.start_ms)
        × ((clear a h false).bucket_dt_ms ≡ h.bucket_dt_ms)
  unfolding clear
  clear-IsValid h v = (
    record {
      totals = record {
        sized = length-map h.buckets (λ n. 0) ∙ v.totals.sized;
        two = v.totals.two;
        counted = sum-map_zero h.buckets;
      };
      room = λ e. cc;
    },
    refl,
    refl,
    refl,
  )
