-- ===== src/FrameStatistics/Buckets.antt =====
-- What the buckets of swappy/common/FrameStatistics.cpp count.
use mathlib.Core.Option
use mathlib.Core.Logic.{◌≢◌}
use native.Mathlib.Nat.{div-add-mod, mod-lt, mod-eq_of_lt, add-mod_left}
use gamesdk.Prelude.{
  ℕ, zero, suc, ◌-◌, ◌*◌, ◌/◌, ◌%◌, ◌≤◌, ◌<◌, ◌≡◌, refl, sym, ap, ◌∙◌, true, Option, List, [], ◌∷◌,
  length, get_elem?, modify, get_elem?-modify_self, get_elem?-modify_ne, min, u32, u64, add_u64,
  arith, Option-cases, inl, inr, ◌⊎◌,
}
use gamesdk.FrameStatistics.{
  FrameStatistics, EglFrame, FrameTimestamps, update_frames, max_frame_buckets, delta_u64,
  capture_front, record_frame, is_lagging, last_of,
}

delta_exact : (start end : ℕ) → start ≤ end → end < u64 → delta_u64 start end ≡ end - start
delta_exact start end h l = grind (arith, mod-eq_of_lt, add-mod_left)

quotient_below : (d period n : ℕ) → d < n * period → d / period < n
quotient_below d period n h = grind (arith, div-add-mod, mod-lt)

quotient_from : (d period n : ℕ) → 0 < period → n * period ≤ d → n ≤ d / period
quotient_from d period n p h = grind (arith, div-add-mod, mod-lt)

modify_outside : (xs : List ℕ) (n : ℕ) (f : ℕ → ℕ) → length xs ≤ n → modify xs n f ≡ xs
modify_outside [] n f h = refl
modify_outside (x ∷ xs) zero f h = elim h [ ]
modify_outside (x ∷ xs) (suc n) f h = ap (λ ys. x ∷ ys) (modify_outside xs n f (omega arith))

-- The index that `updateFrames` counts at, for a frame time that takes fewer than 2^32 refresh periods.
bucket_of :
    (period start end : ℕ) (stat : List ℕ)
    → start ≤ end
    → end < u64
    → (end - start) / period < u32
    → update_frames period start end stat
      ≡ modify stat (min ((end - start) / period) max_frame_buckets) (λ n. add_u64 n 1)
unfolding update_frames
bucket_of period start end stat h l few =
    ap (λ (d : ℕ). modify stat (min (d / period % u32) max_frame_buckets) (λ n. add_u64 n 1))
      (delta_exact start end h l)
    ∙ ap (λ (q : ℕ). modify stat (min q max_frame_buckets) (λ n. add_u64 n 1)) (mod-eq_of_lt few)

below_few : (q : ℕ) → q < max_frame_buckets → (q < u32) × (min q max_frame_buckets ≡ q)
below_few q h = (omega arith, omega arith)

-- A frame time of fewer than six refresh periods, between times in order and below 2^64, is counted in the
-- bucket of its number of whole periods, and no other bucket changes.
pub update_frames_counts :
    (period start end i : ℕ) (stat : List ℕ)
    → start ≤ end
    → end < u64
    → (end - start) / period < max_frame_buckets
    → i ≢ (end - start) / period
    → (get_elem? (update_frames period start end stat) ((end - start) / period)
        ≡ Option.map (λ n. add_u64 n 1) (get_elem? stat ((end - start) / period)))
      × (get_elem? (update_frames period start end stat) i ≡ get_elem? stat i)
update_frames_counts period start end i stat h l few other =
    let (small, exact) = below_few ((end - start) / period) few in
    let e =
      bucket_of period start end stat h l small
      ∙ ap (λ (q : ℕ). modify stat q (λ n. add_u64 n 1)) exact in
    (
      ap (λ xs. get_elem? xs ((end - start) / period)) e
          ∙ get_elem?-modify_self stat ((end - start) / period) (λ n. add_u64 n 1),
      ap (λ xs. get_elem? xs i) e
          ∙ get_elem?-modify_ne stat {i = (end - start) / period} {j = i} (λ n. add_u64 n 1)
              (λ f. other (sym f)),
    )

-- A frame time of six refresh periods or more, and of fewer than 2^32, changes none of the six buckets. The
-- times are in order and below 2^64, and the refresh period is positive.
update_frames_lost :
    (period start end : ℕ) (stat : List ℕ)
    → length stat ≡ max_frame_buckets
    → 0 < period
    → start ≤ end
    → end < u64
    → max_frame_buckets * period ≤ end - start
    → (end - start) / period < u32
    → update_frames period start end stat ≡ stat
update_frames_lost period start end stat six p h l long few =
    bucket_of period start end stat h l few
    ∙ modify_outside stat (min ((end - start) / period) max_frame_buckets) (λ n. add_u64 n 1)
        (omega (arith, six, quotient_from (end - start) period max_frame_buckets p long))

-- When the oldest pending frame is more than ten frames behind the next one, at most the newest of the pending
-- frames is left pending.
pub capture_front_lagging :
    (period : ℕ) (next : Option ℕ) (frame : EglFrame) (frames : List EglFrame)
    (timestamps : EglFrame → Option FrameTimestamps) (s : FrameStatistics)
    → is_lagging period next frame ≡ true
    → ((capture_front period next frame frames timestamps s).pending_frames ≡ [])
      ⊎ ((capture_front period next frame frames timestamps s).pending_frames
          ≡ last_of period frame frames ∷ [])
unfolding capture_front record_frame
capture_front_lagging period next frame frames timestamps s lag =
    elim (Option-cases (timestamps (last_of period frame frames))) [
      | inl e ↦ inr (ground (arith, lag, e))
      | inr (f, e) ↦ inl (ground (arith, lag, e))
    ]
