-- ===== src/Prong/Tests.antt =====
-- Runs of the prong cache on whole numbers.
use gamesdk.Prelude.{◌≡◌, refl, [], ◌∷◌, map}
use gamesdk.Prelude.Int.{ℤ, pos}
use gamesdk.Double.{whole}
use gamesdk.Histogram.{TfHistogram}
use gamesdk.Prong.{
  Prong, ProngCache, set_instrument_key, keys_loop, annotations_loop, set_instrument_keys,
  new_prong,
}

abbrev ranged : TfHistogram ℤ
ranged = record { instrument_key = 1; bucket_min = pos 10; bucket_max = pos 40; n_buckets = 3 }

abbrev blank_prong : Prong ℤ
blank_prong = new_prong whole 0 [] ranged

-- Two annotations and two instrument keys.
abbrev four : ProngCache ℤ
four = record {
  prongs = blank_prong ∷ blank_prong ∷ blank_prong ∷ blank_prong ∷ [];
  max_num_instrumentation_keys = 2;
}

keys_of_four :
    map
      (λ (p : Prong ℤ). p.instrumentation_key)
      (set_instrument_keys four (64000 ∷ 64001 ∷ [])).prongs
    ≡ 64000 ∷ 64001 ∷ 64000 ∷ 64001 ∷ []
unfolding set_instrument_keys set_instrument_key annotations_loop keys_loop
keys_of_four = refl
