-- ===== src/Ptp/Smoothing.antt =====
-- net/ptp.rs: the offsets that `OffsetSmoother` gives.
use shairplay_rust.Base.{
  ℕ, ◌+◌, ◌-◌, ◌^◌, ◌≤◌, ◌<◌, min, max, true, List, [], ◌∷◌, ◌≡◌, refl, arith, All, Bool-cases, inl,
  inr,
}
use shairplay_rust.Ptp.{OffsetSmoother, smoothed, update}

-- A smoothed offset lies between the previous one and the sample.
pub smoothed-between :
    (previous raw_offset mastership_time : ℕ)
    → previous < 2 ^ 63
    → raw_offset < 2 ^ 63
    → (min previous raw_offset ≤ smoothed previous raw_offset mastership_time)
      × (smoothed previous raw_offset mastership_time ≤ max previous raw_offset)
unfolding smoothed
smoothed-between previous raw_offset mastership_time hp hr = (ground arith, ground arith)

-- A sample below the previous offset, which is below 2^63, takes at most 9765 off it.
pub smoothed-slow :
    (previous raw_offset mastership_time : ℕ)
    → previous < 2 ^ 63
    → raw_offset < previous
    → previous ≤ smoothed previous raw_offset mastership_time + 9765
unfolding smoothed
smoothed-slow previous raw_offset mastership_time hp hr = ground arith

-- The offsets that `update` returns for a sequence of samples, each with its time.
abbrev pub offsets : List (ℕ × ℕ) → OffsetSmoother → List ℕ
offsets [] s = []
offsets ((raw, time) ∷ samples) s =
    let (offset, s1) = update raw time s in offset ∷ offsets samples s1

abbrev pub Within : ℕ → ℕ → ℕ → Type 0
Within lo hi n = (lo ≤ n) × (n ≤ hi)

update-Within :
    (lo hi raw time : ℕ) (s : OffsetSmoother)
    → hi < 2 ^ 63
    → Within lo hi raw
    → (s.initialized ≡ true → Within lo hi s.previous_offset)
    → Within lo hi (update raw time s).0
      × ((update raw time s).1.initialized ≡ true)
      × Within lo hi (update raw time s).1.previous_offset
unfolding update
update-Within lo hi raw time s small r p = elim (Bool-cases s.initialized) [
  | inl e ↦
      let (least, most) =
        smoothed-between s.previous_offset raw (time - s.mastership_start) (omega (arith, p e))
          (omega arith) in
      rw e
        ((omega (arith, p e), omega (arith, p e)), refl, (omega (arith, p e), omega (arith, p e)))
  | inr e ↦ rw e ((r.0, r.1), refl, (r.0, r.1))
]

-- Once the samples lie in a range below 2^63, and the previous offset too if there is one, every smoothed offset
-- lies in the range.
pub offsets-Within :
    (lo hi : ℕ) (samples : List (ℕ × ℕ)) (s : OffsetSmoother)
    → hi < 2 ^ 63
    → All (λ (raw, time). Within lo hi raw) samples
    → (s.initialized ≡ true → Within lo hi s.previous_offset)
    → All (Within lo hi) (offsets samples s)
offsets-Within lo hi [] s small h p = tt
offsets-Within lo hi ((raw, time) ∷ samples) s small (h, hs) p =
    let (here, set, next) = update-Within lo hi raw time s small h p in
    (here, offsets-Within lo hi samples (update raw time s).1 small hs (λ e. next))
