-- ===== src/Frequencies/Tests.antt =====
-- Four channels from 45 to 85 MHz, the first pinned, without the band from 50 to 60 MHz.
use e_callisto_ng.Prelude.{
  ℕ, ◌≡◌, refl, Option, some, List, [], ◌∷◌, ◌++◌, replicate, All, length, arith,
}
use e_callisto_ng.Frequencies.{
  Band, Point, even, generate_frequencies, linear_channels, quiet, select, selections, snap,
}
use e_callisto_ng.Frequencies.Chosen.{Suits, generate_frequencies-Suits}

abbrev noisy : List Point
noisy =
    record { frequency = 47_000_000; amplitude = 9 }
    ∷ record { frequency = 46_010_000; amplitude = 3 }
    ∷ record { frequency = 52_000_000; amplitude = 1 }
    ∷ []

abbrev gap : Option Band
gap = some (record { lo = 50_000_000; hi = 60_000_000 })

generate_frequencies-Suits_example :
    (fs : List ℕ) × (generate_frequencies noisy 45_000_000 85_000_000 4 quiet gap 1
      ≡ some (replicate 1 (snap 1 45_000_000) ++ fs))
    × (length fs ≡ 3)
    × All (Suits 45_000_000 85_000_000 gap) fs
generate_frequencies-Suits_example =
    generate_frequencies-Suits noisy 45_000_000 85_000_000 4 quiet gap 1 (omega arith) refl
      (omega arith)

quiet_program :
    generate_frequencies noisy 45_000_000 85_000_000 4 quiet gap 1
    ≡ some (45_000_000 ∷ 46_000_000 ∷ 60_000_000 ∷ 70_000_000 ∷ [])
unfolding generate_frequencies linear_channels selections select snap
quiet_program = refl

even_program :
    generate_frequencies noisy 45_000_000 85_000_000 4 even gap 1
    ≡ some (45_000_000 ∷ 45_000_000 ∷ 60_000_000 ∷ 70_000_000 ∷ [])
unfolding generate_frequencies linear_channels selections select snap
even_program = refl
