-- ===== src/Tests/Random.antt =====
-- The theorem on the random numbers.
use uvg_torrent.Base.{refl, arith, Returns}
use uvg_torrent.Rand.{nrand32, nrand8_t, first_pos}
use uvg_torrent.Rand.Choose.{Choice, nrand-Choice}
use uvg_torrent.Tests.{quiet_os, outset}

nrand-Choice_example :
    Returns (Choice 32 3) (nrand32 quiet_os 1 (first_pos 32) 3 outset)
    × Returns (Choice 8 2) (nrand8_t quiet_os 1 (first_pos 8) 2 outset)
nrand-Choice_example =
    nrand-Choice quiet_os 1 (first_pos 32) (first_pos 8) 3 2 outset
      (λ t. (0, omega arith, omega arith)) (record { same_length = refl; same_numbers = λ v. refl })
      (record { same_length = refl; same_numbers = λ v. refl }) (omega arith) (omega arith)
