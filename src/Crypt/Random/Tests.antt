-- ===== src/Crypt/Random/Tests.antt =====
-- The generator from a concrete state.
use ada_os.Base.{ℕ, ◌≤◌, ◌≡◌, ◌⊎◌, refl, ◌==◌, if◌then◌else◌, some, arith}
use ada_os.Crypt.Random.{MtState, setup_random, random_uint32, random_range, temper, twist}
use ada_os.Crypt.Random.Sequence.{Recurs, Window, random_uint32-Window}
use ada_os.Crypt.Random.Range.{random_range-within}

abbrev blank : MtState
blank = record { state_array = λ _. 0; state_index = 0 }

-- the first number of the published test vector, for the seed 5489
first_number : (random_uint32 (setup_random 5489 blank)).0 ≡ 3499211612
unfolding random_uint32 setup_random temper twist
first_number = refl

-- the numbers 0, 1, 2, ... and the one that follows 623 of them
abbrev rising : ℕ → ℕ
rising k = if k == 624 then 2567483730 else k

abbrev rising_state : MtState
rising_state = record { state_array = λ k. k; state_index = 0 }

rising-Recurs : Recurs rising 0
unfolding twist
rising-Recurs = refl

rising-Window : Window rising 0 rising_state
rising-Window = record { index = refl; cells = λ i h. ground arith }

random_uint32-Window_example :
    ((random_uint32 rising_state).0 ≡ temper 2567483730)
    × Window rising 1 (random_uint32 rising_state).1
random_uint32-Window_example = random_uint32-Window rising 0 rising-Recurs rising-Window

random_range-within_example :
    (r : ℕ) × (s' : MtState) × (random_range 10 20 rising_state ≡ some (r, s'))
    × (10 ≤ r)
    × (r ≤ 20)
    × ((s' ≡ rising_state) ⊎ (s' ≡ (random_uint32 rising_state).1))
random_range-within_example =
    random_range-within 10 20 rising_state (omega arith) (omega arith) (omega arith)
