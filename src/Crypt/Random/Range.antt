-- ===== src/Crypt/Random/Range.antt =====
-- Random numbers in a range.
use ada_os.Base.{
  ℕ, ◌+◌, ◌-◌, ◌%◌, ◌^◌, ◌≤◌, ◌<◌, ◌≡◌, ◌≢◌, refl, false, ltb, ◌==◌, some, arith, Bool-cases, inl,
  inr, ◌⊎◌,
}
use native.Mathlib.Nat.{mod-lt}
use ada_os.Crypt.Random.{MtState, word, random_uint32, random_range}

-- For words `min <= max`, other than 0 and the largest word, `random_range` returns a number from
-- `min` to `max`, both included. The state is the old one or that after one `random_uint32`.
pub random_range-within :
    (min max : ℕ) (s : MtState)
    → min ≤ max
    → max < 2 ^ 32
    → max - min ≢ 2 ^ 32 - 1
    → (r : ℕ) × (s' : MtState) × (random_range min max s ≡ some (r, s'))
      × (min ≤ r)
      × (r ≤ max)
      × ((s' ≡ s) ⊎ (s' ≡ (random_uint32 s).1))
unfolding random_range
random_range-within min max s le small proper =
    let sorted : ltb max min ≡ false = ground arith in
    elim (Bool-cases (max == 0)) [
      | inl none' ↦ (min, s, rw (sorted, none') refl, omega arith, le, inl refl)
      | inr some' ↦
          let e : (max + word - min + 1) % word ≡ max - min + 1 = omega (arith, proper) in
          let pos : (max - min + 1 == 0) ≡ false = ground arith in
          let r = (random_uint32 s).0 % (max - min + 1) in
          let below : r < max - min + 1 = mod-lt (random_uint32 s).0 (omega arith) in
          let exact : (min + r) % word ≡ min + r = omega (arith, below) in
          (
            min + r,
            (random_uint32 s).1,
            rw (sorted, some', e, pos, exact) refl,
            omega arith,
            omega (arith, below),
            inr refl,
          )
    ]
