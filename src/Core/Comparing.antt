-- ===== src/Core/Comparing.antt =====
-- What the result of `memcmp` says of the two regions.
use ada_os.Base.{
  ℕ, zero, suc, ◌+◌, ◌<◌, ◌≡◌, refl, ◌⊎◌, inl, inr, ltb, ◌==◌, ==_iff, arith, Bool-cases,
}
use ada_os.Core.{Memory, Sign, minus_one, nought, one, compare_from, memcmp}

-- The regions agree before byte `i`, and differ there as `sign` says.
abbrev pub DifferAt : (s1 s2 : ℕ) → Memory → ℕ → Sign → Type 0
DifferAt s1 s2 m i minus_one = m (s1 + i) < m (s2 + i)
DifferAt s1 s2 m i nought = ⊥
DifferAt s1 s2 m i one = m (s2 + i) < m (s1 + i)

abbrev pub AgreeUpTo : (s1 s2 : ℕ) → Memory → ℕ → Type 0
AgreeUpTo s1 s2 m n = (i : ℕ) → i < n → m (s1 + i) ≡ m (s2 + i)

-- Either all bytes agree and the result is 0, or the first difference decides its sign.
abbrev pub Verdict : (s1 s2 : ℕ) → Memory → ℕ → Sign → Type 0
Verdict s1 s2 m n sign =
    (AgreeUpTo s1 s2 m n × (sign ≡ nought))
    ⊎ ((i : ℕ) × (i < n) × AgreeUpTo s1 s2 m i × DifferAt s1 s2 m i sign)

module _ (s1 s2 : ℕ) (m : Memory) where
  agree_more : (i : ℕ) → AgreeUpTo s1 s2 m i → m (s1 + i) ≡ m (s2 + i) → AgreeUpTo s1 s2 m (i + 1)
  agree_more i before e j h = ground (arith, before j)

  compare_from-Verdict :
      (n i j : ℕ) → i + n ≡ j → AgreeUpTo s1 s2 m i → Verdict s1 s2 m j (compare_from n i s1 s2 m)
  unfolding compare_from
  compare_from-Verdict zero i j e before = inl (λ k h. before k (omega arith), refl)
  compare_from-Verdict (suc n) i j e before = elim (Bool-cases (m (s1 + i) == m (s2 + i))) [
    | inl same ↦
        rw same (
          compare_from-Verdict n (i + 1) j (omega arith)
            (agree_more i before ((==_iff _ _).0 same)))
    | inr differ ↦ elim (Bool-cases (ltb (m (s1 + i)) (m (s2 + i)))) [
      | inl less ↦ rw (differ, less) (inr (i, omega arith, before, ground arith))
      | inr more ↦ rw (differ, more) (inr (i, omega arith, before, ground arith))
    ]
  ]

-- `memcmp` is 0 exactly when the first `n` bytes agree; otherwise its sign is that of the first
-- byte in which the regions differ.
pub memcmp-Verdict : (s1 s2 n : ℕ) (m : Memory) → Verdict s1 s2 m n (memcmp s1 s2 n m)
unfolding memcmp
memcmp-Verdict s1 s2 n m =
    compare_from-Verdict s1 s2 m n 0 n (omega arith) (λ k h. absurd (omega arith))
