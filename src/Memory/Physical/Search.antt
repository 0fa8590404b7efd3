-- ===== src/Memory/Physical/Search.antt =====
-- The `retry` loop over the page mappings ends, and what it finds.
use ada_os.Base.{
  ℕ, zero, suc, ◌+◌, ◌-◌, ◌*◌, ◌≤◌, ◌<◌, ◌≡◌, Bool, true, false, leb, leb→le, leb→gt, Outcome, done,
  arith, Bool-cases, inl, inr,
}
use ada_os.Memory.Physical.{retry, rounds}

-- An accepted index, or the fact that no index up to `count + 1` is accepted.
abbrev pub Found : (ℕ → Bool) → ℕ → ℕ → Bool → Type 0
Found hit count j true = hit j ≡ true
Found hit count j false = (k : ℕ) → k ≤ count + 1 → hit k ≡ false

-- The run of the loop returns.
pub record Ends (hit : ℕ → Bool) (count : ℕ) (run : Outcome (ℕ × Bool)) : Type 0 where
  pub index : ℕ
  pub hits : Bool
  pub returns : run ≡ done (index, hits)
  pub found : Found hit count index hits

module _ (hit : ℕ → Bool) (count : ℕ) where
  retry_wrapped :
      (fuel last : ℕ)
      → ((k : ℕ) → k < last → hit k ≡ false)
      → count + 2 - last < fuel
      → Ends hit count (retry hit count fuel last true)
  unfolding retry
  retry_wrapped zero last missed enough = absurd (omega arith)
  retry_wrapped (suc fuel) last missed enough = elim (Bool-cases (hit last)) [
    | inl yes' ↦ record { index = last; hits = true; returns = rw yes'; found = yes' }
    | inr no' ↦ elim (Bool-cases (leb last count)) [
      | inl more ↦
          rw (no', more)
            (retry_wrapped fuel (last + 1) (λ k h. ground (arith, missed k))
              (omega (arith, leb→le last count more)))
      | inr over ↦ record {
        index = last;
        hits = false;
        returns = rw (no', over);
        found = λ k h. ground (arith, missed k, leb→gt last count over);
      }
    ]
  ]

  retry_first :
      (fuel last : ℕ)
      → (count + 2 - last) + (count + 3) < fuel
      → Ends hit count (retry hit count fuel last false)
  unfolding retry
  retry_first zero last enough = absurd (omega arith)
  retry_first (suc fuel) last enough = elim (Bool-cases (hit last)) [
    | inl yes' ↦ record { index = last; hits = true; returns = rw yes'; found = yes' }
    | inr no' ↦ elim (Bool-cases (leb last count)) [
      | inl more ↦
          rw (no', more) (retry_first fuel (last + 1) (omega (arith, leb→le last count more)))
      | inr over ↦ rw (no', over) (retry_wrapped fuel 0 (λ k h. absurd (omega arith)) (omega arith))
    ]
  ]

  -- The fuel is enough from any index.
  pub retry-Ends : (last : ℕ) → Ends hit count (retry hit count (rounds count) last false)
  retry-Ends last = retry_first (rounds count) last (omega arith)

  -- A hit at the index where the loop starts ends it at once.
  pub retry_at_once :
      (last : ℕ) → hit last ≡ true → retry hit count (rounds count) last false ≡ done (last, true)
  unfolding retry
  retry_at_once last h = let e : rounds count ≡ suc (2 * count + 5) = omega arith in rw e (rw h)
