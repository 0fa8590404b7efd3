-- ===== src/Crypt/Random/Sequence.antt =====
-- `random_uint32` gives the numbers of the Mersenne Twister's recurrence, one after the other.
use ada_os.Base.{
  ℕ, ◌+◌, ◌-◌, ◌%◌, ◌<◌, ◌≡◌, ◌∙◌, sym, ap, true, false, ◌==◌, bit_and, bit_or, bit_xor, arith,
  Bool-cases, inl, inr,
}
use ada_os.Crypt.Random.{
  MtState, n, m, umask, lmask, twist, temper, step_back, random_uint32, put_word,
}

-- The recurrence of the Mersenne Twister on 32-bit words, at number `t`.
abbrev pub Recurs : (ℕ → ℕ) → ℕ → Type 0
Recurs x t =
    x (t + 624)
    ≡ bit_xor (x (t + 397)) (twist (bit_or (bit_and (x t) umask) (bit_and (x (t + 1)) lmask)))

-- The state holds the 624 numbers from `t` on, in a ring.
pub record Window (x : ℕ → ℕ) (t : ℕ) (s : MtState) : Type 0 where
  pub index : s.state_index ≡ t % 624
  pub cells : (i : ℕ) → i < 624 → s.state_array ((t + i) % 624) ≡ x (t + i)

module _ (x : ℕ → ℕ) (t : ℕ) (rule : Recurs x t) {s : MtState} (w : Window x t s) where
  first_cell : s.state_array s.state_index ≡ x t
  first_cell =
      let e : s.state_index ≡ (t + 0) % 624 = omega (arith, w.index) in
      ap s.state_array e ∙ w.cells 0 (omega arith) ∙ ap x (plus_zero t)
    where
      plus_zero : (k : ℕ) → k + 0 ≡ k
      plus_zero k = omega arith

  cell_at :
      (d i : ℕ)
      → 0 < d
      → d < 624
      → i + d ≡ 624
      → s.state_array (step_back s.state_index d) ≡ x (t + i)
  cell_at d i pos small e =
      let place : step_back s.state_index d ≡ (t + i) % 624 = ground (arith, w.index) in
      ap s.state_array place ∙ w.cells i (omega arith)

  next_word :
      bit_xor (s.state_array (step_back s.state_index (n - m))) (
        twist (
          bit_or
            (bit_and (s.state_array s.state_index) umask)
            (bit_and (s.state_array (step_back s.state_index (n - 1))) lmask)))
      ≡ x (t + 624)
  next_word =
      let a = cell_at (n - m) 397 (omega arith) (omega arith) (omega arith) in
      let b = cell_at (n - 1) 1 (omega arith) (omega arith) (omega arith) in
      rw (a, b, first_cell) (sym rule)

  shifted :
      (i : ℕ)
      → i < 624
      → put_word s.state_array s.state_index (x (t + 624)) ((t + 1 + i) % 624) ≡ x (t + 1 + i)
  shifted i h = elim (Bool-cases (i == 623)) [
    | inl last ↦
        let e : t + 1 + i ≡ t + 624 = ground arith in
        let here : ((t + 1 + i) % 624 == s.state_index) ≡ true = ground (arith, e, w.index) in
        rw here (ap x (sym e))
    | inr inside ↦
        let other : ((t + 1 + i) % 624 == s.state_index) ≡ false = ground (arith, w.index) in
        let e : t + 1 + i ≡ t + (i + 1) = omega arith in
        rw (other, e) (w.cells (i + 1) (ground arith))
  ]

  -- From a state that holds 624 numbers of a sequence from `t` on, where number `t + 624` is the one
  -- that the Mersenne Twister's recurrence gives, `random_uint32` returns that number, tempered, and
  -- leaves the state that holds the numbers from `t + 1` on.
  pub random_uint32-Window :
      ((random_uint32 s).0 ≡ temper (x (t + 624))) × Window x (t + 1) (random_uint32 s).1
  unfolding random_uint32
  random_uint32-Window = (
    ap temper next_word,
    record { index = ground (arith, w.index); cells = λ i h. rw next_word (shifted i h) },
  )
