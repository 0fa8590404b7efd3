-- ===== src/Platform/Pic/Masks.antt =====
-- The masks of the interrupt lines: 1 is off.
use ada_os.Base.{
  ℕ, ◌-◌, ◌%◌, ◌^◌, ◌<◌, ◌≡◌, refl, ◌∙◌, true, false, bit_and, ltb→lt, ==_iff, holds_below,
  holds_below-at, List, [], ◌∷◌, ltb, ◌==◌, if◌then◌else◌, arith, bit_at, bit_at-clear_bit,
  clear_bit, Bool-cases, inl, inr,
}
use ada_os.Platform.Pic.{Out, data_port, line_of, unmask_irq}

-- What a port holds after some writes: the last value that was written to it.
unfoldable pub last_write : (port : ℕ) → List Out → ℕ → ℕ
last_write port [] old = old
last_write port (o ∷ os) old = last_write port os (if o.port == port then o.value else old)

-- Whether the line `irq` of 16 is off, given what the data ports hold.
abbrev pub masked : (ℕ → ℕ) → ℕ → ℕ
masked ports irq = bit_at (ports (data_port irq)) (line_of irq)

-- The ports after one write.
abbrev pub after : (ℕ → ℕ) → Out → ℕ → ℕ
after ports o port = if port == o.port then o.value else ports port

low_byte_table : holds_below (λ k. 2 ^ k % 256 == 2 ^ k) 8 ≡ true
unfolding holds_below
low_byte_table = refl

low_byte : (k : ℕ) → k < 8 → 2 ^ k % 256 ≡ 2 ^ k
low_byte k h = (==_iff _ _).0 (holds_below-at (λ i. 2 ^ i % 256 == 2 ^ i) 8 h low_byte_table)

cleared :
    (k j x : ℕ)
    → k < 8
    → j < 8
    → x < 256
    → bit_at (bit_and x (255 - 2 ^ k % 256)) j ≡ (if k == j then 0 else bit_at x j)
unfolding clear_bit
cleared k j x hk hj hx = rw (low_byte k hk) (bit_at-clear_bit k j x hk hj hx)

-- `unmask_irq` of one of the 16 lines switches that line on, and leaves the 15 others as they are.
pub masked-unmask_irq :
    (ports : ℕ → ℕ) (irq j : ℕ)
    → irq < 16
    → j < 16
    → ports (data_port irq) < 256
    → masked (after ports (unmask_irq ports irq)) j ≡ (if irq == j then 0 else masked ports j)
unfolding unmask_irq
masked-unmask_irq ports irq j hi hj byte = elim (Bool-cases (ltb irq 8)) [
  | inl low ↦
      let v = bit_and (ports 0x21) (255 - 2 ^ irq % 256) in
      elim (Bool-cases (ltb j 8)) [
        | inl low' ↦
            rw (low, low')
              (cleared irq j (ports 0x21) (ltb→lt _ _ low) (ltb→lt _ _ low') (rw low at byte))
        | inr high' ↦ let other : (irq == j) ≡ false = ground arith in rw (low, high', other) refl
      ]
  | inr high ↦ elim (Bool-cases (ltb j 8)) [
    | inl low' ↦ let other : (irq == j) ≡ false = ground arith in rw (high, low', other) refl
    | inr high' ↦
        let same : (irq - 8 == j - 8) ≡ (irq == j) = ground arith in
        rw (high, high')
          (cleared (irq - 8) (j - 8) (ports 0xa1) (ground arith) (ground arith) (rw high at byte)
            ∙ rw same refl)
  ]
]
