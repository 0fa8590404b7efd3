-- ===== src/Util/Text/Copies.antt =====
-- What the string functions read and leave.
use ada_os.Base.{
  ℕ, zero, suc, ◌+◌, ◌-◌, ◌≤◌, ◌<◌, ◌≡◌, ◌≢◌, ◌⊎◌, inl, inr, refl, ◌∙◌, ◌==◌, if◌then◌else◌, ltb,
  true, false, done, arith, Bool-cases, ap, ltb→lt, ltb→ge,
}
use ada_os.Core.{Memory, mempcpy, store}
use ada_os.Core.Copying.{within, memmove-at, memcpy-eq-memmove, mempcpy-memcpy}
use ada_os.Util.Text.{length_from, strlen, stpcpy, strcat}

-- A string of `n` bytes at `s`, and the zero byte behind it.
pub record IsText (m : Memory) (s n : ℕ) : Type 0 where
  pub ends : m (s + n) ≡ 0
  pub bytes : (i : ℕ) → i < n → m (s + i) ≢ 0

length_from-IsText :
    {m : Memory} {s n : ℕ}
    → IsText m s n
    → (fuel i : ℕ) → i ≤ n
    → n < i + fuel
    → length_from fuel m s i ≡ done n
unfolding length_from
length_from-IsText t zero i le enough = absurd (omega arith)
length_from-IsText {m} {s} {n} t (suc fuel) i le enough = elim (Bool-cases (i == n)) [
  | inl last ↦
      let e : i ≡ n = ground arith in
      let z : (m (s + i) == 0) ≡ true = ground (arith, t.ends, e) in rw z (ground arith)
  | inr inside ↦
      let nz : (m (s + i) == 0) ≡ false = ground (arith, t.bytes i) in
      rw nz (length_from-IsText t fuel (i + 1) (ground arith) (omega arith))
]

-- `strlen` finds the length, when the fuel is larger than it.
pub strlen-IsText :
    {m : Memory} {s n : ℕ} → IsText m s n → (fuel : ℕ) → n < fuel → strlen fuel m s ≡ done n
unfolding strlen
strlen-IsText t fuel enough = length_from-IsText t fuel 0 (omega arith) (omega arith)

-- `m'` is `m` with the string of `n` bytes at `src` and its zero byte at `dst` as well.
pub record Copied (m m' : Memory) (dst src n : ℕ) : Type 0 where
  pub text : IsText m' dst n
  pub bytes : (i : ℕ) → i ≤ n → m' (dst + i) ≡ m (src + i)
  pub same : (a : ℕ) → (a < dst) ⊎ (dst + n < a) → m' a ≡ m a

copy_at :
    (dst src n : ℕ) (m : Memory) (a : ℕ)
    → (src + n < dst) ⊎ (dst + n < src)
    → (mempcpy dst src n m).1 a ≡ (if within dst n a then m (src + (a - dst)) else m a)
copy_at dst src n m a apart =
    (mempcpy-memcpy dst src n m a).1
    ∙ memcpy-eq-memmove dst src n m a (ground arith)
    ∙ memmove-at dst src n m a

-- `stpcpy` of a string to a place that does not overlap it returns the address of the new zero
-- byte, and copies the string and changes nothing else. The fuel is larger than the length.
pub stpcpy-Copied :
    {m : Memory} (dst src n fuel : ℕ)
    → IsText m src n
    → (src + n < dst) ⊎ (dst + n < src)
    → n < fuel
    → (m' : Memory) × (stpcpy fuel dst src m ≡ done (dst + n, m')) × Copied m m' dst src n
unfolding stpcpy store
stpcpy-Copied {m} dst src n fuel t apart enough =
    let m1 = (mempcpy dst src n m).1 in
    let m' = store m1 (dst + n) 0 in
    let bytes : (i : ℕ) → i ≤ n → m' (dst + i) ≡ m (src + i) =
      λ i le. ground (arith, copy_at dst src n m (dst + i) (apart), t.ends) in
    (
      m',
      rw (strlen-IsText t fuel enough) (rw ((mempcpy-memcpy dst src n m 0).0) refl),
      record {
        text = record {
          ends = bytes n (omega arith) ∙ t.ends;
          bytes = λ i lt. rw (bytes i (omega arith)) (t.bytes i lt);
        };
        bytes = bytes;
        same = λ a out. ground (arith, copy_at dst src n m a (apart));
      },
    )

-- `m'` is `m` with the string at `src` behind the one of `k` bytes at `dst`.
pub record Joined (m m' : Memory) (dst k src n : ℕ) : Type 0 where
  pub text : IsText m' dst (k + n)
  pub front : (i : ℕ) → i < k → m' (dst + i) ≡ m (dst + i)
  pub back : (i : ℕ) → i ≤ n → m' (dst + k + i) ≡ m (src + i)
  pub same : (a : ℕ) → (a < dst + k) ⊎ (dst + k + n < a) → m' a ≡ m a

-- `strcat` of a string behind another one, where the second does not overlap the place of the
-- result, leaves the first one with the second behind it, and changes nothing else. The fuel
-- is larger than both lengths.
pub strcat-Joined :
    {m : Memory} (dst k src n fuel : ℕ)
    → IsText m dst k
    → IsText m src n
    → (src + n < dst + k) ⊎ (dst + k + n < src)
    → k < fuel
    → n < fuel
    → (m' : Memory) × (strcat fuel dst src m ≡ done (dst, m')) × Joined m m' dst k src n
unfolding strcat
strcat-Joined {m} dst k src n fuel d t apart fits fits' =
    let (m', run, c) = stpcpy-Copied (dst + k) src n fuel t apart fits' in
    let front : (i : ℕ) → i < k → m' (dst + i) ≡ m (dst + i) =
      λ i lt. c.same (dst + i) (inl (omega arith)) in
    (
      m',
      rw (strlen-IsText d fuel fits, run) refl,
      record {
        text = record {
          ends = ap m' (plus_plus dst k n) ∙ c.text.ends;
          bytes = λ i lt. elim (Bool-cases (ltb i k)) [
            | inl early ↦ rw (front i (ltb→lt i k early)) (d.bytes i (ltb→lt i k early))
            | inr late ↦
                let ge = ltb→ge i k late in
                let e : dst + i ≡ dst + k + (i - k) = omega arith in
                rw e (c.text.bytes (i - k) (omega arith))
          ];
        };
        front = front;
        back = c.bytes;
        same = c.same;
      },
    )
  where
    plus_plus : (a b c : ℕ) → a + (b + c) ≡ a + b + c
    plus_plus a b c = omega arith
