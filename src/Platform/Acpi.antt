-- ===== src/Platform/Acpi.antt =====
-- kernel/src/platform/x86_64/acpi.c: the tables of the firmware, which lie in memory. Log output is
-- left out, and so is the allocation of the arrays for the records of the MADT: an array is a
-- function from the index to the address of the record that was copied.
pub mod Walk
pub mod Tables
mod Tests
use ada_os.Base.{
  ℕ, zero, suc, ◌+◌, ◌-◌, ◌*◌, ◌/◌, ◌%◌, Bool, true, false, ◌&&◌, ◌||◌, not, List, [], ◌∷◌, ltb,
  leb, ◌==◌, if◌then◌else◌, Outcome, done, panicked, spinning, ◌>>=◌,
}
use ada_os.Core.{Memory}

-- `*(uint32_t *)address`
abbrev pub load32 : Memory → ℕ → ℕ
load32 m a = m a + 256 * m (a + 1) + 65536 * m (a + 2) + 16777216 * m (a + 3)

-- `header->length`, behind the four bytes of the signature.
abbrev pub table_length : Memory → ℕ → ℕ
table_length m header = load32 m (header + 4)

-- `for (i = i; i < i + n; i++) sum += header[i];` on a `uint8_t`.
sum_from : (n i sum : ℕ) → Memory → ℕ → ℕ
sum_from zero i sum m header = sum
sum_from (suc n) i sum m header = sum_from n (i + 1) ((sum + m (header + i)) % 256) m header

pub checksum_header : Memory → ℕ → Outcome {0} Unit
unfolding sum_from
checksum_header m header =
    if sum_from (table_length m header) 0 0 m header == 0 then done tt else panicked

-- The seven kinds of records and their numbers, by the type of the record. The numbers are words of
-- 32 bits, which the records of a table, whose length is such a word, cannot overflow.
pub record Madt : Type 0 where
  pub records : (kind i : ℕ) → ℕ
  pub count : ℕ → ℕ

abbrev pub is_known : ℕ → Bool
is_known kind = leb kind 5 || kind == 9

-- One round of the loop of `parse_madt` for a record of the kind at the address.
pub add_record : (kind i address : ℕ) → Madt → Madt
add_record kind i address t =
    if is_known kind
    then record {
      records = λ k j. if k == kind && j == i then address + 2 else t.records k j;
      count = λ k. if k == kind then t.count k + 1 else t.count k;
    }
    else t

-- The loop, from the offset on; `last_type` is not set before the first round.
pub walk_records : (fuel : ℕ) → Memory → (madt size offset i last_type : ℕ) → Madt → Outcome Madt
walk_records zero m madt size offset i last_type t = spinning
walk_records (suc fuel) m madt size offset i last_type t =
    let kind = m (madt + offset) in
    let length = m (madt + offset + 1) in
    let i' = if not (last_type == kind) then 0 else i in
    let rest =
      walk_records fuel m madt size (offset + length) (i' + 1) kind
        (add_record kind i' (madt + offset) t) in
    if ltb offset size then rest else done t

abbrev pub no_records : Madt
no_records = record { records = λ _ _. 0; count = λ _. 0 }

-- Each record has at least one byte, so the loop has at most one round for each byte of the table.
pub parse_madt : (uninitialised : ℕ) → Memory → (madt : ℕ) → Outcome Madt
unfolding walk_records
parse_madt uninitialised m madt =
    if load32 m (madt + 0x28) == 0
    then panicked
    else (let size = table_length m madt in
        walk_records (size + 1) m madt size 0x2c 0 uninitialised no_records >>= λ t.
        if ltb 0 (t.count 5) then panicked else done t)
