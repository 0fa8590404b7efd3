-- ===== src/Platform/Acpi/Tables.antt =====
-- kernel/src/platform/x86_64/acpi.c: how the tables of the firmware are found and checked. The
-- tables lie in a memory of their own, which the page tables are not in. Log output is left out, and
-- so is the text of a panic.
pub mod Search
pub mod Sums
pub mod Loading
mod Tests
use ada_os.Base.{
  ℕ, zero, suc, ◌+◌, ◌-◌, ◌*◌, ◌/◌, ◌%◌, ◌^◌, Bool, true, false, ◌&&◌, not, List, [], ◌∷◌, Option,
  none, some, ltb, ◌==◌, if◌then◌else◌, Outcome, done, panicked, ◌>>=◌,
}
use ada_os.Core.{Memory}
use ada_os.Core.Words.{load64}
use ada_os.Memory.Layout.{add64, sub64, Boot}
use ada_os.Memory.Physical.{Pmm}
use ada_os.Memory.Virtual.{map_page, pte_nx, pte_pcd, null}
use ada_os.Platform.Acpi.{Madt, load32, table_length, checksum_header, parse_madt}

-- `!memcmp(address, signature, n)` for a signature of `n` bytes.
unfoldable pub has_signature : Memory → ℕ → List ℕ → Bool
has_signature m a [] = true
has_signature m a (c ∷ cs) = m a == c && has_signature m (a + 1) cs

pub check_header_signature : Memory → (header : ℕ) → List ℕ → Outcome {0} Unit
check_header_signature m header expected =
    if has_signature m header expected then done tt else panicked

-- "APIC", "FACP", "RSDT", and the seven bytes of "RSD PTR " that are compared
abbrev pub madt_signature : List ℕ
madt_signature = 65 ∷ 80 ∷ 73 ∷ 67 ∷ []

abbrev pub fadt_signature : List ℕ
fadt_signature = 70 ∷ 65 ∷ 67 ∷ 80 ∷ []

abbrev pub rsdt_signature : List ℕ
rsdt_signature = 82 ∷ 83 ∷ 68 ∷ 84 ∷ []

abbrev pub rsdp_signature : List ℕ
rsdp_signature = 82 ∷ 83 ∷ 68 ∷ 32 ∷ 80 ∷ 84 ∷ 82 ∷ []

-- `sizeof(struct sdt_header)`
abbrev pub header_size : ℕ
header_size = 36

abbrev pub entries_of : Memory → (root : ℕ) → ℕ
entries_of m root = sub64 (table_length m root) header_size / 4 % 2 ^ 32

-- `rsdt->outgoing_pointers[i]`
abbrev pub pointer_at : Memory → (root i : ℕ) → ℕ
pointer_at m root i = load32 m (root + header_size + 4 * i)

-- `for (i = 0; i < sizeof(rsdp_h); i++) sum += bytes[i];` on a `uint32_t`.
pub rsdp_sum_from : (n i sum : ℕ) → Memory → ℕ → ℕ
rsdp_sum_from zero i sum m rsdp = sum
rsdp_sum_from (suc n) i sum m rsdp = rsdp_sum_from n (i + 1) ((sum + m (rsdp + i)) % 2 ^ 32) m rsdp

pub rsdp_sum : Memory → ℕ → ℕ
unfolding rsdp_sum_from
rsdp_sum m rsdp = rsdp_sum_from 20 0 0 m rsdp % 256

-- Where `bootstrap_acpi` leaves what it found: `fadt` and `facs_ptr`, the records of the MADT, and
-- the page tables.
pub record Loaded : Type 0 where
  pub pages : Pmm
  pub records : Madt
  pub fadt : ℕ
  pub facs_ptr : ℕ

abbrev pub loaded : Pmm → Madt → (fadt facs_ptr : ℕ) → Loaded
loaded s records fadt facs_ptr = record {
  pages = s;
  records = records;
  fadt = fadt;
  facs_ptr = facs_ptr;
}

module _ (boot : Boot) (top_level : ℕ) (m : Memory) where
  abbrev pub higher_half : ℕ → ℕ
  higher_half phys = add64 phys boot.hhdm_offset

  -- The loop of `find_table`; whether the page could be mapped is not asked.
  pub find_from : (n i root : ℕ) → List ℕ → Pmm → Outcome (ℕ × Pmm)
  find_from zero i root signature s = done (null, s)
  find_from (suc n) i root signature s =
      let phys = pointer_at m root i in
      let vert = higher_half phys in
      map_page boot top_level vert phys (pte_nx + pte_pcd) s >>= λ r.
      let rest = find_from n (i + 1) root signature r.1 in
      if has_signature m vert signature then done (vert, r.1) else rest

  pub find_table : (root : ℕ) → List ℕ → Pmm → Outcome (ℕ × Pmm)
  find_table root signature s = find_from (entries_of m root) 0 root signature s

  -- The end of `bootstrap_acpi`, from the FADT on.
  pub load_fadt : (fadt : ℕ) → Madt → Pmm → Outcome (Pmm × Option Loaded)
  load_fadt fadt records s =
      let firmware_ctrl = load32 m (fadt + 36) in
      let x_firmware_control = load64 m (fadt + 132) in
      if not (firmware_ctrl == 0)
      then done (s, some (loaded s records fadt firmware_ctrl))
      else if not (x_firmware_control == 0)
      then done (s, some (loaded s records fadt x_firmware_control))
      else panicked

  -- The part between, from the RSDT on: both tables are looked for, checked and read.
  pub load_tables : (uninitialised root : ℕ) → Pmm → Outcome (Pmm × Option Loaded)
  load_tables uninitialised root s = check_header_signature m root rsdt_signature >>= λ _.
      checksum_header m root >>= λ _. find_table root madt_signature s >>= λ madt.
      (if madt.0 == null
        then panicked
        else (checksum_header m madt.0 >>= λ _. parse_madt uninitialised m madt.0 >>= λ records.
            find_table root fadt_signature madt.1 >>= λ fadt.
            (if fadt.0 == null
              then panicked
              else (checksum_header m fadt.0 >>= λ _. load_fadt fadt.0 records fadt.1))))

  -- `bootstrap_acpi` for a boot loader's response that is present, whose address is `phys`. `none`
  -- where the RSDP could not be mapped, after which nothing is read.
  pub bootstrap_acpi : (uninitialised phys : ℕ) → Pmm → Outcome (Pmm × Option Loaded)
  bootstrap_acpi uninitialised phys s =
      let virt = higher_half phys in
      map_page boot top_level virt phys (pte_pcd + pte_nx) s >>= λ r.
      (if not r.0
        then done (r.1, none)
        else if not (has_signature m virt rsdp_signature)
        then panicked
        else if not (rsdp_sum m virt == 0)
        then panicked
        else (let rsdt = load32 m (virt + 16) in
            map_page boot top_level (higher_half rsdt) rsdt (pte_pcd + pte_nx) r.1 >>= λ r'.
            (if not r'.0 then panicked else load_tables uninitialised (higher_half rsdt) r'.1)))
