-- ===== src/Memory/Map.antt =====
-- kernel/src/memory/memmap.c: the usable memory, from the boot loader's memory map. That the
-- responses are present is assumed, since the code panics without them.
pub mod Covering
mod Tests
use ada_os.Base.{
  ℕ, zero, suc, ◌+◌, ◌*◌, ◌/◌, ◌%◌, ◌^◌, Bool, true, false, ◌&&◌, ◌||◌, List, [], ◌∷◌, ◌++◌, length,
  ltb, ◌==◌, if◌then◌else◌, take, Outcome, done, undefined, ◌>>=◌,
}
use ada_os.Memory.Layout.{add64, max_chunks}
use ada_os.Memory.Physical.{Chunk}

-- An entry of the memory map; `kind` is the source's `type`.
pub record Entry : Type 0 where
  pub kind : ℕ
  pub base : ℕ
  pub size : ℕ

-- `LIMINE_MEMMAP_USABLE`, `_ACPI_RECLAIMABLE` and `_BOOTLOADER_RECLAIMABLE`; the argument is an
-- `int`, so of the 64 bits of the type the low 32 are compared.
pub is_memory_free : ℕ → Bool
is_memory_free kind = let t = kind % 2 ^ 32 in t == 0 || (t == 2 || t == 5)

-- `free_chunks`, the chunk found last in front, and `desc.length`.
pub record Found : Type 0 where
  pub chunks : List Chunk
  pub total : ℕ

-- One round of the loop on a free entry.
pub add_chunk : Entry → List Chunk → List Chunk
add_chunk e [] = record { base = e.base; bounds = add64 e.base e.size } ∷ []
add_chunk e (c ∷ cs) =
    if c.bounds == e.base
    then record { base = c.base; bounds = add64 e.base e.size } ∷ cs
    else record { base = e.base; bounds = add64 e.base e.size } ∷ c ∷ cs

-- What one entry adds.
pub add_entry : Entry → Found → Found
add_entry e f =
    if is_memory_free e.kind
    then record { chunks = add_chunk e f.chunks; total = add64 f.total e.size }
    else f

-- The loop; a chunk behind the `MAX_CHUNKS` of the array is undefined.
pub collect : List Entry → Found → Outcome Found
collect [] f = done f
collect (e ∷ es) f =
    let f' = add_entry e f in
    let rest = collect es f' in if ltb max_chunks (length f'.chunks) then undefined else rest

-- `memory_descriptor_t`; the chunks are in the order of the array. `chunk_count` is a `uint8_t`.
pub record Descriptor : Type 0 where
  pub total : ℕ
  pub chunk_count : ℕ
  pub free_chunks : List Chunk

reverse_onto : List Chunk → List Chunk → List Chunk
reverse_onto [] out = out
reverse_onto (c ∷ cs) out = reverse_onto cs (c ∷ out)

pub described : Found → Descriptor
unfolding reverse_onto
described f = record {
  total = f.total;
  chunk_count = length f.chunks % 256;
  free_chunks = reverse_onto f.chunks [];
}

pub get_memory_descriptor : List Entry → Outcome Descriptor
get_memory_descriptor entries =
    collect entries (record { chunks = []; total = 0 }) >>= λ f. done (described f)

-- The chunks that the code reads of the array, of which it has the number and the address.
abbrev pub counted_chunks : Descriptor → List Chunk
counted_chunks d = take d.chunk_count d.free_chunks

-- The figures that `print_free_ram` prints, and whether it panics for want of memory.
pub free_gib : Descriptor → ℕ × ℕ
free_gib d = (d.total / 1073741824, d.total % 1073741824 * 100 / 1073741824)

pub is_insufficient : Descriptor → Bool
is_insufficient d = let (gib, decimal) = free_gib d in ltb gib 1 && ltb decimal 50
