-- ===== src/Memory/Map/Covering.antt =====
-- The chunks hold the same addresses as the free entries.
use ada_os.Base.{
  ℕ, ◌+◌, ◌%◌, ◌^◌, ◌≤◌, ◌<◌, ◌≡◌, refl, inl, inr, Bool, false, ◌&&◌, ◌||◌, List, [], ◌∷◌, length,
  leb, ltb, ◌==◌, if◌then◌else◌, arith, Bool-cases, ◌∙◌, done,
}
use ada_os.Memory.Layout.{max_chunks}
use ada_os.Memory.Physical.{Chunk}
use ada_os.Memory.Map.{
  Entry, is_memory_free, Found, add_chunk, add_entry, collect, reverse_onto, Descriptor, described,
  get_memory_descriptor, free_gib, is_insufficient,
}

-- An address lies in a chunk, or in a free entry.
abbrev pub in_chunk : ℕ → Chunk → Bool
in_chunk a c = leb c.base a && ltb a c.bounds

pub in_chunks : ℕ → List Chunk → Bool
in_chunks a [] = false
in_chunks a (c ∷ cs) = in_chunk a c || in_chunks a cs

abbrev pub in_entry : ℕ → Entry → Bool
in_entry a e = is_memory_free e.kind && (leb e.base a && ltb a (e.base + e.size))

pub in_entries : ℕ → List Entry → Bool
in_entries a [] = false
in_entries a (e ∷ es) = in_entry a e || in_entries a es

-- The entries do not run over the end of the address space.
abbrev pub Fitting : List Entry → Type 0
Fitting [] = Unit
Fitting (e ∷ es) = (e.base + e.size < 2 ^ 64) × Fitting es

-- No chunk ends before it begins.
abbrev Forward : List Chunk → Type 0
Forward [] = Unit
Forward (c ∷ cs) = (c.base ≤ c.bounds) × Forward cs

add_chunk-Forward :
    (e : Entry) (cs : List Chunk) → e.base + e.size < 2 ^ 64 → Forward cs → Forward (add_chunk e cs)
unfolding add_chunk
add_chunk-Forward e [] small f = (omega arith, tt)
add_chunk-Forward e (c ∷ cs) small f = elim (Bool-cases (c.bounds == e.base)) [
  | inl touch ↦ let same : c.bounds ≡ e.base = ground arith in rw touch (omega (arith, f.0), f.1)
  | inr gap ↦ rw gap (omega arith, f)
]

in_chunks-add_chunk :
    (a : ℕ) (e : Entry) (cs : List Chunk)
    → e.base + e.size < 2 ^ 64
    → Forward cs
    → in_chunks a (add_chunk e cs) ≡ ((leb e.base a && ltb a (e.base + e.size)) || in_chunks a cs)
unfolding add_chunk in_chunks
in_chunks-add_chunk a e [] small f = ground arith
in_chunks-add_chunk a e (c ∷ cs) small f = ground (arith, f.0)

in_chunks-reverse_onto :
    (a : ℕ) (cs out : List Chunk)
    → in_chunks a (reverse_onto cs out) ≡ (in_chunks a cs || in_chunks a out)
unfolding reverse_onto in_chunks
in_chunks-reverse_onto a [] out = refl
in_chunks-reverse_onto a (c ∷ cs) out = rw (in_chunks-reverse_onto a cs (c ∷ out)) (ground arith)

length-add_chunk : (e : Entry) (cs : List Chunk) → length (add_chunk e cs) ≤ length cs + 1
unfolding add_chunk
length-add_chunk e [] = omega arith
length-add_chunk e (c ∷ cs) = elim (Bool-cases (c.bounds == e.base)) [
  | inl touch ↦ rw touch (omega arith)
  | inr gap ↦ rw gap (omega arith)
]

-- The lengths of the free entries, added up.
pub free_total : List Entry → ℕ
free_total [] = 0
free_total (e ∷ es) = if is_memory_free e.kind then e.size + free_total es else free_total es

-- What the loop leaves, from a state it is in.
record Collected (es : List Entry) (f f' : Found) : Type 0 where
  pub covers : (a : ℕ) → in_chunks a f'.chunks ≡ (in_entries a es || in_chunks a f.chunks)
  pub few : length f'.chunks ≤ length f.chunks + length es
  pub total : f'.total % 2 ^ 64 ≡ (f.total + free_total es) % 2 ^ 64
  pub word : f'.total < 2 ^ 64

add_entry-Collected :
    (e : Entry) (f : Found)
    → e.base + e.size < 2 ^ 64
    → f.total < 2 ^ 64
    → Forward f.chunks
    → Collected (e ∷ []) f (add_entry e f) × Forward (add_entry e f).chunks
unfolding add_entry in_entries free_total
add_entry-Collected e f fit small forward = elim (Bool-cases (is_memory_free e.kind)) [
  | inr used ↦ (
    record {
      covers = λ a. rw used (ground arith);
      few = rw used (omega arith);
      total = rw used (omega arith);
      word = rw used small;
    },
    rw used forward,
  )
  | inl free ↦
      let k = length-add_chunk e f.chunks in
      (
        record {
          covers = λ a.
              let c = in_chunks-add_chunk a e f.chunks fit forward in rw (free, c) (ground arith);
          few = rw free (omega (arith, k));
          total = rw free (omega arith);
          word = rw free (omega arith);
        },
        rw free (add_chunk-Forward e f.chunks fit forward),
      )
]

collect-Collected :
    (es : List Entry) (f : Found)
    → Fitting es
    → f.total < 2 ^ 64
    → Forward f.chunks
    → length f.chunks + length es ≤ 128
    → (f' : Found) × (collect es f ≡ done f') × Collected es f f'
unfolding collect in_entries free_total
collect-Collected [] f fit small forward room =
    (f, refl, record { covers = λ a. refl; few = omega arith; total = omega arith; word = small })
collect-Collected (e ∷ es) f fit small forward room =
    let (one, forward') = add_entry-Collected e f fit.0 small forward in
    let (f', run, rest) =
      collect-Collected es (add_entry e f) fit.1 one.word forward' (omega (arith, one.few, room)) in
    let inside : ltb max_chunks (length (add_entry e f).chunks) ≡ false =
      ground (arith, one.few, room) in
    (
      f',
      rw inside run,
      record {
        covers = λ a. rest.covers a ∙ rw (one.covers a) (ground arith);
        few = omega (arith, one.few, rest.few);
        total = elim (Bool-cases (is_memory_free e.kind)) [
          | inl free ↦ rw free (omega (arith, rest.total, rw free at one.total))
          | inr used ↦ rw used (omega (arith, rest.total, rw used at one.total))
        ];
        word = rest.word;
      },
    )

length-reverse_onto : (cs out : List Chunk) → length (reverse_onto cs out) ≡ length cs + length out
unfolding reverse_onto
length-reverse_onto [] out = omega arith
length-reverse_onto (c ∷ cs) out = omega (arith, length-reverse_onto cs (c ∷ out))

-- What the descriptor of a memory map says of it: its chunks hold an address exactly when a free entry
-- does, `chunk_count` counts all of them, and there is at most one for each entry; and `length` is the sum of the free entries' lengths,
-- as a word.
pub record Describes (entries : List Entry) (d : Descriptor) : Type 0 where
  pub covers : (a : ℕ) → in_chunks a d.free_chunks ≡ in_entries a entries
  pub count : d.chunk_count ≡ length d.free_chunks
  pub few : length d.free_chunks ≤ length entries
  pub total : d.total ≡ free_total entries % 2 ^ 64

-- For a memory map of at most 128 entries, the size of the code's array, `get_memory_descriptor`
-- returns. Its free chunks hold an address exactly when a free entry of the map does, in whatever
-- order the entries come; all the chunks are counted, of which there is at most one for each entry;
-- and the length is the sum of the lengths of
-- the free entries, as a word. No entry runs over the end of the address space.
pub in_chunks-get_memory_descriptor :
    (entries : List Entry)
    → Fitting entries
    → length entries ≤ 128
    → (d : Descriptor) × (get_memory_descriptor entries ≡ done d) × Describes entries d
unfolding get_memory_descriptor described in_chunks
in_chunks-get_memory_descriptor entries fit few =
    let start : Found = record { chunks = []; total = 0 } in
    let (f, run, c) = collect-Collected entries start fit (omega arith) tt (omega (arith, few)) in
    let r = length-reverse_onto f.chunks [] in
    (
      described f,
      rw run refl,
      record {
        covers =
            λ a. let b = in_chunks-reverse_onto a f.chunks [] in b ∙ rw (c.covers a) (ground arith);
        count = omega (arith, c.few, few, r);
        few = omega (arith, c.few, r);
        total = omega (arith, c.total, c.word);
      },
    )

-- `print_free_ram` does not panic exactly if half a gibibyte is free.
pub is_insufficient_lem : (d : Descriptor) → is_insufficient d ≡ ltb d.total (2 ^ 29)
unfolding is_insufficient free_gib
is_insufficient_lem d = ground arith
