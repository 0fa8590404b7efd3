-- ===== src/Platform/Ap.antt =====
-- kernel/src/platform/x86_64/ap.c: the other processors. The boot loader's response is the list of the
-- processors, if it is there. Log output is left out.
use ada_os.Base.{
  ℕ, ◌≡◌, refl, Bool-cases, inl, inr, ◌⊎◌, ap, List, [], ◌∷◌, ◌++◌, Option, none, some, ◌==◌, false,
  true, if◌then◌else◌, Outcome, done, undefined, ◌>>=◌,
}

-- `struct limine_mp_info`, as far as it is used.
pub record Processor : Type 0 where
  pub processor_id : ℕ
  pub goto_address : ℕ

-- `get_mp`: a missing response is written to all the same.
pub get_mp : Option (List Processor) → Outcome (List Processor)
get_mp none = undefined
get_mp (some cpus) = done cpus

-- The loop of `ap_goto`.
pub direct : (address processor_id : ℕ) → List Processor → List Processor
direct address processor_id [] = []
direct address processor_id (cpu ∷ cpus) =
    let rest = direct address processor_id cpus in
    if cpu.processor_id == processor_id
    then record cpu { goto_address = address } ∷ cpus
    else cpu ∷ rest

pub ap_goto : (address processor_id : ℕ) → Option (List Processor) → Outcome (List Processor)
ap_goto address processor_id response =
    get_mp response >>= λ cpus. done (direct address processor_id cpus)

-- No processor has the number.
pub NoneHas : ℕ → List Processor → Type 0
NoneHas processor_id [] = Unit {0}
NoneHas processor_id (cpu ∷ cpus) =
    ((cpu.processor_id == processor_id) ≡ false) × NoneHas processor_id cpus

-- The first processor with the number has the address, and nothing else has changed.
abbrev pub Directed : (address processor_id : ℕ) → (cpus cpus' : List Processor) → Type 0
Directed address processor_id cpus cpus' =
    ((before : List Processor) × (cpu : Processor) × (after : List Processor) × (cpus
        ≡ before ++ cpu ∷ after)
      × NoneHas processor_id before
      × ((cpu.processor_id == processor_id) ≡ true)
      × (cpus' ≡ before ++ record cpu { goto_address = address } ∷ after))
    ⊎ (NoneHas processor_id cpus × (cpus' ≡ cpus))

direct-Directed :
    (address processor_id : ℕ) (cpus : List Processor)
    → Directed address processor_id cpus (direct address processor_id cpus)
unfolding direct NoneHas
direct-Directed address processor_id [] = inr (tt, refl)
direct-Directed address processor_id (cpu ∷ cpus) =
    elim (Bool-cases (cpu.processor_id == processor_id)) [
      | inl here ↦ inl ([], cpu, cpus, refl, tt, here, rw here refl)
      | inr other ↦ elim (direct-Directed address processor_id cpus) [
        | inl (before, found, after, e, none_has, is, e') ↦ inl (
          cpu ∷ before,
          found,
          after,
          ap (λ (xs : List Processor). cpu ∷ xs) e,
          (other, none_has),
          is,
          rw other (ap (λ (xs : List Processor). cpu ∷ xs) e'),
        )
        | inr (none_has, e) ↦
            inr ((other, none_has), rw other (ap (λ (xs : List Processor). cpu ∷ xs) e))
      ]
    ]

-- `ap_goto` sends the first processor with the number to the address, and changes nothing else; where
-- no processor has the number, nothing changes. Without a response it writes to an address that it
-- does not have.
pub ap_goto-Directed :
    (address processor_id : ℕ) (cpus : List Processor)
    → (ap_goto address processor_id none ≡ undefined)
      × (cpus' : List Processor) × (ap_goto address processor_id (some cpus) ≡ done cpus')
      × Directed address processor_id cpus cpus'
unfolding ap_goto get_mp
ap_goto-Directed address processor_id cpus =
    (refl, direct address processor_id cpus, refl, direct-Directed address processor_id cpus)
