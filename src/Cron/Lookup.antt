-- ===== src/Cron/Lookup.antt =====
-- The entries of the programs, as the loops of src/redapid/cron.c find, set, append and remove
-- them.
use red_brick_apid.Base.{
  ℕ, zero, suc, ◌+◌, ◌-◌, Option, none, some, List, [], ◌∷◌, ◌++◌, arith, ◌==◌, if◌then◌else◌, ◌≡◌,
  refl, ◌≢◌, ◌≤◌, ◌<◌, length, length-append, set_at, ap, Bool-cases, Option-cases, inl, inr,
}
use red_brick_apid.Store.Arrays.{remove_at, tally, tally-append}
use red_brick_apid.Cron.{
  Entry, Pointer, indeterminate, null, entry_at, search, find_entry, entry_index,
}

-- Is it an entry of the program?
abbrev pub of_program : ℕ → Entry → ℕ
of_program q e = if e.program_id == q then 1 else 0

abbrev pub from_index : ℕ → Option ℕ → Pointer
from_index k none = null
from_index k (some i) = entry_at (k + i)

pub search-null :
    (p k : ℕ) (entries : List Entry)
    → search p k entries null ≡ from_index k (entry_index p entries)
unfolding search
search-null p k [] = refl
search-null p k (e ∷ entries) = elim (Bool-cases (e.program_id == p)) [
  | inl here ↦ ground arith
  | inr there ↦ elim (Option-cases (entry_index p entries)) [
    | inl missing ↦ ground (arith, search-null p (k + 1) entries)
    | inr (i, found) ↦ ground (arith, search-null p (k + 1) entries)
  ]
]

-- The pointer is read without being set exactly when there is no entry.
pub search-first :
    (p : ℕ) (e : Entry) (entries : List Entry)
    → search p 0 (e ∷ entries) indeterminate ≡ search p 0 (e ∷ entries) null
unfolding search
search-first p e entries = refl

pub search-empty : (p : ℕ) → search p 0 [] indeterminate ≡ indeterminate
unfolding search
search-empty p = refl

pub find_entry-missing :
    (p : ℕ) (entries : List Entry) → entry_index p entries ≡ none → find_entry p entries ≡ none
find_entry-missing p [] h = refl
find_entry-missing p (e ∷ entries) h = elim (Option-cases (entry_index p entries)) [
  | inl missing ↦ ground (arith, find_entry-missing p entries missing)
  | inr (i, found) ↦ ground arith
]

pub find_entry-present :
    (p i : ℕ) (entries : List Entry)
    → entry_index p entries ≡ some i
    → (f : Entry) × (find_entry p entries ≡ some f)
find_entry-present p i [] h = cc
find_entry-present p i (e ∷ entries) h = elim (Bool-cases (e.program_id == p)) [
  | inl here ↦ (e, ground arith)
  | inr there ↦ elim (Option-cases (entry_index p entries)) [
    | inl missing ↦ ground arith
    | inr (j, found) ↦ let (f, at) = find_entry-present p j entries found in (f, ground arith)
  ]
]

-- An entry that is set where the program's was is found, and the others are as before.
pub set_at-found :
    (e : Entry) (i : ℕ) (entries : List Entry)
    → entry_index e.program_id entries ≡ some i
    → find_entry e.program_id (set_at entries i e) ≡ some e
set_at-found e i [] h = cc
set_at-found e zero (x ∷ entries) h = ground arith
set_at-found e (suc i) (x ∷ entries) h = elim (Option-cases (entry_index e.program_id entries)) [
  | inl missing ↦ ground arith
  | inr (j, found) ↦ ground (arith, set_at-found e i entries)
]

pub set_at-others :
    (e : Entry) (q i : ℕ) (entries : List Entry)
    → entry_index e.program_id entries ≡ some i
    → q ≢ e.program_id
    → find_entry q (set_at entries i e) ≡ find_entry q entries
set_at-others e q i [] h ne = cc
set_at-others e q zero (x ∷ entries) h ne = elim (Option-cases (entry_index e.program_id entries)) [
  | inl missing ↦ ground arith
  | inr (j, found) ↦ ground arith
]
set_at-others e q (suc i) (x ∷ entries) h ne =
    elim (Option-cases (entry_index e.program_id entries)) [
      | inl missing ↦ ground arith
      | inr (j, found) ↦ ground (arith, set_at-others e q i entries)
    ]

pub append-found :
    (e : Entry) (entries : List Entry)
    → find_entry e.program_id entries ≡ none
    → find_entry e.program_id (entries ++ e ∷ []) ≡ some e
append-found e [] h = ground arith
append-found e (x ∷ entries) h = ground (arith, append-found e entries)

pub append-others :
    (e : Entry) (q : ℕ) (entries : List Entry)
    → q ≢ e.program_id
    → find_entry q (entries ++ e ∷ []) ≡ find_entry q entries
append-others e q [] ne = ground arith
append-others e q (x ∷ entries) ne = ground (arith, append-others e q entries)

-- No program has two entries.
abbrev pub IsUnique : List Entry → Type 0
IsUnique entries = (q : ℕ) → tally (of_program q) entries ≤ 1

pub no_entry :
    (p : ℕ) (entries : List Entry) → entry_index p entries ≡ none → tally (of_program p) entries ≡ 0
no_entry p [] h = refl
no_entry p (e ∷ entries) h = elim (Option-cases (entry_index p entries)) [
  | inl missing ↦ ground (arith, no_entry p entries missing)
  | inr (i, found) ↦ ground arith
]

pub append-IsUnique :
    (e : Entry) (entries : List Entry)
    → entry_index e.program_id entries ≡ none
    → IsUnique entries
    → IsUnique (entries ++ e ∷ [])
append-IsUnique e entries h u q =
    ground
      (arith, u q, no_entry e.program_id entries h, tally-append (of_program q) entries (e ∷ []))

pub tally-set_at :
    (e : Entry) (q i : ℕ) (entries : List Entry)
    → entry_index e.program_id entries ≡ some i
    → tally (of_program q) (set_at entries i e) ≡ tally (of_program q) entries
tally-set_at e q i [] h = cc
tally-set_at e q zero (x ∷ entries) h = elim (Option-cases (entry_index e.program_id entries)) [
  | inl missing ↦ ground arith
  | inr (j, found) ↦ ground arith
]
tally-set_at e q (suc i) (x ∷ entries) h = elim (Option-cases (entry_index e.program_id entries)) [
  | inl missing ↦ ground arith
  | inr (j, found) ↦ ground (arith, tally-set_at e q i entries)
]

pub set_at-IsUnique :
    (e : Entry) (i : ℕ) (entries : List Entry)
    → entry_index e.program_id entries ≡ some i
    → IsUnique entries
    → IsUnique (set_at entries i e)
set_at-IsUnique e i entries h u q = omega (arith, u q, tally-set_at e q i entries h)

pub remove_last :
    (e : Entry) (entries : List Entry)
    → remove_at (entries ++ e ∷ []) (length (entries ++ e ∷ []) - 1) ≡ entries
remove_last e [] = refl
remove_last e (x ∷ entries) =
    let n : length (x ∷ entries ++ e ∷ []) - 1 ≡ suc (length (entries ++ e ∷ []) - 1) =
      omega (arith, length-append entries (e ∷ [])) in
    rw n (ap (λ es. x ∷ es) (remove_last e entries))

found_some :
    (p i : ℕ) (entries : List Entry)
    → entry_index p entries ≡ some i
    → 0 < tally (of_program p) entries
found_some p i [] h = cc
found_some p i (x ∷ entries) h = elim (Option-cases (entry_index p entries)) [
  | inl missing ↦ ground arith
  | inr (j, found) ↦ ground (arith, found_some p j entries)
]

pub remove_at-gone :
    (p i : ℕ) (entries : List Entry)
    → entry_index p entries ≡ some i
    → tally (of_program p) entries ≤ 1
    → find_entry p (remove_at entries i) ≡ none
remove_at-gone p i [] h u = cc
remove_at-gone p zero (x ∷ entries) h u = elim (Option-cases (entry_index p entries)) [
  | inl missing ↦ find_entry-missing p entries missing
  | inr (j, found) ↦ ground (arith, found_some p j entries)
]
remove_at-gone p (suc i) (x ∷ entries) h u = elim (Option-cases (entry_index p entries)) [
  | inl missing ↦ ground arith
  | inr (j, found) ↦ ground (arith, remove_at-gone p i entries)
]

pub remove_at-others :
    (p q i : ℕ) (entries : List Entry)
    → entry_index p entries ≡ some i
    → q ≢ p
    → find_entry q (remove_at entries i) ≡ find_entry q entries
remove_at-others p q i [] h ne = cc
remove_at-others p q zero (x ∷ entries) h ne = elim (Option-cases (entry_index p entries)) [
  | inl missing ↦ ground arith
  | inr (j, found) ↦ ground arith
]
remove_at-others p q (suc i) (x ∷ entries) h ne = elim (Option-cases (entry_index p entries)) [
  | inl missing ↦ ground arith
  | inr (j, found) ↦ ground (arith, remove_at-others p q i entries)
]
