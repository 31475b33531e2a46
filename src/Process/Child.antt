-- ===== src/Process/Child.antt =====
-- The start of a child process (src/redapid/process.c): `process_fork`, `process_set_identity`,
-- what the child does before it becomes the executable, and the pointers that it passes on.
use red_brick_apid.Base.{
  ℕ, suc, Bool, Option, none, some, List, [], ◌∷◌, ◌++◌, map, if◌then◌else◌, ◌≡◌, ◌≢◌, Option-cases,
  inl, inr, ◌∙◌, sym,
}
use mathlib.Core.List.{append_assoc, append-nil}
use mathlib.Core.Option.{some-injective, none-ne-some}
use red_brick_apid.ApiError.{
  ApiE, Errno, is_success, success, internal_error, get_error_code_from_errno,
  get_error_code_from_errno-ne-success,
}
use red_brick_apid.Store.{Hold}

-- The outcomes of the calls of `process_fork`.
pub record ForkAttempts : Type 0 where
  pub blocked : Bool
  pub forked : Bool
  pub unblocked : Bool

-- `process_fork`, as the parent process returns from it.
unfoldable pub fork : ForkAttempts → ApiE
fork attempts =
    if attempts.blocked
    then (if attempts.forked then success else internal_error)
    else internal_error

-- A chain of calls of which the first that fails decides.
abbrev pub first_failure : List (Option Errno) → ApiE
first_failure [] = success
first_failure (call ∷ calls) = elim call [
  | some errno ↦ get_error_code_from_errno errno
  | none ↦ first_failure calls
]

-- The outcomes of the calls of `process_set_identity`, in their order.
pub record IdentityAttempts : Type 0 where
  pub getpwuid : Option Errno
  pub getgrouplist : Option Errno
  pub setregid : Option Errno
  pub setgroups : Option Errno
  pub setreuid : Option Errno

-- `process_set_identity`
unfoldable pub set_identity : IdentityAttempts → ApiE
set_identity attempts = first_failure (
    attempts.getpwuid ∷ attempts.getgrouplist ∷ attempts.setregid ∷ attempts.setgroups
    ∷ attempts.setreuid ∷ [])

-- The outcomes of the calls of the child process.
pub record ChildAttempts : Type 0 where
  pub identity : IdentityAttempts
  pub chdir : Option Errno
  pub sysconf : Option Errno
  pub redirect_stdin : Option Errno
  pub redirect_stdout : Option Errno
  pub redirect_stderr : Option Errno
  pub write_success : Option Errno
  pub write_error : Option Errno

-- What the child process sets up.
unfoldable pub setup : ChildAttempts → ApiE
setup attempts =
    let error = set_identity attempts.identity in
    if is_success error
    then first_failure (
        attempts.chdir ∷ attempts.sysconf ∷ attempts.redirect_stdin ∷ attempts.redirect_stdout
        ∷ attempts.redirect_stderr ∷ [])
    else error

-- The label `child_error`: the error code is written, if it can be.
abbrev pub report : ChildAttempts → ApiE → Option ApiE
report attempts error = elim attempts.write_error [ none ↦ some error | some errno ↦ none ]

-- The error code that the child writes to the status pipe, if it writes one.
unfoldable pub child_status : Bool → ChildAttempts → Option ApiE
child_status unblocked attempts =
    let error = setup attempts in
    if unblocked
    then (if is_success error
        then elim attempts.write_success [
          | none ↦ some success
          | some errno ↦ report attempts (get_error_code_from_errno errno)
        ]
        else report attempts error)
    else none

-- An array that is filled item by item, where `array_append` may fail at each.
unfoldable pub append_all {ℓ} :
    {A : Type ℓ} → (ℕ → Option Errno) → ℕ → List A → List A → ApiE × Option (List A)
append_all attempt i [] array = (success, some array)
append_all attempt i (x ∷ xs) array = elim (attempt i) [
  | some errno ↦ (get_error_code_from_errno errno, none)
  | none ↦ append_all attempt (suc i) xs (array ++ x ∷ [])
]

-- The outcomes for an array of pointers.
pub record ArrayAttempts : Type 0 where
  pub create_failure : Option Errno
  pub append_failure : ℕ → Option Errno

-- An array of pointers to the buffers of string objects, ended by a null pointer.
abbrev pub pointers : List ℕ → List (Option ℕ)
pointers [] = none ∷ []
pointers (a ∷ strings) = some a ∷ pointers strings

abbrev pub targets : List Hold → List ℕ
targets = map (λ h. h.target)

-- The arguments of the executable, or its environment.
unfoldable pub pointer_array : ArrayAttempts → List ℕ → ApiE × Option (List (Option ℕ))
pointer_array attempts strings = elim attempts.create_failure [
  | some errno ↦ (get_error_code_from_errno errno, none)
  | none ↦ append_all attempts.append_failure 0 (pointers strings) []
]

append_all-all {ℓ} :
    {A : Type ℓ} (attempt : ℕ → Option Errno) (i : ℕ) (xs array ys : List A)
    → (append_all attempt i xs array).1 ≡ some ys
    → ys ≡ array ++ xs
unfolding append_all
append_all-all attempt i [] array ys h = sym (some-injective _ _ h) ∙ sym (append-nil array)
append_all-all attempt i (x ∷ xs) array ys h = elim (Option-cases (attempt i)) [
  | inr (errno, e) ↦ absurd (none-ne-some ys (rw (e, append_all) at h))
  | inl e ↦
      append_all-all attempt (suc i) xs (array ++ x ∷ []) ys (rw (e, append_all) at h)
      ∙ append_assoc array (x ∷ []) xs
]

-- An array that was made has a pointer to each string, in order, and a null pointer at the end.
pub pointer_array-pointers :
    (attempts : ArrayAttempts) (strings : List ℕ) (ys : List (Option ℕ))
    → (pointer_array attempts strings).1 ≡ some ys
    → ys ≡ pointers strings
unfolding pointer_array
pointer_array-pointers attempts strings ys h = elim (Option-cases attempts.create_failure) [
  | inr (errno, e) ↦ absurd (none-ne-some ys (rw (e, pointer_array) at h))
  | inl e ↦
      append_all-all attempts.append_failure 0 (pointers strings) [] ys (rw (e, pointer_array) at h)
]

append_all-ne-success {ℓ} :
    {A : Type ℓ} (attempt : ℕ → Option Errno) (i : ℕ) (xs array : List A)
    → (append_all attempt i xs array).1 ≡ none
    → (append_all attempt i xs array).0 ≢ success
unfolding append_all
append_all-ne-success attempt i [] array h = absurd (none-ne-some array (sym h))
append_all-ne-success attempt i (x ∷ xs) array h = elim (Option-cases (attempt i)) [
  | inr (errno, e) ↦ rw (append_all, e) (get_error_code_from_errno-ne-success errno)
  | inl e ↦
      rw (append_all, e)
        (append_all-ne-success attempt (suc i) xs (array ++ x ∷ []) (rw (append_all, e) at h))
]

-- A failure is reported.
pub pointer_array-ne-success :
    (attempts : ArrayAttempts) (strings : List ℕ)
    → (pointer_array attempts strings).1 ≡ none
    → (pointer_array attempts strings).0 ≢ success
unfolding pointer_array
pointer_array-ne-success attempts strings h = elim (Option-cases attempts.create_failure) [
  | inr (errno, e) ↦ rw (pointer_array, e) (get_error_code_from_errno-ne-success errno)
  | inl e ↦
      rw (pointer_array, e)
        (append_all-ne-success attempts.append_failure 0 (pointers strings) []
          (rw (pointer_array, e) at h))
]
