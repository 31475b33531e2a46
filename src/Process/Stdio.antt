-- ===== src/Process/Stdio.antt =====
-- `process_get_command` and `process_get_stdio` (src/redapid/process.c): the session gets an
-- external reference to each object that it is told the ID of, or to none.
pub mod Atomic
use red_brick_apid.Base.{
  ℕ, Bool, true, false, Option, none, some, List, [], ◌∷◌, if◌then◌else◌, map,
}
use red_brick_apid.ApiError.{ApiE, is_success, success}
use red_brick_apid.Store.Arrays.{ArrayLib}
use red_brick_apid.Store.{Store, Hold}
use red_brick_apid.Object.{add_external_reference, remove_external_reference}
use red_brick_apid.Object.Invariant.{unlocked_hold, locked_hold}

-- The objects that a process holds.
pub record Members : Type 0 where
  pub executable : ℕ
  pub arguments : ℕ
  pub environment : ℕ
  pub working_directory : ℕ
  pub stdin : ℕ
  pub stdout : ℕ
  pub stderr : ℕ

-- In the order in which `process_destroy` gives them back.
abbrev pub holds_of : Members → List Hold
holds_of m =
    unlocked_hold m.stderr
    ∷ unlocked_hold m.stdout
    ∷ unlocked_hold m.stdin
    ∷ locked_hold m.working_directory
    ∷ locked_hold m.environment
    ∷ locked_hold m.arguments
    ∷ locked_hold m.executable
    ∷ []

module _ (lib : ArrayLib ℕ) (session : ℕ) where
  -- The cleanup: the references are taken back, the latest first.
  unfoldable pub take_back : List ℕ → Store → Option Store
  take_back [] s = some s
  take_back (a ∷ taken) s = elim (remove_external_reference lib a session s) [
    | none ↦ none
    | some s' ↦ take_back taken s'
  ]

  -- A reference to each of the objects, where each attempt says whether there is memory for it.
  unfoldable pub reference_all : List (ℕ × Bool) → List ℕ → Store → Option (ApiE × Store)
  reference_all [] taken s = some (success, s)
  reference_all ((a, memory) ∷ rest) taken s =
      elim (is_success (add_external_reference a session memory s).0) [
        | true ↦ reference_all rest (a ∷ taken) (add_external_reference a session memory s).1
        | false ↦ elim (take_back taken (add_external_reference a session memory s).1) [
          | none ↦ none
          | some s' ↦ some ((add_external_reference a session memory s).0, s')
        ]
      ]

  -- The IDs of the objects, if the call has succeeded.
  abbrev pub with_ids : List ℕ → Option (ApiE × Store) → Option (ApiE × Option (List ℕ) × Store)
  with_ids objects none = none
  with_ids objects (some (error, s)) =
      if is_success error
      then some (success, some (map (λ a. (s.object a).id) objects), s)
      else some (error, none, s)

  -- `process_get_command`
  unfoldable pub get_command :
      Members → Bool → Bool → Bool → Bool → Store → Option (ApiE × Option (List ℕ) × Store)
  get_command m memory_x memory_l memory_e memory_d s =
      with_ids (m.executable ∷ m.arguments ∷ m.environment ∷ m.working_directory ∷ []) (
        reference_all
          ((m.executable, memory_x)
            ∷ (m.arguments, memory_l)
            ∷ (m.environment, memory_e)
            ∷ (m.working_directory, memory_d)
            ∷ [])
          [] s)

  -- `process_get_stdio`
  unfoldable pub get_stdio :
      Members → Bool → Bool → Bool → Store → Option (ApiE × Option (List ℕ) × Store)
  get_stdio m memory_i memory_o memory_r s =
      with_ids (m.stdin ∷ m.stdout ∷ m.stderr ∷ []) (
        reference_all ((m.stdin, memory_i) ∷ (m.stdout, memory_o) ∷ (m.stderr, memory_r) ∷ []) [] s)
