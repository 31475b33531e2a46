-- ===== src/Process/Steps.antt =====
-- The steps of `process_spawn` (src/redapid/process.c), from the last to the first: each ends as
-- the whole call does.
use red_brick_apid.Base.{
  ℕ, true, false, Option, none, some, List, [], ◌∷◌, ◌++◌, ◌==◌, ◌≡◌, refl, ◌≢◌, Bool-cases,
  Option-cases, inl, inr,
}
use red_brick_apid.ApiError.{is_success, success, get_error_code_from_errno-ne-success}
use red_brick_apid.Types.{Object, string}
use red_brick_apid.Store.Arrays.{ArrayLib}
use red_brick_apid.Store.{Store, Hold}
use red_brick_apid.Object.Invariant.{Inv, unlocked_hold, locked_hold}
use red_brick_apid.Object.Create.Cell.{InNoArray}
use red_brick_apid.Object.Create.Success.{IsSession}
use red_brick_apid.Acquire.{Answer, fail}
use red_brick_apid.Acquire.Getters.{get_string-Acquired, get_file-Acquired, get_list-Acquired}
use red_brick_apid.Acquire.Cleanup.{fail-Refused, after_lookup-elim, give_back_all-Settled}
use red_brick_apid.Process.Child.{
  child_status, pointers, targets, pointer_array, pointer_array-pointers, pointer_array-ne-success,
  fork,
}
use red_brick_apid.Process.Spawn.{
  Request, SpawnAttempts, Spawned, child_killed, first_byte, slash, setup_object, await_child,
  fork_child, acquire_stderr, acquire_stdout, acquire_stdin, check_directory, prepare_environment,
  prepare_arguments, check_executable, spawn,
}
use red_brick_apid.Process.Spawning.{
  Passed, SpawnOutcome, refused, unreported, create_object-Outcome, fails-ne,
}

module _ (lib : ArrayLib ℕ) (request : Request) (attempts : SpawnAttempts) (a : ℕ)
    (pending : List Hold) (s : Store) (absent : InNoArray a s)
    (session_live : IsSession request.session s)
    (writes : child_status attempts.fork.unblocked attempts.child ≢ none) where
  abbrev Ends : Answer Spawned → Type 0
  Ends = SpawnOutcome lib request attempts a pending s

  abbrev now : (ℕ → Object) → Store
  now object = record s { object = object }

  unreported_lem :
      (holds : List Hold) (object : ℕ → Object)
      → attempts.event_source ≡ false
      → Inv (now object) (holds ++ pending)
      → Ends (fail lib (some (child_killed attempts.pid)) success holds (now object))
  unfolding fail
  unreported_lem holds object unadded v =
      let d = give_back_all-Settled lib pending holds (now object) v in
      rw (fail, d.returned) (unreported d.after unadded d.inv)

  setup_object-Outcome :
      (argv envp : List (Option ℕ)) (holds : List Hold) (object : ℕ → Object)
      → Inv (now object) (holds ++ pending)
      → Passed lib request attempts a pending s argv envp holds
      → Ends (setup_object lib request attempts a argv envp holds (now object))
  unfolding setup_object
  setup_object-Outcome argv envp holds object v p = elim (Bool-cases attempts.memory) [
    | inr short ↦
        rw (setup_object, short) (refused _ (fail-Refused lib pending _ _ holds _ (λ e. cc) v))
    | inl enough ↦ elim (Option-cases attempts.state_change_pipe) [
      | inr (errno, h) ↦
          rw (setup_object, enough, h)
            (refused _
              (fail-Refused lib pending _ _ holds _ (get_error_code_from_errno-ne-success errno) v))
      | inl piped ↦ elim (Bool-cases attempts.event_source) [
        | inl added ↦
            simp (setup_object, enough, piped, added)
              (create_object-Outcome lib request attempts a pending s absent session_live argv envp
                holds object v p)
        | inr unadded ↦
            simp (setup_object, enough, piped, unadded) (unreported_lem holds object unadded v)
      ]
    ]
  ]

  await_child-Outcome :
      (argv envp : List (Option ℕ)) (holds : List Hold) (object : ℕ → Object)
      → Inv (now object) (holds ++ pending)
      → Passed lib request attempts a pending s argv envp holds
      → Ends (await_child lib request attempts a argv envp holds (now object))
  unfolding await_child
  await_child-Outcome argv envp holds object v p = elim (Option-cases attempts.status) [
    | inr (errno, h) ↦
        rw (await_child, h)
          (refused _
            (fail-Refused lib pending _ _ holds _ (get_error_code_from_errno-ne-success errno) v))
    | inl read ↦ elim (Option-cases (child_status attempts.fork.unblocked attempts.child)) [
      | inl silent ↦ absurd (writes silent)
      | inr (error, h) ↦ elim (Bool-cases (is_success error)) [
        | inl good ↦
            simp (await_child, read, h, good) (setup_object-Outcome argv envp holds object v p)
        | inr bad ↦
            simp (await_child, read, h, bad)
              (refused _ (fail-Refused lib pending _ _ holds _ (fails-ne error bad) v))
      ]
    ]
  ]

  fork_child-Outcome :
      (argv envp : List (Option ℕ)) (holds : List Hold) (object : ℕ → Object)
      → Inv (now object) (holds ++ pending)
      → Passed lib request attempts a pending s argv envp holds
      → Ends (fork_child lib request attempts a argv envp holds (now object))
  unfolding fork_child
  fork_child-Outcome argv envp holds object v p = elim (Option-cases attempts.status_pipe) [
    | inr (errno, h) ↦
        rw (fork_child, h)
          (refused _
            (fail-Refused lib pending _ _ holds _ (get_error_code_from_errno-ne-success errno) v))
    | inl piped ↦ elim (Bool-cases (is_success (fork attempts.fork))) [
      | inl good ↦ simp (fork_child, piped, good) (await_child-Outcome argv envp holds object v p)
      | inr bad ↦
          rw (fork_child, piped, bad)
            (refused _ (fail-Refused lib pending _ _ holds _ (fails-ne _ bad) v))
    ]
  ]

  acquire_stdin-Outcome :
      (argv envp : List (Option ℕ)) (x l e d : ℕ) (object : ℕ → Object)
      → Inv (now object) (locked_hold d ∷ locked_hold e ∷ locked_hold l ∷ locked_hold x ∷ pending)
      → argv ≡ pointers (x ∷ targets (s.holds l))
      → envp ≡ pointers (targets (s.holds e))
      → Ends (
          acquire_stdin lib request attempts a argv envp
            (locked_hold d ∷ locked_hold e ∷ locked_hold l ∷ locked_hold x ∷ [])
            (now object))
  unfolding acquire_stdin acquire_stdout acquire_stderr
  acquire_stdin-Outcome argv envp x l e d object v p q =
      let commands = locked_hold d ∷ locked_hold e ∷ locked_hold l ∷ locked_hold x ∷ [] in
      after_lookup-elim lib pending Ends refused false commands
        (λ i. acquire_stdout lib request attempts a argv envp) (now object) v
        (λ i o₁ v₁.
          after_lookup-elim lib pending Ends refused false (unlocked_hold i ∷ commands)
            (λ j. acquire_stderr lib request attempts a argv envp) (now o₁) v₁
            (λ j o₂ v₂.
              after_lookup-elim lib pending Ends refused false
                (unlocked_hold j ∷ unlocked_hold i ∷ commands)
                (λ r. fork_child lib request attempts a argv envp) (now o₂) v₂
                (λ r o₃ v₃.
                  fork_child-Outcome argv envp
                    (unlocked_hold r ∷ unlocked_hold j ∷ unlocked_hold i ∷ commands) o₃ v₃
                    (record {
                      members = record {
                        executable = x;
                        arguments = l;
                        environment = e;
                        working_directory = d;
                        stdin = i;
                        stdout = j;
                        stderr = r;
                      };
                      held = refl;
                      same_arguments = p;
                      same_environment = q;
                    }))
                _
                (get_file-Acquired (unlocked_hold j ∷ unlocked_hold i ∷ commands ++ pending)
                  (now o₂) v₂ request.stderr_id))
            _
            (get_file-Acquired (unlocked_hold i ∷ commands ++ pending) (now o₁) v₁
              request.stdout_id))
        _ (get_file-Acquired (commands ++ pending) (now object) v request.stdin_id)

  check_directory-Outcome :
      (argv envp : List (Option ℕ)) (x l e d : ℕ) (object : ℕ → Object)
      → Inv (now object) (locked_hold d ∷ locked_hold e ∷ locked_hold l ∷ locked_hold x ∷ pending)
      → argv ≡ pointers (x ∷ targets (s.holds l))
      → envp ≡ pointers (targets (s.holds e))
      → Ends (
          check_directory lib request attempts a argv envp d
            (locked_hold d ∷ locked_hold e ∷ locked_hold l ∷ locked_hold x ∷ [])
            (now object))
  unfolding check_directory
  check_directory-Outcome argv envp x l e d object v p q =
      let holds = locked_hold d ∷ locked_hold e ∷ locked_hold l ∷ locked_hold x ∷ [] in
      elim (Bool-cases (first_byte d (now object) == 0)) [
        | inl empty ↦
            rw (check_directory, empty)
              (refused _ (fail-Refused lib pending _ _ holds _ (λ e. cc) v))
        | inr named ↦ elim (Bool-cases (first_byte d (now object) == slash)) [
          | inl absolute ↦
              rw (check_directory, named, absolute)
                (acquire_stdin-Outcome argv envp x l e d object v p q)
          | inr relative ↦
              rw (check_directory, named, relative)
                (refused _ (fail-Refused lib pending _ _ holds _ (λ e. cc) v))
        ]
      ]

  prepare_environment-Outcome :
      (argv : List (Option ℕ)) (x l e : ℕ) (object : ℕ → Object)
      → Inv (now object) (locked_hold e ∷ locked_hold l ∷ locked_hold x ∷ pending)
      → argv ≡ pointers (x ∷ targets (s.holds l))
      → Ends (
          prepare_environment lib request attempts a argv e
            (locked_hold e ∷ locked_hold l ∷ locked_hold x ∷ [])
            (now object))
  unfolding prepare_environment
  prepare_environment-Outcome argv x l e object v p =
      let holds = locked_hold e ∷ locked_hold l ∷ locked_hold x ∷ [] in
      elim (Option-cases (pointer_array attempts.environment (targets (s.holds e))).1) [
        | inl failed ↦
            simp (prepare_environment, failed)
              (refused _
                (fail-Refused lib pending _ _ holds _ (pointer_array-ne-success _ _ failed) v))
        | inr (envp, made) ↦
            simp (prepare_environment, made)
              (after_lookup-elim lib pending Ends refused true holds
                (check_directory lib request attempts a argv envp) (now object) v
                (λ d o₁ v₁.
                  check_directory-Outcome argv envp x l e d o₁ v₁ p
                    (pointer_array-pointers _ _ envp made))
                _
                (get_string-Acquired (holds ++ pending) (now object) v
                  request.working_directory_id))
      ]

  prepare_arguments-Outcome :
      (x l : ℕ) (object : ℕ → Object)
      → Inv (now object) (locked_hold l ∷ locked_hold x ∷ pending)
      → Ends (
          prepare_arguments lib request attempts a x l
            (locked_hold l ∷ locked_hold x ∷ [])
            (now object))
  unfolding prepare_arguments
  prepare_arguments-Outcome x l object v =
      let holds = locked_hold l ∷ locked_hold x ∷ [] in
      elim (Option-cases (pointer_array attempts.arguments (x ∷ targets (s.holds l))).1) [
        | inl failed ↦
            simp (prepare_arguments, failed)
              (refused _
                (fail-Refused lib pending _ _ holds _ (pointer_array-ne-success _ _ failed) v))
        | inr (argv, made) ↦
            simp (prepare_arguments, made)
              (after_lookup-elim lib pending Ends refused true holds
                (prepare_environment lib request attempts a argv) (now object) v
                (λ e o₁ v₁.
                  prepare_environment-Outcome argv x l e o₁ v₁
                    (pointer_array-pointers _ _ argv made))
                _
                (get_list-Acquired (holds ++ pending) (now object) v request.environment_id string))
      ]

  check_executable-Outcome :
      (x : ℕ) (object : ℕ → Object)
      → Inv (now object) (locked_hold x ∷ pending)
      → Ends (check_executable lib request attempts a x (locked_hold x ∷ []) (now object))
  unfolding check_executable
  check_executable-Outcome x object v =
      let holds = locked_hold x ∷ [] in
      elim (Bool-cases (first_byte x (now object) == 0)) [
        | inl empty ↦
            rw (check_executable, empty)
              (refused _ (fail-Refused lib pending _ _ holds _ (λ e. cc) v))
        | inr named ↦
            rw (check_executable, named)
              (after_lookup-elim lib pending Ends refused true holds
                (prepare_arguments lib request attempts a x) (now object) v
                (λ l o₁ v₁. prepare_arguments-Outcome x l o₁ v₁) _
                (get_list-Acquired (holds ++ pending) (now object) v request.arguments_id string))
      ]

  -- In a store with right counts, with a new cell, a session of the inventory or none, and a child
  -- process that writes its status, `process_spawn` ends in one of these ways. It answers success:
  -- the process object is in the inventory, the counts are right with an internal reference to it
  -- for the caller, and it holds the seven objects, from whose texts the arguments and the
  -- environment of the child are made. Or it answers an error, with the counts right and nothing
  -- held. Or the event source could not be added, and it answers success without a process, the
  -- child is killed, and the counts are right. Or an external reference was asked for and
  -- `object_create` has failed, of which nothing is said.
  pub spawn-SpawnOutcome : Inv s pending → Ends (spawn lib request attempts a s)
  unfolding spawn
  spawn-SpawnOutcome v =
      after_lookup-elim lib pending Ends refused true [] (check_executable lib request attempts a) s
        v (λ x o v₁. check_executable-Outcome x o v₁) _
        (get_string-Acquired pending s v request.executable_id)
