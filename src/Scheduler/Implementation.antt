-- ===== src/Scheduler/Implementation.antt =====
-- The services that src/redapid/program_scheduler.c uses, as src/redapid/string.c,
-- src/redapid/file.c and src/redapid/process.c implement them.
use red_brick_apid.Base.{
  ℕ, ◌+◌, true, false, Option, none, some, List, [], ◌∷◌, arith, if◌then◌else◌, ◌≡◌, refl, ◌≢◌, ◌<◌,
  ◌≤◌, length, Bool-cases, inl, inr, sym, subst, ◌∙◌,
}
use mathlib.Core.Bool.{false≢true}
use red_brick_apid.ApiError.{ApiE, is_success, is_success-eq, success}
use red_brick_apid.Memory.{NoZero}
use red_brick_apid.Types.{ObjectType, int32_max}
use red_brick_apid.Store.Arrays.{ArrayLib, tally, occurrences}
use red_brick_apid.Store.{Store, Hold, over_objects}
use red_brick_apid.Object.Invariant.{Inv, unlocked_hold}
use red_brick_apid.Object.Create.{has_flag, flag_internal, flag_locked}
use red_brick_apid.Object.Create.Cell.{InNoArray}
use red_brick_apid.StringObject.{Growth}
use red_brick_apid.StringObject.Creation.{StringAttempts, wrap}
use red_brick_apid.StringObject.Creation.Refused.{Wrapped, wrapped, refused, wrap-Wrapped}
use red_brick_apid.Acquire.{Answer}
use red_brick_apid.Process.{Process}
use red_brick_apid.Process.Child.{child_status}
use red_brick_apid.Process.Spawn.{
  Request, SpawnAttempts, Spawned, spawned, child_killed, spawn, new_process, with_internal,
}
use red_brick_apid.Process.Spawning.{
  SpawnOutcome, started, refused as refused_spawn, unreported, abandoned,
}
use red_brick_apid.Process.Steps.{spawn-SpawnOutcome}
use red_brick_apid.Scheduler.{
  Opening, Services, open_to_read, open_to_write, open_or_create, create_new, create_to_append,
}
use red_brick_apid.FileObject.Open.{OpenAttempts, PipeAttempts, file_open, pipe_create}
use red_brick_apid.FileObject.Opens.{file_open-Gives, pipe_create-Gives}
use red_brick_apid.Scheduler.Launching.{fails-ne}
use red_brick_apid.Scheduler.Holds.{AreRight, Gives, given, failed, GivesNew, given_new, failed_new}

-- An address that no array has: one more than the sum of all addresses that an array has.
abbrev pub fresh : Store → ℕ
fresh s = over_objects (λ a. a) s + 1

tally-lt : (a : ℕ) (xs : List ℕ) → tally (λ b. b) xs < a → occurrences a xs ≡ 0
tally-lt a [] h = refl
tally-lt a (x ∷ xs) h = ground (arith, tally-lt a xs (omega (arith, h)))

pub fresh-InNoArray : (s : Store) → InNoArray (fresh s) s
fresh-InNoArray s ObjectType.string = tally-lt (fresh s) (s.objects ObjectType.string) (omega arith)
fresh-InNoArray s ObjectType.list = tally-lt (fresh s) (s.objects ObjectType.list) (omega arith)
fresh-InNoArray s ObjectType.file = tally-lt (fresh s) (s.objects ObjectType.file) (omega arith)
fresh-InNoArray s ObjectType.directory =
    tally-lt (fresh s) (s.objects ObjectType.directory) (omega arith)
fresh-InNoArray s ObjectType.process =
    tally-lt (fresh s) (s.objects ObjectType.process) (omega arith)
fresh-InNoArray s ObjectType.program =
    tally-lt (fresh s) (s.objects ObjectType.program) (omega arith)

-- The string object of a `string_wrap`, if it has made one.
abbrev pub made_string : ℕ → Option (ApiE × Store) → Answer ℕ
made_string a none = none
made_string a (some (error, s)) =
    if is_success error then some (error, some a, s) else some (error, none, s)

-- The process of a `process_spawn`, if it has made one.
abbrev pub made_process : Answer Spawned → Answer Process
made_process none = none
made_process (some (error, none, s)) = some (error, none, s)
made_process (some (error, some (child_killed pid), s)) = some (error, none, s)
made_process (some (error, some (spawned q argv envp), s)) =
    if is_success error then some (error, some q, s) else some (error, none, s)

-- The flags of the calls of `file_open`: FILE_FLAG_READ_ONLY, FILE_FLAG_WRITE_ONLY,
-- FILE_FLAG_APPEND, FILE_FLAG_CREATE and FILE_FLAG_EXCLUSIVE.
abbrev pub flags_of : Opening → ℕ
flags_of open_to_read = 1
flags_of open_to_write = 2
flags_of open_or_create = 2 + 16
flags_of create_new = 2 + 16 + 32
flags_of create_to_append = 2 + 16 + 8

-- The permissions of a file that may be created are 0644.
abbrev pub permissions_of : Opening → ℕ
permissions_of open_to_read = 0
permissions_of open_to_write = 0
permissions_of open_or_create = 420
permissions_of create_new = 420
permissions_of create_to_append = 420

module _ (growth : Growth) (lib : ArrayLib ℕ) (text : List ℕ) (strings : StringAttempts)
    (request : ℕ → ℕ → ℕ → ℕ → Store → Request) (attempts : SpawnAttempts)
    (opens : ℕ → Opening → Store → OpenAttempts) (pipes : Store → PipeAttempts) where
  -- Each new object gets a fresh cell; the IDs are those of the given objects. A new string is made
  -- by `string_wrap`, also where the source formats its text with `string_asprintf`.
  unfoldable pub services : Services
  services = record {
    new_string = λ s.
        made_string (fresh s)
          (wrap growth lib (fresh s) text none (flag_internal + flag_locked) strings s);
    open_file = λ a opening s.
        file_open lib fresh none flag_internal (flags_of opening) (opens a opening s)
          (s.object a).id (permissions_of opening) s;
    new_pipe = λ s. pipe_create lib fresh none flag_internal growth (pipes s) 0 s;
    spawn = λ d i o r s. made_process (
        spawn lib
          (record (request d i o r s) {
            session = none;
            flags = flag_internal;
            release_on_death = false;
          })
          attempts (fresh s) s);
  }

  made_string-GivesNew :
      (rest : List Hold) (s : Store) (r : Option (ApiE × Store))
      → Wrapped (fresh s) rest r
      → GivesNew rest s (made_string (fresh s) r)
  made_string-GivesNew rest s r (wrapped s' v) = given_new (fresh s) s' (fresh-InNoArray s) v
  made_string-GivesNew rest s r (refused error s' ne v) = elim (Bool-cases (is_success error)) [
    | inl good ↦ absurd (ne (is_success-eq error good))
    | inr bad ↦ simp bad (failed_new error s' ne v)
  ]

  made_process-Gives :
      (q : Request) (rest : List Hold) (s : Store) (r : Answer Spawned)
      → attempts.event_source ≡ true
      → q.flags ≡ flag_internal
      → SpawnOutcome lib q attempts (fresh s) rest s r
      → Gives rest (λ p. unlocked_hold p.cell) (made_process r)
  made_process-Gives q rest s r source flags (started argv envp after st) =
      let unlocked : has_flag (with_internal q.flags) flag_locked ≡ false = rw flags refl in
      given (new_process lib q attempts (fresh s)) after
        (subst (λ b. Inv after (record { target = fresh s; locked = b } ∷ rest)) unlocked st.inv)
  made_process-Gives q rest s r source flags (refused_spawn answer failure) =
      rw failure.returned
        (no_process failure.result failure.error failure.after failure.is_error failure.inv)
    where
      no_process :
          (result : Option Spawned) (error : ApiE) (s' : Store)
          → error ≢ success
          → Inv s' rest
          → Gives rest (λ p. unlocked_hold p.cell) (made_process (some (error, result, s')))
      no_process none error s' ne v = failed error s' ne v
      no_process (some (child_killed pid)) error s' ne v = failed error s' ne v
      no_process (some (spawned p argv envp)) error s' ne v =
          simp (fails-ne error ne) (failed error s' ne v)
  made_process-Gives q rest s r source flags (unreported after missing v) =
      absurd (false≢true (sym missing ∙ source))
  made_process-Gives q rest s r source flags (abandoned answer external failure) =
      absurd (false≢true (rw flags at external))

  -- When the text of a string has no zeros and at most INT32_MAX bytes, the event source of a new
  -- process can be added and its child writes its status, the services made of `string_wrap`,
  -- `file_open`, `pipe_create_` and `process_spawn` keep the counts right: each gives what it makes
  -- to its caller or answers an error and holds nothing, and a new string was no object before.
  pub services-AreRight :
      NoZero text
      → length text ≤ int32_max
      → attempts.event_source ≡ true
      → child_status attempts.fork.unblocked attempts.child ≢ none
      → AreRight services
  unfolding services
  services-AreRight nonzero small source writes = record {
    new_string_lem = λ rest s v.
        made_string-GivesNew rest s _ (
          wrap-Wrapped growth lib (fresh s) text strings s rest v (fresh-InNoArray s) nonzero
            small);
    open_file_lem = λ a opening rest s v.
        file_open-Gives lib fresh fresh-InNoArray rest (flags_of opening) (opens a opening s)
          (s.object a).id (permissions_of opening) s v;
    new_pipe_lem =
        λ rest s v. pipe_create-Gives lib fresh fresh-InNoArray rest growth (pipes s) 0 s v;
    spawn_lem = λ d i o r rest s v.
        let q : Request = record (request d i o r s) {
          session = none;
          flags = flag_internal;
          release_on_death = false;
        } in
        made_process-Gives q rest s _ source refl
          (spawn-SpawnOutcome lib q attempts (fresh s) rest s (fresh-InNoArray s) tt writes v);
  }
