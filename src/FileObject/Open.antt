-- ===== src/FileObject/Open.antt =====
-- `file_open` and `pipe_create_` (src/redapid/file.c), step by step. Each step is given what the call
-- holds so far; the cleanup by phases gives it back, and in the end it is what the file holds. The
-- system calls are parameters, by their outcomes.
use red_brick_apid.Base.{
  ℕ, Bool, true, not, ◌&&◌, ◌||◌, Option, none, some, List, [], ◌∷◌, ltb, ◌==◌, if◌then◌else◌,
}
use red_brick_apid.ApiError.{
  ApiE, Errno, is_success, success, invalid_parameter, no_free_memory, out_of_range,
  get_error_code_from_errno,
}
use red_brick_apid.Types.{file, int32_max}
use red_brick_apid.Store.Arrays.{ArrayLib}
use red_brick_apid.Store.{Store, Hold}
use red_brick_apid.Object.Create.{Attempts, object_create, has_flag}
use red_brick_apid.Object.Invariant.{locked_hold}
use red_brick_apid.StringObject.{Growth}
use red_brick_apid.ListObject.{with_items}
use red_brick_apid.Acquire.{Answer, get_string, fail, after_lookup}
use red_brick_apid.Process.Spawn.{first_byte, slash}
use red_brick_apid.Stock.{StockAttempts, StockResult, get_stock_string}

-- FILE_FLAG_CREATE, FILE_FLAG_EXCLUSIVE, FILE_FLAG_TEMPORARY and FILE_FLAG_REPLACE
abbrev pub file_flag_create : ℕ
file_flag_create = 16

abbrev pub file_flag_exclusive : ℕ
file_flag_exclusive = 32

abbrev pub file_flag_temporary : ℕ
file_flag_temporary = 256

abbrev pub file_flag_replace : ℕ
file_flag_replace = 512

-- The checks of the flags and the permissions: FILE_FLAG_ALL are the lowest ten bits, and
-- FILE_PERMISSION_ALL the lowest nine.
unfoldable pub arguments_fit : ℕ → ℕ → Bool
arguments_fit flags permissions =
    ltb flags 1024
    && ltb permissions 512
    && not (has_flag flags file_flag_create && permissions == 0)
    && not (not (has_flag flags file_flag_create) && not (permissions == 0))
    && not (
        has_flag flags file_flag_temporary
        && (not (has_flag flags file_flag_create) || not (has_flag flags file_flag_exclusive)))
    && not (has_flag flags file_flag_replace && not (has_flag flags file_flag_create))

-- The outcomes of the calls of `file_open`: `unlink`, where ENOENT is no failure; `open` for the
-- daemon's own user, `file_open_as` for another; `fstat`, `calloc`, `eventfd` and `object_create`.
pub record OpenAttempts : Type 0 where
  pub unlink : Option Errno
  pub same_user : Bool
  pub open_failure : Option Errno
  pub open_as : ApiE
  pub stat : Option Errno
  pub memory : Bool
  pub eventfd : Option Errno
  pub create : Attempts

-- The outcomes of the calls of `pipe_create_`; the flags of a pipe are daemonlib's.
pub record PipeAttempts : Type 0 where
  pub flags_known : Bool
  pub stock : StockAttempts
  pub memory : Bool
  pub pipe : Option Errno
  pub set_size : Option Errno
  pub eventfd : Option Errno
  pub create : Attempts

-- "<unnamed>"
abbrev pub unnamed : List ℕ
unnamed = 60 ∷ 117 ∷ 110 ∷ 110 ∷ 97 ∷ 109 ∷ 101 ∷ 100 ∷ 62 ∷ []

-- The error code of an outcome.
abbrev pub code_of : Option Errno → ApiE
code_of none = success
code_of (some errno) = get_error_code_from_errno errno

-- `calloc` answers a cell.
module _ (lib : ArrayLib ℕ) (calloc : Store → ℕ) (session : Option ℕ)
    (object_create_flags : ℕ) where
  -- From phase 4 on: the file object, which holds its name.
  unfoldable pub create_file : Attempts → List Hold → Store → Answer ℕ
  create_file attempts holds s =
      let a = calloc s in
      let (error, s') =
        object_create lib a file session object_create_flags attempts (with_items a [] s) in
      if is_success error
      then some (success, some a, with_items a holds s')
      else fail lib none error holds s'

  -- A step that can fail, and what follows it.
  unfoldable pub after_step : ApiE → (List Hold → Store → Answer ℕ) → List Hold → Store → Answer ℕ
  after_step error next holds s =
      if is_success error then next holds s else fail lib none error holds s

  module _ (flags : ℕ) (attempts : OpenAttempts) where
    -- The steps behind the checks of the name.
    unfoldable pub open_named : List Hold → Store → Answer ℕ
    open_named =
        after_step (if has_flag flags file_flag_replace then code_of attempts.unlink else success) (
          after_step
            (if attempts.same_user then code_of attempts.open_failure else attempts.open_as)
            (after_step (code_of attempts.stat) (
              after_step (if attempts.memory then success else no_free_memory)
                (after_step (code_of attempts.eventfd) (create_file attempts.create)))))

    -- From phase 1.
    unfoldable pub check_name : ℕ → List Hold → Store → Answer ℕ
    check_name name holds s =
        if first_byte name s == 0
        then fail lib none invalid_parameter holds s
        else if not (first_byte name s == slash)
        then fail lib none invalid_parameter holds s
        else open_named holds s

    -- `file_open`
    unfoldable pub file_open : ℕ → ℕ → Store → Answer ℕ
    file_open name_id permissions s =
        if not (arguments_fit flags permissions)
        then some (invalid_parameter, none, s)
        else after_lookup lib true [] check_name (get_string name_id s)

  module _ (growth : Growth) (attempts : PipeAttempts) where
    -- From phase 1, with the name.
    unfoldable pub make_pipe : ℕ → List Hold → Store → Answer ℕ
    make_pipe bytes = after_step (if attempts.memory then success else no_free_memory) (
        after_step (code_of attempts.pipe) (
          after_step (if ltb 0 bytes then code_of attempts.set_size else success)
            (after_step (code_of attempts.eventfd) (create_file attempts.create))))

    abbrev pub after_stock : ℕ → StockResult → Answer ℕ
    after_stock bytes none = none
    after_stock bytes (some (error, none, s)) = some (error, none, s)
    after_stock bytes (some (error, some name, s)) = make_pipe bytes (locked_hold name ∷ []) s

    -- `pipe_create_`
    unfoldable pub pipe_create : ℕ → Store → Answer ℕ
    pipe_create bytes s =
        if not attempts.flags_known
        then some (invalid_parameter, none, s)
        else if ltb int32_max bytes
        then some (out_of_range, none, s)
        else after_stock bytes (get_stock_string lib growth (calloc s) unnamed attempts.stock s)
