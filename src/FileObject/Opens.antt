-- ===== src/FileObject/Opens.antt =====
-- `file_open` and `pipe_create_` (src/redapid/file.c), for a file that only the daemon refers to,
-- give the new file to their caller, or hold nothing.
use red_brick_apid.Base.{
  ℕ, true, none, List, [], ◌∷◌, ◌++◌, arith, ◌==◌, ltb, refl, ◌≢◌, Bool-cases, inl, inr, ap, ◌∙◌,
}
use red_brick_apid.ApiError.{ApiE, is_success, is_success-eq, success}
use red_brick_apid.Types.{file, int32_max}
use red_brick_apid.Memory.{NoZero}
use red_brick_apid.Store.Arrays.{ArrayLib, tally-append}
use red_brick_apid.Store.{Store, Hold}
use red_brick_apid.Object.Invariant.{Inv, unlocked_hold, locked_hold, reordered-Inv}
use red_brick_apid.Object.Frame.{object_create-SameBodies}
use red_brick_apid.Object.Create.{object_create, Attempts, flag_internal}
use red_brick_apid.Object.Create.Invariant.{IsFresh}
use red_brick_apid.Object.Create.Cell.{InNoArray, written-Inv, written-IsFresh}
use red_brick_apid.Object.Create.Success.{object_create-Inv}
use red_brick_apid.Object.Create.Live.{object_create-IsLive}
use red_brick_apid.Object.Create.Refused.{object_create-Kept}
use red_brick_apid.StringObject.{Growth}
use red_brick_apid.ListObject.{with_items}
use red_brick_apid.Acquire.{Answer, Lookup, get_string, fail, after_lookup}
use red_brick_apid.Acquire.Cleanup.{give_back_all-Settled}
use red_brick_apid.Acquire.Getters.{Acquired, missing, acquired, get_string-Acquired}
use red_brick_apid.Acquire.Owner.{moved_in-Inv}
use red_brick_apid.Process.Spawn.{first_byte, slash}
use red_brick_apid.Process.Spawning.{fails-ne}
use red_brick_apid.Stock.{StockResult, get_stock_string}
use red_brick_apid.Stock.Get.{
  StockOutcome, stocked, failed as no_stock, get_stock_string-StockOutcome,
}
use red_brick_apid.Scheduler.Holds.{Gives, given, failed}
use red_brick_apid.FileObject.Open.{
  OpenAttempts, PipeAttempts, unnamed, arguments_fit, create_file, after_step, open_named,
  check_name, file_open, make_pipe, after_stock, pipe_create,
}

unnamed-NoZero : NoZero unnamed
unnamed-NoZero = (
  λ e. cc,
  (λ e. cc, (λ e. cc, (λ e. cc, (λ e. cc, (λ e. cc, (λ e. cc, (λ e. cc, (λ e. cc, tt)))))))),
)

module _ (lib : ArrayLib ℕ) (calloc : Store → ℕ) (new : (s : Store) → InNoArray (calloc s) s)
    (pending : List Hold) where
  abbrev Given : Answer ℕ → Type 0
  Given = Gives pending unlocked_hold

  -- What a step does on every store whose counts are right.
  abbrev IsStep : List Hold → (List Hold → Store → Answer ℕ) → Type 0
  IsStep holds next = (s : Store) → Inv s (holds ++ pending) → Given (next holds s)

  fail-Gives :
      (error : ApiE) (holds : List Hold) → error ≢ success → IsStep holds (fail lib none error)
  unfolding fail
  fail-Gives error holds ne s v =
      let d = give_back_all-Settled lib pending holds s v in
      rw (fail, d.returned) (failed error d.after ne d.inv)

  after_step-Gives :
      (error : ApiE) (next : List Hold → Store → Answer ℕ) (holds : List Hold)
      → IsStep holds next
      → IsStep holds (after_step lib calloc none flag_internal error next)
  unfolding after_step
  after_step-Gives error next holds step s v = elim (Bool-cases (is_success error)) [
    | inl good ↦ rw (after_step, good) (step s v)
    | inr bad ↦ rw (after_step, bad) (fail-Gives error holds (fails-ne error bad) s v)
  ]

  create_file-Gives :
      (attempts : Attempts) (holds : List Hold)
      → IsStep holds (create_file lib calloc none flag_internal attempts)
  unfolding create_file
  create_file-Gives attempts holds s v =
      let a = calloc s in
      let cell : Store = with_items a [] s in
      let cell-Inv : Inv cell (holds ++ pending) = written-Inv a [] s.text s (new s) v in
      let fresh : IsFresh a cell = written-IsFresh a s.text s (new s) in
      let r : ApiE × Store = object_create lib a file none flag_internal attempts cell in
      elim (Bool-cases (is_success r.0)) [
        | inl good ↦
            let v' : Inv r.1 (unlocked_hold a ∷ holds ++ pending) =
              object_create-Inv lib a file none flag_internal attempts cell (holds ++ pending)
                cell-Inv fresh tt good in
            let live = object_create-IsLive lib a file none flag_internal attempts cell good in
            let nothing =
              ap (λ (f : ℕ → List Hold). f a)
                (object_create-SameBodies lib a file none flag_internal attempts cell).same_holds
              ∙ fresh.holds_nothing in
            rw (create_file, is_success-eq r.0 good)
              (given a (with_items a holds r.1) (
                moved_in-Inv a holds (unlocked_hold a ∷ pending) r.1
                  (reordered-Inv (unlocked_hold a ∷ holds ++ pending)
                    (holds ++ unlocked_hold a ∷ pending)
                    (λ f. omega (
                      arith,
                      tally-append f holds pending,
                      tally-append f holds (unlocked_hold a ∷ pending),
                    ))
                    v')
                  live nothing))
        | inr bad ↦
            rw (create_file, bad)
              (fail-Gives r.0 holds (fails-ne r.0 bad) r.1
                (object_create-Kept a (holds ++ pending) lib file none flag_internal attempts cell
                  cell-Inv fresh refl bad).inv)
      ]

  module _ (flags : ℕ) (attempts : OpenAttempts) where
    open_named-Gives :
        (holds : List Hold) → IsStep holds (open_named lib calloc none flag_internal flags attempts)
    unfolding open_named
    open_named-Gives holds = after_step-Gives _ _ holds (
        after_step-Gives _ _ holds (
          after_step-Gives _ _ holds (
            after_step-Gives _ _ holds
              (after_step-Gives _ _ holds (create_file-Gives attempts.create holds)))))

    check_name-Gives :
        (name : ℕ) (holds : List Hold)
        → IsStep holds (check_name lib calloc none flag_internal flags attempts name)
    unfolding check_name
    check_name-Gives name holds s v = elim (Bool-cases (first_byte name s == 0)) [
      | inl empty ↦ rw (check_name, empty) (fail-Gives _ holds (λ e. cc) s v)
      | inr named ↦ elim (Bool-cases (first_byte name s == slash)) [
        | inl absolute ↦ rw (check_name, named, absolute) (open_named-Gives holds s v)
        | inr relative ↦ rw (check_name, named, relative) (fail-Gives _ holds (λ e. cc) s v)
      ]
    ]

    after_lookup-Gives :
        (s : Store) (r : Lookup)
        → Inv s pending
        → Acquired true pending s r
        → Given
            (after_lookup lib true [] (check_name lib calloc none flag_internal flags attempts) r)
    after_lookup-Gives s r v (missing error ne) = fail-Gives error [] ne s v
    after_lookup-Gives s r v (acquired a object v') =
        check_name-Gives a (locked_hold a ∷ []) (record s { object = object }) v'

    -- A file that is opened is held by the caller, and holds its name.
    pub file_open-Gives :
        (name_id permissions : ℕ) (s : Store)
        → Inv s pending
        → Given (file_open lib calloc none flag_internal flags attempts name_id permissions s)
    unfolding file_open
    file_open-Gives name_id permissions s v = elim (Bool-cases (arguments_fit flags permissions)) [
      | inr wrong ↦ rw (file_open, wrong) (failed _ s (λ e. cc) v)
      | inl fits ↦
          rw (file_open, fits)
            (after_lookup-Gives s (get_string name_id s) v
              (get_string-Acquired pending s v name_id))
    ]

  module _ (growth : Growth) (attempts : PipeAttempts) where
    make_pipe-Gives :
        (bytes : ℕ) (holds : List Hold)
        → IsStep holds (make_pipe lib calloc none flag_internal growth attempts bytes)
    unfolding make_pipe
    make_pipe-Gives bytes holds = after_step-Gives _ _ holds (
        after_step-Gives _ _ holds (
          after_step-Gives _ _ holds
            (after_step-Gives _ _ holds (create_file-Gives attempts.create holds))))

    after_stock-Gives :
        (bytes : ℕ) (r : StockResult)
        → StockOutcome lib unnamed pending r
        → Given (after_stock lib calloc none flag_internal growth attempts bytes r)
    after_stock-Gives bytes r (stocked name s stock) =
        make_pipe-Gives bytes (locked_hold name ∷ []) s stock.inv
    after_stock-Gives bytes r (no_stock error s ne v) = failed error s ne v

    -- A pipe that is created is held by the caller, and holds the stock string "<unnamed>".
    pub pipe_create-Gives :
        (bytes : ℕ) (s : Store)
        → Inv s pending
        → Given (pipe_create lib calloc none flag_internal growth attempts bytes s)
    unfolding pipe_create
    pipe_create-Gives bytes s v = elim (Bool-cases attempts.flags_known) [
      | inr wrong ↦ simp (pipe_create, wrong) (failed _ s (λ e. cc) v)
      | inl known ↦ elim (Bool-cases (ltb int32_max bytes)) [
        | inl large ↦ simp (pipe_create, known, large) (failed _ s (λ e. cc) v)
        | inr small ↦
            simp (pipe_create, known, small)
              (after_stock-Gives bytes
                (get_stock_string lib growth (calloc s) unnamed attempts.stock s)
                (get_stock_string-StockOutcome lib unnamed pending growth (calloc s) attempts.stock
                  s unnamed-NoZero (omega arith) v (new s)))
      ]
    ]
