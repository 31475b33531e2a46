-- ===== src/Scheduler/Life.antt =====
-- `program_scheduler_create` (src/redapid/program_scheduler.c).
use red_brick_apid.Base.{
  ℕ, suc, Bool, true, false, not, ◌&&◌, ◌||◌, Option, none, some, List, [], ◌∷◌, ◌==◌,
  if◌then◌else◌, ◌≡◌, refl, ◌≢◌, Bool-cases, Option-cases, inl, inr, ap, sym, ◌∙◌, arith,
}
use mathlib.Core.Bool.{false≢true}
use red_brick_apid.ApiError.{
  ApiE, Errno, is_success, success, get_error_code_from_errno, get_error_code_from_errno-ne-success,
}
use red_brick_apid.Store.Arrays.{ArrayLib}
use red_brick_apid.Store.{Store, Hold}
use red_brick_apid.Object.Invariant.{Inv, locked_hold}
use red_brick_apid.StringObject.Creation.{unlock_and_release}
use red_brick_apid.Acquire.{Answer}
use red_brick_apid.Scheduler.{Scheduler, pending, finished, stopped, is_running}
use red_brick_apid.Memory.{NoZero}
use red_brick_apid.Object.Create.Cell.{InNoArray}
use red_brick_apid.StringObject.{Growth}
use red_brick_apid.Stock.{StockAttempts, get_stock_string}
use red_brick_apid.Stock.Get.{StockOutcome, stocked, failed, get_stock_string-StockOutcome}
use red_brick_apid.Scheduler.Holds.{Fine}
use red_brick_apid.Scheduler.Stopping.{unlock_and_release-Inv}

-- "DISPLAY="
abbrev pub display : List ℕ
display = 68 ∷ 73 ∷ 83 ∷ 80 ∷ 76 ∷ 65 ∷ 89 ∷ 61 ∷ []

-- `strncmp(buffer, prefix, strlen(prefix)) == 0`, for a prefix without zeros.
abbrev pub starts_with : List ℕ → (ℕ → ℕ) → Bool
starts_with [] buffer = true
starts_with (c ∷ prefix) buffer = buffer 0 == c && starts_with prefix (λ i. buffer (suc i))

-- The loop over the environment.
abbrev pub has_display : List Hold → Store → Bool
has_display [] s = false
has_display (h ∷ items) s = starts_with display (s.text h.target).buffer.byte || has_display items s

-- What the calls of `program_scheduler_create` answer.
pub record CreateAnswers : Type 0 where
  pub bin_name : Option Errno
  pub bin_directory_made : ApiE
  pub log_name : Option Errno
  pub log_directory_made : ApiE
  pub timer : Option Errno
  pub x11_enabled : Bool
  pub connected : Bool

-- The members of a new scheduler.
abbrev pub new_scheduler : ℕ → Bool → Bool → Scheduler
new_scheduler dev_null waits connected = record {
  working_directory = none;
  stdin_file_name = none;
  stdout_file_name = none;
  stderr_file_name = none;
  dev_null_file_name = dev_null;
  observer_state = if waits then pending else finished;
  shutdown = false;
  waiting_for_brickd = not connected;
  timer_active = false;
  cron_active = false;
  last_spawned = none;
  state = stopped;
  message = none;
  timer_runs = false;
  has_cron_entry = false;
  is_observed = false;
  notices = 0;
  spawns = 0;
  kills = 0;
  lost = [];
}

-- "/dev/null"
abbrev pub devnull : List ℕ
devnull = 47 ∷ 100 ∷ 101 ∷ 118 ∷ 47 ∷ 110 ∷ 117 ∷ 108 ∷ 108 ∷ []

devnull-NoZero : NoZero devnull
devnull-NoZero = (
  λ e. cc,
  (λ e. cc, (λ e. cc, (λ e. cc, (λ e. cc, (λ e. cc, (λ e. cc, (λ e. cc, (λ e. cc, tt)))))))),
)

module _ (lib : ArrayLib ℕ) (growth : Growth) (a : ℕ) (attempts : StockAttempts) (environment : ℕ)
    (answers : CreateAnswers) where
  -- From phase 3.
  unfoldable pub create_with : ℕ → Store → Answer Scheduler
  create_with dev_null s = elim answers.timer [
    | none ↦ some (
      success,
      some (
          new_scheduler dev_null (answers.x11_enabled && has_display (s.holds environment) s)
            answers.connected),
      s,
    )
    | some errno ↦ elim (unlock_and_release lib dev_null s) [
      | none ↦ none
      | some s' ↦ some (get_error_code_from_errno errno, none, s')
    ]
  ]

  abbrev pub after_dev_null : Answer ℕ → Answer Scheduler
  after_dev_null none = none
  after_dev_null (some (error, none, s)) = some (error, none, s)
  after_dev_null (some (error, some dev_null, s)) = create_with dev_null s

  -- `program_scheduler_create`; `a` is the cell of a new stock string.
  unfoldable pub create : Store → Answer Scheduler
  create s = elim answers.bin_name [
    | some errno ↦ some (get_error_code_from_errno errno, none, s)
    | none ↦
        if not (is_success answers.bin_directory_made)
        then some (answers.bin_directory_made, none, s)
        else elim answers.log_name [
          | some errno ↦ some (get_error_code_from_errno errno, none, s)
          | none ↦
              if not (is_success answers.log_directory_made)
              then some (answers.log_directory_made, none, s)
              else after_dev_null (get_stock_string lib growth a devnull attempts s)
        ]
  ]

  module _ (rest : List Hold) where
    -- A sound scheduler, stopped and without a working directory, or an error.
    pub data Created : Answer Scheduler → Type 0 where
      created :
          (p : Scheduler) (s : Store)
          → Fine false rest p s
          → is_running p.state ≡ false
          → Created (some (success, some p, s))
      refused :
          (error : ApiE) (s : Store)
          → error ≢ success
          → Inv s rest
          → Created (some (error, none, s))

    new-Fine :
        (dev_null : ℕ) (waits connected : Bool) (s : Store)
        → Inv s (locked_hold dev_null ∷ rest)
        → Fine false rest (new_scheduler dev_null waits connected) s
    new-Fine dev_null waits connected s v = record {
      inv = v;
      sound = record {
        timer_known = λ h. cc;
        cron_known = λ h. cc;
        observer_known = λ h. cc;
        cron_runs = λ h. cc;
        no_message = λ h. refl;
        halted = λ h. refl;
        named = λ h. cc;
      };
    }

    create_with-Created :
        (dev_null : ℕ) (s : Store)
        → Inv s (locked_hold dev_null ∷ rest)
        → Created (create_with dev_null s)
    unfolding create_with
    create_with-Created dev_null s v = elim (Option-cases answers.timer) [
      | inl made ↦
          simp (create_with, made) (created _ s (new-Fine dev_null _ answers.connected s v) refl)
      | inr (errno, unmade) ↦
          let (s', e, v') = unlock_and_release-Inv lib dev_null rest s v in
          simp (create_with, unmade, e)
            (refused _ s' (get_error_code_from_errno-ne-success errno) v')
    ]

    after-Created : (r : Answer ℕ) → StockOutcome lib devnull rest r → Created (after_dev_null r)
    after-Created r (stocked dev_null s stock) = create_with-Created dev_null s stock.inv
    after-Created r (failed error s ne v) = refused error s ne v

    -- On a store with right counts, with a new cell for the stock string "/dev/null",
    -- `program_scheduler_create` answers a stopped scheduler in a fine state, or an error with the
    -- counts right.
    pub create-Created : (s : Store) → Inv s rest → InNoArray a s → Created (create s)
    unfolding create
    create-Created s v absent = elim (Option-cases answers.bin_name) [
      | inr (errno, h) ↦
          simp (create, h) (refused _ s (get_error_code_from_errno-ne-success errno) v)
      | inl h₁ ↦ elim (Bool-cases (is_success answers.bin_directory_made)) [
        | inr bad ↦
            simp (create, h₁, bad) (refused _ s (λ e. false≢true (sym bad ∙ ap is_success e)) v)
        | inl h₂ ↦ elim (Option-cases answers.log_name) [
          | inr (errno, h) ↦
              simp (create, h₁, h₂, h) (refused _ s (get_error_code_from_errno-ne-success errno) v)
          | inl h₃ ↦ elim (Bool-cases (is_success answers.log_directory_made)) [
            | inr bad ↦
                simp (create, h₁, h₂, h₃, bad)
                  (refused _ s (λ e. false≢true (sym bad ∙ ap is_success e)) v)
            | inl h₄ ↦
                simp (create, h₁, h₂, h₃, h₄)
                  (after-Created (get_stock_string lib growth a devnull attempts s) (
                    get_stock_string-StockOutcome lib devnull rest growth a attempts s
                      devnull-NoZero (omega arith) v absent))
          ]
        ]
      ]
    ]
