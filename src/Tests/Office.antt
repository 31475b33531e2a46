-- ===== src/Tests/Office.antt =====
-- A store with a process: its executable and its directory are one string, "/b", its arguments and
-- its environment are one list, and its files are one file.
use red_brick_apid.Base.{ℕ, none, List, [], ◌∷◌, arith, ◌==◌, if◌then◌else◌, refl, ◌<◌}
use red_brick_apid.Memory.{c_string}
use red_brick_apid.Types.{
  ObjectType, Object, String, string, list, file, directory, process, program,
}
use red_brick_apid.Store.Arrays.{occurrences}
use red_brick_apid.Store.{Store, Hold}
use red_brick_apid.Object.Invariant.{Inv, unlocked_hold, locked_hold}
use red_brick_apid.Object.Create.Cell.{InNoArray}
use red_brick_apid.Process.Stdio.{Members, holds_of}
use red_brick_apid.Tests.Sample.{header}

abbrev pub staff : Members
staff = record {
  executable = 1;
  arguments = 2;
  environment = 2;
  working_directory = 1;
  stdin = 3;
  stdout = 3;
  stderr = 3;
}

abbrev pub office_object : ℕ → Object
office_object a =
    if a == 1
    then header 1 string 5 0 5
    else if a == 2
    then header 2 list 2 0 2
    else if a == 3
    then header 3 file 3 0 0
    else if a == 4
    then header 4 process 1 1 0
    else header 0 string 0 0 0

abbrev pub office_objects : ObjectType → List ℕ
office_objects string = 1 ∷ []
office_objects list = 2 ∷ []
office_objects file = 3 ∷ []
office_objects directory = []
office_objects process = 4 ∷ []
office_objects program = []

abbrev pub path : String
path = record {
  buffer = record { size = 16; byte = c_string (47 ∷ 98 ∷ []) };
  length = 2;
  allocated = 16;
}

abbrev pub office_holds : ℕ → List Hold
office_holds a = if a == 4 then holds_of staff else if a == 2 then locked_hold 1 ∷ [] else []

abbrev pub office : Store
office = record {
  object = office_object;
  holds = office_holds;
  text = λ a. path;
  session = λ x. record {
    id = if x == 100 then 1 else 0;
    external_reference_count = if x == 100 then 1 else 0;
    timer = none;
  };
  references = record { object = 4; session = 100; count = 1 } ∷ [];
  objects = office_objects;
  sessions = 100 ∷ [];
  stock_strings = [];
  next_object_id = 5;
  next_session_id = 2;
}

pub nobody_at_7 : InNoArray 7 office
nobody_at_7 string = refl
nobody_at_7 list = refl
nobody_at_7 file = refl
nobody_at_7 directory = refl
nobody_at_7 process = refl
nobody_at_7 program = refl

-- The daemon holds the process, and the name twice.
abbrev pub by_daemon : List Hold
by_daemon = unlocked_hold 4 ∷ locked_hold 1 ∷ locked_hold 1 ∷ []

pub office-Inv : Inv office by_daemon
office-Inv = record {
  internal = λ t. ground arith;
  locks = λ t. ground arith;
  internal_held = λ t l. ground arith;
  locks_held = λ t l. ground arith;
  held_live = λ t p. ground arith;
  once = λ a. ground arith;
  external = λ a. ground arith;
  of_sessions = λ x. ground arith;
  positive = (omega arith, tt);
  external_live = λ a p. ground arith;
  typed = λ a u p. typed a u p;
  session_once = λ x. ground arith;
  sessions_live = λ x p. ground arith;
}
  where
    typed :
        (a : ℕ) (u : ObjectType)
        → 0 < occurrences a (office_objects u)
        → 0 < occurrences a (office_objects (office_object a).type)
    typed a string p = ground arith
    typed a list p = ground arith
    typed a file p = ground arith
    typed a directory p = absurd (omega arith)
    typed a process p = ground arith
    typed a program p = absurd (omega arith)
