-- ===== src/Tests/Sample.antt =====
-- The inputs of the tests: concrete arrays and growth for daemonlib's, a string, and a store with a
-- session, a string object that a list object holds, and an external reference to each of the two.
use red_brick_apid.Base.{
  ℕ, zero, suc, ◌+◌, ◌*◌, ◌/◌, true, none, some, List, [], ◌∷◌, ◌++◌, arith, ◌==◌, if◌then◌else◌,
  refl, ◌<◌, ◌≢◌,
}
use red_brick_apid.Memory.{c_string}
use red_brick_apid.Types.{
  ObjectType, Object, String, string, list, file, directory, process, program,
}
use red_brick_apid.Store.Arrays.{ArrayLib, remove_at, occurrences}
use red_brick_apid.Store.{Store}
use red_brick_apid.Object.Invariant.{Inv}
use red_brick_apid.Object.Create.Invariant.{IsFresh}
use red_brick_apid.Object.Create.Cell.{InNoArray}
use red_brick_apid.StringObject.{Growth, IsValid}

abbrev pub list_lib {ℓ} : {A : Type ℓ} → ArrayLib A
list_lib = record {
  append = λ xs x. xs ++ x ∷ [];
  remove = remove_at;
  append_lem = λ xs x. refl;
  remove_lem = λ xs i. refl;
}

abbrev pub by_sixteen : Growth
by_sixteen = record {
  grow = λ n. (n + 15) / 16 * 16;
  le-grow = λ n. omega arith;
  grow-le = λ n h. omega arith;
}

-- "ab", in a buffer of 16 bytes.
abbrev pub ab : String
ab = record {
  buffer = record { size = 16; byte = c_string (97 ∷ 98 ∷ []) };
  length = 2;
  allocated = 16;
}

pub ab-IsValid : IsValid ab
ab-IsValid = record {
  sized = refl;
  fits = omega arith;
  bounded = omega arith;
  nonzero = λ i p. nonzero i p;
  terminated = refl;
}
  where
    nonzero : (i : ℕ) → i < 2 → c_string (97 ∷ 98 ∷ []) i ≢ 0
    nonzero zero p = λ e. cc
    nonzero (suc zero) p = λ e. cc
    nonzero (suc (suc i)) p = absurd (omega arith)

abbrev pub header : ℕ → ObjectType → ℕ → ℕ → ℕ → Object
header id t internal external locks = record {
  id = id;
  type = t;
  internal_reference_count = internal;
  external_reference_count = external;
  lock_count = locks;
}

abbrev pub sample_object : ℕ → Object
sample_object a =
    if a == 1
    then header 1 string 1 1 1
    else if a == 2
    then header 2 list 0 1 0
    else header 0 string 0 0 0

abbrev pub sample_objects : ObjectType → List ℕ
sample_objects string = 1 ∷ []
sample_objects list = 2 ∷ []
sample_objects file = []
sample_objects directory = []
sample_objects process = []
sample_objects program = []

abbrev pub sample : Store
sample = record {
  object = sample_object;
  holds = λ a. if a == 2 then record { target = 1; locked = true } ∷ [] else [];
  text = λ a. ab;
  session = λ x. record {
    id = if x == 100 then 1 else 0;
    external_reference_count = if x == 100 then 2 else 0;
    timer = if x == 100 then some 10000000 else none;
  };
  references =
      record { object = 2; session = 100; count = 1 }
      ∷ record { object = 1; session = 100; count = 1 }
      ∷ [];
  objects = sample_objects;
  sessions = 100 ∷ [];
  stock_strings = [];
  next_object_id = 3;
  next_session_id = 2;
}

pub nothing_at_7 : InNoArray 7 sample
nothing_at_7 string = refl
nothing_at_7 list = refl
nothing_at_7 file = refl
nothing_at_7 directory = refl
nothing_at_7 process = refl
nothing_at_7 program = refl

pub sample-IsFresh : IsFresh 7 sample
sample-IsFresh = record { in_no_array = nothing_at_7; holds_nothing = refl }

pub sample-Inv : Inv sample []
sample-Inv = record {
  internal = λ t. ground arith;
  locks = λ t. ground arith;
  internal_held = λ t l. ground arith;
  locks_held = λ t l. ground arith;
  held_live = λ t p. ground arith;
  once = λ a. ground arith;
  external = λ a. ground arith;
  of_sessions = λ x. ground arith;
  positive = (omega arith, (omega arith, tt));
  external_live = λ a p. ground arith;
  typed = λ a u p. typed a u p;
  session_once = λ x. ground arith;
  sessions_live = λ x p. ground arith;
}
  where
    typed :
        (a : ℕ) (u : ObjectType)
        → 0 < occurrences a (sample_objects u)
        → 0 < occurrences a (sample_objects (sample_object a).type)
    typed a string p = ground arith
    typed a list p = ground arith
    typed a file p = absurd (omega arith)
    typed a directory p = absurd (omega arith)
    typed a process p = absurd (omega arith)
    typed a program p = absurd (omega arith)
