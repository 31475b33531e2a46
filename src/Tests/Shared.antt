-- ===== src/Tests/Shared.antt =====
-- The stock strings and the lists of src/redapid/inventory.c at concrete inputs.
use red_brick_apid.Base.{
  ℕ, if◌then◌else◌, ◌==◌, ◌<◌, sym, ◌∙◌, true, none, some, List, [], ◌∷◌, arith, true, ◌≡◌, refl,
  ◌∷◌,
}
use red_brick_apid.Memory.{NoZero}
use red_brick_apid.ApiError.{is_success}
use red_brick_apid.Inventory.{next_free_id, get_next_object_id, place_object, add_object}
use red_brick_apid.Object.{lock, add_internal_reference, add_external_reference}
use red_brick_apid.Object.Create.{object_create, create_referenced, flag_external}
use red_brick_apid.ListObject.{ListAttempts, allocate}
use red_brick_apid.Listing.{get_programs}
use red_brick_apid.Listing.Counts.{IsListed, get_programs-IsListed}
use red_brick_apid.Stock.{StockAttempts, get_stock_string}
use red_brick_apid.Stock.Get.{StockOutcome, get_stock_string-StockOutcome}
use red_brick_apid.Tests.Sample.{
  list_lib, by_sixteen, sample, sample-Inv, nothing_at_7, header, sample_object,
}
use red_brick_apid.Types.{ObjectType, Object, string, list, file, directory, process, program}
use red_brick_apid.Store.{Store}
use red_brick_apid.Store.Arrays.{occurrences}
use red_brick_apid.Object.Invariant.{Inv, unlocked_hold}
use red_brick_apid.Object.Create.Cell.{InNoArray}
use red_brick_apid.Inventory.Unique.{UniqueIds}
use red_brick_apid.Listing.Items.{wanted}

abbrev hi : List ℕ
hi = 104 ∷ 105 ∷ []

hi-NoZero : NoZero hi
hi-NoZero = (λ e. cc, (λ e. cc, tt))

abbrev all_good : StockAttempts
all_good = record {
  wrap = record {
    buffer = some (λ i. 0);
    memory = true;
    create = record { memory = true; append_failure = none };
  };
  append_failure = none;
}

get_stock_string-StockOutcome_example :
    StockOutcome list_lib hi [] (get_stock_string list_lib by_sixteen 7 hi all_good sample)
get_stock_string-StockOutcome_example =
    get_stock_string-StockOutcome list_lib hi [] by_sixteen 7 all_good sample hi-NoZero
      (omega arith) sample-Inv nothing_at_7

abbrev for_list : ListAttempts
for_list = record {
  memory = true;
  array_create_failure = none;
  create = record { memory = true; append_failure = none };
}

-- Two programs more: the daemon refers to the first, only the client to the second.
abbrev registry_object : ℕ → Object
registry_object a =
    if a == 4
    then header 4 program 1 0 0
    else if a == 5
    then header 5 program 0 1 0
    else sample_object a

abbrev registry_objects : ObjectType → List ℕ
registry_objects string = 1 ∷ []
registry_objects list = 2 ∷ []
registry_objects file = []
registry_objects directory = []
registry_objects process = []
registry_objects program = 4 ∷ 5 ∷ []

abbrev registry : Store
registry = record sample {
  object = registry_object;
  objects = registry_objects;
  session = λ x. record {
    id = if x == 100 then 1 else 0;
    external_reference_count = if x == 100 then 3 else 0;
    timer = if x == 100 then some 10000000 else none;
  };
  references = record { object = 5; session = 100; count = 1 } ∷ sample.references;
  next_object_id = 6;
}

nothing_new_at_7 : InNoArray 7 registry
nothing_new_at_7 string = refl
nothing_new_at_7 list = refl
nothing_new_at_7 file = refl
nothing_new_at_7 directory = refl
nothing_new_at_7 process = refl
nothing_new_at_7 program = refl

registry-Inv : Inv registry (unlocked_hold 4 ∷ [])
registry-Inv = record {
  internal = λ t. ground arith;
  locks = λ t. ground arith;
  internal_held = λ t l. ground arith;
  locks_held = λ t l. ground arith;
  held_live = λ t p. ground arith;
  once = λ a. ground arith;
  external = λ a. ground arith;
  of_sessions = λ x. ground arith;
  positive = (omega arith, (omega arith, (omega arith, tt)));
  external_live = λ a p. ground arith;
  typed = λ a u p. typed a u p;
  session_once = λ x. ground arith;
  sessions_live = λ x p. ground arith;
}
  where
    typed :
        (a : ℕ) (u : ObjectType)
        → 0 < occurrences a (registry_objects u)
        → 0 < occurrences a (registry_objects (registry_object a).type)
    typed a string p = ground arith
    typed a list p = ground arith
    typed a file p = absurd (omega arith)
    typed a directory p = absurd (omega arith)
    typed a process p = absurd (omega arith)
    typed a program p = ground arith

-- Every object of the inventory has its address as its ID.
own_ids :
    (a : ℕ) (t : ObjectType)
    → 0 < occurrences a (registry_objects t)
    → (registry_object a).id ≡ a × (0 < a)
own_ids a string p = (ground arith, ground arith)
own_ids a list p = (ground arith, ground arith)
own_ids a file p = absurd (omega arith)
own_ids a directory p = absurd (omega arith)
own_ids a process p = absurd (omega arith)
own_ids a program p = (ground arith, ground arith)

registry-UniqueIds : UniqueIds registry
registry-UniqueIds = record {
  distinct = λ a b t u p q same. sym (own_ids a t p).0 ∙ same ∙ (own_ids b u q).0;
  nonzero = λ a t p. omega (arith, (own_ids a t p).0, (own_ids a t p).1);
}

list_made : is_success (allocate list_lib 7 (some 100) flag_external for_list registry).0 ≡ true
unfolding allocate object_create create_referenced add_internal_reference add_external_reference
    lock add_object get_next_object_id next_free_id place_object
list_made = refl

get_programs-IsListed_example :
    IsListed list_lib list_lib 7 100
      (λ a. none)
      (unlocked_hold 4 ∷ [])
      registry
      true
      program
      (get_programs list_lib list_lib 7 100 (λ a. none) for_list registry)
get_programs-IsListed_example =
    get_programs-IsListed list_lib list_lib 7 100 (λ a. none) (unlocked_hold 4 ∷ []) for_list
      registry registry-Inv registry-UniqueIds (omega arith) nothing_new_at_7 (omega arith)
      list_made

-- The list has the first program only.
wanted-run : wanted true registry.object (registry.objects program) ≡ 4 ∷ []
wanted-run = refl
