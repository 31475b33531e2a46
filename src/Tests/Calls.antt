-- ===== src/Tests/Calls.antt =====
-- src/redapid/inventory.c, src/redapid/list.c and the creation of strings at concrete inputs.
use red_brick_apid.Base.{
  ℕ, Bool, true, Option, none, some, List, [], ◌∷◌, arith, ◌==◌, inl, inr, ◌⊎◌, ◌≡◌, refl, ◌<◌, ◌↔◌,
}
use red_brick_apid.ApiError.{ApiE, is_success, success}
use red_brick_apid.Memory.{c_string, strnlen, NoZero, malloc, memcpy, store}
use red_brick_apid.Types.{ObjectType, string, list, file, directory, process, program}
use red_brick_apid.Store.Arrays.{occurrences}
use red_brick_apid.Store.{Store}
use red_brick_apid.Inventory.{
  next_free_id, get_next_object_id, place_object, add_object, get_object, id_max,
}
use red_brick_apid.Inventory.Ids.{next_free_id_lem}
use red_brick_apid.Inventory.Unique.{UniqueIds, add_object-UniqueIds, get_object_unique}
use red_brick_apid.Object.{lock, add_internal_reference, add_external_reference}
use red_brick_apid.Object.Invariant.{Inv}
use red_brick_apid.Object.Create.{object_create, create_referenced}
use red_brick_apid.ListObject.{append_item, append_to, remove_from}
use red_brick_apid.ListObject.Items.{Removed, remove_from-Removed}
use red_brick_apid.ListObject.Append.{append_to-Inv, Appended, append_to-Appended}
use red_brick_apid.StringObject.Creation.{
  StringAttempts, create, create_buffer, filled, fill_text, wrap, allocate,
}
use red_brick_apid.Tests.Sample.{list_lib, by_sixteen, sample, sample-Inv}

only_one : ℕ → Bool
only_one id = id == 1

next_free_id_lem_example :
    ((next_free_id id_max only_one 0).0 ≡ none)
    ↔ ((id : ℕ) → 0 < id → id < 65536 → only_one id ≡ true)
next_free_id_lem_example = next_free_id_lem only_one 0 (omega arith)

-- ID 1 is in use, and 0 is never given out.
next_free_id_run : next_free_id id_max (λ id. id == 1) 0 ≡ (some 2, 3)
unfolding next_free_id
next_free_id_run = refl

in_sample :
    (a : ℕ) (t : ObjectType)
    → 0 < occurrences a (sample.objects t)
    → (a ≡ 1) × (t ≡ string) ⊎ ((a ≡ 2) × (t ≡ list))
in_sample a string p = inl (ground arith, refl)
in_sample a list p = inr (ground arith, refl)
in_sample a file p = absurd (omega arith)
in_sample a directory p = absurd (omega arith)
in_sample a process p = absurd (omega arith)
in_sample a program p = absurd (omega arith)

sample-UniqueIds : UniqueIds sample
sample-UniqueIds = record {
  distinct = λ a b t u p q same. ground (arith, in_sample a t p, in_sample b u q);
  nonzero = λ a t p. ground (arith, in_sample a t p);
}

placed : is_success (add_object list_lib 7 none sample).0 ≡ true
unfolding add_object get_next_object_id next_free_id place_object
placed = refl

add_object-UniqueIds_example : UniqueIds (add_object list_lib 7 none sample).1
add_object-UniqueIds_example =
    add_object-UniqueIds list_lib 7 none sample sample-UniqueIds (omega arith) placed

get_object_unique_example : get_object (some list) 2 sample ≡ (success, some 2)
get_object_unique_example = get_object_unique 2 list sample sample-UniqueIds (omega arith)

found_one : (get_object none 1 sample).1 ≡ some 1
unfolding get_object
found_one = refl

append_to-Inv_example : Inv (append_to list_lib list_lib 2 1 none sample).1 []
append_to-Inv_example = append_to-Inv list_lib list_lib 2 1 none sample [] sample-Inv (omega arith)

appended_good : (append_to list_lib list_lib 2 1 none sample).0 ≡ success
unfolding append_to append_item get_object
appended_good = refl

append_to-Appended_example :
    Appended list_lib list_lib 2 1 none sample (append_to list_lib list_lib 2 1 none sample).1
append_to-Appended_example = append_to-Appended list_lib list_lib 2 1 none sample appended_good

remove_from-Removed_example :
    Removed list_lib list_lib 2 0 [] sample (remove_from list_lib list_lib 2 0 sample)
remove_from-Removed_example =
    remove_from-Removed list_lib list_lib 2 0 1 [] sample sample-Inv (omega arith) refl
      (omega arith) refl

abbrev all_good : StringAttempts
all_good = record {
  buffer = some (λ i. 0);
  memory = true;
  create = record { memory = true; append_failure = none };
}

abbrev hi : List ℕ
hi = 104 ∷ 105 ∷ []

hi-NoZero : NoZero hi
hi-NoZero = (λ e. cc, (λ e. cc, tt))

abbrev stored : Option (ApiE × Store) → Store
stored none = sample
stored (some r) = r.1

wrap_run :
    wrap by_sixteen list_lib 7 hi none 5 all_good sample
    ≡ some (success, stored (wrap by_sixteen list_lib 7 hi none 5 all_good sample))
unfolding wrap filled create create_buffer fill_text object_create create_referenced
    add_internal_reference lock add_object get_next_object_id next_free_id place_object malloc
    memcpy store
wrap_run = refl

allocate_run :
    allocate by_sixteen list_lib 7 20 (c_string hi) 100 all_good sample
    ≡ some (success, stored (allocate by_sixteen list_lib 7 20 (c_string hi) 100 all_good sample))
unfolding allocate strnlen filled create create_buffer fill_text object_create create_referenced
    add_external_reference add_object get_next_object_id next_free_id place_object malloc memcpy
    store
allocate_run = refl
