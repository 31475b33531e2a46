-- ===== src/Tests/Counts.antt =====
-- src/redapid/object.c and src/redapid/session.c at concrete inputs.
use red_brick_apid.Base.{true, false, none, some, [], arith, ◌≡◌, refl}
use red_brick_apid.ApiError.{ApiE, is_success, enomem, get_error_code_from_errno}
use red_brick_apid.Types.{string}
use red_brick_apid.Store.{Store}
use red_brick_apid.Inventory.{next_free_id, get_next_object_id, place_object, add_object}
use red_brick_apid.Object.{
  lock, unlock, add_internal_reference, client_release, remove_internal_reference,
  add_external_reference,
}
use red_brick_apid.Object.Invariant.{Inv, unlock-Inv}
use red_brick_apid.Object.Cascade.{Settled, remove_internal_reference-Settled}
use red_brick_apid.Object.References.{acquire_and_lock-Inv}
use red_brick_apid.Object.Client.{Protected, client_release-Protected, client_release-Inv}
use red_brick_apid.Object.Create.{object_create, create_referenced, Attempts}
use red_brick_apid.Object.Create.Invariant.{granted}
use red_brick_apid.Object.Create.Success.{object_create-Inv}
use red_brick_apid.Object.Create.Leak.{Dangles, object_create-Dangles}
use red_brick_apid.Session.{expire, SessionAttempts, create}
use red_brick_apid.Session.Begin.{CreateOutcome, create-CreateOutcome}
use red_brick_apid.Session.Expire.{Expired, expire-Expired}
use red_brick_apid.Tests.Sample.{list_lib, sample, sample-Inv, sample-IsFresh}

expire-Expired_example : Expired list_lib 100 [] (expire list_lib 100 sample)
expire-Expired_example = expire-Expired list_lib 100 [] sample sample-Inv (omega arith)

client_release-Protected_example :
    Protected list_lib 1 100 sample (client_release list_lib 1 100 sample)
client_release-Protected_example = client_release-Protected list_lib 1 100 sample (omega arith)

client_release-Inv_example :
    (r : ApiE × Store) × (client_release list_lib 2 100 sample ≡ some r) × Inv r.1 []
client_release-Inv_example = client_release-Inv list_lib 2 100 sample [] sample-Inv

abbrev acquired : Store
acquired = unlock 1 (lock 1 (add_internal_reference 1 sample))

remove_internal_reference-Settled_example :
    Settled acquired [] (remove_internal_reference list_lib 1 acquired)
remove_internal_reference-Settled_example =
    remove_internal_reference-Settled list_lib 1 [] acquired (
      unlock-Inv 1 [] (lock 1 (add_internal_reference 1 sample))
        (acquire_and_lock-Inv 1 [] sample sample-Inv (omega arith)))

abbrev all_good : Attempts
all_good = record { memory = true; append_failure = none }

abbrev no_room : Attempts
no_room = record { memory = true; append_failure = some enomem }

created_good : is_success (object_create list_lib 7 string (some 100) 7 all_good sample).0 ≡ true
unfolding object_create create_referenced add_internal_reference add_external_reference lock
    add_object get_next_object_id next_free_id place_object
created_good = refl

object_create-Inv_example :
    Inv (object_create list_lib 7 string (some 100) 7 all_good sample).1 (granted 7 true true [])
object_create-Inv_example =
    object_create-Inv list_lib 7 string (some 100) 7 all_good sample [] sample-Inv sample-IsFresh
      (omega arith) created_good

created_bad : is_success (object_create list_lib 7 string (some 100) 2 no_room sample).0 ≡ false
unfolding object_create create_referenced add_internal_reference add_external_reference lock
    add_object get_next_object_id next_free_id place_object get_error_code_from_errno
created_bad = refl

object_create-Dangles_example :
    Dangles 7 (object_create list_lib 7 string (some 100) 2 no_room sample).1
object_create-Dangles_example =
    object_create-Dangles list_lib 7 string 100 2 no_room sample [] sample-Inv sample-IsFresh refl
      refl refl created_bad

abbrev no_failure : SessionAttempts
no_failure = record {
  memory = true;
  timer_create_failure = none;
  timer_configure_failure = none;
  append_failure = none;
}

create-CreateOutcome_example :
    CreateOutcome list_lib 101 60 [] sample (create list_lib 101 60 no_failure sample)
create-CreateOutcome_example =
    create-CreateOutcome list_lib 101 60 [] sample sample-Inv refl (omega arith) no_failure
