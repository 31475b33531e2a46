-- ===== src/Acquire/Cleanup.antt =====
-- The cleanup of a call that fails gives back all that the call holds, and the counts are right
-- afterwards (the phases of src/redapid/process.c and of the other files).
use red_brick_apid.Base.{ℕ, ◌+◌, Bool, Option, none, some, List, ◌∷◌, ◌++◌, arith, ◌≡◌, refl, ◌≢◌}
use red_brick_apid.ApiError.{ApiE, success}
use red_brick_apid.Types.{Object}
use red_brick_apid.Store.Arrays.{ArrayLib}
use red_brick_apid.Store.{Store, Hold, size}
use red_brick_apid.Object.{give_back, remove_internal_reference}
use red_brick_apid.Object.Invariant.{Inv}
use red_brick_apid.Object.Cascade.{Settled, give_back-Settled, remove_internal_reference-Settled}
use red_brick_apid.Acquire.{Answer, Lookup, fail, after_lookup}
use red_brick_apid.Acquire.Getters.{Acquired, missing, acquired}

module _ (lib : ArrayLib ℕ) (pending : List Hold) where
  pub give_back_all-Settled :
      (holds : List Hold) (s : Store)
      → Inv s (holds ++ pending)
      → Settled s pending (give_back (remove_internal_reference lib) holds s)
  give_back_all-Settled holds s v =
      give_back-Settled (size s + 1) (remove_internal_reference lib) holds pending s
        (λ a p s' lt w. remove_internal_reference-Settled lib a p s' w) (omega arith) v

  module _ {A : Type 0} where
    -- The call has failed, and holds nothing.
    pub record Refused (answer : Answer A) : Type 0 where
      pub error : ApiE
      pub result : Option A
      pub after : Store
      pub returned : answer ≡ some (error, result, after)
      pub is_error : error ≢ success
      pub inv : Inv after pending

    pub fail-Refused :
        (result : Option A) (error : ApiE) (holds : List Hold) (s : Store)
        → error ≢ success
        → Inv s (holds ++ pending)
        → Refused (fail lib result error holds s)
    unfolding fail
    fail-Refused result error holds s ne v =
        let d = give_back_all-Settled holds s v in
        record {
          error = error;
          result = result;
          after = d.after;
          returned = rw (fail, d.returned) refl;
          is_error = ne;
          inv = d.inv;
        }

    -- A call goes on with the object that it has looked up, or fails.
    pub after_lookup-elim :
        (P : Answer A → Type 0)
        → ((r : Answer A) → Refused r → P r)
        → (locked : Bool) (holds : List Hold) (next : ℕ → List Hold → Store → Answer A) (s : Store)
        → Inv s (holds ++ pending)
        → ((a : ℕ) (object : ℕ → Object)
            → Inv
                (record s { object = object })
                (record { target = a; locked = locked } ∷ holds ++ pending)
            → P (
                next a
                  (record { target = a; locked = locked } ∷ holds)
                  (record s { object = object })))
        → (r : Lookup) → Acquired locked (holds ++ pending) s r
        → P (after_lookup lib locked holds next r)
    after_lookup-elim P refused locked holds next s v on_found r (missing error ne) =
        refused _ (fail-Refused none error holds s ne v)
    after_lookup-elim P refused locked holds next s v on_found r (acquired a object v') =
        on_found a object v'
