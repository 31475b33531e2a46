-- ===== src/StringObject/Creation/Text.antt =====
-- A new string object holds its text, terminated, and its creation stays in its buffer
-- (src/redapid/string.c).
use red_brick_apid.Base.{
  ℕ, ◌+◌, ◌-◌, ◌≤◌, ◌<◌, ◌≡◌, ◌≢◌, refl, Option, none, some, true, ◌&&◌, List, [], arith, ltb, leb,
  ◌==◌, if◌then◌else◌, ◌^◌, Bool-cases, inl, inr, ap, sym, ◌∙◌, subst, ==-refl,
}
use mathlib.Core.Option.{none-ne-some, some-injective}
use red_brick_apid.ApiError.{ApiE, is_success, success}
use red_brick_apid.Memory.{Allocation, malloc, memcpy, store}
use red_brick_apid.Types.{String, string}
use red_brick_apid.Store.Arrays.{ArrayLib}
use red_brick_apid.Store.{Store, Hold, update}
use red_brick_apid.Object.Invariant.{Inv}
use red_brick_apid.Object.Frame.{object_create-SameBodies}
use red_brick_apid.Object.Create.{object_create, has_flag, flag_internal, flag_locked}
use red_brick_apid.Object.Create.Invariant.{granted}
use red_brick_apid.Object.Create.Cell.{InNoArray, written-Inv, text-Inv, written-IsFresh}
use red_brick_apid.Object.Create.Success.{IsSession, object_create-Inv}
use red_brick_apid.StringObject.{Growth, returns, IsValid}
use red_brick_apid.StringObject.Creation.{
  StringAttempts, with_text, fill_text, create_buffer, create, filled,
}

-- The string is valid and its text is that of `source`.
pub record Holds (source : ℕ → ℕ) (n : ℕ) (t : String) : Type 0 where
  pub valid : IsValid t
  pub same_length : t.length ≡ n
  pub same_bytes : (i : ℕ) → i < n → t.buffer.byte i ≡ source i

fill_text-Holds :
    (t : String) (source : ℕ → ℕ) (n : ℕ)
    → n < t.buffer.size
    → t.buffer.size ≡ t.allocated
    → t.allocated ≤ 2 ^ 31
    → ((i : ℕ) → i < n → source i ≢ 0)
    → (t' : String) × (fill_text t source n ≡ returns success t') × Holds source n t'
unfolding fill_text memcpy store
fill_text-Holds t source n lt sized bounded nonzero =
    let t' : String = record t {
      buffer = record t.buffer {
        byte = λ j.
            if j == n
            then 0
            else (if leb 0 j && ltb j (0 + n) then source (j - 0) else t.buffer.byte j);
      };
      length = n;
    } in
    (
      t',
      ground arith,
      record {
        valid = record {
          sized = sized;
          fits = omega arith;
          bounded = bounded;
          nonzero = λ i p. let minus : i - 0 ≡ i = omega arith in ground (arith, minus, nonzero i);
          terminated = ground arith;
        };
        same_length = refl;
        same_bytes = λ i p. let minus : i - 0 ≡ i = omega arith in ground (arith, minus);
      },
    )

module _ (growth : Growth) (lib : ArrayLib ℕ) (a reserve : ℕ) (session : Option ℕ) (flags : ℕ)
    (attempts : StringAttempts) (s : Store) where
  -- The new buffer has room for `reserve` bytes and the terminator.
  record Roomy (t : String) : Type 0 where
    sized : t.buffer.size ≡ t.allocated
    room : reserve < t.allocated
    bounded : t.allocated ≤ 2 ^ 31

  record Created (result : ApiE × Store) : Type 0 where
    body : String
    roomy : Roomy body
    object : result ≡ object_create lib a string session flags attempts.create (with_text a body s)

  created :
      is_success (create growth lib a reserve none session flags attempts s).0 ≡ true
      → Created (create growth lib a reserve none session flags attempts s)
  unfolding create create_buffer malloc
  created ok = by_memory attempts.buffer refl
    where
      body : (ℕ → ℕ) → String
      body fresh = record {
        buffer = record { size = growth.grow (reserve + 1); byte = fresh };
        length = 0;
        allocated = growth.grow (reserve + 1);
      }

      by_memory :
          (m : Allocation)
          → attempts.buffer ≡ m
          → Created (create growth lib a reserve none session flags attempts s)
      by_memory none e = absurd (ground arith)
      by_memory (some fresh) e = record {
        body = body fresh;
        roomy = record {
          sized = refl;
          room = ground (arith, growth.le-grow (reserve + 1));
          bounded = ground (arith, growth.grow-le (reserve + 1));
        };
        object = ground arith;
      }

  -- The rest of the call, once the object is created.
  filled_good :
      (source : ℕ → ℕ) (n : ℕ)
      → n ≤ reserve
      → ((i : ℕ) → i < n → source i ≢ 0)
      → is_success (create growth lib a reserve none session flags attempts s).0 ≡ true
      → (t : String) × Holds source n t
        × (filled growth lib a source n (create growth lib a reserve none session flags attempts s)
            ≡ some (
              success,
              record (create growth lib a reserve none session flags attempts s).1 {
                text =
                    update (create growth lib a reserve none session flags attempts s).1.text a t;
              },
            ))
  unfolding filled
  filled_good source n le nonzero ok =
      let c = created ok in
      let (t, e, h) =
        fill_text-Holds c.body source n (omega (arith, c.roomy.room, c.roomy.sized)) c.roomy.sized
          c.roomy.bounded nonzero in
      let same =
        (object_create-SameBodies lib a string session flags attempts.create
          (with_text a c.body s)).same_text in
      let there : (create growth lib a reserve none session flags attempts s).1.text a ≡ c.body =
        ap (λ (r : ApiE × Store). r.1.text a) c.object
        ∙ (ap (λ (f : ℕ → String). f a) same ∙ ground arith) in
      (t, h, rw (ok, there, e))

  -- Creating a string object never writes outside its buffer.
  pub filled-ne-none :
      (source : ℕ → ℕ) (n : ℕ)
      → n ≤ reserve
      → ((i : ℕ) → i < n → source i ≢ 0)
      → filled growth lib a source n (create growth lib a reserve none session flags attempts s)
        ≢ none
  unfolding filled
  filled-ne-none source n le nonzero =
      elim (Bool-cases (is_success (create growth lib a reserve none session flags attempts s).0)) [
        | inl good ↦
            let (t, h, e) = filled_good source n le nonzero good in
            λ bad. none-ne-some _ (sym bad ∙ e)
        | inr bad ↦ rw bad (λ e. cc)
      ]

  module _ (pending : List Hold) (v : Inv s pending) (absent : InNoArray a s)
      (live : IsSession session s) where
    create_keeps :
        is_success (create growth lib a reserve none session flags attempts s).0 ≡ true
        → Inv
            (create growth lib a reserve none session flags attempts s).1
            (granted a (has_flag flags flag_internal) (has_flag flags flag_locked) pending)
    create_keeps ok =
        let c = created ok in
        let before : Store = with_text a c.body s in
        let good : is_success (object_create lib a string session flags attempts.create before).0
            ≡ true =
          ap (λ (r : ApiE × Store). is_success r.0) (sym c.object) ∙ ok in
        rw c.object (
          object_create-Inv lib a string session flags attempts.create before pending
            (written-Inv a [] (update s.text a c.body) s absent v)
            (written-IsFresh a (update s.text a c.body) s absent) (session_kept session c.body live)
            good)
      where
        session_kept :
            (x : Option ℕ) (body : String) → IsSession x s → IsSession x (with_text a body s)
        session_kept none body l = l
        session_kept (some x) body l = l

    -- A call that answers `success` has made a string object of the text.
    pub filled_made :
        (source : ℕ → ℕ) (n : ℕ) (s' : Store)
        → n ≤ reserve
        → ((i : ℕ) → i < n → source i ≢ 0)
        → filled growth lib a source n (create growth lib a reserve none session flags attempts s)
          ≡ some (success, s')
        → Holds source n (s'.text a)
          × Inv s' (granted a (has_flag flags flag_internal) (has_flag flags flag_locked) pending)
    unfolding filled
    filled_made source n s' le nonzero made =
        elim (Bool-cases
          (is_success (create growth lib a reserve none session flags attempts s).0)) [
            | inl good ↦
                let made_store : Store =
                  (create growth lib a reserve none session flags attempts s).1 in
                let (t, h, e) = filled_good source n le nonzero good in
                let path : some (success, record made_store { text = update made_store.text a t })
                    ≡ some (success, s') =
                  sym e ∙ made in
                let same : record made_store { text = update made_store.text a t } ≡ s' =
                  ap (λ (r : ApiE × Store). r.1) (some-injective _ _ path) in
                subst
                  (λ z.
                    Holds source n (z.text a)
                    × Inv z (
                        granted a (has_flag flags flag_internal) (has_flag flags flag_locked)
                          pending))
                  same
                  (
                    rw (==-refl a) h,
                    text-Inv (update made_store.text a t) made_store (create_keeps good),
                  )
            | inr bad ↦ absurd (ground arith)
          ]
