-- ===== src/Store.antt =====
-- The state that src/redapid/inventory.c, src/redapid/object.c, src/redapid/session.c and
-- src/redapid/list.c share: the object and session cells at their addresses, the inventory's arrays
-- of addresses, and the external references.
pub mod Arrays
use Arrays.{tally, occurrences}
use red_brick_apid.Base.{
  ℕ, zero, suc, ◌+◌, ◌-◌, Bool, true, false, Option, none, some, List, [], ◌∷◌, ◌++◌, arith, ltb,
  ◌==◌, if◌then◌else◌, ◌≡◌, refl, ◌≤◌, ◌<◌,
}
use red_brick_apid.Types.{
  ObjectType, Object, String, string, list, file, directory, process, program,
}

-- What an object keeps of another: an internal reference, and mostly a lock. The destroy function
-- of each type gives its holds back: the items of a list, the name of a file.
pub record Hold : Type 0 where
  pub target : ℕ
  pub locked : Bool

-- The two intrusive lists that a reference stands in, its object's and its session's, are both
-- extended at the end only and left together: each is the part of `references` that names the
-- object or the session, in the order of `references`.
pub record ExternalReference : Type 0 where
  pub object : ℕ
  pub session : ℕ
  pub count : ℕ

-- `timer` is the time in microseconds that the expire timer was last started with.
pub record Session : Type 0 where
  pub id : ℕ
  pub external_reference_count : ℕ
  pub timer : Option ℕ

pub record Store : Type 0 where
  pub object : ℕ → Object
  pub holds : ℕ → List Hold
  pub text : ℕ → String
  pub session : ℕ → Session
  pub references : List ExternalReference
  pub objects : ObjectType → List ℕ
  pub sessions : List ℕ
  pub stock_strings : List ℕ
  pub next_object_id : ℕ
  pub next_session_id : ℕ

abbrev pub code : ObjectType → ℕ
code string = 0
code list = 1
code file = 2
code directory = 3
code process = 4
code program = 5

abbrev pub update {ℓ} : {A : Type ℓ} → (ℕ → A) → ℕ → A → ℕ → A
update f a v b = if b == a then v else f b

abbrev pub with_object : ℕ → (Object → Object) → Store → Store
with_object a f s = record s { object = update s.object a (f (s.object a)) }

abbrev pub with_session : ℕ → (Session → Session) → Store → Store
with_session a f s = record s { session = update s.session a (f (s.session a)) }

abbrev pub with_array : ObjectType → List ℕ → Store → Store
with_array t xs s = record s { objects = λ u. if code u == code t then xs else s.objects u }

-- The sum of a number over the objects of the inventory.
abbrev pub over_objects : (ℕ → ℕ) → Store → ℕ
over_objects f s =
    tally f (s.objects string)
    + tally f (s.objects list)
    + tally f (s.objects file)
    + tally f (s.objects directory)
    + tally f (s.objects process)
    + tally f (s.objects program)

-- How many objects the inventory has.
abbrev pub size : Store → ℕ
size = over_objects (λ a. 1)

pub over_objects-with_array :
    (f : ℕ → ℕ) (t : ObjectType) (xs : List ℕ) (s : Store)
    → over_objects f (with_array t xs s) + tally f (s.objects t) ≡ over_objects f s + tally f xs
over_objects-with_array f string xs s = omega arith
over_objects-with_array f list xs s = omega arith
over_objects-with_array f file xs s = omega arith
over_objects-with_array f directory xs s = omega arith
over_objects-with_array f process xs s = omega arith
over_objects-with_array f program xs s = omega arith

pub code-injective : (t u : ObjectType) → (code t == code u) ≡ true → t ≡ u
code-injective t u h = ground arith

-- An object is in the inventory at least as often as in one array.
pub occurrences-le-all :
    (b : ℕ) (u : ObjectType) (s : Store)
    → occurrences b (s.objects u) ≤ over_objects (λ c. if c == b then 1 else 0) s
occurrences-le-all b string s = omega arith
occurrences-le-all b list s = omega arith
occurrences-le-all b file s = omega arith
occurrences-le-all b directory s = omega arith
occurrences-le-all b process s = omega arith
occurrences-le-all b program s = omega arith
