-- ===== src/Memory.antt =====
-- The memory that the C code of src/redapid/string.c writes to: blocks from malloc and realloc, the
-- bytes of C strings, and the standard functions on them. An access outside a block is undefined.
use red_brick_apid.Base.{
  ℕ, zero, suc, ◌+◌, ◌-◌, ◌≤◌, ◌<◌, ◌≡◌, refl, ◌≢◌, ◌&&◌, Option, none, some, List, [], ◌∷◌, arith,
  ltb, leb, ◌==◌, if◌then◌else◌, length,
}

-- A block and the bytes in it; what `byte` says at or behind `size` is never read.
pub record Block : Type 0 where
  pub size : ℕ
  pub byte : ℕ → ℕ

-- What an allocation answers: nothing, or the indeterminate bytes of the new memory.
abbrev pub Allocation : Type 0
Allocation = Option (ℕ → ℕ)

unfoldable pub malloc : ℕ → Allocation → Option Block
malloc n none = none
malloc n (some fresh) = some (record { size = n; byte = fresh })

-- `realloc` keeps the bytes that both blocks have.
unfoldable pub realloc : Block → ℕ → Allocation → Option Block
realloc b n none = none
realloc b n (some fresh) =
    some (record { size = n; byte = λ i. if ltb i b.size then b.byte i else fresh i })

-- `b[i] = v`
unfoldable pub store : Block → ℕ → ℕ → Option Block
store b i v =
    if ltb i b.size then some (record b { byte = λ j. if j == i then v else b.byte j }) else none

-- `memcpy(b + offset, source, n)`
unfoldable pub memcpy : Block → ℕ → (ℕ → ℕ) → ℕ → Option Block
memcpy b offset source n =
    if leb (offset + n) b.size
    then some (record b {
      byte = λ j. if leb offset j && ltb j (offset + n) then source (j - offset) else b.byte j;
    })
    else none

-- `strnlen(source, max)`
unfoldable pub strnlen : (ℕ → ℕ) → ℕ → ℕ
strnlen source zero = 0
strnlen source (suc max) = if source 0 == 0 then 0 else suc (strnlen (λ i. source (suc i)) max)

-- The bytes of a terminated C string, given those in front of the terminator.
abbrev pub c_string : List ℕ → ℕ → ℕ
c_string [] i = 0
c_string (c ∷ text) zero = c
c_string (c ∷ text) (suc i) = c_string text i

-- `source` is a C string of length `n`: its first zero byte is at `n`.
abbrev pub IsTerminatedAt : (ℕ → ℕ) → ℕ → Type 0
IsTerminatedAt source n = ((i : ℕ) → i < n → source i ≢ 0) × (source n ≡ 0)

pub strnlen-le : (source : ℕ → ℕ) (max : ℕ) → strnlen source max ≤ max
unfolding strnlen
strnlen-le source zero = omega arith
strnlen-le source (suc max) = ground (arith, strnlen-le (λ i. source (suc i)) max)

-- No byte that `strnlen` counts is zero.
pub strnlen-ne-zero : (source : ℕ → ℕ) (max i : ℕ) → i < strnlen source max → source i ≢ 0
unfolding strnlen
strnlen-ne-zero source zero i h = absurd (omega arith)
strnlen-ne-zero source (suc max) zero h = ground arith
strnlen-ne-zero source (suc max) (suc i) h =
    ground (arith, strnlen-ne-zero (λ j. source (suc j)) max i)

-- A string that ends within the bound is measured whole.
pub strnlen-eq :
    (source : ℕ → ℕ) (n max : ℕ) → IsTerminatedAt source n → n ≤ max → strnlen source max ≡ n
unfolding strnlen
strnlen-eq source zero zero h le = refl
strnlen-eq source zero (suc max) h le = ground (arith, h.1)
strnlen-eq source (suc n) zero h le = absurd (omega arith)
strnlen-eq source (suc n) (suc max) h le = ground (
  arith,
  h.0 0,
  strnlen-eq (λ i. source (suc i)) n max ((λ i lt. h.0 (suc i) (omega arith)), h.1),
)

-- The bytes of a text without zeros, terminated.
abbrev pub NoZero : List ℕ → Type 0
NoZero [] = Unit {0}
NoZero (c ∷ text) = (c ≢ 0) × NoZero text

pub c_string-ne-zero : (text : List ℕ) (i : ℕ) → NoZero text → i < length text → c_string text i ≢ 0
c_string-ne-zero [] i h lt = absurd (omega arith)
c_string-ne-zero (c ∷ text) zero h lt = h.0
c_string-ne-zero (c ∷ text) (suc i) h lt = c_string-ne-zero text i h.1 (omega arith)

pub c_string-length : (text : List ℕ) → c_string text (length text) ≡ 0
c_string-length [] = refl
c_string-length (c ∷ text) = c_string-length text

pub c_string-IsTerminatedAt :
    (text : List ℕ) → NoZero text → IsTerminatedAt (c_string text) (length text)
c_string-IsTerminatedAt text h = ((λ i lt. c_string-ne-zero text i h lt), c_string-length text)
