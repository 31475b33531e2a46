-- ===== src/Socat.antt =====
-- src/redapid/socat.c: the connection of a cron job, which sends the six bytes of one notification,
-- in as many pieces as the socket delivers. Sockets and the event loop belong to daemonlib.
use red_brick_apid.Base.{
  ℕ, Bool, true, false, Option, none, some, List, [], ◌∷◌, ◌++◌, arith, ltb, ◌==◌, if◌then◌else◌,
  ◌≡◌, refl, ◌<◌, length, length-append, Bool-cases, inl, inr, sym, ap, ◌∙◌,
}
use mathlib.Core.List.{append_assoc}

-- `notification` has the bytes received so far, `notification_used` is their number.
pub record Socat : Type 0 where
  pub disconnected : Bool
  pub notification : List ℕ

-- What `socket_receive` answers: at most the bytes that are still missing (none when the peer has
-- closed the connection), or an error.
pub data Received : Type 0 where
  received : List ℕ → Received
  interrupted would_block broken : Received

-- `sizeof(CronNotification)`
abbrev pub notification_size : ℕ
notification_size = 6

-- `socat_create`
abbrev pub socat_create : Socat
socat_create = record { disconnected = false; notification = [] }

-- `socat_handle_receive`: the notification that is handled, if it is complete.
unfoldable pub handle_receive : Received → Socat → Option (List ℕ) × Socat
handle_receive interrupted s = (none, s)
handle_receive would_block s = (none, s)
handle_receive broken s = (none, record s { disconnected = true })
handle_receive (received bytes) s =
    if length bytes == 0
    then (none, record s { disconnected = true })
    else let used = s.notification ++ bytes in
      if ltb (length used) notification_size
      then (none, record s { notification = used })
      else (some used, record { disconnected = true; notification = used })

abbrev pub and_then : Option (List ℕ) → List (List ℕ) → List (List ℕ)
and_then none later = later
and_then (some n) later = n ∷ later

-- The event loop calls the handler until the connection is marked as disconnected: the
-- notifications that are handled.
unfoldable pub receive_all : List Received → Socat → List (List ℕ)
receive_all [] s = []
receive_all (r ∷ rs) s =
    let (n, s') = handle_receive r s in
    let later = receive_all rs s' in if s.disconnected then [] else and_then n later

-- The bytes that are sent, when nothing fails for good.
abbrev pub bytes_of : List Received → List ℕ
bytes_of [] = []
bytes_of (received bytes ∷ rs) = bytes ++ bytes_of rs
bytes_of (interrupted ∷ rs) = bytes_of rs
bytes_of (would_block ∷ rs) = bytes_of rs
bytes_of (broken ∷ rs) = bytes_of rs

-- Pieces of at least one byte, and calls that are to be tried again.
abbrev pub IsDelivered : List Received → Type 0
IsDelivered [] = Unit {0}
IsDelivered (received bytes ∷ rs) = (0 < length bytes) × IsDelivered rs
IsDelivered (interrupted ∷ rs) = IsDelivered rs
IsDelivered (would_block ∷ rs) = IsDelivered rs
IsDelivered (broken ∷ rs) = ⊥

append_nil : (xs ys : List ℕ) → length (xs ++ ys) ≡ length xs → xs ++ ys ≡ xs
append_nil [] [] h = refl
append_nil [] (y ∷ ys) h = absurd (omega arith)
append_nil (x ∷ xs) ys h = ap (λ l. x ∷ l) (append_nil xs ys (omega arith))

receive_all-closed :
    (rs : List Received) (s : Socat) → s.disconnected ≡ true → receive_all rs s ≡ []
unfolding receive_all
receive_all-closed [] s h = refl
receive_all-closed (r ∷ rs) s h = rw h refl

-- The connection that has received `used`.
abbrev connected : List ℕ → Socat
connected used = record { disconnected = false; notification = used }

receive_all-rest :
    (rs : List Received) (used : List ℕ)
    → IsDelivered rs
    → length used < notification_size
    → length (used ++ bytes_of rs) ≡ notification_size
    → receive_all rs (connected used) ≡ (used ++ bytes_of rs) ∷ []
unfolding receive_all handle_receive
receive_all-rest [] used d short whole = absurd (omega (arith, whole, length-append used []))
receive_all-rest (interrupted ∷ rs) used d short whole = receive_all-rest rs used d short whole
receive_all-rest (would_block ∷ rs) used d short whole = receive_all-rest rs used d short whole
receive_all-rest (broken ∷ rs) used d short whole = absurd d
receive_all-rest (received bytes ∷ rs) used d short whole =
    let assoc = append_assoc used bytes (bytes_of rs) in
    let some_bytes : (length bytes == 0) ≡ false = ground (arith, d.0) in
    let total : length ((used ++ bytes) ++ bytes_of rs) ≡ notification_size =
      ap length assoc ∙ whole in
    elim (Bool-cases (ltb (length (used ++ bytes)) notification_size)) [
      | inl partial ↦
          rw (some_bytes, partial)
            (receive_all-rest rs (used ++ bytes) d.1 (ground arith) total ∙ ap (λ l. l ∷ []) assoc)
      | inr complete ↦
          let nothing_left : (used ++ bytes) ++ bytes_of rs ≡ used ++ bytes =
            append_nil (used ++ bytes) (bytes_of rs)
              (ground (arith, total, length-append (used ++ bytes) (bytes_of rs))) in
          let later =
            receive_all-closed rs (record { disconnected = true; notification = used ++ bytes })
              refl in
          rw (some_bytes, complete, later) (ap (λ l. l ∷ []) (sym nothing_left ∙ assoc))
    ]

-- However the six bytes of a notification are cut into pieces, and however often a receive has to
-- be tried again in between, exactly one notification is handled, and it has the bytes in their
-- order.
pub receive_all-delivered :
    (rs : List Received)
    → IsDelivered rs
    → length (bytes_of rs) ≡ notification_size
    → receive_all rs socat_create ≡ bytes_of rs ∷ []
receive_all-delivered rs d whole = receive_all-rest rs [] d (omega arith) whole
