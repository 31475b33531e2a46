-- ===== src/FileObject/AsyncRead.antt =====
-- An asynchronous read delivers what was asked for (src/redapid/file.c).
use red_brick_apid.Base.{
  ℕ, zero, suc, ◌-◌, Bool, true, false, ◌||◌, List, [], ◌∷◌, ◌++◌, arith, ltb, ◌==◌, if◌then◌else◌,
  ◌≡◌, ◌≢◌, refl, ◌≤◌, ◌<◌, length, ap, sym, ◌∙◌, Bool-cases, inl, inr, ==→eq, append_assoc,
}
use red_brick_apid.FileObject.Bytes.{take, drop, length-take, take_nil, take_split}
use red_brick_apid.ApiError.{success}
use red_brick_apid.FileObject.{
  FileObject, ReadCallback, has_read, packet_success, PacketE, packet_unknown_error, int64_max,
  send_async_read_callback, length_to_read, stop_async_read, deliver, handle_async_read, read_async,
}

-- The bytes of the callbacks, in the order in which they were sent.
abbrev pub delivered : List ReadCallback → List ℕ
delivered [] = []
delivered (c ∷ callbacks) = delivered callbacks ++ c.buffer

-- A file with bytes that can be read: how many a read takes is up to the file, but at least one, if
-- there are any.
pub record Source : Type 0 where
  pub amount : ℕ → List ℕ → ℕ
  pub amount_asked : (asked : ℕ) (bytes : List ℕ) → amount asked bytes ≤ asked
  pub amount_there : (asked : ℕ) (bytes : List ℕ) → amount asked bytes ≤ length bytes
  pub amount_positive :
      (asked : ℕ) (bytes : List ℕ) → 0 < asked → 0 < length bytes → 0 < amount asked bytes

module _ (source : Source) where
  -- The event loop, for `events` events at most.
  unfoldable pub run : ℕ → FileObject → List ℕ → FileObject
  run zero f bytes = f
  run (suc events) f bytes =
      let k = source.amount (length_to_read f) bytes in
      let rest = run events (handle_async_read (has_read (take k bytes)) f) (drop k bytes) in
      if f.has_source then rest else f

  -- The read is over, and the first `n` of the bytes were delivered, or all of them.
  pub record Delivered (n : ℕ) (bytes : List ℕ) (f f' : FileObject) : Type 0 where
    pub is_over : f'.async_read_in_progress ≡ false
    pub has_no_source : f'.has_source ≡ false
    pub all_delivered : delivered f'.callbacks ≡ delivered f.callbacks ++ take n bytes

  run-idle :
      (events : ℕ) (f : FileObject) (bytes : List ℕ) → f.has_source ≡ false → run events f bytes ≡ f
  unfolding run
  run-idle zero f bytes idle = refl
  run-idle (suc events) f bytes idle = simp (run, idle) refl

  -- What one event does.
  abbrev last : FileObject → List ℕ → Bool
  last f bytes = length bytes == 0 || (f.length_to_read_async - length bytes) == 0

  pub record LastEvent (f : FileObject) (bytes : List ℕ) (f' : FileObject) : Type 0 where
    pub is_over : f'.async_read_in_progress ≡ false
    pub has_no_source : f'.has_source ≡ false
    pub one_more : delivered f'.callbacks ≡ delivered f.callbacks ++ bytes

  pub record GoesOn (f : FileObject) (bytes : List ℕ) (f' : FileObject) : Type 0 where
    pub still_reads : f'.async_read_in_progress ≡ true
    pub still_polled : f'.has_source ≡ true
    pub still_wanted : 0 < f'.external_reference_count
    pub less_left : f'.length_to_read_async ≡ f.length_to_read_async - length bytes
    pub one_more : delivered f'.callbacks ≡ delivered f.callbacks ++ bytes

  sent :
      (bytes : List ℕ) (f : FileObject)
      → 0 < f.external_reference_count
      → (send_async_read_callback success bytes f).callbacks
        ≡ record { error_code = success; buffer = bytes } ∷ f.callbacks
  unfolding send_async_read_callback
  sent bytes f wanted = ground arith

  last_event :
      (f : FileObject) (bytes : List ℕ)
      → 0 < f.external_reference_count
      → f.async_read_in_progress ≡ true
      → last f bytes ≡ true
      → LastEvent f bytes (handle_async_read (has_read bytes) f)
  unfolding handle_async_read deliver stop_async_read send_async_read_callback
  last_event f bytes wanted reads over =
      simp (handle_async_read, reads, deliver, over)
        (record {
          is_over = refl;
          has_no_source = refl;
          one_more = ap delivered (sent bytes (stop_async_read f) wanted);
        })

  next_event :
      (f : FileObject) (bytes : List ℕ)
      → 0 < f.external_reference_count
      → f.async_read_in_progress ≡ true
      → f.has_source ≡ true
      → last f bytes ≡ false
      → GoesOn f bytes (handle_async_read (has_read bytes) f)
  unfolding handle_async_read deliver send_async_read_callback
  next_event f bytes wanted reads polled more =
      simp (handle_async_read, reads, deliver, more)
        (record {
          still_reads = refl;
          still_polled = polled;
          still_wanted = wanted;
          less_left = refl;
          one_more = ap delivered (
              sent bytes (record f { length_to_read_async = f.length_to_read_async - length bytes })
                wanted);
        })

  -- A read takes part of what is left; when it takes nothing, there is nothing more to deliver.
  module _ (f : FileObject) (bytes : List ℕ) where
    taken : ℕ
    taken = source.amount (length_to_read f) bytes

    taken_left : taken ≤ f.length_to_read_async
    unfolding taken length_to_read
    taken_left = ground (arith, source.amount_asked (length_to_read f) bytes)

    taken_length : length (take taken bytes) ≡ taken
    unfolding taken
    taken_length = length-take _ bytes (source.amount_there (length_to_read f) bytes)

    nothing_taken : taken ≡ 0 → take f.length_to_read_async bytes ≡ []
    unfolding taken length_to_read
    nothing_taken none_taken = elim (Bool-cases (length bytes == 0)) [
      | inl empty ↦ no_bytes f.length_to_read_async bytes empty
      | inr some_bytes ↦ elim (Bool-cases (f.length_to_read_async == 0)) [
        | inl no_more ↦ ap (λ n. take n bytes) (==→eq f.length_to_read_async 0 no_more)
        | inr more ↦ absurd (
            omega (
              arith,
              source.amount_positive (length_to_read f) bytes (asks more) (positive _ some_bytes),
              none_taken,
            ))
      ]
    ]
      where
        positive : (n : ℕ) → (n == 0) ≡ false → 0 < n
        positive n h = ground arith

        asks : (f.length_to_read_async == 0) ≡ false → 0 < length_to_read f
        asks h = ground arith

        no_bytes : (n : ℕ) (xs : List ℕ) → (length xs == 0) ≡ true → take n xs ≡ []
        no_bytes n [] h = take_nil n
        no_bytes n (x ∷ xs) h = absurd (ground arith)

    split_taken :
        take f.length_to_read_async bytes
        ≡ take taken bytes ++ take (f.length_to_read_async - taken) (drop taken bytes)
    split_taken =
        ap (λ n. take n bytes) (omega (arith, taken_left))
        ∙ take_split taken (f.length_to_read_async - taken) bytes

    none_left :
        (taken == 0) ≡ false → last f (take taken bytes) ≡ true → f.length_to_read_async ≡ taken
    none_left some_taken over = ground (arith, taken_length, taken_left)

    less_than :
        (events : ℕ)
        → f.length_to_read_async < suc events
        → last f (take taken bytes) ≡ false
        → f.length_to_read_async - length (take taken bytes) < events
    less_than events enough more = ground (arith, taken_length, taken_left)

    all_taken :
        last f (take taken bytes) ≡ true → take f.length_to_read_async bytes ≡ take taken bytes
    all_taken over = elim (Bool-cases (taken == 0)) [
      | inl none_taken ↦
          nothing_taken (==→eq taken 0 none_taken)
          ∙ sym (ap (λ n. take n bytes) (==→eq taken 0 none_taken))
      | inr some_taken ↦ ap (λ n. take n bytes) (none_left some_taken over)
    ]

  -- After the last event nothing happens any more.
  ended :
      (events : ℕ) (f f' : FileObject) (bytes more : List ℕ)
      → LastEvent f (take (taken f bytes) bytes) f'
      → last f (take (taken f bytes) bytes) ≡ true
      → Delivered f.length_to_read_async bytes f (run events f' more)
  ended events f f' bytes more e over = rw (run-idle events f' more e.has_no_source) (record {
    is_over = e.is_over;
    has_no_source = e.has_no_source;
    all_delivered =
        e.one_more ∙ ap (λ w. delivered f.callbacks ++ w) (sym (all_taken f bytes over));
  })

  continued :
      (f f' f'' : FileObject) (bytes : List ℕ)
      → GoesOn f (take (taken f bytes) bytes) f'
      → Delivered f'.length_to_read_async (drop (taken f bytes) bytes) f' f''
      → Delivered f.length_to_read_async bytes f f''
  continued f f' f'' bytes g rest = record {
    is_over = rest.is_over;
    has_no_source = rest.has_no_source;
    all_delivered =
        let d = take (taken f bytes) bytes in
        let more = drop (taken f bytes) bytes in
        let left : f'.length_to_read_async ≡ f.length_to_read_async - taken f bytes =
          g.less_left ∙ ap (λ n. f.length_to_read_async - n) (taken_length f bytes) in
        rest.all_delivered
        ∙ ap (λ w. w ++ take f'.length_to_read_async more) g.one_more
        ∙ append_assoc (delivered f.callbacks) d (take f'.length_to_read_async more)
        ∙ ap (λ n. delivered f.callbacks ++ (d ++ take n more)) left
        ∙ ap (λ w. delivered f.callbacks ++ w) (sym (split_taken f bytes));
  }

  run-Delivered :
      (events : ℕ) (f : FileObject) (bytes : List ℕ)
      → f.async_read_in_progress ≡ true
      → f.has_source ≡ true
      → 0 < f.external_reference_count
      → f.length_to_read_async < events
      → Delivered f.length_to_read_async bytes f (run events f bytes)
  unfolding run taken
  run-Delivered zero f bytes reads polled wanted enough = absurd (omega (arith, enough))
  run-Delivered (suc events) f bytes reads polled wanted enough =
      let d = take (taken f bytes) bytes in
      let f' = handle_async_read (has_read d) f in
      elim (Bool-cases (last f d)) [
        | inl over ↦
            simp (run, polled)
              (ended events f f' bytes (drop (taken f bytes) bytes)
                (last_event f d wanted reads over) over)
        | inr more ↦
            let g = next_event f d wanted reads polled more in
            simp (run, polled)
              (continued f f' _ bytes g (
                run-Delivered events f' (drop (taken f bytes) bytes) g.still_reads g.still_polled
                  g.still_wanted (rw g.less_left (less_than f bytes events enough more))))
      ]

  -- On a file that clients refer to and that is not being read, for a source whose reads take at
  -- least one byte as long as there are any, a `file_read_async` of n bytes, at most INT64_MAX,
  -- that could add its event source succeeds, and within n + 1 events the callbacks have delivered
  -- the first n of the bytes, or all of them when there are fewer, in order and nothing else; then
  -- the read is over and the event source is gone.
  pub read_async-Delivered :
      (n events : ℕ) (f : FileObject) (bytes : List ℕ)
      → n ≤ int64_max
      → f.async_read_in_progress ≡ false
      → 0 < f.external_reference_count
      → n < events
      → ((read_async n true f).0 ≡ packet_success)
        × Delivered n bytes f (run events (read_async n true f).1 bytes)
  unfolding read_async
  read_async-Delivered n events f bytes small idle wanted enough =
      let fits : ltb int64_max n ≡ false = ground arith in
      let started : FileObject = record f {
        async_read_in_progress = true;
        length_to_read_async = n;
        has_source = true;
      } in
      let d = run-Delivered events started bytes refl refl wanted enough in
      simp (read_async, fits, idle)
        (
          refl,
          record {
            is_over = d.is_over;
            has_no_source = d.has_no_source;
            all_delivered = d.all_delivered;
          },
        )

-- Calls of `file_read_async`, one after the other: how many bytes each asks for, and whether it
-- could add an event source.
unfoldable pub read_all : List (ℕ × Bool) → FileObject → List PacketE × FileObject
read_all [] f = ([], f)
read_all ((n, added) ∷ calls) f =
    let (error, f') = read_async n added f in
    let (errors, f'') = read_all calls f' in (error ∷ errors, f'')

abbrev pub AllRefused : List PacketE → Type 0
AllRefused [] = Unit {0}
AllRefused (error ∷ errors) = (error ≢ packet_success) × AllRefused errors

-- A read is in progress, but no event source will end it.
pub record Hangs (f : FileObject) : Type 0 where
  pub in_progress : f.async_read_in_progress ≡ true
  pub no_source : f.has_source ≡ false

read_async-Hangs :
    (n : ℕ) (added : Bool) (f : FileObject)
    → Hangs f
    → ((read_async n added f).0 ≢ packet_success) × Hangs (read_async n added f).1
unfolding read_async send_async_read_callback
read_async-Hangs n added f stuck = elim (Bool-cases (ltb int64_max n)) [
  | inl large ↦
      simp (read_async, large)
        (λ e. cc, record { in_progress = stuck.in_progress; no_source = stuck.no_source })
  | inr small ↦
      simp (read_async, small, stuck.in_progress)
        (λ e. cc, record { in_progress = refl; no_source = stuck.no_source })
]

read_all-Hangs :
    (calls : List (ℕ × Bool)) (f : FileObject)
    → Hangs f
    → AllRefused (read_all calls f).0 × Hangs (read_all calls f).1
unfolding read_all
read_all-Hangs [] f stuck = (tt, stuck)
read_all-Hangs ((n, added) ∷ calls) f stuck =
    let (refused, still) = read_async-Hangs n added f stuck in
    let (others, end) = read_all-Hangs calls (read_async n added f).1 still in
    ((refused, others), end)

-- When `file_read_async` cannot add its event source, on a file that is not being read and has no
-- event source, for a length of at most INT64_MAX, it answers an error, and a read is in progress
-- without an event source; every `file_read_async` of any sequence of further ones is refused as
-- well, whether or not it could add one, and leaves it so.
pub read_async-stuck :
    (n : ℕ) (calls : List (ℕ × Bool)) (f : FileObject)
    → n ≤ int64_max
    → f.async_read_in_progress ≡ false
    → f.has_source ≡ false
    → ((read_async n false f).0 ≡ packet_unknown_error)
      × Hangs (read_async n false f).1
      × AllRefused (read_all calls (read_async n false f).1).0
      × Hangs (read_all calls (read_async n false f).1).1
unfolding read_async send_async_read_callback
read_async-stuck n calls f small idle none_there =
    let stuck : Hangs (read_async n false f).1 = record {
      in_progress = ground arith;
      no_source = ground arith;
    } in
    let (refused, still) = read_all-Hangs calls _ stuck in (ground arith, stuck, refused, still)
