-- ===== src/Sync/Framing.antt =====
-- The framing of src/sync.rs: what `from_bytes` and `receive_message` make of framed messages.
use baa_ls.Prelude.{
  ℕ, zero, suc, ◌+◌, ◌^◌, ◌<◌, ◌≤◌, ◌≡◌, ◌↔◌, refl, ◌∙◌, ap, some, [], ◌∷◌, ◌++◌, Bytes,
  to_le_bytes, from_le_bytes, from_le_bytes-to_le_bytes, length-to_le_bytes, length, take, drop,
  length-append, take-append, drop-append, ok, err, Outcome, returns, panics, blocks, arith, All,
}
use native.Mathlib.Nat.{pow-suc}
use mathlib.Core.List.{append_assoc}
use baa_ls.Types.{Codec}
use baa_ls.SledStorage.Laws.{RoundTrips}
use baa_ls.Sync.{
  SyncError, NetworkMessage, MessageFrame, from_bytes, message_bytes, receive_message,
}

module _ (k : Codec NetworkMessage) where
  -- what a message is framed to
  pub message_bytes-eq :
      (m : NetworkMessage) (encoded : Bytes)
      → k.serialize m ≡ some encoded
      → length encoded < 2 ^ 32
      → message_bytes k m ≡ ok (to_le_bytes 4 (length encoded) ++ encoded)
  unfolding message_bytes
  message_bytes-eq m encoded e fits = ground (arith, e)

  -- a buffer by its parts
  from_bytes_parts :
      (bytes payload : Bytes) (n : ℕ) (m : NetworkMessage)
      → n + 4 < 2 ^ 32
      → n + 4 ≤ length bytes
      → from_le_bytes (take 4 bytes) ≡ n
      → take n (drop 4 bytes) ≡ payload
      → k.deserialize payload ≡ some m
      → from_bytes k bytes ≡ returns (ok (record { length = n; message = m }))
  unfolding from_bytes
  from_bytes_parts bytes payload n m fits long claim cut decoded = ground (arith)

  -- A message that bincode reads back and whose frame is shorter than 2^32 bytes is framed, and
  -- from_bytes reads the frame back with any bytes behind it.
  pub from_bytes-message_bytes :
      (m : NetworkMessage) (trip : RoundTrips k m) (rest : Bytes)
      → length trip.encoded + 4 < 2 ^ 32
      → (bytes : Bytes) × (message_bytes k m ≡ ok bytes)
        × (from_bytes k (bytes ++ rest)
            ≡ returns (ok (record { length = length trip.encoded; message = m })))
  from_bytes-message_bytes m trip rest fits =
      let head = to_le_bytes 4 (length trip.encoded) in
      let size = length-to_le_bytes 4 (length trip.encoded) in
      (
        head ++ trip.encoded,
        message_bytes-eq m trip.encoded trip.serialize_lem (omega arith),
        rw (append_assoc head trip.encoded rest) (
            from_bytes_parts (head ++ (trip.encoded ++ rest)) trip.encoded (length trip.encoded) m
              fits
              (omega (
                arith,
                length-append head (trip.encoded ++ rest),
                length-append trip.encoded rest,
                size,
              ))
              (ap from_le_bytes (take-append 4 head (trip.encoded ++ rest) size)
                ∙ from_le_bytes-to_le_bytes 4 (length trip.encoded) (omega arith))
              (ap (take (length trip.encoded)) (drop-append 4 head (trip.encoded ++ rest) size)
                ∙ take-append (length trip.encoded) trip.encoded rest refl)
              trip.deserialize_lem),
      )

  -- The length that a buffer claims in its first four bytes.
  abbrev pub claimed_length : Bytes → ℕ
  claimed_length bytes = from_le_bytes (take 4 bytes)

  abbrev pub IsByte : ℕ → Type 0
  IsByte n = n < 256

  from_le_bytes-lt :
      (n : ℕ) (bytes : Bytes) → All IsByte bytes → length bytes ≤ n → from_le_bytes bytes < 256 ^ n
  unfolding from_le_bytes
  from_le_bytes-lt zero [] h l = omega arith
  from_le_bytes-lt zero (x ∷ bytes) h l = absurd (omega arith)
  from_le_bytes-lt (suc n) [] h l =
      omega (arith, from_le_bytes-lt n [] tt (omega arith), pow-suc 256 n)
  from_le_bytes-lt (suc n) (x ∷ bytes) h l =
      omega (arith, from_le_bytes-lt n bytes h.1 (omega arith), pow-suc 256 n)

  head-IsByte :
      (n : ℕ) (bytes : Bytes)
      → All IsByte bytes
      → All IsByte (take n bytes) × (length (take n bytes) ≤ n)
  head-IsByte zero bytes h = (tt, omega arith)
  head-IsByte (suc n) [] h = (tt, omega arith)
  head-IsByte (suc n) (x ∷ bytes) h =
      let (p, q) = head-IsByte n bytes h.1 in ((h.0, p), omega arith)

  claimed_length-lt : (bytes : Bytes) → All IsByte bytes → claimed_length bytes < 2 ^ 32
  claimed_length-lt bytes h =
      let (p, q) = head-IsByte 4 bytes h in from_le_bytes-lt 4 (take 4 bytes) p q

  panics_forward :
      (bytes : Bytes)
      → All IsByte bytes
      → from_bytes k bytes ≡ panics
      → (4 ≤ length bytes) × (2 ^ 32 ≤ claimed_length bytes + 4)
  unfolding from_bytes
  panics_forward bytes h e = ground (arith, claimed_length-lt bytes h)

  panics_back :
      (bytes : Bytes)
      → All IsByte bytes
      → (4 ≤ length bytes) × (2 ^ 32 ≤ claimed_length bytes + 4)
      → from_bytes k bytes ≡ panics
  unfolding from_bytes
  panics_back bytes h e = ground (arith, claimed_length-lt bytes h)

  -- From_bytes panics on a buffer of bytes exactly if the buffer has at least four bytes and they
  -- claim a length of 2^32 - 4 or more.
  pub from_bytes_panics_iff :
      (bytes : Bytes)
      → All IsByte bytes
      → (from_bytes k bytes ≡ panics) ↔ ((4 ≤ length bytes) × (2 ^ 32 ≤ claimed_length bytes + 4))
  from_bytes_panics_iff bytes h = (panics_forward bytes h, panics_back bytes h)

  -- the message of a parsed frame
  abbrev pub frame_message : Outcome SyncError MessageFrame → Outcome SyncError NetworkMessage
  frame_message (returns (ok frame)) = returns (ok frame.message)
  frame_message (returns (err e)) = returns (err e)
  frame_message panics = panics
  frame_message blocks = blocks

  receive_parts :
      (stream head payload rest : Bytes)
      → 4 ≤ length stream
      → take 4 stream ≡ head
      → drop 4 stream ≡ payload ++ rest
      → from_le_bytes head ≡ length payload
      → ((receive_message k stream).1 ≡ rest)
        × ((receive_message k stream).0 ≡ frame_message (from_bytes k payload))
  unfolding receive_message
  receive_parts stream head payload rest long cut left size = ground (
    arith,
    length-append payload rest,
    take-append (length payload) payload rest refl,
    drop-append (length payload) payload rest refl,
  )

  -- What `receive_message` makes of a message that `send_message` wrote: it takes the length off
  -- itself, and parses the message alone as if it were a frame.
  pub receive_message-message_bytes :
      (m : NetworkMessage) (encoded rest : Bytes)
      → k.serialize m ≡ some encoded
      → length encoded < 2 ^ 32
      → (bytes : Bytes) × (message_bytes k m ≡ ok bytes)
        × ((receive_message k (bytes ++ rest)).1 ≡ rest)
        × ((receive_message k (bytes ++ rest)).0 ≡ frame_message (from_bytes k encoded))
  receive_message-message_bytes m encoded rest e fits =
      let head = to_le_bytes 4 (length encoded) in
      let size = length-to_le_bytes 4 (length encoded) in
      (
        head ++ encoded,
        message_bytes-eq m encoded e fits,
        rw (append_assoc head encoded rest)
            (receive_parts (head ++ (encoded ++ rest)) head encoded rest
              (omega (arith, length-append head (encoded ++ rest), size))
              (take-append 4 head (encoded ++ rest) size)
              (drop-append 4 head (encoded ++ rest) size)
              (from_le_bytes-to_le_bytes 4 (length encoded) (omega arith))).0,
        rw (append_assoc head encoded rest)
            (receive_parts (head ++ (encoded ++ rest)) head encoded rest
              (omega (arith, length-append head (encoded ++ rest), size))
              (take-append 4 head (encoded ++ rest) size)
              (drop-append 4 head (encoded ++ rest) size)
              (from_le_bytes-to_le_bytes 4 (length encoded) (omega arith))).1,
      )
