-- ===== src/Types/Serde.antt =====
-- The serde implementations of src/types.rs on bincode's format.
use baa_ls.Prelude.{
  ℕ, ◌^◌, ◌<◌, ◌≡◌, ◌≢◌, sym, ap, ◌∙◌, ltb, if◌then◌else◌, none, some, ◌++◌, Bytes, length,
  length-append, take, drop, take-append, drop-append, take-drop, length-take, length-drop,
  to_le_bytes, length-to_le_bytes, arith,
}
use mathlib.Core.List.{append_assoc}
use baa_ls.Types.{PublicKey, TransactionSignature, Crypto}
use baa_ls.Types.Keys.{
  SerdeFormat, from_bytes, serialize_key, deserialize_key, serialize_signature,
  deserialize_signature,
}

-- What bincode 1.3 documents: bytes and vectors are written with a length of eight bytes before
-- them, and arrays without one.
pub record IsBincode (format : SerdeFormat) : Type 0 where
  pub serialize_bytes_lem :
      (x : Bytes)
      → length x < 2 ^ 64
      → format.serialize_bytes x ≡ some (to_le_bytes 8 (length x) ++ x)
  pub deserialize_array_lem :
      (n : ℕ) (input : Bytes)
      → format.deserialize_array n input
        ≡ (if ltb (length input) n then none else some (take n input, drop n input))
  pub deserialize_vec_lem :
      (x rest : Bytes)
      → length x < 2 ^ 64
      → format.deserialize_vec (to_le_bytes 8 (length x) ++ (x ++ rest)) ≡ some (x, rest)

module _ (format : SerdeFormat) (bincode : IsBincode format) where
  -- A 64-byte signature is serialized, and deserialized with any bytes behind it.
  pub deserialize_signature-serialize_signature :
      (signature : TransactionSignature) (rest : Bytes)
      → length signature.bytes ≡ 64
      → (encoded : Bytes) × (serialize_signature format signature ≡ some encoded)
        × (deserialize_signature format (encoded ++ rest) ≡ some (signature, rest))
  unfolding serialize_signature deserialize_signature
  deserialize_signature-serialize_signature signature rest size =
      let head = to_le_bytes 8 (length signature.bytes) in
      (
        head ++ signature.bytes,
        bincode.serialize_bytes_lem signature.bytes (omega (arith, size)),
        rw (append_assoc head signature.bytes rest) (
            ground (arith, bincode.deserialize_vec_lem signature.bytes rest (omega (arith, size)))),
      )

  -- The 32 bytes that stand where the key is read: the length, and the key without its last eight.
  abbrev pub shifted : PublicKey → Bytes
  shifted key = to_le_bytes 8 32 ++ take 24 key.bytes

  shifted_length : (key : PublicKey) → length key.bytes ≡ 32 → length (shifted key) ≡ 32
  shifted_length key size = omega (
    arith,
    length-append (to_le_bytes 8 32) (take 24 key.bytes),
    length-to_le_bytes 8 32,
    length-take 24 key.bytes (omega arith),
  )

  -- what was written, cut where the array ends
  cut_at_32 :
      (key : PublicKey) (rest : Bytes)
      → to_le_bytes 8 32 ++ (key.bytes ++ rest) ≡ shifted key ++ (drop 24 key.bytes ++ rest)
  cut_at_32 key rest =
      ap (λ (x : Bytes). to_le_bytes 8 32 ++ x)
        (ap (λ (x : Bytes). x ++ rest) (sym (take-drop 24 key.bytes))
          ∙ append_assoc (take 24 key.bytes) (drop 24 key.bytes) rest)
      ∙ sym (append_assoc (to_le_bytes 8 32) (take 24 key.bytes) (drop 24 key.bytes ++ rest))

  reads_shifted :
      (key : PublicKey) (rest : Bytes)
      → length key.bytes ≡ 32
      → format.deserialize_array 32 (shifted key ++ (drop 24 key.bytes ++ rest))
        ≡ some (shifted key, drop 24 key.bytes ++ rest)
  reads_shifted key rest size =
      bincode.deserialize_array_lem 32 (shifted key ++ (drop 24 key.bytes ++ rest))
      ∙ rw
          (
            take-append 32 (shifted key) (drop 24 key.bytes ++ rest) (shifted_length key size),
            drop-append 32 (shifted key) (drop 24 key.bytes ++ rest) (shifted_length key size),
          )
          (ground (
            arith,
            shifted_length key size,
            length-append (shifted key) (drop 24 key.bytes ++ rest),
          ))

  -- On bincode's format, a 32-byte public key is serialized, and deserializing it takes the length
  -- and the first 24 bytes for the key: it ends in an error or in the key of those bytes, with the
  -- other eight bytes left over, and never in the key itself with nothing left over but what
  -- followed.
  pub deserialize_key-serialize_key :
      (c : Crypto) (key : PublicKey) (rest : Bytes)
      → length key.bytes ≡ 32
      → (encoded : Bytes) × (serialize_key format key ≡ some encoded)
        × (deserialize_key format c (encoded ++ rest) ≡ (
            if c.is_verifying_key (shifted key)
            then some (record { bytes = shifted key }, drop 24 key.bytes ++ rest)
            else none))
        × (deserialize_key format c (encoded ++ rest) ≢ some (key, rest))
  unfolding serialize_key deserialize_key from_bytes
  deserialize_key-serialize_key c key rest size = (
    to_le_bytes 8 32 ++ key.bytes,
    ground (arith, bincode.serialize_bytes_lem key.bytes (omega (arith, size))),
    rw (append_assoc (to_le_bytes 8 32) key.bytes rest, cut_at_32 key rest)
        (ground (arith, reads_shifted key rest size)),
    rw (append_assoc (to_le_bytes 8 32) key.bytes rest, cut_at_32 key rest)
        (λ e. left_over (ground (arith, reads_shifted key rest size))),
  )
    where
      left_over : drop 24 key.bytes ++ rest ≡ rest → ⊥
      left_over e = omega (
        arith,
        ap (length {A = ℕ}) e,
        length-append (drop 24 key.bytes) rest,
        length-drop 24 key.bytes,
      )
