-- ===== src/Fixtures/Format.antt =====
-- A format that writes lengths of eight bytes, and a bincode that writes keys through it.
use baa_ls.Prelude.{
  ℕ, ◌^◌, ◌<◌, ◌≡◌, refl, Option, none, some, ◌++◌, Bytes, length, length-append, take, drop,
  take-append, drop-append, ltb, if◌then◌else◌, to_le_bytes, from_le_bytes, length-to_le_bytes,
  from_le_bytes-to_le_bytes, arith,
}
use baa_ls.Types.{Bincode}
use baa_ls.Types.Keys.{SerdeFormat, serialize_key}
use baa_ls.Types.Serde.{IsBincode}
use baa_ls.Ledger.BatchKeys.{WritesKeys}
use baa_ls.Fixtures.Codecs.{toy_bincode}

abbrev read_array : ℕ → Bytes → Option (Bytes × Bytes)
read_array n input = if ltb (length input) n then none else some (take n input, drop n input)

abbrev pub toy_format : SerdeFormat
toy_format = record {
  serialize_bytes = λ x. some (to_le_bytes 8 (length x) ++ x);
  deserialize_array = read_array;
  deserialize_vec = λ input. read_array (from_le_bytes (take 8 input)) (drop 8 input);
}

reads_vec :
    (x rest : Bytes)
    → length x < 2 ^ 64
    → toy_format.deserialize_vec (to_le_bytes 8 (length x) ++ (x ++ rest)) ≡ some (x, rest)
reads_vec x rest small =
    rw
      (
        take-append 8 (to_le_bytes 8 (length x)) (x ++ rest) (length-to_le_bytes 8 (length x)),
        drop-append 8 (to_le_bytes 8 (length x)) (x ++ rest) (length-to_le_bytes 8 (length x)),
        from_le_bytes-to_le_bytes 8 (length x) (omega arith),
      )
      (reads_array x rest)
  where
    reads_array : (x rest : Bytes) → read_array (length x) (x ++ rest) ≡ some (x, rest)
    reads_array x rest =
        rw (take-append (length x) x rest refl, drop-append (length x) x rest refl)
          (ground (arith, length-append x rest))

pub toy_format-IsBincode : IsBincode toy_format
toy_format-IsBincode = record {
  serialize_bytes_lem = λ x small. refl;
  deserialize_array_lem = λ n input. refl;
  deserialize_vec_lem = reads_vec;
}

abbrev pub keyed_bincode : Bincode
keyed_bincode = record toy_bincode {
  key_codec = record { serialize = serialize_key toy_format; deserialize = λ bytes. none };
  text_codec = record { serialize = toy_format.serialize_bytes; deserialize = λ bytes. none };
}

pub keyed-WritesKeys : WritesKeys keyed_bincode toy_format
keyed-WritesKeys = record { key_lem = λ key. refl; text_lem = λ text. refl }
