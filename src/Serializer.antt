-- ===== src/Serializer.antt =====
-- mooncake-store/include/serializer.h: an object is written twice, to count its bytes and to copy
-- them, and is read back from a buffer that it must use up. What a class writes and reads is its own
-- code: its `serialize_to` is the list of the calls that it makes, its `deserialize_from` a tree of
-- reads, in which what comes next may depend on the bytes read.
pub mod Written
pub mod RoundTrip
use mooncake.Prelude.{
  ℕ, ◌+◌, ◌%◌, String, Bool, true, false, not, Option, none, some, List, [], ◌∷◌, ◌++◌,
  if◌then◌else◌, ltb, leb, nat_beq, length, take, drop, replicate,
}
use mooncake.Types.{ErrorCode, ok_code, invalid_params, internal_error, u64_mod}

-- SerializedByte, a number below 256.
abbrev pub Byte : Type 0
Byte = ℕ

-- `write none` is a write from a null pointer; the size of a write is the length of its data.
pub data Output : Type 0 where
  write : Option (List Byte) → Output
  set_error : String → Output

-- `null` is `return nullptr`, `throw` an exception of the class's own.
pub data Reads (A : Type 0) : Type 0 where
  read : ℕ → (List Byte → Reads A) → Reads A
  done : A → Reads A
  null : Reads A
  throw : Reads A

pub record SizeCounter : Type 0 where
  pub size : ℕ
  pub error : Option String

pub record Writer : Type 0 where
  pub buffer : List Byte
  pub offset : ℕ
  pub error : Option String

pub record Reader : Type 0 where
  pub buffer : List Byte
  pub offset : ℕ

pub data Outcome (A : Type 0) : Type 0 where
  threw : Outcome A
  returned : Option A → Reader → Outcome A

-- SerializeSizeCounter::write
unfoldable pub count_write : SizeCounter → Option (List Byte) → SizeCounter
count_write c source = elim c.error [
  | some e ↦ c
  | none ↦ elim source [
    | none ↦ record c { error = some "data is nullptr" }
    | some bytes ↦ record c { size = (c.size + length bytes) % u64_mod }
  ]
]

unfoldable pub count_output : List Output → SizeCounter → SizeCounter
unfolding count_write
count_output [] c = c
count_output (write source ∷ os) c = count_output os (count_write c source)
count_output (set_error e ∷ os) c = count_output os (record c { error = some e })

-- std::memcpy(buffer + offset, data, data_size)
abbrev pub copy_at : ℕ → List Byte → List Byte → List Byte
copy_at offset bytes buffer = take offset buffer ++ bytes ++ drop (offset + length bytes) buffer

-- SerializeWriter::write
unfoldable pub write_bytes : Writer → Option (List Byte) → Writer
write_bytes w source = elim w.error [
  | some e ↦ w
  | none ↦ elim source [
    | none ↦ record w { error = some "null_pointer_data" }
    | some bytes ↦
        if ltb (length w.buffer) ((length bytes + w.offset) % u64_mod)
        then record w { error = some "buffer_overflow" }
        else record w {
          buffer = copy_at w.offset bytes w.buffer;
          offset = (w.offset + length bytes) % u64_mod;
        }
  ]
]

unfoldable pub write_output : List Output → Writer → Writer
unfolding write_bytes
write_output [] w = w
write_output (write source ∷ os) w = write_output os (write_bytes w source)
write_output (set_error e ∷ os) w = write_output os (record w { error = some e })

-- SerializeWriter::finish_write
abbrev pub finish_write : Writer → Bool
finish_write w = leb (length w.buffer) w.offset

-- The end of serialize_to_internal, with its verdict on the writer.
unfoldable pub settle_write : Writer → ErrorCode × List Byte
settle_write w = elim w.error [
  | some e ↦ (internal_error, w.buffer)
  | none ↦ if finish_write w then (ok_code, w.buffer) else (internal_error, w.buffer)
]

abbrev pub new_writer : ℕ → Writer
new_writer size = record { buffer = replicate size 0; offset = 0; error = none }

-- serialize_to_internal: the code, and the out-parameter `buffer`. `none` is a null target.
unfoldable pub serialize_to : Option (List Output) → List Byte → ErrorCode × List Byte
unfolding count_output write_output settle_write
serialize_to none buffer = (invalid_params, buffer)
serialize_to (some outputs) buffer =
    let counter = count_output outputs (record { size = 0; error = none }) in
    elim counter.error [
      | some e ↦ (internal_error, buffer)
      | none ↦ settle_write (write_output outputs (new_writer counter.size))
    ]

-- SerializerReader::read; `none` is the exception.
unfoldable pub read_bytes : Reader → ℕ → Option (List Byte × Reader)
read_bytes r size =
    if ltb (length r.buffer) ((r.offset + size) % u64_mod)
    then none
    else some
        (take size (drop r.offset r.buffer), record r { offset = (r.offset + size) % u64_mod })

unfoldable pub run_reads : {A : Type 0} → Reads A → Reader → Outcome A
unfolding read_bytes
run_reads (read size next) r = elim (read_bytes r size) [
  | none ↦ threw
  | some (bytes, r') ↦ run_reads (next bytes) r'
]
run_reads (done a) r = returned (some a) r
run_reads null r = returned none r
run_reads throw r = threw

-- SerializerReader::finish_read
abbrev pub finish_read : Reader → Bool
finish_read r = nat_beq r.offset (length r.buffer)

-- What deserialize_from makes of it; `none` is the null pointer.
unfoldable pub accept : {A : Type 0} → Outcome A → Option A
accept threw = none
accept (returned none r) = none
accept (returned (some a) r) = if finish_read r then some a else none

-- deserialize_from
unfoldable pub deserialize_from : {A : Type 0} → Reads A → List Byte → Option A
unfolding run_reads accept
deserialize_from reads buffer = accept (run_reads reads (record { buffer = buffer; offset = 0 }))
