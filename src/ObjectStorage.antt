-- ===== src/ObjectStorage.antt =====
-- mooncake-store/src/storage_backend.cpp: the StoreObject and LoadObject of StorageBackend, which keeps
-- each object in a file of its own. The files are the parameter `Disk`; the directories that ResolvePath
-- makes on the way belong to them.
pub mod Pieces
pub mod Loaded
use mooncake.Prelude.{
  ℕ, ◌+◌, String, Bool, true, false, none, some, List, [], ◌∷◌, ◌++◌, if◌then◌else◌, nat_beq,
  length, take, drop, is_empty,
}
use mooncake.Prelude.Spans.{concat}
use mooncake.Types.{Void, Expected, ok, err, file_open_fail, file_read_fail, file_write_fail}
use mooncake.Serializer.{Byte}
use mooncake.BucketStorage.{Disk}

-- A slice to read into: whether it has memory, and its size.
pub record Target : Type 0 where
  pub has_memory : Bool
  pub size : ℕ

-- The variables of LoadObject's loop; `loaded` is what has been read into the slices, in their order.
pub record Progress : Type 0 where
  pub current_offset : ℕ
  pub total_bytes_processed : ℕ
  pub iovs_chunk : List ℕ
  pub chunk_start_offset : ℕ
  pub chunk_length : ℕ
  pub loaded : List (List Byte)

-- What a vectored read puts into memory of these sizes.
unfoldable pub scatter : List ℕ → List Byte → List (List Byte)
scatter [] bytes = []
scatter (n ∷ sizes) bytes = take n bytes ∷ scatter sizes (drop n bytes)

abbrev pub start : Progress
start = record {
  current_offset = 0;
  total_bytes_processed = 0;
  iovs_chunk = [];
  chunk_start_offset = 0;
  chunk_length = 0;
  loaded = [];
}

-- The branch of the loop for a slice with memory.
abbrev pub add_to_chunk : ℕ → Progress → Progress
add_to_chunk n p = record p {
  chunk_start_offset = if is_empty p.iovs_chunk then p.current_offset else p.chunk_start_offset;
  iovs_chunk = p.iovs_chunk ++ n ∷ [];
  chunk_length = p.chunk_length + n;
  current_offset = p.current_offset + n;
}

-- The rest of the branch for a slice without.
abbrev pub pass_over : ℕ → Progress → Progress
pass_over n p = record p {
  total_bytes_processed = p.total_bytes_processed + n;
  current_offset = p.current_offset + n;
}

module _ {W : Type 0} (disk : Disk W) where
  -- StoreObject, of slices
  unfoldable pub store_slices : W → String → List (List Byte) → Expected Void × W
  store_slices w path slices =
      let (opened, w') = disk.open_write w path in
      let (written, w'') = disk.vector_write w' path slices in
      if opened
      then elim written [
        | err code ↦ (err code, w'')
        | ok n ↦
            if nat_beq n (length (concat slices)) then (ok tt, w'') else (err file_write_fail, w'')
      ]
      else (err file_open_fail, w')

  -- StoreObject, of a string
  unfoldable pub store_string : W → String → List Byte → Expected Void × W
  store_string w path str =
      let (opened, w') = disk.open_write w path in
      let (written, w'') = disk.write w' path str in
      if opened
      then elim written [
        | err code ↦ (err code, w'')
        | ok n ↦ if nat_beq n (length str) then (ok tt, w'') else (err file_write_fail, w'')
      ]
      else (err file_open_fail, w')

  -- process_chunk
  unfoldable pub process_chunk : W → String → Progress → Expected Progress
  unfolding scatter
  process_chunk w path p =
      if is_empty p.iovs_chunk
      then ok p
      else elim (disk.vector_read w path p.chunk_length p.chunk_start_offset) [
        | err code ↦ err code
        | ok bytes ↦
            if nat_beq (length bytes) p.chunk_length
            then ok (record p {
              total_bytes_processed = p.total_bytes_processed + p.chunk_length;
              iovs_chunk = [];
              chunk_length = 0;
              loaded = p.loaded ++ scatter p.iovs_chunk bytes;
            })
            else err file_read_fail
      ]

  -- LoadObject's loop, with the process_chunk behind it.
  unfoldable pub load_targets : W → String → List Target → Progress → Expected Progress
  unfolding process_chunk
  load_targets w path [] p = process_chunk w path p
  load_targets w path (t ∷ targets) p =
      let skipped : Expected Progress = elim (process_chunk w path p) [
        | err code ↦ err code
        | ok p' ↦ load_targets w path targets (pass_over t.size p')
      ] in
      let joined = load_targets w path targets (add_to_chunk t.size p) in
      if t.has_memory then joined else skipped

  -- LoadObject, into slices: what they then hold.
  unfoldable pub load_slices : W → String → List Target → ℕ → Expected (List (List Byte))
  unfolding load_targets
  load_slices w path targets total =
      if disk.open_read w path
      then elim (load_targets w path targets start) [
        | err code ↦ err code
        | ok p ↦ if nat_beq p.total_bytes_processed total then ok p.loaded else err file_read_fail
      ]
      else err file_open_fail

  -- LoadObject, into a string
  unfoldable pub load_string : W → String → ℕ → Expected (List Byte)
  load_string w path total =
      if disk.open_read w path
      then elim (disk.read w path total) [
        | err code ↦ err code
        | ok str ↦ if nat_beq (length str) total then ok str else err file_read_fail
      ]
      else err file_open_fail
