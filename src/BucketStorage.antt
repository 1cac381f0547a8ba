-- ===== src/BucketStorage.antt =====
-- mooncake-store/include/storage_backend.h and src/storage_backend.cpp: BucketStorageBackend, which
-- writes batches of objects to bucket files and keeps an index of them. The files, the encoding of a
-- bucket's metadata (struct_pb) and the conversions of numbers to text are a parameter, `Disk W` over
-- a state `W`. A slice to be stored stands for its bytes; what is read into the slice of a key is
-- listed with the key. Sizes and offsets do not wrap: overflow of an int64_t is undefined in C++.
pub mod Build
pub mod Offload
pub mod Load
pub mod Scan
pub mod Recover
pub mod Layout
pub mod Located
pub mod Index
pub mod Files
pub mod Requests
pub mod RoundTrip
pub mod Pages
pub mod Restored
use mooncake.Prelude.{
  ℕ, ◌+◌, String, Bool, true, false, Option, none, some, List, [], ◌∷◌, if◌then◌else◌, HasEq, ◌↔◌,
  ◌≡◌, nat_beq, arith,
}
use mooncake.Prelude.Int.{ℤ, pos, negsuc}
use mooncake.Prelude.Dict.{Dict}
use mooncake.Types.{ErrorCode, Expected}
use mooncake.Serializer.{Byte}

pub record StorageObjectMetadata : Type 0 where
  pub bucket_id : ℤ
  pub offset : ℕ
  pub key_size : ℕ
  pub data_size : ℕ

pub record BucketObjectMetadata : Type 0 where
  pub offset : ℕ
  pub key_size : ℕ
  pub data_size : ℕ

-- BucketMetadata without meta_size: the fields that YLT_REFL names, which are those stored.
pub record BucketContents : Type 0 where
  pub data_size : ℕ
  pub object_metadata : Dict String BucketObjectMetadata
  pub keys : List String

pub record BucketMetadata : Type 0 where
  pub meta_size : ℕ
  pub contents : BucketContents

pub record OffloadMetadata : Type 0 where
  pub total_keys : ℕ
  pub total_size : ℕ

-- A regular file, as recursive_directory_iterator finds it.
pub record DirectoryEntry : Type 0 where
  pub stem : String
  pub extension : String

-- `open_write` creates and truncates; `vector_write` writes the pieces at the beginning of the file.
-- `none` is an exception, of std::filesystem, of std::stoll or of from_pb, and `remove` answers false
-- for one.
pub record Disk (W : Type 0) : Type 1 where
  pub open_write : W → String → Bool × W
  pub vector_write : W → String → List (List Byte) → Expected ℕ × W
  pub write : W → String → List Byte → Expected ℕ × W
  pub open_read : W → String → Bool
  pub file_size : W → String → Option ℕ
  pub read : W → String → ℕ → Expected (List Byte)
  pub vector_read : W → String → ℕ → ℕ → Expected (List Byte)
  pub remove : W → String → Bool × W
  pub directory : W → String → Option (List DirectoryEntry)
  pub to_pb : BucketContents → List Byte
  pub from_pb : List Byte → Option BucketContents
  pub to_string : ℤ → String
  pub stoll : String → Option ℤ
  pub bytes_of : String → List Byte
  pub time_gen : W → ℕ

-- `buckets` is a std::map, in the order of its keys. `current_id` is that of the BucketIdGenerator.
pub record BucketStorage : Type 0 where
  pub initialized : Bool
  pub current_id : Option ℤ
  pub storage_path : String
  pub total_size : ℕ
  pub object_bucket_map : Dict String StorageObjectMetadata
  pub buckets : Dict ℤ BucketMetadata

abbrev pub int_beq : ℤ → ℤ → Bool
int_beq (pos a) (pos b) = nat_beq a b
int_beq (negsuc a) (negsuc b) = nat_beq a b
int_beq _ _ = false

pub int_beq_iff : (a b : ℤ) → (int_beq a b ≡ true) ↔ (a ≡ b)
int_beq_iff (pos a) (pos b) = ground arith
int_beq_iff (pos a) (negsuc b) = ground arith
int_beq_iff (negsuc a) (pos b) = ground arith
int_beq_iff (negsuc a) (negsuc b) = ground arith

instance abbrev pub int_eq : HasEq ℤ
int_eq = record { same = int_beq; same_iff = int_beq_iff }
