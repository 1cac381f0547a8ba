-- ===== src/Types.antt =====
-- mooncake-store/include/types.h and the ReplicateConfig of replica.h: error codes, identifiers,
-- segments and constants. `tl::expected<T, ErrorCode>` is `Expected T`.
use mooncake.Prelude.{
  ℕ, ◌-◌, ◌^◌, String, ◌≡◌, refl, ◌⊎◌, inl, inr, Bool, true, false, ◌&&◌, ◌↔◌, arith, HasEq,
  nat_beq,
}

-- `OK` is `ok_code`: it is the success value of the functions that return a bare ErrorCode.
pub data ErrorCode : Type 0 where
  ok_code internal_error buffer_overflow shard_index_out_of_range segment_not_found : ErrorCode
  segment_already_exists no_available_handle invalid_version invalid_key write_fail : ErrorCode
  invalid_params invalid_write invalid_read invalid_replica replica_is_not_ready : ErrorCode
  object_not_found object_already_exists object_has_lease lease_expired transfer_fail : ErrorCode
  rpc_fail etcd_operation_error etcd_key_not_exist etcd_transaction_fail : ErrorCode
  etcd_ctx_cancelled unavailable_in_current_status unavailable_in_current_mode : ErrorCode
  file_not_found file_open_fail file_read_fail file_write_fail file_invalid_buffer : ErrorCode
  file_lock_fail file_invalid_handle bucket_not_found bucket_already_exists : ErrorCode
  keys_ultra_bucket_limit unable_offload : ErrorCode

pub data Expected {ℓ} (A : Type ℓ) : Type ℓ where
  ok : A → Expected A
  err : ErrorCode → Expected A

-- The `void` of `tl::expected<void, ErrorCode>`.
abbrev pub Void : Type 0
Void = Unit

abbrev pub is_ok : ErrorCode → Bool
is_ok ok_code = true
is_ok _ = false

pub Expected-cases {ℓ} :
    {A : Type ℓ} (r : Expected A) → ((a : A) × (r ≡ ok a)) ⊎ ((code : ErrorCode) × (r ≡ err code))
Expected-cases (ok a) = inl (a, refl)
Expected-cases (err code) = inr (code, refl)

pub record Uuid : Type 0 where
  pub first : ℕ
  pub second : ℕ

abbrev pub uuid_beq : Uuid → Uuid → Bool
uuid_beq a b = nat_beq a.first b.first && nat_beq a.second b.second

pub uuid_beq_iff : (a b : Uuid) → (uuid_beq a b ≡ true) ↔ (a ≡ b)
uuid_beq_iff a b = ground arith

instance abbrev pub uuid_eq : HasEq Uuid
uuid_eq = record { same = uuid_beq; same_iff = uuid_beq_iff }

pub record Segment : Type 0 where
  pub id : Uuid
  pub name : String
  pub base : ℕ
  pub size : ℕ
  pub te_endpoint : String

-- A piece of memory: where it begins and how many bytes it has.
pub record Slice : Type 0 where
  pub ptr : ℕ
  pub size : ℕ

pub data ClientStatus : Type 0 where
  undefined ok_client need_remount : ClientStatus

pub data BufferAllocatorType : Type 0 where
  cachelib offset : BufferAllocatorType

pub record ReplicateConfig : Type 0 where
  pub replica_num : ℕ
  pub with_soft_pin : Bool
  pub preferred_segment : String
  pub prefer_alloc_in_same_node : Bool

-- 2 ^ 64: `size_t` and `uint64_t` wrap at it.
abbrev pub u64_mod : ℕ
u64_mod = 2 ^ 64

-- facebook::cachelib::Slab::kSize and Slab::kMinAllocSize.
abbrev pub slab_size : ℕ
slab_size = 2 ^ 24

abbrev pub min_slice_size : ℕ
min_slice_size = 2 ^ 6

-- kMaxSliceSize
abbrev pub max_slice_size : ℕ
max_slice_size = slab_size - 16
