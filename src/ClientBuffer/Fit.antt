-- ===== src/ClientBuffer/Fit.antt =====
-- The slices that a client allocates for a replica fill as much of its buffer as the replica has bytes.
use mooncake.Prelude.{
  ℕ, ◌+◌, ◌-◌, ◌%◌, ◌<◌, ◌≡◌, refl, ◌∙◌, sym, ap, some, List, [], ◌∷◌, ◌++◌, map, arith, subst,
  subst₂,
}
use mooncake.Types.{Slice, u64_mod}
use mooncake.Allocator.{BufferDescriptor}
use mooncake.Replica.{
  DescriptorVariant, memory_descriptor, disk_descriptor, ReplicaDescriptor, ReplicaStatus,
}
use mooncake.ClientBuffer.{BufferHandle, sum_sizes, calculate_total_size, place, allocate_slices}
use mooncake.ClientBuffer.Cut.{Tiles, cut_whole}

abbrev pub sum : List BufferDescriptor → ℕ
sum [] = 0
sum (b ∷ bs) = b.size + sum bs

-- The bytes of a replica, with no bound on the sum.
abbrev pub bytes_of : ReplicaDescriptor → ℕ
bytes_of r = elim r.variant [ memory_descriptor bs ↦ sum bs | disk_descriptor path size ↦ size ]

-- The sizes of the slices that a memory replica asks for: those of its buffers, in their order.
abbrev pub sizes : List BufferDescriptor → List ℕ
sizes bs = map (λ (b : BufferDescriptor). b.size) bs

sum_sizes_exact :
    (bs : List BufferDescriptor) (n : ℕ) → n + sum bs < u64_mod → sum_sizes bs n ≡ n + sum bs
unfolding sum_sizes
sum_sizes_exact [] n h = omega arith
sum_sizes_exact (b ∷ bs) n h =
    let small : (n + b.size) % u64_mod ≡ n + b.size = omega arith in
    rw (small) (sum_sizes_exact bs (n + b.size) (omega arith) ∙ omega arith)

place-Tiles :
    (bs : List BufferDescriptor) (base offset : ℕ)
    → offset + sum bs < u64_mod
    → Tiles (base + offset) (sum bs) (place bs base offset)
      × (map (λ (s : Slice). s.size) (place bs base offset) ≡ sizes bs)
unfolding place
place-Tiles [] base offset h = (refl, refl)
place-Tiles (b ∷ bs) base offset h =
    let small : (offset + b.size) % u64_mod ≡ offset + b.size = omega arith in
    let (tiles, same) = place-Tiles bs base (offset + b.size) (omega arith) in
    let at : base + (offset + b.size) ≡ base + offset + b.size = omega arith in
    let left : sum bs ≡ b.size + sum bs - b.size = omega arith in
    rw (small) (
      (
        refl,
        omega arith,
        subst₂ (λ p t. Tiles p t (place bs base (offset + b.size))) at left tiles,
      ),
      ap (◌∷◌ b.size) same,
    )

abbrev descriptor : DescriptorVariant → ReplicaStatus → ReplicaDescriptor
descriptor v status = record { variant = v; status = status }

total_of_variant :
    (v : DescriptorVariant) (status : ReplicaStatus)
    → bytes_of (descriptor v status) < u64_mod
    → calculate_total_size (descriptor v status) ≡ bytes_of (descriptor v status)
unfolding calculate_total_size
total_of_variant (memory_descriptor bs) status h = sum_sizes_exact bs 0 (omega arith) ∙ omega arith
total_of_variant (disk_descriptor path size) status h = refl

pub calculate_total_size_exact :
    (r : ReplicaDescriptor) → bytes_of r < u64_mod → calculate_total_size r ≡ bytes_of r
calculate_total_size_exact r h = total_of_variant r.variant r.status h

slices_of_variant :
    (v : DescriptorVariant) (status : ReplicaStatus) (slices : List Slice) (handle : BufferHandle)
    → bytes_of (descriptor v status) < u64_mod
    → (added : List Slice) × (allocate_slices slices (descriptor v status) handle
        ≡ some (slices ++ added))
      × Tiles handle.ptr (bytes_of (descriptor v status)) added
unfolding allocate_slices
slices_of_variant (memory_descriptor bs) status slices handle h =
    let (tiles, same) = place-Tiles bs handle.ptr 0 (omega arith) in
    let at : handle.ptr + 0 ≡ handle.ptr = omega arith in
    (place bs handle.ptr 0, refl, subst (λ p. Tiles p (sum bs) (place bs handle.ptr 0)) at tiles)
slices_of_variant (disk_descriptor path size) status slices handle h =
    let (added, e, w) = cut_whole handle.ptr size in (added, rw (e, allocate_slices) refl, w.tiles)

-- If the bytes of a replica are fewer than 2 ^ 64: allocateSlices keeps the slices that it is given
-- and appends new ones, which tile as many bytes of the buffer as calculate_total_size counts, and
-- these are the bytes of the replica.
pub allocate_slices-Tiles :
    (slices : List Slice) (r : ReplicaDescriptor) (handle : BufferHandle)
    → bytes_of r < u64_mod
    → (added : List Slice) × (allocate_slices slices r handle ≡ some (slices ++ added))
      × Tiles handle.ptr (calculate_total_size r) added
      × (calculate_total_size r ≡ bytes_of r)
allocate_slices-Tiles slices r handle h =
    let (added, e, tiles) = slices_of_variant r.variant r.status slices handle h in
    let total = calculate_total_size_exact r h in
    (added, e, subst (λ n. Tiles handle.ptr n added) (sym total) tiles, total)
