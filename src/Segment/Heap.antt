-- ===== src/Segment/Heap.antt =====
-- Operations on buffers change the memory of a SegmentManager and leave it well formed.
use mooncake.Prelude.{
  ℕ, ◌+◌, ◌%◌, ◌≡◌, refl, sym, ◌∙◌, String, Bool, Option, some, List, [], ◌∷◌, nat_eq, arith,
  ==_iff, inl, inr, Option-cases, Bool-cases, ◌-◌,
}
use mooncake.Prelude.Dict.{find, find-put, and_then}
use mooncake.Types.{u64_mod}
use mooncake.Allocator.{
  Engine, Memory, BufferAllocator, AllocatedBuffer, deallocate, destroy_buffer,
}
use mooncake.Replica.{Replica, buffers, destroy_buffers, destroy_replicas}
use mooncake.Segment.{SegmentManager}
use mooncake.Segment.Invariant.{IsWellFormed}

abbrev pub name_at : {S : Type 0} → Memory S → ℕ → Option String
name_at m a = and_then (find a m.heap) (λ (al : BufferAllocator _). some al.segment_name)

-- The same allocators exist, under the same names.
abbrev pub SameHeap : {S : Type 0} → Memory S → Memory S → Type 0
SameHeap m m' = (a : ℕ) → name_at m' a ≡ name_at m a

module _ {S : Type 0} (e : Engine S) (live : ℕ → Bool) where
  deallocate-SameHeap : (m : Memory S) (b : AllocatedBuffer) → SameHeap m (deallocate e m b)
  unfolding deallocate
  deallocate-SameHeap m b a = elim (Option-cases (find b.allocator m.heap)) [
    | inl f ↦ rw (f, deallocate) refl
    | inr (al, f) ↦ elim (Option-cases (e.release al.engine b.buffer_ptr)) [
      | inl g ↦ rw (f, deallocate, g) refl
      | inr (s, g) ↦
          rw (f, deallocate, g)
            (ground (
              arith,
              f,
              ==_iff b.allocator a,
              find-put b.allocator a
                  (record al { cur_size = (al.cur_size + u64_mod - b.size) % u64_mod; engine = s })
                  m.heap,
            ))
    ]
  ]

  destroy_buffer-SameHeap :
      (m : Memory S) (b : AllocatedBuffer) → SameHeap m (destroy_buffer e live m b)
  unfolding destroy_buffer
  destroy_buffer-SameHeap m b a = elim (Bool-cases (live b.allocator)) [
    | inl h ↦ rw h (deallocate-SameHeap m b a)
    | inr h ↦ rw h refl
  ]

  pub destroy_buffers-SameHeap :
      (m : Memory S) (bs : List AllocatedBuffer) → SameHeap m (destroy_buffers e live m bs)
  unfolding destroy_buffers
  destroy_buffers-SameHeap m [] a = refl
  destroy_buffers-SameHeap m (b ∷ bs) a =
      destroy_buffers-SameHeap (destroy_buffer e live m b) bs a ∙ destroy_buffer-SameHeap m b a

  pub destroy_replicas-SameHeap :
      (m : Memory S) (rs : List Replica) → SameHeap m (destroy_replicas e live m rs)
  unfolding destroy_replicas
  destroy_replicas-SameHeap m [] a = refl
  destroy_replicas-SameHeap m (r ∷ rs) a =
      destroy_replicas-SameHeap (destroy_buffers e live m (buffers r)) rs a
      ∙ destroy_buffers-SameHeap m (buffers r) a

-- An allocator that exists in one memory exists in the other, with its name.
SameHeap-find :
    {S : Type 0} (m m' : Memory S) (a : ℕ) (al : BufferAllocator S)
    → name_at m' a ≡ name_at m a
    → find a m.heap ≡ some al
    → (al' : BufferAllocator S) × (find a m'.heap ≡ some al') × (al'.segment_name ≡ al.segment_name)
SameHeap-find m m' a al same f = elim (Option-cases (find a m'.heap)) [
  | inl e ↦ cc (rw (e, f) at same)
  | inr (al', e) ↦
      (al', e, (let q : some al'.segment_name ≡ some al.segment_name = rw (e, f) at same in cc))
]

-- A manager stays well formed when its memory changes in this way.
pub SameHeap-IsWellFormed :
    {S : Type 0} (sm : SegmentManager S) (mem : Memory S)
    → SameHeap sm.memory mem
    → IsWellFormed sm
    → IsWellFormed (record sm { memory = mem })
SameHeap-IsWellFormed sm mem same w = record {
  names_map = w.names_map;
  mounted_map = w.mounted_map;
  distinct = w.distinct;
  names_distinct = w.names_distinct;
  names_nonempty = w.names_nonempty;
  names_listed = w.names_listed;
  names_agree = λ n a al h f.
      let (x, g, p) = SameHeap-find mem sm.memory a al (sym (same a)) f in
      sym p ∙ w.names_agree n a x h g;
  fresh = w.fresh;
  in_heap = λ a h.
      let (al, f) = w.in_heap a h in
      let (x, g, p) = SameHeap-find sm.memory mem a al (same a) f in (x, g);
  attached = w.attached;
  holding = λ id ms a f h.
      let at = w.holding id ms a f h in
      let (x, g, p) = SameHeap-find sm.memory mem a at.allocator (same a) at.in_heap in
      record {
        status = at.status;
        listed = at.listed;
        named = at.named;
        allocator = x;
        in_heap = g;
        name = p ∙ at.name;
      };
  unshared = w.unshared;
  owned = w.owned;
  capacity = w.capacity;
}
