-- ===== src/Strategy/Names.antt =====
-- Neither allocation nor destruction renames an allocator.
use mooncake.Prelude.{
  ℕ, zero, suc, ◌+◌, ◌-◌, ◌%◌, ◌≡◌, refl, ◌∙◌, String, Bool, some, List, [], ◌∷◌, nat_eq, inl, inr,
  Option-cases, Bool-cases,
}
use mooncake.Prelude.Dict.{Dict, find}
use mooncake.Prelude.Int.{pos, ◌-ℤ◌}
use mooncake.Types.{ReplicateConfig, u64_mod}
use mooncake.Allocator.{Engine, Memory, AllocatedBuffer, deallocate, destroy_buffer}
use mooncake.Replica.{destroy_buffers}
use mooncake.Strategy.{
  Shuffle, Attempt, name_of, allocate_single_buffer, allocate_slice, destroy_rows,
}
use mooncake.Strategy.Steps.{Shuffles, Named, Placed, allocate_single_buffer-Placed, put_names}

abbrev pub SameNames : {S : Type 0} → Memory S → Memory S → Type 0
SameNames m m' = (a : ℕ) → name_of m' a ≡ name_of m a

module _ {S : Type 0} (e : Engine S) where
  deallocate-SameNames : (m : Memory S) (b : AllocatedBuffer) → SameNames m (deallocate e m b)
  unfolding deallocate
  deallocate-SameNames m b a = elim (Option-cases (find b.allocator m.heap)) [
    | inl f ↦ rw (f, deallocate) refl
    | inr (al, f) ↦ elim (Option-cases (e.release al.engine b.buffer_ptr)) [
      | inl g ↦ rw (f, g, deallocate) refl
      | inr (s, g) ↦
          rw (f, g, deallocate)
            (put_names m b.allocator al
              (record al { cur_size = (al.cur_size + u64_mod - b.size) % u64_mod; engine = s }) a
              (m.allocated_mem_size -ℤ pos b.size) f refl)
    ]
  ]

  module _ (alive : ℕ → Bool) where
    destroy_buffer-SameNames :
        (m : Memory S) (b : AllocatedBuffer) → SameNames m (destroy_buffer e alive m b)
    unfolding destroy_buffer
    destroy_buffer-SameNames m b a = elim (Bool-cases (alive b.allocator)) [
      | inl h ↦ rw h (deallocate-SameNames m b a)
      | inr h ↦ rw h refl
    ]

    pub destroy_buffers-SameNames :
        (m : Memory S) (bs : List AllocatedBuffer) → SameNames m (destroy_buffers e alive m bs)
    unfolding destroy_buffers
    destroy_buffers-SameNames m [] a = refl
    destroy_buffers-SameNames m (b ∷ bs) a =
        destroy_buffers-SameNames (destroy_buffer e alive m b) bs a ∙ destroy_buffer-SameNames m b a

module _ {S : Type 0} (e : Engine S) (rng : Shuffle) (fair : Shuffles rng) (ids : List ℕ)
    (by_name : Dict String (List ℕ)) (config : ReplicateConfig) where
  pub destroy_rows-SameNames :
      (alive : ℕ → Bool) (t : Attempt S) (rows : List (List AllocatedBuffer))
      → SameNames t.memory (destroy_rows e rng ids by_name config alive t rows).memory
  unfolding destroy_rows
  destroy_rows-SameNames alive t [] a = refl
  destroy_rows-SameNames alive t (row ∷ rows) a =
      destroy_rows-SameNames alive (record t { memory = destroy_buffers e alive t.memory row }) rows
        a
      ∙ destroy_buffers-SameNames e alive t.memory row a

  pub allocate_slice-SameNames :
      (n : ℕ) (t : Attempt S) (size : ℕ) (used : List String)
      → Named t.memory by_name
      → SameNames t.memory (allocate_slice e rng ids by_name config n t size used).1.memory
  unfolding allocate_slice
  allocate_slice-SameNames zero t size used named a = refl
  allocate_slice-SameNames (suc n) t size used named a =
      let placed = allocate_single_buffer-Placed e rng fair ids by_name config t size used named in
      elim (Option-cases (allocate_single_buffer e rng ids by_name config t size used).0) [
        | inl nothing ↦
            let p : (allocate_single_buffer e rng ids by_name config t size used).1.memory
                ≡ t.memory =
              rw nothing at placed in
            rw (nothing, allocate_slice, p) refl
        | inr (b, got) ↦
            let t' = (allocate_single_buffer e rng ids by_name config t size used).1 in
            let p : Placed t.memory size used (some b) t'.memory = rw got at placed in
            rw (got, allocate_slice)
              (allocate_slice-SameNames n t' size (name_of t'.memory b.allocator ∷ used)
                  (λ k xs f x h. p.2 x ∙ named k xs f x h) a
                ∙ p.2 a)
      ]
