-- ===== src/Strategy/Slice.antt =====
-- allocateSlice: the replicas of one slice lie on different segments.
use mooncake.Prelude.{
  ℕ, zero, suc, ◌≤◌, ◌≡◌, refl, ◌∙◌, String, false, some, List, [], ◌∷◌, nat_eq, string_eq,
  contains, ==_iff, arith, map, All, length, subst, inl, inr, Option-cases, ap₂, subst₂,
}
use mooncake.Prelude.Dict.{Dict}
use mooncake.Prelude.Distinct.{Distinct}
use mooncake.Types.{ReplicateConfig}
use mooncake.Allocator.{Engine, Memory, AllocatedBuffer}
use mooncake.Strategy.{Shuffle, Attempt, name_of, allocate_single_buffer, allocate_slice}
use mooncake.Strategy.Steps.{Shuffles, Named, Placed, allocate_single_buffer-Placed}

-- The segments that buffers lie on, as the allocators of `m` are named.
abbrev pub segments : {S : Type 0} → Memory S → List AllocatedBuffer → List String
segments m bs = map (λ (b : AllocatedBuffer). name_of m b.allocator) bs

-- At most `n` buffers of the size asked for, on segments that differ from one another and from `used`.
pub record IsSpread {S : Type 0} (m : Memory S) (n size : ℕ) (used : List String)
    (bs : List AllocatedBuffer) : Type 0 where
  pub few : length bs ≤ n
  pub sized : All (λ (b : AllocatedBuffer). b.size ≡ size) bs
  pub distinct : Distinct (segments m bs)
  pub unused : All (λ (s : String). contains used s ≡ false) (segments m bs)

pub segments_same :
    {S : Type 0} (m m' : Memory S) (bs : List AllocatedBuffer)
    → ((a : ℕ) → name_of m' a ≡ name_of m a)
    → segments m' bs ≡ segments m bs
segments_same m m' [] h = refl
segments_same m m' (b ∷ bs) h = ap₂ ◌∷◌ (h b.allocator) (segments_same m m' bs h)

fresh_name :
    (x : String) (used ss : List String)
    → All (λ (s : String). contains (x ∷ used) s ≡ false) ss
    → (contains ss x ≡ false) × All (λ (s : String). contains used s ≡ false) ss
fresh_name x used [] h = (refl, tt)
fresh_name x used (s ∷ ss) h =
    let (out, rest) = fresh_name x used ss h.1 in
    (ground (arith, h.0, ==_iff s x, ==_iff x s), (ground (arith, h.0), rest))

IsSpread-cons :
    {S : Type 0} (n size : ℕ) (used : List String) (m : Memory S) (b : AllocatedBuffer)
    (m' : Memory S) (bs : List AllocatedBuffer)
    → Placed m size used (some b) m'
    → IsSpread m' n size (name_of m' b.allocator ∷ used) bs
    → IsSpread m (suc n) size used (b ∷ bs)
IsSpread-cons n size used m b m' bs p r =
    let same = segments_same m m' bs p.2 in
    let apart = fresh_name (name_of m b.allocator) used (segments m bs) (
      subst₂
        (λ (ss : List String) (x : String). All (λ (s : String). contains (x ∷ used) s ≡ false) ss)
        same (p.2 b.allocator) r.unused) in
    record {
      few = omega (arith, r.few);
      sized = (p.0, r.sized);
      distinct = (apart.0, subst Distinct same r.distinct);
      unused = (p.1, apart.1);
    }

module _ {S : Type 0} (e : Engine S) (rng : Shuffle) (fair : Shuffles rng) (ids : List ℕ)
    (by_name : Dict String (List ℕ)) (config : ReplicateConfig) where
  -- If the shuffle brings up only what it is given, and the allocators listed under a name have
  -- that name: allocateSlice returns at most as many buffers as were asked for, all of the slice's
  -- size, on segments that differ from one another and from those used before.
  pub allocate_slice-IsSpread :
      (n : ℕ) (t : Attempt S) (size : ℕ) (used : List String)
      → Named t.memory by_name
      → IsSpread t.memory n size used (allocate_slice e rng ids by_name config n t size used).0
  unfolding allocate_slice
  allocate_slice-IsSpread zero t size used named = record {
    few = omega arith;
    sized = tt;
    distinct = tt;
    unused = tt;
  }
  allocate_slice-IsSpread (suc n) t size used named =
      let call = allocate_single_buffer e rng ids by_name config t size used in
      let placed = allocate_single_buffer-Placed e rng fair ids by_name config t size used named in
      elim (Option-cases (allocate_single_buffer e rng ids by_name config t size used).0) [
        | inl nothing ↦
            rw (nothing, allocate_slice)
              (record { few = omega arith; sized = tt; distinct = tt; unused = tt })
        | inr (b, got) ↦
            let t' = (allocate_single_buffer e rng ids by_name config t size used).1 in
            let p : Placed t.memory size used (some b) t'.memory = rw got at placed in
            rw (got, allocate_slice)
              (IsSpread-cons n size used t.memory b t'.memory _ p (
                allocate_slice-IsSpread n t' size (name_of t'.memory b.allocator ∷ used)
                  (λ k xs f a h. p.2 a ∙ named k xs f a h)))
      ]
