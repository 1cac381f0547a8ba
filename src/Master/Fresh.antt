-- ===== src/Master/Fresh.antt =====
-- Objects with no stale replica: what the accessor returns, and what it finds unchanged.
use mathlib.Core.Path.{fun_ext}
use mooncake.Prelude.{
  ℕ, ◌≡◌, refl, sym, ◌∙◌, subst, String, Bool, false, not, some, List, [], ◌∷◌, any, keep_if,
  is_empty, arith, inl, inr, Bool-cases, Option-cases, string_eq, ==_refl,
}
use mooncake.Replica.{Replica, has_invalid_mem_handle}
use mooncake.Metadata.{ObjectMetadata, clean, is_stale}
use mooncake.Master.{Env, Master, alive, object, store, access}
use mooncake.Master.View.{
  HasShards, access_found, access-SameService, object-store, store-SameService, HasShards-after,
}

-- Every handle of the object is live, and it has a replica.
pub record IsFresh (live : ℕ → Bool) (o : ObjectMetadata) : Type 0 where
  pub no_stale : any (has_invalid_mem_handle live) o.replicas ≡ false
  pub some_left : is_empty o.replicas ≡ false

module _ (p : Replica → Bool) where
  any-keep_if-not : (rs : List Replica) → any p (keep_if (λ (r : Replica). not (p r)) rs) ≡ false
  any-keep_if-not [] = refl
  any-keep_if-not (r ∷ rs) = ground (arith, any-keep_if-not rs)

  keep_if_all :
      (rs : List Replica) → any p rs ≡ false → keep_if (λ (r : Replica). not (p r)) rs ≡ rs
  keep_if_all [] h = refl
  keep_if_all (r ∷ rs) h = ground (arith, keep_if_all rs)

module _ (live : ℕ → Bool) (o : ObjectMetadata) where
  pub clean-IsFresh : is_stale live o ≡ false → IsFresh live (clean live o)
  clean-IsFresh h = record {
    no_stale = any-keep_if-not (has_invalid_mem_handle live) o.replicas;
    some_left = h;
  }

  pub clean_fresh : IsFresh live o → clean live o ≡ o
  clean_fresh f = let e = keep_if_all (has_invalid_mem_handle live) o.replicas f.no_stale in cc (e)

  pub is_stale_fresh : IsFresh live o → is_stale live o ≡ false
  is_stale_fresh f =
      rw (keep_if_all (has_invalid_mem_handle live) o.replicas f.no_stale) f.some_left

module _ {S : Type 0} (env : Env S) where
  -- What the accessor returns is fresh.
  pub access-IsFresh :
      (m : Master S) (key : String) (o : ObjectMetadata)
      → (access env m key).0 ≡ some o
      → IsFresh (alive m) o
  access-IsFresh m key o h = elim (Option-cases (object env m key)) [
    | inl e ↦ cc ((rw e at (access_found env m key)))
    | inr (x, e) ↦ elim (Bool-cases (is_stale (alive m) x)) [
      | inl s ↦ cc (sym h ∙ (rw (e, s) at (access_found env m key)))
      | inr s ↦
          let q : some o ≡ some (clean (alive m) x) =
            sym h ∙ (rw (e, s) at (access_found env m key)) in
          let eq : clean (alive m) x ≡ o = cc in
          subst (IsFresh (alive m)) eq (clean-IsFresh (alive m) x s)
    ]
  ]

  -- A fresh object is found as it is.
  pub access_fresh :
      (m : Master S) (key : String) (o : ObjectMetadata)
      → object env m key ≡ some o
      → IsFresh (alive m) o
      → (access env m key).0 ≡ some o
  access_fresh m key o e f =
      rw (access_found env m key, e, is_stale_fresh (alive m) o f, clean_fresh (alive m) o f) refl

  -- An object that is stored with live replicas is found again.
  pub access-store :
      (m : Master S) (key : String) (o : ObjectMetadata)
      → HasShards m
      → IsFresh (alive m) o
      → (access env (store env m key o) key).0 ≡ some o
  access-store m key o n f =
      access_fresh (store env m key o) key o (rw (object-store env m key key o n, ==_refl key) refl)
        (subst (λ (live : ℕ → Bool). IsFresh live o)
          (sym (fun_ext (store-SameService env m key o).live)) f)

  -- The same, stored after an access.
  pub access-store-access :
      (m : Master S) (key : String) (o : ObjectMetadata)
      → HasShards m
      → IsFresh (alive m) o
      → (access env (store env (access env m key).1 key o) key).0 ≡ some o
  access-store-access m key o n f =
      let same = access-SameService env m key in
      access-store (access env m key).1 key o (HasShards-after same n)
        (subst (λ (live : ℕ → Bool). IsFresh live o) (sym (fun_ext same.live)) f)
