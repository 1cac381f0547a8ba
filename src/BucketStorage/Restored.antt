-- ===== src/BucketStorage/Restored.antt =====
-- Init leaves an index that agrees with the buckets that it has recovered.
use mooncake.Prelude.{
  ℕ, ◌≡◌, refl, ◌∙◌, sym, ap, true, false, none, some, List, [], ◌∷◌, if◌then◌else◌, string_eq,
  arith, Bool-cases, Option-cases, inl, inr, ◌⊎◌, subst, ◌==◌,
}
use mathlib.Core.Option.{some-injective}
use mooncake.Prelude.Int.{less, ℤ, pos, negsuc}
use mooncake.Prelude.Dict.{find}
use mooncake.Types.{Void, ErrorCode, Expected, ok, err}
use mooncake.BucketStorage.{Disk, BucketStorage, DirectoryEntry, BucketMetadata, int_eq}
use mooncake.BucketStorage.Offload.{first_id, enter_bucket}
use mooncake.BucketStorage.Recover.{
  Recovery, recovered, refused, broken, Progress, is_hollow, blank, load_bucket_metadata,
  remove_bucket, drop_bucket, settle_bucket, recover_entry, recover_entries, cleared, finish_init,
  init,
}
use mooncake.BucketStorage.Located.{
  IsIndexed, IsBelow, IsReady, enter_bucket-IsIndexed, emplace_ordered-IsBelow, less_irrefl,
}

-- The index agrees with the buckets so far, none of which is above max_bucket_id.
abbrev IsSound : {W : Type 0} → Progress W → Type 0
IsSound (w, s, max_id) = IsIndexed s × IsBelow max_id s.buckets

-- So it is where the loop goes on.
abbrev GoesOn : {W : Type 0} → Recovery (Progress W) → Type 0
GoesOn (recovered p) = IsSound p
GoesOn (refused code p) = Unit
GoesOn (broken p) = Unit

less_raised : (a b c : ℤ) → less a b ≡ true → less a c ≡ false → less b c ≡ false
less_raised (pos a) (pos b) (pos c) h k = ground arith
less_raised (pos a) (pos b) (negsuc c) h k = ground arith
less_raised (pos a) (negsuc b) c h k = cc
less_raised (negsuc a) (pos b) (pos c) h k = cc
less_raised (negsuc a) (pos b) (negsuc c) h k = refl
less_raised (negsuc a) (negsuc b) (pos c) h k = cc
less_raised (negsuc a) (negsuc b) (negsuc c) h k = ground arith

less_first : (now : ℕ) (a c : ℤ) → less a c ≡ false → less (first_id now a) c ≡ false
unfolding first_id
less_first now (pos a) (pos c) h = ground arith
less_first now (pos a) (negsuc c) h = ground arith
less_first now (negsuc a) (pos c) h = cc
less_first now (negsuc a) (negsuc c) h = refl

enter_bucket-IsSound :
    {W : Type 0} (w : W) (s : BucketStorage) (max_id id : ℤ) (b : BucketMetadata)
    → IsSound (w, s, max_id)
    → find id s.buckets ≡ none
    → IsSound (w, enter_bucket id b s, if less max_id id then id else max_id)
unfolding enter_bucket
enter_bucket-IsSound w s max_id id b r absent = (
  enter_bucket-IsIndexed id b s r.0 absent,
  elim (Bool-cases (less max_id id)) [
    | inl raised ↦ rw (raised) (
        emplace_ordered-IsBelow id id b s.buckets absent (less_irrefl id)
          (λ j c there. less_raised max_id id j raised (r.1 j c there)))
    | inr same ↦ rw (same) (emplace_ordered-IsBelow max_id id b s.buckets absent same r.1)
  ],
)

module _ {W : Type 0} (disk : Disk W) where
  drop_bucket-GoesOn :
      (w : W) (s : BucketStorage) (max_id id : ℤ) (b : BucketMetadata)
      → IsSound (w, s, max_id)
      → GoesOn (drop_bucket disk w s max_id id b)
  unfolding drop_bucket
  drop_bucket-GoesOn w s max_id id b r =
      elim (Bool-cases (remove_bucket disk w s.storage_path id).0) [
        | inl gone ↦ rw (gone, drop_bucket) r
        | inr left ↦ rw (left, drop_bucket) tt
      ]

  settle_bucket-GoesOn :
      (w : W) (s : BucketStorage) (max_id id : ℤ) (result : Expected BucketMetadata)
      → IsSound (w, s, max_id)
      → find id s.buckets ≡ none
      → GoesOn (settle_bucket disk w s max_id id result)
  unfolding settle_bucket
  settle_bucket-GoesOn w s max_id id (err code) r absent = drop_bucket-GoesOn w s max_id id blank r
  settle_bucket-GoesOn w s max_id id (ok b) r absent = elim (Bool-cases (is_hollow b)) [
    | inl hollow ↦ rw (hollow, settle_bucket) (drop_bucket-GoesOn w s max_id id b r)
    | inr full ↦ rw (full, settle_bucket) (enter_bucket-IsSound w s max_id id b r absent)
  ]

  recover_entry-GoesOn :
      (w : W) (s : BucketStorage) (max_id : ℤ) (e : DirectoryEntry)
      → IsSound (w, s, max_id)
      → GoesOn (recover_entry disk (w, s, max_id) e)
  unfolding recover_entry
  recover_entry-GoesOn w s max_id e r = elim (Bool-cases (e.extension == ".meta")) [
    | inr other ↦ rw (other, recover_entry) r
    | inl meta ↦ elim (Option-cases (disk.stoll e.stem)) [
      | inl bad ↦ rw (meta, bad, recover_entry) tt
      | inr (id, number) ↦ elim (Option-cases (find id s.buckets)) [
        | inr (b, there) ↦ rw (meta, number, there, recover_entry) tt
        | inl absent ↦ elim (Option-cases (load_bucket_metadata disk w s.storage_path id)) [
          | inl threw ↦ rw (meta, number, absent, threw, recover_entry) tt
          | inr (result, read) ↦
              rw (meta, number, absent, read, recover_entry)
                (settle_bucket-GoesOn w s max_id id result r absent)
        ]
      ]
    ]
  ]

  Recovery-cases :
      (x : Recovery (Progress W))
      → ((p : Progress W) × (x ≡ recovered p))
        ⊎ (((code : ErrorCode) × (p : Progress W) × (x ≡ refused code p))
            ⊎ ((p : Progress W) × (x ≡ broken p)))
  Recovery-cases (recovered p) = inl (p, refl)
  Recovery-cases (refused code p) = inr (inl (code, p, refl))
  Recovery-cases (broken p) = inr (inr (p, refl))

  recover_entries-GoesOn :
      (entries : List DirectoryEntry) (p : Progress W)
      → IsSound p
      → GoesOn (recover_entries disk p entries)
  unfolding recover_entries
  recover_entries-GoesOn [] p r = r
  recover_entries-GoesOn (e ∷ entries) p r = elim (Recovery-cases (recover_entry disk p e)) [
    | inl (p', went) ↦
        rw (went, recover_entries)
          (recover_entries-GoesOn entries p'
            (subst GoesOn went (recover_entry-GoesOn p.0 p.1 p.2 e r)))
    | inr (inl (code, p', stopped)) ↦ rw (stopped, recover_entries) tt
    | inr (inr (p', threw)) ↦ rw (threw, recover_entries) tt
  ]

  cleared-IsSound : (w : W) (s : BucketStorage) → IsSound (w, cleared s, negsuc 0)
  unfolding find
  cleared-IsSound w s = (record { indexed = λ key x e. cc; counted = refl }, λ id b e. cc)

  restored-IsReady :
      (w : W) (s : BucketStorage) (max_id : ℤ) (now : ℕ)
      → IsSound (w, s, max_id)
      → IsReady (record s { initialized = true; current_id = some (first_id now max_id) })
  restored-IsReady w s max_id now r = record {
    index = record { indexed = r.0.indexed; counted = r.0.counted };
    below = λ current same id b there.
        subst (λ c. less c id ≡ false) (some-injective (first_id now max_id) current same)
          (less_first now max_id id (r.1 id b there));
  }

  init_listed :
      (w : W) (s : BucketStorage) (entries : List DirectoryEntry)
      → s.initialized ≡ false
      → disk.directory w s.storage_path ≡ some entries
      → init disk w s ≡ finish_init disk (recover_entries disk (w, cleared s, negsuc 0) entries)
  unfolding init
  init_listed w s entries first listed = rw (listed, init) (rw (first) refl)

  finish_init-IsReady :
      (x : Recovery (Progress W))
      → GoesOn x
      → (finish_init disk x).0 ≡ ok tt
      → IsReady (finish_init disk x).2
  unfolding finish_init
  finish_init-IsReady (recovered (w, s, max_id)) r h =
      restored-IsReady w s max_id (disk.time_gen w) r
  finish_init-IsReady (refused code p) r h = cc
  finish_init-IsReady (broken p) r h = cc

  -- If Init succeeds, whatever the directory holds, every entry of the index says what the metadata of
  -- its bucket say, the byte count is that of the buckets, and no bucket has an identifier above the
  -- generator's.
  pub init-IsReady :
      (w : W) (s : BucketStorage) → (init disk w s).0 ≡ ok tt → IsReady (init disk w s).2
  unfolding init
  init-IsReady w s h = elim (Bool-cases s.initialized) [
    | inl again ↦ let h' = simp (again, init) at h in cc
    | inr first ↦ elim (Option-cases (disk.directory w s.storage_path)) [
      | inl threw ↦ let h' = simp (first, threw, init) at h in cc
      | inr (entries, listed) ↦
          let ended =
            finish_init-IsReady (recover_entries disk (w, cleared s, negsuc 0) entries)
              (recover_entries-GoesOn entries (w, cleared s, negsuc 0) (cleared-IsSound w s)) in
          let same : init disk w s
              ≡ finish_init disk (recover_entries disk (w, cleared s, negsuc 0) entries) =
            init_listed w s entries first listed in
          subst (λ (x : Expected Void × W × BucketStorage). IsReady x.2) (sym same)
            (ended (ap (λ (x : Expected Void × W × BucketStorage). x.0) (sym same) ∙ h))
    ]
  ]
