-- ===== src/Tests/Buckets.antt =====
-- The theorems on bucket files, at concrete inputs, over files that are kept in memory.
use mooncake.Prelude.{
  String, ◌≡◌, ◌≢◌, refl, ◌∙◌, sym, true, false, some, none, List, [], ◌∷◌, length, string_eq, take,
  drop, arith, ◌==◌, ==_iff, Bool-cases, inl, inr, subst,
}
use mathlib.Core.Option.{none-ne-some}
use mooncake.Prelude.Int.{ℤ, pos, ◌+ℤ◌}
use mooncake.Prelude.Dict.{
  Dict, find, put, erase, emplace, IsMap, find_other, find-put_self, find-put_ne,
}
use mooncake.Prelude.Spans.{concat}
use mooncake.Types.{Expected, ok, err, file_read_fail}
use mooncake.Serializer.{Byte}
use mooncake.BucketStorage.{
  Disk, BucketStorage, BucketObjectMetadata, BucketContents, BucketMetadata, int_eq,
}
use mooncake.BucketStorage.Build.{build_bucket}
use mooncake.BucketStorage.Offload.{batch_offload}
use mooncake.BucketStorage.Load.{batch_load}
use mooncake.BucketStorage.Scan.{lower_bound, bucket_scan}
use mooncake.BucketStorage.Recover.{init}
use mooncake.BucketStorage.Layout.{IsStored, build_bucket-IsStored}
use mooncake.BucketStorage.Located.{IsReady}
use mooncake.BucketStorage.Index.{batch_offload-IsReady}
use mooncake.BucketStorage.Restored.{init-IsReady}
use mooncake.BucketStorage.Files.{IsReliable}
use mooncake.BucketStorage.RoundTrip.{batch_offload-batch_load}
use mooncake.ObjectStorage.{Target, store_slices, load_slices}
use mooncake.ObjectStorage.Loaded.{store-load}
use mooncake.BucketStorage.Pages.{IsPage, bucket_scan-IsPage}

abbrev Files : Type 0
Files = Dict String (List Byte)

abbrev one_bucket : BucketContents
one_bucket = record {
  data_size = 3;
  object_metadata = ("k", record { offset = 0; key_size = 1; data_size = 2 }) ∷ [];
  keys = "k" ∷ [];
}

-- Keys have one byte, and the metadata that are read are those of one bucket.
abbrev ram : Disk Files
ram = record {
  open_write = λ w path. (true, put path [] w);
  vector_write = λ w path iovs. (ok (length (concat iovs)), put path (concat iovs) w);
  write = λ w path bytes. (ok (length bytes), put path bytes w);
  open_read = λ w path. elim (find path w) [ none ↦ false | some bytes ↦ true ];
  file_size = λ w path. elim (find path w) [ none ↦ none | some bytes ↦ some (length bytes) ];
  read =
      λ w path n. elim (find path w) [ none ↦ err file_read_fail | some bytes ↦ ok (take n bytes) ];
  vector_read = λ w path n offset. elim (find path w) [
    | none ↦ err file_read_fail
    | some bytes ↦ ok (take n (drop offset bytes))
  ];
  remove = λ w path. (true, erase path w);
  directory = λ w path. some (record { stem = "5"; extension = ".meta" } ∷ []);
  to_pb = λ c. 0 ∷ [];
  from_pb = λ bytes. some one_bucket;
  to_string = λ id. "5";
  stoll = λ stem. some (pos 5);
  bytes_of = λ key. 107 ∷ [];
  time_gen = λ w. 1;
}

apart : (path other : String) → other ≢ path → (path == other) ≡ false
apart path other ne = elim (Bool-cases (path == other)) [
  | inl same ↦ absurd (ne (sym ((==_iff path other).0 same)))
  | inr differs ↦ differs
]

ram-IsReliable : IsReliable ram
ram-IsReliable = record {
  content = λ w path. find path w;
  open_write_empties = λ w path e. find-put_self path [] w;
  open_write_elsewhere = λ w path other ne. find-put_ne path other [] w (apart path other ne);
  vector_write_all = λ w path iovs n e f. find-put_self path (concat iovs) w;
  write_elsewhere = λ w path other bytes ne. find-put_ne path other bytes w (apart path other ne);
  open_read_there = λ w path bytes e. rw (ram, e) refl;
  vector_read_within = λ w path bytes n offset e le. rw (ram, e) refl;
}

abbrev new_storage : BucketStorage
new_storage = record {
  initialized = false;
  current_id = none;
  storage_path = "/data";
  total_size = 0;
  object_bucket_map = [];
  buckets = [];
}

abbrev files : Files
files = ("/data/5.meta", 0 ∷ []) ∷ []

-- The state after a start on these files.
abbrev started : BucketStorage
unfolding init
started = (init ram files new_storage).2

init-IsReady_example : IsReady started
unfolding init find
init-IsReady_example = init-IsReady ram files new_storage refl

abbrev batch : Dict String (List (List Byte))
batch = ("x", (1 ∷ 2 ∷ []) ∷ (3 ∷ []) ∷ []) ∷ ("y", (4 ∷ []) ∷ []) ∷ []

batch-IsMap : IsMap batch
unfolding find
batch-IsMap = (refl, (refl, tt))

-- The bucket file and the metadata file are written; the bucket is the sixth.
abbrev written : Expected ℤ × Files × BucketStorage
unfolding batch_offload init
written = batch_offload ram files started batch none

batch_offload-IsReady_example : IsReady (batch_offload ram files started batch none).2
unfolding init find
batch_offload-IsReady_example =
    batch_offload-IsReady ram files started batch none (init-IsReady ram files new_storage refl)

abbrev request : Dict String (List (List Byte))
request = ("y", (4 ∷ []) ∷ []) ∷ []

request-asked :
    (key : String) (slices : List (List Byte))
    → find key request ≡ some slices
    → (find key batch ≡ some slices) × (find key started.object_bucket_map ≡ none)
unfolding find init emplace
request-asked key slices h = elim (Bool-cases ("y" == key)) [
  | inl same ↦
      subst
        (λ k.
          find k request ≡ some slices
          → (find k batch ≡ some slices) × (find k started.object_bucket_map ≡ none))
        ((==_iff "y" key).0 same) (λ e. (e, refl)) h
  | inr other ↦ absurd (none-ne-some slices (sym (find_other "y" key ((4 ∷ []) ∷ []) [] other) ∙ h))
]

batch_offload-batch_load_example :
    batch_load ram written.1 written.2 (("y", 1) ∷ []) ≡ (ok tt, ("y", 4 ∷ []) ∷ [])
unfolding find init batch_offload ◌+ℤ◌
batch_offload-batch_load_example =
    batch_offload-batch_load ram ram-IsReliable files written.1 started written.2 (pos 6) batch
      request none (init-IsReady ram files new_storage refl) batch-IsMap (refl, tt) request-asked
      refl

abbrev built : BucketMetadata × List (List Byte)
built = (
  record {
    meta_size = 0;
    contents = record {
      data_size = 6;
      object_metadata =
          ("y", record { offset = 4; key_size = 1; data_size = 1 })
          ∷ ("x", record { offset = 0; key_size = 1; data_size = 3 })
          ∷ [];
      keys = "x" ∷ "y" ∷ [];
    };
  },
  (107 ∷ []) ∷ (1 ∷ 2 ∷ []) ∷ (3 ∷ []) ∷ (107 ∷ []) ∷ (4 ∷ []) ∷ [],
)

build_bucket-IsStored_example :
    (built.0.contents.data_size ≡ 6)
    × ((key : String) (slices : List (List Byte))
        → find key batch ≡ some slices
        → (o : BucketObjectMetadata) × (find key built.0.contents.object_metadata ≡ some o)
          × IsStored (concat built.1) (107 ∷ []) slices o)
unfolding build_bucket find emplace
build_bucket-IsStored_example = build_bucket-IsStored ram batch built.0 built.1 batch-IsMap refl

bucket_scan-IsPage_example :
    IsPage
      (lower_bound (pos 1) started.buckets)
      []
      []
      (pos 10)
      (bucket_scan started (pos 1) [] [] (pos 10))
bucket_scan-IsPage_example = bucket_scan-IsPage started (pos 1) [] [] (pos 10)

-- Three bytes, a gap of one and a slice of two.
abbrev targets : List Target
targets =
    record { has_memory = true; size = 1 }
    ∷ record { has_memory = false; size = 1 }
    ∷ record { has_memory = true; size = 2 }
    ∷ []

store-load_example :
    load_slices ram
      (store_slices ram [] "/data/o" ((1 ∷ 2 ∷ []) ∷ (3 ∷ 4 ∷ 5 ∷ []) ∷ [])).1
      "/data/o"
      targets
      4
    ≡ ok ((1 ∷ []) ∷ (3 ∷ 4 ∷ []) ∷ [])
unfolding store_slices
store-load_example =
    store-load ram ram-IsReliable []
      (store_slices ram [] "/data/o" ((1 ∷ 2 ∷ []) ∷ (3 ∷ 4 ∷ 5 ∷ []) ∷ [])).1 "/data/o"
      ((1 ∷ 2 ∷ []) ∷ (3 ∷ 4 ∷ 5 ∷ []) ∷ []) targets refl (omega arith)
