-- ===== src/Segment/Bytes.antt =====
-- How the bytes of the segment table change with it.
use mooncake.Prelude.{◌+◌, ◌≡◌, some, none, [], ◌∷◌, arith, ==_iff}
use mooncake.Prelude.Dict.{Dict, find, put, erase, IsMap, erase_absent}
use mooncake.Types.{Uuid, uuid_eq}
use mooncake.Segment.{MountedSegment}
use mooncake.Segment.Invariant.{mounted_bytes}

pub mounted_bytes-put_absent :
    (id : Uuid) (ms : MountedSegment) (m : Dict Uuid MountedSegment)
    → find id m ≡ none
    → mounted_bytes (put id ms m) ≡ mounted_bytes m + ms.segment.size
unfolding find put
mounted_bytes-put_absent id ms [] h = omega arith
mounted_bytes-put_absent id ms ((j, w) ∷ m) h = ground (arith, mounted_bytes-put_absent id ms m)

pub mounted_bytes-put_same :
    (id : Uuid) (ms old : MountedSegment) (m : Dict Uuid MountedSegment)
    → find id m ≡ some old
    → ms.segment ≡ old.segment
    → mounted_bytes (put id ms m) ≡ mounted_bytes m
unfolding find put
mounted_bytes-put_same id ms old [] h k = cc
mounted_bytes-put_same id ms old ((j, w) ∷ m) h k =
    ground (arith, mounted_bytes-put_same id ms old m)

pub mounted_bytes-erase :
    (id : Uuid) (ms : MountedSegment) (m : Dict Uuid MountedSegment)
    → IsMap m
    → find id m ≡ some ms
    → mounted_bytes (erase id m) + ms.segment.size ≡ mounted_bytes m
unfolding find erase
mounted_bytes-erase id ms [] w h = cc
mounted_bytes-erase id ms ((j, v) ∷ m) w h =
    ground (arith, mounted_bytes-erase id ms m w.1, erase_absent j m, ==_iff j id)
