-- ===== src/TaggedPtr/Compress/Tests.antt =====
-- A packed pointer with the largest tag.
use bugat.Common.{◌<◌, ◌≡◌, ◌≢◌, ◌^◌, ◌==◌, refl, some, none, arith}
use bugat.TaggedPtr.Compress.{get_ptr, extract_tag, next_tag, pack, pack-faithful}
use bugat.TaggedPtr.{TaggedPtr, eq_tagged}

abbrev last_tag : TaggedPtr
last_tag = record { ptr = some 4096; tag = 65535 }

abbrev null_tagged : TaggedPtr
null_tagged = record { ptr = none; tag = 1 }

pack-faithful_example :
    (get_ptr (pack last_tag) ≡ 4096)
    × (extract_tag (pack last_tag) ≡ 65535)
    × ((pack last_tag == pack null_tagged) ≡ eq_tagged last_tag null_tagged)
    × (next_tag (pack last_tag) < 2 ^ 16)
    × (next_tag (pack last_tag) ≢ 65535)
pack-faithful_example =
    pack-faithful last_tag null_tagged (omega arith, refl, omega arith)
      (omega arith, refl, omega arith)
