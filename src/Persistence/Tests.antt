-- ===== src/Persistence/Tests.antt =====
-- Runs of the ring files on concrete records (bandix-plus/src/persistence.rs).
use bandix_plus_lite.Base.{
  ℕ, ◌+◌, ◌*◌, ◌≡◌, refl, inl, inr, List, [], ◌∷◌, ◌++◌, All, last, ok, ◌>>=◌, some, none,
  replicate, get_or, arith,
}
use bandix_plus_lite.Monitor.Types.{empty_bucket}
use bandix_plus_lite.Persistence.Codec.{
  RingRecord, record_fields, encode_ring_record, decode_ring_record, bucket_v1, encode_values,
  checksum32,
}
use bandix_plus_lite.Persistence.Codec.RoundTrip.{Fits, decode-encode_ring_record}
use bandix_plus_lite.Persistence.Header.{
  RingHeader, header_bytes, write_ring_header, read_ring_header,
}
use bandix_plus_lite.Base.Bytes.{to_le_bytes}
use bandix_plus_lite.Persistence.Ring.{Disk, read_ring_records, read_ring_records_limited}
use bandix_plus_lite.Persistence.Ring.Layout.{ring_header, flat, read-write_ring_header}
use bandix_plus_lite.Persistence.Ring.Append.{Holds}
use bandix_plus_lite.Persistence.Ring.Read.{read_limited-Holds}
use bandix_plus_lite.Persistence.Ring.Conversion.{fresh-Holds}
use bandix_plus_lite.Persistence.Ring.History.{append_all, read-append_all}

abbrev hour_record : ℕ → ℕ → RingRecord
unfolding empty_bucket
hour_record hour bytes = record {
  bucket = record (empty_bucket (hour * 3600000) (hour * 3600000 + 3599999)) {
    sample_count = 3;
    up_v4_bytes = bytes;
  };
}

abbrev three_records : List RingRecord
three_records = hour_record 1 100 ∷ hour_record 2 200 ∷ hour_record 3 300 ∷ []

three_records-Fits : All Fits three_records
unfolding record_fields empty_bucket
three_records-Fits = omega arith

abbrev no_file : Disk
no_file = record { ring = none; bad = [] }

abbrev two_hours : List ℕ
two_hours = header_bytes (ring_header 2 0 2) ++ flat (hour_record 1 100 ∷ hour_record 2 200 ∷ [])

two_hours-Holds : Holds 2 two_hours (hour_record 1 100 ∷ hour_record 2 200 ∷ [])
two_hours-Holds =
    fresh-Holds 2 (hour_record 1 100 ∷ hour_record 2 200 ∷ []) (omega arith) (omega arith)
      (omega arith) (three_records-Fits.0, (three_records-Fits.1.0, tt))

abbrev full_disk : Disk
full_disk = record { ring = some two_hours; bad = [] }

decode-encode_example :
    (encode_ring_record (hour_record 1 100) >>= λ bytes. decode_ring_record bytes 2)
    ≡ ok (hour_record 1 100)
decode-encode_example = decode-encode_ring_record (hour_record 1 100) three_records-Fits.0

read-write_example :
    read_ring_header (write_ring_header (1 ∷ 2 ∷ 3 ∷ []) (ring_header 2 1 1))
    ≡ ok (ring_header 2 1 1)
read-write_example = read-write_ring_header (1 ∷ 2 ∷ 3 ∷ []) (ring_header 2 1 1) (record {
  known_version = inr refl;
  some_slot = omega arith;
  slots_u32 = omega arith;
  write_in = omega arith;
  valid_in = omega arith;
  sized = refl;
})

-- Three records through a new ring of two slots.
read-append_all_example :
    (d' : Disk) × (append_all no_file 2 three_records ≡ ok d')
    × (read_ring_records d' ≡ ok (last 2 three_records, d'))
    × (d'.bad ≡ [])
read-append_all_example =
    read-append_all 2 no_file [] (hour_record 1 100) (hour_record 2 200 ∷ hour_record 3 300 ∷ [])
      (omega arith) (omega arith) (inl (inl (refl, refl))) three_records-Fits

-- A ring of version 1 with two slots, one of them in use, and ten spare bytes.
abbrev v1_values : List ℕ
v1_values =
    3600000 ∷ 7199999 ∷ 500 ∷ 600 ∷ 0 ∷ 0 ∷ 10 ∷ 20 ∷ 5 ∷ 19 ∷ 12 ∷ 22 ∷ 6 ∷ 21 ∷ 0 ∷ 0 ∷ 0 ∷ 0 ∷ 0
    ∷ 0 ∷ 0 ∷ 0 ∷ []

abbrev v1_record : RingRecord
unfolding bucket_v1
v1_record = record { bucket = bucket_v1 (λ i. get_or v1_values i 0) }

abbrev v1_header : RingHeader
v1_header = record {
  version = 1;
  slot_count = 2;
  write_pos = 1;
  valid_count = 1;
  record_size = 180;
}

abbrev v1_file : List ℕ
unfolding encode_values
v1_file =
    header_bytes v1_header
    ++ (encode_values v1_values
        ++ (to_le_bytes 4 (checksum32 (encode_values v1_values)) ++ replicate 10 0))

abbrev v1_disk : Disk
v1_disk = record { ring = some v1_file; bad = [] }

read_limited_example :
    read_ring_records_limited full_disk 1 ≡ ok (hour_record 2 200 ∷ [], full_disk)
read_limited_example = read_limited-Holds full_disk 1 two_hours-Holds refl

-- Three bytes are no ring file.
abbrev bad_disk : Disk
bad_disk = record { ring = some (1 ∷ 2 ∷ 3 ∷ []); bad = [] }

abbrev set_aside : Disk
set_aside = record { ring = none; bad = (1 ∷ 2 ∷ 3 ∷ []) ∷ [] }
