-- ===== src/Tables/Tot/Layout.antt =====
-- The byte layout of a time offset section with one descriptor (ETSI EN 300 468), as a printer,
-- and parseTotTable on what it prints (tables_parser.c).
use ppu_tvi_os.Common.{
  ℕ, ◌+◌, ◌*◌, ◌/◌, ◌%◌, ◌<◌, ◌≡◌, refl, ap, ap₂, List, [], ◌∷◌, ◌++◌, drop, get_or, arith, length,
  length-append, All,
}
use ppu_tvi_os.Common.Words.{u8}
use ppu_tvi_os.Common.Outcome.{
  done, Pointer, byte_at, Shows, Shows-byte_at, Shows-advance, advance, element,
}
use ppu_tvi_os.Tables.Tot.{LtoDescriptorInfo, LocalTimeOffsetDescriptor, TotTable}
use ppu_tvi_os.Tables.Tot.Steps.{lto_at, ltos_at}

-- One region with the seven bytes that the parser skips: the time of change and the next offset.
pub record Region : Type 0 where
  pub info : LtoDescriptorInfo
  pub skipped : List ℕ

abbrev pub infos : List Region → List LtoDescriptorInfo
infos [] = []
infos (r ∷ rs) = r.info ∷ infos rs

abbrev pub to_bcd : ℕ → ℕ
to_bcd n = n / 10 * 16 + n % 10

-- The reserved bit is one.
abbrev pub encode_info : LtoDescriptorInfo → List ℕ
encode_info x =
    x.country_ch1
    ∷ x.country_ch2
    ∷ x.country_ch3
    ∷ (x.country_region_id * 4 + 2 + x.local_time_offset_polarity)
    ∷ to_bcd x.local_time_offset_hours
    ∷ to_bcd x.local_time_offset_minutes
    ∷ []

abbrev pub encode_regions : List Region → List ℕ → List ℕ
encode_regions [] rest = rest
encode_regions (r ∷ rs) rest = (encode_info r.info ++ r.skipped) ++ encode_regions rs rest

-- The fields fit their bits; the offset has two decimal digits in each part.
pub record IsRegion (r : Region) : Type 0 where
  pub country_ch1 : r.info.country_ch1 < 256
  pub country_ch2 : r.info.country_ch2 < 256
  pub country_ch3 : r.info.country_ch3 < 256
  pub country_region_id : r.info.country_region_id < 64
  pub polarity : r.info.local_time_offset_polarity < 2
  pub hours : r.info.local_time_offset_hours < 100
  pub minutes : r.info.local_time_offset_minutes < 100
  pub skipped : length r.skipped ≡ 7

lto_at-encode :
    (p : Pointer) (i : ℕ) (r : Region) (rest : List ℕ)
    → IsRegion r
    → Shows (advance p (12 + i * 13)) ((encode_info r.info ++ r.skipped) ++ rest)
    → lto_at p i ≡ r.info
lto_at-encode p i r rest v h =
    let q = advance p (12 + i * 13) in
    let bytes = (encode_info r.info ++ r.skipped) ++ rest in
    rw
      (
        moved 0,
        moved 1,
        moved 2,
        moved 3,
        moved 4,
        moved 5,
        Shows-byte_at q bytes 0 h,
        Shows-byte_at q bytes 1 h,
        Shows-byte_at q bytes 2 h,
        Shows-byte_at q bytes 3 h,
        Shows-byte_at q bytes 4 h,
        Shows-byte_at q bytes 5 h,
      )
      (ground arith)
  where
    moved : (k : ℕ) → byte_at p (12 + k + i * 13) ≡ byte_at (advance p (12 + i * 13)) k
    moved k = ap (λ n. u8 (get_or p.buffer n 0)) (omega arith)

pub ltos_at-encode :
    (rs : List Region) (p : Pointer) (i : ℕ) (rest : List ℕ)
    → All IsRegion rs
    → Shows (advance p (12 + i * 13)) (encode_regions rs rest)
    → ltos_at p i (length rs) ≡ infos rs
ltos_at-encode [] p i rest v h = refl
ltos_at-encode (r ∷ rs) p i rest v h =
    let q = advance p (12 + i * 13) in
    let front = encode_info r.info ++ r.skipped in
    let thirteen : q.offset + length front ≡ p.offset + (12 + (i + 1) * 13) =
      omega (arith, v.0.skipped) in
    ap₂ ◌∷◌ (lto_at-encode p i r (encode_regions rs rest) v.0 h) (
      ltos_at-encode rs p (i + 1) rest v.1
        (rw (← thirteen) (Shows-advance q front (encode_regions rs rest) h)))

pub length-encode_regions :
    (rs : List Region) (rest : List ℕ)
    → All IsRegion rs
    → length (encode_regions rs rest) ≡ 13 * length rs + length rest
length-encode_regions [] rest v = omega arith
length-encode_regions (r ∷ rs) rest v = omega (
  arith,
  length-encode_regions rs rest v.1,
  length-append (encode_info r.info ++ r.skipped) (encode_regions rs rest),
  v.0.skipped,
)

-- What stands in front of the descriptor: the date, three bytes of time and the loop's length.
pub record Front : Type 0 where
  pub section_length : ℕ
  pub mjd : ℕ
  pub hours : ℕ
  pub minutes : ℕ
  pub seconds : ℕ

pub record IsFront (f : Front) : Type 0 where
  pub section_length : f.section_length < 4096
  pub mjd : f.mjd < 65536

-- A section whose one descriptor holds these regions, with the CRC's bytes behind.
abbrev pub encode_tot_front : Front → ℕ → List ℕ
encode_tot_front f count =
    0x73
    ∷ (112 + f.section_length / 256)
    ∷ f.section_length % 256
    ∷ f.mjd / 256
    ∷ f.mjd % 256
    ∷ f.hours
    ∷ f.minutes
    ∷ f.seconds
    ∷ (240 + (13 * count + 2) / 256)
    ∷ (13 * count + 2) % 256
    ∷ 0x58
    ∷ 13 * count
    ∷ []

abbrev pub encode_tot : Front → List Region → List ℕ → List ℕ
encode_tot f rs crc = encode_tot_front f (length rs) ++ encode_regions rs crc

-- The table holds the section's fields and one descriptor with these regions.
pub record Holds (before t : TotTable) (f : Front) (xs : List LtoDescriptorInfo) : Type 0 where
  pub table_id : t.table_id ≡ 0x73
  pub section_length : t.section_length ≡ f.section_length
  pub mjd : t.mjd ≡ f.mjd
  pub count : t.descriptors_count ≡ 1
  pub descriptor :
      (slot : LocalTimeOffsetDescriptor) × (element before.descriptors 0 ≡ done slot)
      × (element t.descriptors 0
          ≡ done (record {
            descriptor_tag = 0x58;
            descriptor_length = 13 * length xs;
            lto_info = xs ++ drop (length xs) slot.lto_info;
            number_of_infos = length xs;
          }))
