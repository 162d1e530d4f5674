-- ===== src/Tables/Tot/Typed/Descriptors.antt =====
-- The ranges of the fields of a descriptor and of its regions (tables_parser.c).
use ppu_tvi_os.Common.{
  ℕ, zero, suc, ◌+◌, ◌*◌, ◌≤◌, ◌<◌, ◌≡◌, ◌∙◌, List, All, length, set, length-set, arith,
}
use ppu_tvi_os.Common.Outcome.{Pointer, read, element, set-All}
use ppu_tvi_os.Common.Always.{Always, >>=-Always, >>=-Always_any, read-Always}
use ppu_tvi_os.Tables.Tot.{LtoDescriptorInfo, LocalTimeOffsetDescriptor, read_lto, lto_loop}

-- An offset's part of two binary coded digits is at most 15 * 10 + 15.
pub record IsRegion (r : LtoDescriptorInfo) : Type 0 where
  pub country_ch1 : r.country_ch1 < 256
  pub country_ch2 : r.country_ch2 < 256
  pub country_ch3 : r.country_ch3 < 256
  pub country_region_id : r.country_region_id < 64
  pub polarity : r.local_time_offset_polarity < 2
  pub hours : r.local_time_offset_hours < 166
  pub minutes : r.local_time_offset_minutes < 166

pub record IsDescriptor (d : LocalTimeOffsetDescriptor) : Type 0 where
  pub tag : d.descriptor_tag < 256
  pub len : d.descriptor_length < 256
  pub size : length d.lto_info ≡ 20
  pub regions : All IsRegion d.lto_info
  pub within : d.number_of_infos ≤ 20

pub read_lto-IsRegion : (p : Pointer) (i : ℕ) → Always IsRegion (read_lto p i)
unfolding read_lto
read_lto-IsRegion p i =
    >>=-Always (λ b. b < 256) IsRegion (read p (12 + i * 13)) _ (read-Always p _)
      λ ch1 byte1.
        >>=-Always (λ b. b < 256) IsRegion (read p (13 + i * 13)) _ (read-Always p _)
          λ ch2 byte2.
            >>=-Always (λ b. b < 256) IsRegion (read p (14 + i * 13)) _ (read-Always p _)
              λ ch3 byte3.
                >>=-Always (λ b. b < 256) IsRegion (read p (15 + i * 13)) _ (read-Always p _)
                  λ zone byte4. >>=-Always_any IsRegion (read p (16 + i * 13)) _ λ hours.
                    >>=-Always_any IsRegion (read p (17 + i * 13)) _ λ minutes. record {
                      country_ch1 = byte1;
                      country_ch2 = byte2;
                      country_ch3 = byte3;
                      country_region_id = omega arith;
                      polarity = omega arith;
                      hours = omega arith;
                      minutes = omega arith;
                    }

abbrev pub Regions : List LtoDescriptorInfo → Type 0
Regions infos = (length infos ≡ 20) × All IsRegion infos

pub lto_loop-Regions :
    (left i : ℕ) (p : Pointer) (infos : List LtoDescriptorInfo)
    → Regions infos
    → Always Regions (lto_loop left i p infos)
unfolding lto_loop
lto_loop-Regions zero i p infos h = h
lto_loop-Regions (suc left) i p infos h = >>=-Always_any Regions (element infos i) _ λ slot.
    >>=-Always IsRegion Regions (read_lto p i) _ (read_lto-IsRegion p i) λ info v.
      lto_loop-Regions left (i + 1) p (set infos i info)
        (length-set infos i info ∙ h.0, set-All IsRegion infos i info h.1 v)
