-- ===== src/Tables/Tot/Steps.antt =====
-- What the parts of parseTotTable do in a readable buffer, and that they halt (tables_parser.c).
use ppu_tvi_os.Common.{
  ℕ, zero, suc, ◌+◌, ◌*◌, ◌/◌, ◌≤◌, ◌<◌, ◌≡◌, refl, ◌∙◌, ap, List, [], ◌∷◌, arith, length, set,
  length-set, lt→ltb, ◌==◌, Bool-cases, inl, inr,
}
use ppu_tvi_os.Common.Words.{u8, shr, low_bits}
use ppu_tvi_os.Common.Slots.{fill}
use ppu_tvi_os.Common.Outcome.{
  Outcome, done, ◌>>=◌, Pointer, byte_at, Readable, read-done, element, element-done, Halts,
  >>=-Halts, read-Halts, element-Halts,
}
use ppu_tvi_os.Tables.Code.{ParseErrorCode, tables_parse_ok}
use ppu_tvi_os.Tables.Tot.{
  LtoDescriptorInfo, LocalTimeOffsetDescriptor, TotTable, from_bcd, read_lto, lto_loop,
  read_descriptor, take_off, tot_loop,
}

-- The region at index `i` behind the first descriptor's header.
abbrev pub lto_at : Pointer → ℕ → LtoDescriptorInfo
lto_at p i = record {
  country_ch1 = byte_at p (12 + i * 13);
  country_ch2 = byte_at p (13 + i * 13);
  country_ch3 = byte_at p (14 + i * 13);
  country_region_id = shr (byte_at p (15 + i * 13)) 2;
  local_time_offset_polarity = low_bits (byte_at p (15 + i * 13)) 1;
  local_time_offset_hours = from_bcd (byte_at p (16 + i * 13));
  local_time_offset_minutes = from_bcd (byte_at p (17 + i * 13));
}

abbrev pub ltos_at : Pointer → ℕ → ℕ → List LtoDescriptorInfo
ltos_at p i zero = []
ltos_at p i (suc n) = lto_at p i ∷ ltos_at p (i + 1) n

read_lto-done : (p : Pointer) (i : ℕ) → Readable p (18 + i * 13) → read_lto p i ≡ done (lto_at p i)
unfolding read_lto
read_lto-done p i r = rw (
  read-done p (12 + i * 13) (omega arith),
  read-done p (13 + i * 13) (omega arith),
  read-done p (14 + i * 13) (omega arith),
  read-done p (15 + i * 13) (omega arith),
  read-done p (16 + i * 13) (omega arith),
  read-done p (17 + i * 13) (omega arith),
)

read_lto-Halts : (p : Pointer) (i : ℕ) → Halts (read_lto p i)
unfolding read_lto
read_lto-Halts p i = >>=-Halts _ _ (read-Halts p (12 + i * 13)) λ a.
    >>=-Halts _ _ (read-Halts p (13 + i * 13)) λ b. >>=-Halts _ _ (read-Halts p (14 + i * 13)) λ c.
      >>=-Halts _ _ (read-Halts p (15 + i * 13)) λ d.
        >>=-Halts _ _ (read-Halts p (16 + i * 13))
          λ e. >>=-Halts _ _ (read-Halts p (17 + i * 13)) λ f h. cc

pub lto_loop-done :
    (left i : ℕ) (p : Pointer) (infos : List LtoDescriptorInfo)
    → Readable p (5 + (i + left) * 13)
    → i + left ≤ length infos
    → lto_loop left i p infos ≡ done (fill infos i (ltos_at p i left))
unfolding lto_loop
lto_loop-done zero i p infos r room = refl
lto_loop-done (suc left) i p infos r room =
    rw (element-done infos i (lto_at p i) (omega arith), read_lto-done p i (omega arith))
      (lto_loop-done left (i + 1) p (set infos i (lto_at p i)) (omega arith)
          (omega (arith, length-set infos i (lto_at p i)))
        ∙ ap (λ k. done (fill (set infos i (lto_at p i)) k (ltos_at p (i + 1) left))) (omega arith))

pub lto_loop-Halts :
    (left i : ℕ) (p : Pointer) (infos : List LtoDescriptorInfo) → Halts (lto_loop left i p infos)
unfolding lto_loop
lto_loop-Halts zero i p infos = λ e. cc
lto_loop-Halts (suc left) i p infos = >>=-Halts _ _ (element-Halts infos i) λ slot.
    >>=-Halts _ _ (read_lto-Halts p i) λ info. lto_loop-Halts left (i + 1) p (set infos i info)

pub read_descriptor-Halts : (p : Pointer) (t : TotTable) → Halts (read_descriptor p t)
unfolding read_descriptor
read_descriptor-Halts p t = >>=-Halts _ _ (read-Halts p (10 + 15 * t.descriptors_count)) λ tag.
    elim (Bool-cases (tag == 0x58)) [
      | inr other ↦ rw other λ e. cc
      | inl lto ↦ rw lto (
          >>=-Halts _ _ (element-Halts t.descriptors t.descriptors_count) λ slot.
            >>=-Halts _ _ (read-Halts p (11 + 15 * t.descriptors_count))
              λ len. >>=-Halts _ _ (lto_loop-Halts (u8 (len / 13)) 0 p slot.lto_info) λ infos e. cc)
    ]

module _ (fuel : ℕ) (p : Pointer) (loop_length : ℕ) (t : TotTable) where
  pub tot_loop-stop :
      loop_length ≤ 4 → tot_loop (suc fuel) p loop_length t ≡ done (tables_parse_ok, t)
  unfolding tot_loop
  tot_loop-stop h = ground arith

  -- A round, as the loop's body.
  abbrev pub after_round :
      TotTable → LocalTimeOffsetDescriptor → Outcome (ParseErrorCode × TotTable)
  after_round t' d =
      tot_loop fuel p (take_off loop_length (d.descriptor_length + 2))
        (record t' { descriptors_count = u8 (t'.descriptors_count + 1) })

  pub tot_loop-round :
      4 < loop_length
      → tot_loop (suc fuel) p loop_length t ≡ (
          read_descriptor p t >>= λ t'.
          element t'.descriptors t.descriptors_count >>= after_round t')
  unfolding tot_loop
  tot_loop-round h = rw (lt→ltb 4 loop_length h, tot_loop)

-- A local time offset descriptor in a readable buffer.
abbrev pub descriptor_at : Pointer → TotTable → List LtoDescriptorInfo → LocalTimeOffsetDescriptor
descriptor_at p t infos =
    let at = 15 * t.descriptors_count in
    let count = byte_at p (11 + at) / 13 in
    record {
      descriptor_tag = 0x58;
      descriptor_length = byte_at p (11 + at);
      lto_info = fill infos 0 (ltos_at p 0 count);
      number_of_infos = count;
    }

pub read_descriptor-done :
    (p : Pointer) (t : TotTable) (slot : LocalTimeOffsetDescriptor)
    → Readable p (12 + 15 * t.descriptors_count)
    → Readable p (12 + byte_at p (11 + 15 * t.descriptors_count))
    → byte_at p (10 + 15 * t.descriptors_count) ≡ 0x58
    → element t.descriptors t.descriptors_count ≡ done slot
    → length slot.lto_info ≡ 20
    → read_descriptor p t
      ≡ done (record t {
        descriptors = set t.descriptors t.descriptors_count (descriptor_at p t slot.lto_info);
      })
unfolding read_descriptor
read_descriptor-done p t slot r body tag found size =
    let len = byte_at p (11 + 15 * t.descriptors_count) in
    let e : u8 (len / 13) ≡ len / 13 = omega arith in
    rw (
      read-done p (10 + 15 * t.descriptors_count) (omega arith),
      tag,
      found,
      read-done p (11 + 15 * t.descriptors_count) (omega arith),
      e,
      lto_loop-done (len / 13) 0 p slot.lto_info (omega arith) (omega arith),
    )
