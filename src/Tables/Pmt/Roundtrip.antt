-- ===== src/Tables/Pmt/Roundtrip.antt =====
-- parsePmtTable inverts the layout of a program map section (tables_parser.c).
use ppu_tvi_os.Common.{
  ℕ, zero, suc, ◌+◌, ◌-◌, ◌≤◌, ◌<◌, ◌≡◌, refl, sym, ◌∙◌, ap, some, List, [], ◌∷◌, ◌++◌, arith,
  length, length-append, append_assoc, All, drop,
}
use ppu_tvi_os.Common.Slots.{fill_start}
use ppu_tvi_os.Common.Words.{u32}
use ppu_tvi_os.Common.Outcome.{
  done, Pointer, advance, start_of, Readable, Returns, Shows, Shows-start_of, Shows-advance,
}
use ppu_tvi_os.Tables.Code.{tables_parse_ok}
use ppu_tvi_os.Tables.Pmt.{
  PmtTableHeader, PmtElementaryInfo, PmtTable, pmt_loop, parse_pmt_elements, parse_pmt_table,
}
use ppu_tvi_os.Tables.Pmt.Steps.{
  header_at, element_at, stride_at, add_element, parse_pmt_header-done, pmt_loop-stop,
  pmt_loop-round,
}
use ppu_tvi_os.Tables.Pmt.Bounds.{IsValid, add_element-IsValid, section_length_at, restart}
use ppu_tvi_os.Tables.Pmt.Layout.{
  Entry, infos, encode_pmt_header, encode_entry, encode_entries, entries_size, encode_pmt, IsEntry,
  IsPmtHeader, unmasked, header_at-encode, length-encode_entries, element_at-encode, add_elements,
  add_elements-nil, add_elements-cons,
}

pub length-infos : (es : List Entry) → length (infos es) ≡ length es
length-infos [] = refl
length-infos (e ∷ es) = ap suc (length-infos es)

-- The loop over printed entries that fit.
pmt_loop_fits :
    (es : List Entry) (fuel : ℕ) (p : Pointer) (parsed_length : ℕ) (t : PmtTable) (rest : List ℕ)
    → length es < fuel
    → IsValid t
    → All IsEntry es
    → Shows p (encode_entries es rest)
    → Readable p (entries_size es)
    → t.pmt_header.section_length ≡ parsed_length + entries_size es
    → t.elementary_info_count + length es ≤ 20
    → pmt_loop fuel p parsed_length t ≡ done (tables_parse_ok, add_elements t (infos es))
pmt_loop_fits es zero p parsed_length t rest f v ok h r len room = absurd (omega arith)
pmt_loop_fits [] (suc fuel) p parsed_length t rest f v ok h r len room =
    pmt_loop-stop fuel p parsed_length t (omega arith)
    ∙ ap (λ k. done (tables_parse_ok, k)) (sym (add_elements-nil t))
pmt_loop_fits (e ∷ es) (suc fuel) p parsed_length t rest f v ok h r len room =
    let found : element_at p ≡ e.info = element_at-encode p e (encode_entries es rest) ok.0 h in
    let stride : length (encode_entry e) ≡ stride_at p =
      omega (arith, ap (λ (k : PmtElementaryInfo). k.es_info_length) found, ok.0.counted) in
    pmt_loop-round fuel p parsed_length t (omega arith) (omega arith) v.size (omega arith)
    ∙ pmt_loop_fits es fuel (advance p (stride_at p)) (u32 (parsed_length + stride_at p))
        (add_element t (element_at p)) rest (omega arith)
        (add_element-IsValid t (element_at p) v (omega arith)) ok.1
        (rw (← stride) (Shows-advance p (encode_entry e) (encode_entries es rest) h)) (omega arith)
        (omega (arith, v.short)) (omega arith)
    ∙ ap (λ k. done (tables_parse_ok, k))
        (add_elements-cons t (element_at p) (infos es) (omega arith)
          ∙ ap (λ x. add_elements t (x ∷ infos es)) found)

-- The table holds this header and, from slot 0 on, these elements; the slots behind them are those
-- of the table before.
pub record Holds (before t : PmtTable) (h : PmtTableHeader) (xs : List PmtElementaryInfo)
    : Type 0 where
  pub header : t.pmt_header ≡ h
  pub count : t.elementary_info_count ≡ length xs
  pub slots : t.pmt_elementary_info_array ≡ xs ++ drop (length xs) before.pmt_elementary_info_array

module _ (h : PmtTableHeader) (program_info : List ℕ) (es : List Entry) (crc : List ℕ)
    (t : PmtTable) (header : IsPmtHeader h) (entries : All IsEntry es) (few : length es ≤ 20)
    (size : length t.pmt_elementary_info_array ≡ 20) where
  -- Parsing the printed section of a header, program descriptors and at most twenty elementary
  -- streams, with length fields that count what they stand for and a CRC of four bytes, succeeds
  -- and stores those streams in order, in front of the older slots. The header comes back as it
  -- was, but for 0xE000 added to the PCR pid.
  pub parse_pmt_table-encode_pmt :
      length crc ≡ 4
      → h.program_info_length ≡ length program_info
      → h.section_length ≡ 13 + length program_info + entries_size es
      → Returns
          (parse_pmt_table (some (start_of (encode_pmt h program_info es crc))) (some t))
          (λ r.
            (r.0 ≡ tables_parse_ok)
            × (t' : PmtTable) × (r.1 ≡ some t')
            × Holds t t' (unmasked h) (infos es))
  unfolding parse_pmt_table parse_pmt_elements
  parse_pmt_table-encode_pmt four info_counts counts = (
    (tables_parse_ok, some final),
    parsed,
    (
      refl,
      final,
      refl,
      record {
        header = shown;
        count = omega arith;
        slots = fill_start t.pmt_elementary_info_array (infos es) (omega (arith, length-infos es));
      },
    ),
  )
    where
      p : Pointer
      p = start_of (encode_pmt h program_info es crc)

      t0 : PmtTable
      t0 = restart t (header_at p)

      final : PmtTable
      final = add_elements t0 (infos es)

      shown : header_at p ≡ unmasked h
      shown =
          ap (λ bytes. header_at (start_of bytes))
            (append_assoc (encode_pmt_header h) program_info (encode_entries es crc))
          ∙ header_at-encode h (program_info ++ encode_entries es crc) header

      shown_length : section_length_at p ≡ h.section_length
      shown_length = ap (λ (k : PmtTableHeader). k.section_length) shown

      shown_info : (header_at p).program_info_length ≡ h.program_info_length
      shown_info = ap (λ (k : PmtTableHeader). k.program_info_length) shown

      buffer_size : length p.buffer ≡ 12 + length program_info + entries_size es + 4
      buffer_size = omega (
        arith,
        length-append (encode_pmt_header h ++ program_info) (encode_entries es crc),
        length-append (encode_pmt_header h) program_info,
        length-encode_entries es crc,
      )

      fresh : IsValid t0
      fresh = record {
        size = size;
        within = omega arith;
        short = omega arith;
        info_short = omega arith;
      }

      visible : Shows (advance p (12 + (header_at p).program_info_length)) (encode_entries es crc)
      visible =
          let front = encode_pmt_header h ++ program_info in
          let e : length front ≡ 12 + (header_at p).program_info_length =
            omega (arith, shown_info, length-append (encode_pmt_header h) program_info) in
          rw (← e) (
            Shows-advance p front (encode_entries es crc)
              (Shows-start_of (encode_pmt h program_info es crc)))

      parsed : parse_pmt_table (some p) (some t) ≡ done (tables_parse_ok, some final)
      parsed =
          rw (parse_pmt_header-done p t.pmt_header (omega (arith, buffer_size)) (omega arith)) (
            rw (
              pmt_loop_fits es 21 (advance p (12 + (header_at p).program_info_length))
                (u32 (12 + (header_at p).program_info_length + 4 - 3)) t0 crc (omega arith) fresh
                entries visible (omega (arith, buffer_size, shown_info))
                (omega (arith, shown_info, shown_length)) (omega arith)))
