-- ===== src/Stream/Start/Broadcast.antt =====
-- From the bytes of a program map section to the channel that is played (stream_controller.c,
-- tables_parser.c).
use ppu_tvi_os.Common.{
  ℕ, zero, suc, ◌+◌, ◌-◌, ◌≤◌, ◌<◌, ◌≡◌, refl, ◌∙◌, ap, ap₂, true, false, List, [], ◌∷◌, ◌++◌, some,
  arith, length, length-append, take, drop, All,
}
use ppu_tvi_os.Common.Int.{pos}
use ppu_tvi_os.Common.Outcome.{done, Returns, start_of, element}
use ppu_tvi_os.Tables.Pat.{PatTable, PatServiceInfo}
use ppu_tvi_os.Tables.Pmt.{PmtTableHeader, PmtElementaryInfo, PmtTable, parse_pmt_table}
use ppu_tvi_os.Tables.Pmt.Bounds.{IsValid}
use ppu_tvi_os.Tables.Pmt.Layout.{
  Entry, IsEntry, IsPmtHeader, infos, encode_pmt, entries_size, unmasked,
}
use ppu_tvi_os.Tables.Pmt.Roundtrip.{length-infos, Holds, parse_pmt_table-encode_pmt}
use ppu_tvi_os.Stream.Platform.{Platform, demux_set_filter}
use ppu_tvi_os.Stream.State.{Controller}
use ppu_tvi_os.Stream.Pids.{is_video, is_audio}
use ppu_tvi_os.Stream.Pids.Choice.{first_pid}
use ppu_tvi_os.Stream.Start.{free_filter, start_channel}
use ppu_tvi_os.Stream.Start.Play.{elements, start_channel-info_of}

take-append {ℓ} : {A : Type ℓ} (xs ys : List A) → take (length xs) (xs ++ ys) ≡ xs
take-append [] ys = refl
take-append (x ∷ xs) ys = ap (◌∷◌ x) (take-append xs ys)

length-drop {ℓ} : {A : Type ℓ} (n : ℕ) (xs : List A) → length (drop n xs) ≡ length xs - n
length-drop zero xs = omega arith
length-drop (suc n) [] = omega arith
length-drop (suc n) (x ∷ xs) = omega (arith, length-drop n xs)

module _ (before t : PmtTable) (h : PmtTableHeader) (xs : List PmtElementaryInfo)
    (held : Holds before t h xs) where
  Holds-elements : elements t ≡ xs
  Holds-elements =
      ap₂ take held.count held.slots
      ∙ take-append xs (drop (length xs) before.pmt_elementary_info_array)

  Holds-IsValid :
      length before.pmt_elementary_info_array ≡ 20
      → length xs ≤ 20
      → h.section_length < 4096
      → h.program_info_length < 4096
      → IsValid t
  Holds-IsValid size few short info_short = record {
    size =
        ap length held.slots
        ∙ omega (
          arith,
          length-append xs (drop (length xs) before.pmt_elementary_info_array),
          length-drop (length xs) before.pmt_elementary_info_array,
        );
    within = omega (arith, held.count);
    short = omega (arith, ap (λ (k : PmtTableHeader). k.section_length) held.header);
    info_short = omega (arith, ap (λ (k : PmtTableHeader). k.program_info_length) held.header);
  }

module _ (platform : Platform) (c : Controller) (pat : PatTable) (service : PatServiceInfo) (n : ℕ)
    (loaded : c.pat_table ≡ some pat)
    (found : element pat.pat_service_info_array (n + 1) ≡ done service)
    (accepted : platform.fails
        (free_filter c).trace
        (demux_set_filter c.player_handle service.pid 0x02)
      ≡ false)
    (dated : c.time_tables_received ≡ true) where
  -- If the next section to come in is the printed one of a program with at most twenty elementary
  -- streams, starting channel n (the filter being accepted and the date known) makes the channel
  -- info that of channel n with the pids of the program's first audio and first video stream, -1
  -- where it has none.
  pub start_channel-encode_pmt :
      (h : PmtTableHeader) (program_info : List ℕ) (es : List Entry) (crc : List ℕ)
      (rest : List (List ℕ)) (t : PmtTable)
      → IsPmtHeader h
      → All IsEntry es
      → length es ≤ 20
      → length crc ≡ 4
      → h.program_info_length ≡ length program_info
      → h.section_length ≡ 13 + length program_info + entries_size es
      → length t.pmt_elementary_info_array ≡ 20
      → c.pmt_table ≡ some t
      → c.incoming ≡ encode_pmt h program_info es crc ∷ rest
      → Returns (start_channel platform (pos n) c) (λ c'. c'.current_channel ≡ record {
        program_number = pos (n + 1);
        audio_pid = first_pid is_audio (infos es);
        video_pid = first_pid is_video (infos es);
      })
  start_channel-encode_pmt h program_info es crc rest t header entries few four counts counted size
        allocated queue =
      let section = encode_pmt h program_info es crc in
      let (r, ran, facts) =
        parse_pmt_table-encode_pmt h program_info es crc t header entries few size four counts
          counted in
      let (ok, t', stored, held) = facts in
      let parsed =
        ap (parse_pmt_table (some (start_of section))) allocated
        ∙ ran
        ∙ ap₂ (λ code table. done (code, table)) ok stored in
      let v =
        Holds-IsValid t t' (unmasked h) (infos es) held size (omega (arith, length-infos es))
          header.section_length header.program_info_length in
      let (c', run, result) =
        start_channel-info_of platform c pat service n loaded found accepted section rest t' queue
          (omega arith) (omega (arith, header.table_id)) parsed v dated in
      (
        c',
        run,
        result.0
            ∙ ap
                (λ xs. record {
                  program_number = pos (n + 1);
                  audio_pid = first_pid is_audio xs;
                  video_pid = first_pid is_video xs;
                })
                (Holds-elements t t' (unmasked h) (infos es) held),
      )
