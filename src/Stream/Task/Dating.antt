-- ===== src/Stream/Task/Dating.antt =====
-- How the stream controller gets the date, and plays, when no call fails (stream_controller.c).
use ppu_tvi_os.Common.{ℕ, ◌≤◌, ◌≡◌, refl, ◌∙◌, ap, true, false, some, List, ◌∷◌, length, arith}
use ppu_tvi_os.Common.Int.{ℤ}
use ppu_tvi_os.Common.Outcome.{done, ◌>>=◌, start_of, byte_at, element}
use ppu_tvi_os.Tables.Code.{tables_parse_ok}
use ppu_tvi_os.Tables.Tdt.{TdtTable, parse_tdt_table}
use ppu_tvi_os.Tables.Tot.{LtoDescriptorInfo, LocalTimeOffsetDescriptor, TotTable, parse_tot_table}
use ppu_tvi_os.Stream.Platform.{Platform, Call, demux_set_filter, date_received}
use ppu_tvi_os.Stream.State.{Controller, log}
use ppu_tvi_os.Stream.Sections.{wait_demux}
use ppu_tvi_os.Stream.Sections.Delivery.{wait_demux-tdt, wait_demux-tot}
use ppu_tvi_os.Stream.Start.{
  free_filter, date_of, set_filter, play_video, play_audio, publish_date, parse_time_tables,
}

-- A section that a parser accepts, as the first thing that the demultiplexer delivers.
abbrev pub Starts : List ℕ → ℕ → Type 0
Starts section table_id = (1 ≤ length section) × (byte_at (start_of section) 0 ≡ table_id)

-- What the date needs of the time offset table: a first region.
pub record HasRegion (tot : TotTable) : Type 0 where
  pub descriptor : LocalTimeOffsetDescriptor
  pub region : LtoDescriptorInfo
  pub found : element tot.descriptors 0 ≡ done descriptor
  pub within : element descriptor.lto_info 0 ≡ done region

-- The streams are created, and the tables stay.
pub record IsPlaying (c c' : Controller) : Type 0 where
  pub pat : c'.pat_table ≡ c.pat_table
  pub tdt : c'.tdt_table ≡ c.tdt_table
  pub tot : c'.tot_table ≡ c.tot_table
  pub queue : c'.incoming ≡ c.incoming
  pub undated : c'.time_tables_received ≡ c.time_tables_received
  pub callback : c'.date_received_callback ≡ c.date_received_callback

module _ (platform : Platform)
    (willing : (made : List Call) (k : Call) → platform.fails made k ≡ false) where
  -- The controller with a filter set.
  abbrev pub filtered : ℕ → ℕ → Controller → Controller
  filtered pid table_id c =
      let k = demux_set_filter c.player_handle pid table_id in
      record (log k c) { filter_handle = platform.new_handle c.trace k }

  pub set_filter-filtered :
      (pid table_id : ℕ) (c : Controller)
      → set_filter platform pid table_id c ≡ (true, filtered pid table_id c)
  unfolding set_filter
  set_filter-filtered pid table_id c = simp willing

  publish_date-lem :
      (c : Controller) (tdt : TdtTable) (tot : TotTable)
      → c.tdt_table ≡ some tdt
      → c.tot_table ≡ some tot
      → HasRegion tot
      → c.date_received_callback ≡ true
      → publish_date platform c
        ≡ done (record (log (date_received (date_of tdt)) c) {
          current_date = date_of tdt;
          time_tables_received = true;
        })
  unfolding publish_date
  publish_date-lem c tdt tot a b h k = rw (a, b, h.found, h.within, k)

  -- The controller after each of the two waits of parseTimeTables, and at its end.
  abbrev pub with_tdt : TdtTable → List (List ℕ) → Controller → Controller
  with_tdt tdt queue c = record (filtered 0x0014 0x70 (free_filter c)) {
    incoming = queue;
    tdt_table = some tdt;
  }

  abbrev pub with_tot : TotTable → List (List ℕ) → Controller → Controller
  with_tot tot queue c = record (filtered 0x0014 0x73 (free_filter c)) {
    incoming = queue;
    tot_table = some tot;
  }

  abbrev pub dated : TdtTable → TotTable → List ℕ → List (List ℕ) → Controller → Controller
  dated tdt tot tot_section rest c =
      record (log (date_received (date_of tdt))
        (with_tot tot rest (with_tdt tdt (tot_section ∷ rest) c))) {
          current_date = date_of tdt;
          time_tables_received = true;
        }

  module _ (c : Controller) (tdt0 tdt : TdtTable) (tot0 tot : TotTable)
      (tdt_section tot_section : List ℕ) (rest : List (List ℕ))
      (tdt_there : c.tdt_table ≡ some tdt0) (tot_there : c.tot_table ≡ some tot0)
      (queue : c.incoming ≡ tdt_section ∷ tot_section ∷ rest) (tdt_starts : Starts tdt_section 0x70)
      (tot_starts : Starts tot_section 0x73)
      (tdt_parsed : parse_tdt_table (some (start_of tdt_section)) (some tdt0)
        ≡ done (tables_parse_ok, some tdt))
      (tot_parsed : parse_tot_table (some (start_of tot_section)) (some tot0)
        ≡ done (tables_parse_ok, some tot))
      (region : HasRegion tot) (called : c.date_received_callback ≡ true) where
    pub parse_time_tables-dated :
        parse_time_tables platform c ≡ done (dated tdt tot tot_section rest c)
    unfolding parse_time_tables
    parse_time_tables-dated =
        (simp set_filter-filtered)
        ∙ ap
            (λ m. m >>= λ c2.
              wait_demux (filtered 0x0014 0x73 (free_filter c2)) >>= publish_date platform)
            (wait_demux-tdt tdt_section (tot_section ∷ rest) (filtered 0x0014 0x70 (free_filter c))
              tdt queue tdt_starts.0 tdt_starts.1
              (ap (parse_tdt_table (some (start_of tdt_section))) tdt_there ∙ tdt_parsed))
        ∙ ap (λ m. m >>= publish_date platform)
            (wait_demux-tot tot_section rest
              (filtered 0x0014 0x73 (free_filter (with_tdt tdt (tot_section ∷ rest) c))) tot refl
              tot_starts.0 tot_starts.1
              (ap (parse_tot_table (some (start_of tot_section))) tot_there ∙ tot_parsed))
        ∙ publish_date-lem (with_tot tot rest (with_tdt tdt (tot_section ∷ rest) c)) tdt tot refl
            refl region called

  pub play_video-IsPlaying : (pid : ℤ) (c : Controller) → IsPlaying c (play_video platform pid c)
  unfolding play_video
  play_video-IsPlaying pid c = simp willing (ground arith)

  pub play_audio-IsPlaying : (pid : ℤ) (c : Controller) → IsPlaying c (play_audio platform pid c)
  unfolding play_audio
  play_audio-IsPlaying pid c = simp willing (ground arith)
