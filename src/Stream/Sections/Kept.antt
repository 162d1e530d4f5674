-- ===== src/Stream/Sections/Kept.antt =====
-- What sectionReceivedCallback and the wait for a section keep of the stream controller: everything
-- but the four tables and the sections that are still to come (stream_controller.c).
use ppu_tvi_os.Common.{Option, ℕ, ◌==◌, Bool, List, [], ◌∷◌, some}
use ppu_tvi_os.Common.Outcome.{◌>>=◌, read, start_of}
use ppu_tvi_os.Common.Always.{Always, >>=-Always, >>=-Always_any, if-Always, signalled-Always}
use ppu_tvi_os.Tables.Pat.{PatTable, parse_pat_table}
use ppu_tvi_os.Tables.Pmt.{PmtTable, parse_pmt_table}
use ppu_tvi_os.Tables.Tdt.{TdtTable, parse_tdt_table}
use ppu_tvi_os.Tables.Tot.{TotTable, parse_tot_table}
use ppu_tvi_os.Stream.State.{Controller}
use ppu_tvi_os.Stream.Sections.{
  given, pat_arrived, pmt_arrived, tdt_arrived, tot_arrived, section_received, wait_among,
  wait_demux,
}

module _ (P : Controller → Type 0)
    (stable : (c : Controller) (pat : Option PatTable) (pmt : Option PmtTable)
        (tdt : Option TdtTable) (tot : Option TotTable) (incoming : List (List ℕ))
      → P c
      → P (record c {
        pat_table = pat;
        pmt_table = pmt;
        tdt_table = tdt;
        tot_table = tot;
        incoming = incoming;
      })) where
  abbrev Kept : Bool × Controller → Type 0
  Kept r = P r.1

  pub section_received-Kept :
      (buffer : List ℕ) (c : Controller) → P c → Always Kept (section_received buffer c)
  unfolding section_received pat_arrived pmt_arrived tdt_arrived tot_arrived
  section_received-Kept buffer c v =
      let p = some (start_of buffer) in
      >>=-Always_any Kept (read (start_of buffer) 0) _ λ table_id.
        if-Always Kept (table_id == 0x00) _ _
          (>>=-Always_any Kept (given c c.pat_table >>= parse_pat_table p) _
            λ r. stable c r.1 c.pmt_table c.tdt_table c.tot_table c.incoming v)
          (if-Always Kept (table_id == 0x02) _ _
            (>>=-Always_any Kept (given c c.pmt_table >>= parse_pmt_table p) _
              λ r. stable c c.pat_table r.1 c.tdt_table c.tot_table c.incoming v)
            (if-Always Kept (table_id == 0x70) _ _
              (>>=-Always_any Kept (given c c.tdt_table >>= parse_tdt_table p) _
                λ r. stable c c.pat_table c.pmt_table r.1 c.tot_table c.incoming v)
              (if-Always Kept (table_id == 0x73) _ _
                (>>=-Always_any Kept (given c c.tot_table >>= parse_tot_table p) _
                  λ r. stable c c.pat_table c.pmt_table c.tdt_table r.1 c.incoming v)
                v)))

  wait_among-Kept :
      (sections : List (List ℕ)) (c : Controller) → P c → Always P (wait_among sections c)
  unfolding wait_among
  wait_among-Kept [] c v = tt
  wait_among-Kept (section ∷ rest) c v =
      let c1 = record c { incoming = rest } in
      let v1 = stable c c.pat_table c.pmt_table c.tdt_table c.tot_table rest v in
      >>=-Always Kept P (section_received section c1) _ (section_received-Kept section c1 v1)
        λ (signalled, c') v'.
          signalled-Always P signalled c' (wait_among rest c') v' (wait_among-Kept rest c' v')

  pub wait_demux-Kept : (c : Controller) → P c → Always P (wait_demux c)
  unfolding wait_demux
  wait_demux-Kept c v = wait_among-Kept c.incoming c v
