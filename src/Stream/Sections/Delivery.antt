-- ===== src/Stream/Sections/Delivery.antt =====
-- Which sections end a wait (stream_controller.c).
use ppu_tvi_os.Common.{ℕ, ◌≤◌, ◌≡◌, ◌≢◌, List, ◌∷◌, Option, none, some, arith, length}
use ppu_tvi_os.Common.Outcome.{Outcome, done, ◌>>=◌, Pointer, start_of, byte_at, read-done}
use ppu_tvi_os.Tables.Code.{ParseErrorCode, tables_parse_ok}
use ppu_tvi_os.Tables.Pat.{PatTable, parse_pat_table}
use ppu_tvi_os.Tables.Tdt.{TdtTable, parse_tdt_table}
use ppu_tvi_os.Tables.Tot.{TotTable, parse_tot_table}
use ppu_tvi_os.Tables.Pmt.{PmtTable, parse_pmt_table}
use ppu_tvi_os.Stream.State.{Controller}
use ppu_tvi_os.Stream.Sections.{given, wait_demux}

-- A parser that accepts has been given a table.
given-parsed :
    {A : Type 0} (c : Controller) (t : Option A) (a : A)
    (parse : Option A → Outcome (ParseErrorCode × Option A))
    → parse none ≢ done (tables_parse_ok, some a)
    → parse t ≡ done (tables_parse_ok, some a)
    → (given c t >>= parse) ≡ done (tables_parse_ok, some a)
given-parsed c (some t) a parse refuses parsed = parsed
given-parsed c none a parse refuses parsed = absurd (refuses parsed)

no_pmt :
    (p : Pointer) (pmt : PmtTable)
    → parse_pmt_table (some p) none ≢ done (tables_parse_ok, some pmt)
unfolding parse_pmt_table
no_pmt p pmt e = cc

-- A program map section that parses ends the wait at once, with its table stored and the sections
-- behind it still to come.
pub wait_demux-pmt :
    (section : List ℕ) (rest : List (List ℕ)) (c : Controller) (pmt : PmtTable)
    → c.incoming ≡ section ∷ rest
    → 1 ≤ length section
    → byte_at (start_of section) 0 ≡ 2
    → parse_pmt_table (some (start_of section)) c.pmt_table ≡ done (tables_parse_ok, some pmt)
    → wait_demux c ≡ done (record c { incoming = rest; pmt_table = some pmt })
unfolding wait_demux
wait_demux-pmt section rest c pmt queue size id parsed =
    let found =
      given-parsed (record c { incoming = rest }) c.pmt_table pmt
        (parse_pmt_table (some (start_of section))) (no_pmt (start_of section) pmt) parsed in
    rw (queue, read-done (start_of section) 0 size, id, found)

no_pat :
    (p : Pointer) (pat : PatTable)
    → parse_pat_table (some p) none ≢ done (tables_parse_ok, some pat)
unfolding parse_pat_table
no_pat p pat e = cc

pub wait_demux-pat :
    (section : List ℕ) (rest : List (List ℕ)) (c : Controller) (pat : PatTable)
    → c.incoming ≡ section ∷ rest
    → 1 ≤ length section
    → byte_at (start_of section) 0 ≡ 0
    → parse_pat_table (some (start_of section)) c.pat_table ≡ done (tables_parse_ok, some pat)
    → wait_demux c ≡ done (record c { incoming = rest; pat_table = some pat })
unfolding wait_demux
wait_demux-pat section rest c pat queue size id parsed =
    let found =
      given-parsed (record c { incoming = rest }) c.pat_table pat
        (parse_pat_table (some (start_of section))) (no_pat (start_of section) pat) parsed in
    rw (queue, read-done (start_of section) 0 size, id, found)

no_tdt :
    (p : Pointer) (tdt : TdtTable)
    → parse_tdt_table (some p) none ≢ done (tables_parse_ok, some tdt)
unfolding parse_tdt_table
no_tdt p tdt e = cc

pub wait_demux-tdt :
    (section : List ℕ) (rest : List (List ℕ)) (c : Controller) (tdt : TdtTable)
    → c.incoming ≡ section ∷ rest
    → 1 ≤ length section
    → byte_at (start_of section) 0 ≡ 0x70
    → parse_tdt_table (some (start_of section)) c.tdt_table ≡ done (tables_parse_ok, some tdt)
    → wait_demux c ≡ done (record c { incoming = rest; tdt_table = some tdt })
unfolding wait_demux
wait_demux-tdt section rest c tdt queue size id parsed =
    let found =
      given-parsed (record c { incoming = rest }) c.tdt_table tdt
        (parse_tdt_table (some (start_of section))) (no_tdt (start_of section) tdt) parsed in
    rw (queue, read-done (start_of section) 0 size, id, found)

no_tot :
    (p : Pointer) (tot : TotTable)
    → parse_tot_table (some p) none ≢ done (tables_parse_ok, some tot)
unfolding parse_tot_table
no_tot p tot e = cc

pub wait_demux-tot :
    (section : List ℕ) (rest : List (List ℕ)) (c : Controller) (tot : TotTable)
    → c.incoming ≡ section ∷ rest
    → 1 ≤ length section
    → byte_at (start_of section) 0 ≡ 0x73
    → parse_tot_table (some (start_of section)) c.tot_table ≡ done (tables_parse_ok, some tot)
    → wait_demux c ≡ done (record c { incoming = rest; tot_table = some tot })
unfolding wait_demux
wait_demux-tot section rest c tot queue size id parsed =
    let found =
      given-parsed (record c { incoming = rest }) c.tot_table tot
        (parse_tot_table (some (start_of section))) (no_tot (start_of section) tot) parsed in
    rw (queue, read-done (start_of section) 0 size, id, found)

-- A section of any other kind is dropped: the wait goes on with the next one.
pub wait_demux-other :
    (section : List ℕ) (rest : List (List ℕ)) (c : Controller)
    → c.incoming ≡ section ∷ rest
    → 1 ≤ length section
    → byte_at (start_of section) 0 ≢ 0x00
    → byte_at (start_of section) 0 ≢ 0x02
    → byte_at (start_of section) 0 ≢ 0x70
    → byte_at (start_of section) 0 ≢ 0x73
    → wait_demux c ≡ wait_demux (record c { incoming = rest })
unfolding wait_demux
wait_demux-other section rest c queue size a b d e =
    rw (queue, read-done (start_of section) 0 size) (ground arith)
