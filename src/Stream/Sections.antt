-- ===== src/Stream/Sections.antt =====
-- sectionReceivedCallback of stream_controller.c, which the demultiplexer calls on its own thread,
-- and the wait on demuxCond that it ends.
pub mod Delivery
pub mod Steady
pub mod Kept
use ppu_tvi_os.Common.{ℕ, Bool, true, false, ◌==◌, if◌then◌else◌, List, [], ◌∷◌, Option, none, some}
use ppu_tvi_os.Common.Outcome.{Outcome, done, fault, out_of_fuel, ◌>>=◌, read, Pointer, start_of}
use ppu_tvi_os.Tables.Code.{ParseErrorCode, tables_parse_ok, tables_parse_error}
use ppu_tvi_os.Tables.Pat.{parse_pat_table}
use ppu_tvi_os.Tables.Pmt.{parse_pmt_table}
use ppu_tvi_os.Tables.Tdt.{parse_tdt_table}
use ppu_tvi_os.Tables.Tot.{parse_tot_table}
use ppu_tvi_os.Stream.State.{Controller}

-- `pthread_cond_signal(&demuxCond)` is reached exactly if the parser accepts.
abbrev pub signals : ParseErrorCode → Bool
signals tables_parse_ok = true
signals tables_parse_error = false

-- The table that a pointer leads to. A NULL is passed on; behind streamControllerDeinit, which sets
-- threadExit, a table that is gone has been freed, and its use is a fault.
abbrev pub given : {A : Type 0} → Controller → Option A → Outcome (Option A)
given c (some t) = done (some t)
given c none = if c.thread_exit then fault else done none

-- The branches on the table id; the parsed tables are only printed besides.
unfoldable pub pat_arrived : Pointer → Controller → Outcome (Bool × Controller)
pat_arrived p c = do
  (code, pat) ← given c c.pat_table >>= parse_pat_table (some p)
  done (signals code, record c { pat_table = pat })

unfoldable pub pmt_arrived : Pointer → Controller → Outcome (Bool × Controller)
pmt_arrived p c = do
  (code, pmt) ← given c c.pmt_table >>= parse_pmt_table (some p)
  done (signals code, record c { pmt_table = pmt })

unfoldable pub tdt_arrived : Pointer → Controller → Outcome (Bool × Controller)
tdt_arrived p c = do
  (code, tdt) ← given c c.tdt_table >>= parse_tdt_table (some p)
  done (signals code, record c { tdt_table = tdt })

unfoldable pub tot_arrived : Pointer → Controller → Outcome (Bool × Controller)
tot_arrived p c = do
  (code, tot) ← given c c.tot_table >>= parse_tot_table (some p)
  done (signals code, record c { tot_table = tot })

-- sectionReceivedCallback: whether it signals the condition, and the tables behind it.
unfoldable pub section_received : List ℕ → Controller → Outcome (Bool × Controller)
unfolding pat_arrived pmt_arrived tdt_arrived tot_arrived
section_received buffer c = do
  let p = start_of buffer
  table_id ← read p 0
  if table_id == 0x00
      then pat_arrived p c
      else if table_id == 0x02
      then pmt_arrived p c
      else if table_id == 0x70
      then tdt_arrived p c
      else if table_id == 0x73
      then tot_arrived p c
      else done (false, c)

-- `pthread_cond_wait(&demuxCond, &demuxMutex)`: the sections that come in are handled one by one
-- until one signals. pthread_cond_wait has no timeout, so with no such section the thread waits on.
unfoldable pub wait_among : List (List ℕ) → Controller → Outcome Controller
unfolding section_received
wait_among [] c = out_of_fuel
wait_among (section ∷ rest) c = do
  (signalled, c') ← section_received section (record c { incoming = rest })
  elim signalled [ true ↦ done c' | false ↦ wait_among rest c' ]

unfoldable pub wait_demux : Controller → Outcome Controller
unfolding wait_among
wait_demux c = wait_among c.incoming c
