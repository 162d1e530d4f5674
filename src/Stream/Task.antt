-- ===== src/Stream/Task.antt =====
-- streamControllerInit, tunerStatusCallback and streamControllerTask of stream_controller.c, up to
-- the task's loop. A thread that returns early ends with SC_ERROR.
pub mod Balance
pub mod Startup
pub mod Dating
pub mod Streams
pub mod Running
pub mod Quiet
pub mod Undated
pub mod Tests
use ppu_tvi_os.Common.{ℕ, Bool, true, false, if◌then◌else◌, Option, none, some, List, [], ◌∷◌}
use ppu_tvi_os.Common.Int.{ℤ, pos, ◌-ℤ◌}
use ppu_tvi_os.Common.Outcome.{Outcome, done, out_of_fuel, ◌>>=◌}
use ppu_tvi_os.Tables.Zeroed.{no_pat, no_pmt, no_tdt, no_tot}
use ppu_tvi_os.Stream.Platform.{
  Platform, Call, LockStatus, status_locked, status_not_locked, thread_create, allocate, pat_memory,
  pmt_memory, tdt_memory, tot_memory, tuner_init, tuner_register_status_callback,
  tuner_lock_to_frequency, player_init, player_source_open, demux_register_section_filter_callback,
  player_deinit, tuner_deinit,
}
use ppu_tvi_os.Stream.State.{
  Controller, log, StreamControllerError, sc_no_error, sc_error, sc_thread_error,
}
use ppu_tvi_os.Stream.Sections.{wait_demux}
use ppu_tvi_os.Stream.Start.{set_filter, start_channel}

-- A thread goes on, or it has returned.
pub data Progress : Type 0 where
  going : Controller → Progress
  stopped : Controller → Progress

infixl 5 ◌>=>◌
abbrev pub ◌>=>◌ : Progress → (Controller → Progress) → Progress
going c >=> f = f c
stopped c >=> f = stopped c

-- `free` of the four tables.
abbrev pub free_tables : Controller → Controller
free_tables c = record c { pat_table = none; pmt_table = none; tdt_table = none; tot_table = none }

-- tunerStatusCallback: whether it signals statusCondition. While statusMutex is held by a thread
-- that has ended, it waits for ever.
unfoldable pub tuner_status_callback : LockStatus → Controller → Outcome Bool
tuner_status_callback status_locked c = if c.status_mutex_held then out_of_fuel else done true
tuner_status_callback status_not_locked c = done false

-- `pthread_cond_timedwait(&statusCondition, …)`: whether one of the statuses signals in time.
unfoldable pub locks_in_time : List LockStatus → Bool
locks_in_time [] = false
locks_in_time (status_locked ∷ rest) = true
locks_in_time (status_not_locked ∷ rest) = locks_in_time rest

module _ (platform : Platform) where
  unfoldable pub stream_controller_init : Controller → StreamControllerError × Controller
  stream_controller_init c =
      if platform.fails c.trace thread_create
      then (sc_thread_error, log thread_create c)
      else (sc_no_error, log thread_create c)

  -- The allocations: each one that fails returns with the tables before it still allocated.
  unfoldable pub allocate_pat : Controller → Progress
  allocate_pat c =
      let k = allocate pat_memory in
      if platform.fails c.trace k
      then stopped (record (log k c) { pat_table = none })
      else going (record (log k c) { pat_table = some no_pat })

  unfoldable pub allocate_pmt : Controller → Progress
  allocate_pmt c =
      let k = allocate pmt_memory in
      if platform.fails c.trace k
      then stopped (record (log k c) { pmt_table = none })
      else going (record (log k c) { pmt_table = some no_pmt })

  unfoldable pub allocate_tdt : Controller → Progress
  allocate_tdt c =
      let k = allocate tdt_memory in
      if platform.fails c.trace k
      then stopped (record (log k c) { tdt_table = none })
      else going (record (log k c) { tdt_table = some no_tdt })

  unfoldable pub allocate_tot : Controller → Progress
  allocate_tot c =
      let k = allocate tot_memory in
      if platform.fails c.trace k
      then stopped (record (log k c) { tot_table = none })
      else going (record (log k c) { tot_table = some no_tot })

  unfoldable pub allocate_tables : Controller → Progress
  allocate_tables c = allocate_pat c >=> allocate_pmt >=> allocate_tdt >=> allocate_tot

  -- Tuner_Init.
  unfoldable pub open_tuner : Controller → Progress
  open_tuner c =
      if platform.fails c.trace tuner_init
      then stopped (free_tables (log tuner_init c))
      else going (log tuner_init c)

  -- The registration of the status callback, whose failure is only printed, and the lock to the
  -- frequency with the wait for it. On a timeout statusMutex stays locked.
  unfoldable pub lock_tuner : Controller → Progress
  lock_tuner c0 =
      let c1 = log tuner_register_status_callback c0 in
      let f = c1.config_file in
      let k = tuner_lock_to_frequency f.tune_frequency f.tune_bandwidth f.tune_module in
      let c2 = log k c1 in
      if platform.fails c1.trace k
      then stopped (log tuner_deinit (free_tables c2))
      else if locks_in_time (platform.statuses c2.trace)
      then going c2
      else stopped (log tuner_deinit (free_tables (record c2 { status_mutex_held = true })))

  -- Player_Init and Player_Source_Open.
  unfoldable pub open_player : Controller → Progress
  open_player c0 =
      let c1 = log player_init c0 in
      if platform.fails c0.trace player_init
      then stopped (log tuner_deinit (free_tables c1))
      else (let c2 = record c1 { player_handle = platform.new_handle c0.trace player_init } in
          let k = player_source_open c2.player_handle in
          let c3 = log k c2 in
          if platform.fails c2.trace k
          then stopped (log tuner_deinit (log (player_deinit c3.player_handle) (free_tables c3)))
          else going (record c3 { source_handle = platform.new_handle c2.trace k }))

  -- Demux_Set_Filter and Demux_Register_Section_Filter_Callback, whose failures are only printed.
  unfoldable pub open_demux : Controller → Progress
  open_demux c =
      let (filter_set, c1) = set_filter platform 0x00 0x00 c in
      going (log demux_register_section_filter_callback c1)

  -- streamControllerTask up to the wait for the PAT.
  unfoldable pub prepare : Controller → Progress
  prepare c = allocate_tables c >=> open_tuner >=> lock_tuner >=> open_player >=> open_demux

  -- From the wait for the PAT to the loop.
  unfoldable pub first_channel : Controller → Outcome Controller
  first_channel c = do
    c1 ← wait_demux c
    c2 ← start_channel platform c1.program_number c1
    done (record c2 { is_initialized = true })

  unfoldable pub finish_start : Progress → Outcome (StreamControllerError × Controller)
  finish_start (stopped c) = done (sc_error, c)
  finish_start (going c) = do c' ← first_channel c; done (sc_no_error, c')

  -- streamControllerTask up to its loop.
  unfoldable pub start_task : Controller → Outcome (StreamControllerError × Controller)
  start_task c = finish_start (prepare c)
