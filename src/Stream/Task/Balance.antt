-- ===== src/Stream/Task/Balance.antt =====
-- What an early return of streamControllerTask leaves open (stream_controller.c).
use ppu_tvi_os.Common.{ℕ, suc, ◌+◌, ◌-◌, ◌≡◌, refl, if◌then◌else◌, List, [], ◌∷◌, arith}
use ppu_tvi_os.Stream.Platform.{
  Platform, Call, tuner_init, player_init, player_deinit, tuner_deinit,
}
use ppu_tvi_os.Stream.State.{Controller}
use ppu_tvi_os.Stream.Start.{set_filter}
use ppu_tvi_os.Stream.Task.{
  Progress, going, stopped, ◌>=>◌, allocate_pat, allocate_pmt, allocate_tdt, allocate_tot,
  allocate_tables, open_tuner, lock_tuner, open_player, open_demux, prepare,
}

module _ (platform : Platform) where
  -- How many tuners a run of calls has opened and not closed.
  abbrev pub open_tuners : List Call → ℕ
  open_tuners [] = 0
  open_tuners (tuner_init ∷ made) =
      let before = open_tuners made in if platform.fails made tuner_init then before else suc before
  open_tuners (tuner_deinit ∷ made) = open_tuners made - 1
  open_tuners (_ ∷ made) = open_tuners made

  abbrev pub open_players : List Call → ℕ
  open_players [] = 0
  open_players (player_init ∷ made) =
      let before = open_players made in
      if platform.fails made player_init then before else suc before
  open_players (player_deinit h ∷ made) = open_players made - 1
  open_players (_ ∷ made) = open_players made

  -- Since `before`, so many tuners and players more are open.
  abbrev pub Adds : ℕ → ℕ → Controller → Controller → Type 0
  Adds tuners players before c =
      (open_tuners c.trace ≡ tuners + open_tuners before.trace)
      × (open_players c.trace ≡ players + open_players before.trace)
      × (c.is_initialized ≡ before.is_initialized)

  -- A stage that goes on has so many open; one that returns has closed what it had opened.
  abbrev pub Balanced : ℕ → ℕ → Controller → Progress → Type 0
  Balanced tuners players before (going c) = Adds tuners players before c
  Balanced tuners players before (stopped c) = Adds 0 0 before c

  >=>-Balanced :
      (n m k l : ℕ) (before : Controller) (p : Progress) (f : Controller → Progress)
      → Balanced n m before p
      → ((c : Controller) → Adds n m before c → Balanced k l before (f c))
      → Balanced k l before (p >=> f)
  >=>-Balanced n m k l before (going c) f h next = next c h
  >=>-Balanced n m k l before (stopped c) f h next = h

  module _ (before c : Controller) (h : Adds 0 0 before c) where
    allocate_pat-Balanced : Balanced 0 0 before (allocate_pat platform c)
    unfolding allocate_pat
    allocate_pat-Balanced = ground arith

    allocate_pmt-Balanced : Balanced 0 0 before (allocate_pmt platform c)
    unfolding allocate_pmt
    allocate_pmt-Balanced = ground arith

    allocate_tdt-Balanced : Balanced 0 0 before (allocate_tdt platform c)
    unfolding allocate_tdt
    allocate_tdt-Balanced = ground arith

    allocate_tot-Balanced : Balanced 0 0 before (allocate_tot platform c)
    unfolding allocate_tot
    allocate_tot-Balanced = ground arith

  allocate_tables-Balanced : (c : Controller) → Balanced 0 0 c (allocate_tables platform c)
  unfolding allocate_tables
  allocate_tables-Balanced c =
      >=>-Balanced 0 0 0 0 c _ (allocate_tot platform)
        (>=>-Balanced 0 0 0 0 c _ (allocate_tdt platform)
          (>=>-Balanced 0 0 0 0 c _ (allocate_pmt platform)
            (allocate_pat-Balanced c c (omega arith, omega arith, refl)) (allocate_pmt-Balanced c))
          (allocate_tdt-Balanced c))
        (allocate_tot-Balanced c)

  module _ (before c : Controller) where
    open_tuner-Balanced : Adds 0 0 before c → Balanced 1 0 before (open_tuner platform c)
    unfolding open_tuner
    open_tuner-Balanced h = ground arith

    lock_tuner-Balanced : Adds 1 0 before c → Balanced 1 0 before (lock_tuner platform c)
    unfolding lock_tuner
    lock_tuner-Balanced h = ground arith

    open_player-Balanced : Adds 1 0 before c → Balanced 1 1 before (open_player platform c)
    unfolding open_player
    open_player-Balanced h = ground arith

    open_demux-Balanced : Adds 1 1 before c → Balanced 1 1 before (open_demux platform c)
    unfolding open_demux set_filter
    open_demux-Balanced h = ground arith

  -- When streamControllerTask gets as far as its wait for the PAT, it has opened one tuner and one
  -- player; when it returns before, whichever call has failed, every tuner and player that it has
  -- opened is closed again. It has not set isInitialized in either case.
  pub prepare-Balanced : (c : Controller) → Balanced 1 1 c (prepare platform c)
  unfolding prepare
  prepare-Balanced c =
      >=>-Balanced 1 1 1 1 c _ (open_demux platform)
        (>=>-Balanced 1 0 1 1 c _ (open_player platform)
          (>=>-Balanced 1 0 1 0 c _ (lock_tuner platform)
            (>=>-Balanced 0 0 1 0 c _ (open_tuner platform) (allocate_tables-Balanced c)
              (open_tuner-Balanced c))
            (lock_tuner-Balanced c))
          (open_player-Balanced c))
        (open_demux-Balanced c)
