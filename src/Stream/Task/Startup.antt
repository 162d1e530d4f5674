-- ===== src/Stream/Task/Startup.antt =====
-- The start of the stream controller when nothing goes wrong (stream_controller.c).
use ppu_tvi_os.Common.{◌≡◌, refl, ◌∙◌, true, false, some, List}
use ppu_tvi_os.Tables.Zeroed.{no_pat, no_pmt, no_tdt, no_tot}
use ppu_tvi_os.Stream.Platform.{
  Platform, Call, allocate, pat_memory, pmt_memory, tdt_memory, tot_memory,
}
use ppu_tvi_os.Stream.State.{Controller, log}
use ppu_tvi_os.Stream.Sections.Steady.{IsQuiet}
use ppu_tvi_os.Stream.Start.{set_filter}
use ppu_tvi_os.Stream.Task.{
  Progress, stopped, going, ◌>=>◌, locks_in_time, allocate_pat, allocate_pmt, allocate_tdt,
  allocate_tot, allocate_tables, open_tuner, lock_tuner, open_player, open_demux, prepare,
}

-- A stage that goes on, with a property of what it leaves.
abbrev Goes : (Controller → Type 0) → Progress → Type 0
Goes P (going c) = P c
Goes P (stopped c) = ⊥

>=>-Goes :
    (P Q : Controller → Type 0) (p : Progress) (f : Controller → Progress)
    → Goes P p
    → ((c : Controller) → P c → Goes Q (f c))
    → Goes Q (p >=> f)
>=>-Goes P Q (going c) f h next = next c h
>=>-Goes P Q (stopped c) f h next = absurd h

Goes-going :
    (P : Controller → Type 0) (p : Progress) → Goes P p → (c : Controller) × (p ≡ going c) × P c
Goes-going P (going c) h = (c, refl, h)
Goes-going P (stopped c) h = absurd h

-- A controller with freshly allocated tables, whose other data are those of `before`.
pub record IsFresh (before c : Controller) : Type 0 where
  pub pat : c.pat_table ≡ some no_pat
  pub pmt : c.pmt_table ≡ some no_pmt
  pub tdt : c.tdt_table ≡ some no_tdt
  pub tot : c.tot_table ≡ some no_tot
  pub program : c.program_number ≡ before.program_number
  pub queue : c.incoming ≡ before.incoming
  pub undated : c.time_tables_received ≡ before.time_tables_received
  pub callback : c.date_received_callback ≡ before.date_received_callback
  pub quiet : IsQuiet before c

-- Stages that neither touch the tables nor what comes in.
module _ (before c c' : Controller) (h : IsFresh before c)
    (tables : (c'.pat_table ≡ c.pat_table)
      × (c'.pmt_table ≡ c.pmt_table)
      × (c'.tdt_table ≡ c.tdt_table)
      × (c'.tot_table ≡ c.tot_table))
    (others : (c'.program_number ≡ c.program_number)
      × (c'.incoming ≡ c.incoming)
      × (c'.time_tables_received ≡ c.time_tables_received)
      × (c'.date_received_callback ≡ c.date_received_callback)
      × IsQuiet c c') where
  kept-IsFresh : IsFresh before c'
  kept-IsFresh =
      let (a, b, d, e) = tables in
      let (p, q, u, k, (volume, report)) = others in
      let (level, told) = h.quiet in
      record {
        pat = a ∙ h.pat;
        pmt = b ∙ h.pmt;
        tdt = d ∙ h.tdt;
        tot = e ∙ h.tot;
        program = p ∙ h.program;
        queue = q ∙ h.queue;
        undated = u ∙ h.undated;
        callback = k ∙ h.callback;
        quiet = (volume ∙ level, report ∙ told);
      }

module _ (platform : Platform)
    (willing : (made : List Call) (k : Call) → platform.fails made k ≡ false)
    (locks : (made : List Call) → locks_in_time (platform.statuses made) ≡ true) where
  allocate_pat-going :
      (c : Controller)
      → allocate_pat platform c
        ≡ going (record (log (allocate pat_memory) c) { pat_table = some no_pat })
  unfolding allocate_pat
  allocate_pat-going c = simp willing

  allocate_pmt-going :
      (c : Controller)
      → allocate_pmt platform c
        ≡ going (record (log (allocate pmt_memory) c) { pmt_table = some no_pmt })
  unfolding allocate_pmt
  allocate_pmt-going c = simp willing

  allocate_tdt-going :
      (c : Controller)
      → allocate_tdt platform c
        ≡ going (record (log (allocate tdt_memory) c) { tdt_table = some no_tdt })
  unfolding allocate_tdt
  allocate_tdt-going c = simp willing

  allocate_tot-going :
      (c : Controller)
      → allocate_tot platform c
        ≡ going (record (log (allocate tot_memory) c) { tot_table = some no_tot })
  unfolding allocate_tot
  allocate_tot-going c = simp willing

  allocate_tables-IsFresh : (c : Controller) → Goes (IsFresh c) (allocate_tables platform c)
  unfolding allocate_tables
  allocate_tables-IsFresh c =
      rw (allocate_pat-going, allocate_pmt-going, allocate_tdt-going, allocate_tot-going)
        (record {
          pat = refl;
          pmt = refl;
          tdt = refl;
          tot = refl;
          program = refl;
          queue = refl;
          undated = refl;
          callback = refl;
          quiet = (refl, refl);
        })

  module _ (before c : Controller) (h : IsFresh before c) where
    open_tuner-IsFresh : Goes (IsFresh before) (open_tuner platform c)
    unfolding open_tuner
    open_tuner-IsFresh =
        simp willing (
          kept-IsFresh before c _ h (refl, refl, refl, refl) (refl, refl, refl, refl, (refl, refl)))

    lock_tuner-IsFresh : Goes (IsFresh before) (lock_tuner platform c)
    unfolding lock_tuner
    lock_tuner-IsFresh =
        simp (willing, locks)
          (kept-IsFresh before c _ h (refl, refl, refl, refl)
            (refl, refl, refl, refl, (refl, refl)))

    open_player-IsFresh : Goes (IsFresh before) (open_player platform c)
    unfolding open_player
    open_player-IsFresh =
        simp willing (
          kept-IsFresh before c _ h (refl, refl, refl, refl) (refl, refl, refl, refl, (refl, refl)))

    open_demux-IsFresh : Goes (IsFresh before) (open_demux platform c)
    unfolding open_demux set_filter
    open_demux-IsFresh =
        simp willing (
          kept-IsFresh before c _ h (refl, refl, refl, refl) (refl, refl, refl, refl, (refl, refl)))

  pub prepare-IsFresh :
      (c : Controller) → (c' : Controller) × (prepare platform c ≡ going c') × IsFresh c c'
  unfolding prepare
  prepare-IsFresh c =
      let P = IsFresh c in
      Goes-going P _ (
        >=>-Goes P P _ (open_demux platform)
          (>=>-Goes P P _ (open_player platform)
            (>=>-Goes P P _ (lock_tuner platform)
              (>=>-Goes P P _ (open_tuner platform) (allocate_tables-IsFresh c)
                (open_tuner-IsFresh c))
              (lock_tuner-IsFresh c))
            (open_player-IsFresh c))
          (open_demux-IsFresh c))
