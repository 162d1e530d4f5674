-- ===== src/Stream/Sections/Steady.antt =====
-- What the sections leave alone: the volume, the volume callback and the selected channel;
-- and that the tables stay typed (stream_controller.c).
use ppu_tvi_os.Common.{
  if◌then◌else◌, none, Option, ℕ, ◌≡◌, refl, ◌==◌, Bool, true, false, some, List, [], ◌∷◌,
}
use ppu_tvi_os.Common.Outcome.{fault, ◌>>=◌, Outcome, done, start_of, read, Pointer}
use ppu_tvi_os.Common.Always.{
  Always, >>=-Always, >>=-Always_any, Always-given, signalled-Always, Holds,
}
use ppu_tvi_os.Tables.Pat.{parse_pat_table}
use ppu_tvi_os.Tables.Pat.Typed.{IsTyped as IsTypedPat, parse_pat_table-IsTyped}
use ppu_tvi_os.Tables.Pmt.{parse_pmt_table}
use ppu_tvi_os.Tables.Pmt.Typed.{IsTyped as IsTypedPmt, parse_pmt_table-IsTyped}
use ppu_tvi_os.Tables.Tdt.{parse_tdt_table}
use ppu_tvi_os.Tables.Tdt.Typed.{IsTyped as IsTypedTdt, parse_tdt_table-IsTyped}
use ppu_tvi_os.Tables.Tot.{parse_tot_table}
use ppu_tvi_os.Tables.Tot.Typed.{IsTyped as IsTypedTot, parse_tot_table-IsTyped}
use ppu_tvi_os.Tables.Code.{Out}
use ppu_tvi_os.Stream.State.{Controller}
use ppu_tvi_os.Stream.Sections.{
  given, signals, pat_arrived, pmt_arrived, tdt_arrived, tot_arrived, section_received, wait_among,
  wait_demux,
}

-- A controller with the volume and the volume callback of another.
abbrev pub IsQuiet : Controller → Controller → Type 0
IsQuiet before c =
    (c.current_volume ≡ before.current_volume)
    × (c.volume_report_callback ≡ before.volume_report_callback)

-- Tables whose fields and counts are in their ranges; NULL and freed ones are not looked at.
abbrev pub AreTyped : Controller → Type 0
AreTyped c =
    Holds IsTypedPat c.pat_table
    × Holds IsTypedPmt c.pmt_table
    × Holds IsTypedTdt c.tdt_table
    × Holds IsTypedTot c.tot_table

-- With the same selected channel besides, and with typed tables if the other has them.
abbrev pub IsSteady : Controller → Controller → Type 0
IsSteady before c =
    IsQuiet before c × (c.program_number ≡ before.program_number) × (AreTyped before → AreTyped c)

pub IsSteady-self : (c : Controller) → IsSteady c c
IsSteady-self c = ((refl, refl), refl, λ v. v)

-- What a parser leaves of a table that is given to it.
given-Always :
    {A B : Type 0} (c : Controller) (P : A → Type 0) (Q : B → Type 0) (t : Option A)
    (parse : Option A → Outcome B)
    → Holds P t
    → ((t : Option A) → Holds P t → Always Q (parse t))
    → Always Q (given c t >>= parse)
given-Always c P Q (some t) parse v h = h (some t) v
given-Always c P Q none parse v h = released c.thread_exit
  where
    released : (b : Bool) → Always Q ((if b then fault else done none) >>= parse)
    released true = tt
    released false = h none tt

module _ (before : Controller) where
  abbrev pub Steady : Controller → Type 0
  Steady = IsSteady before

  pub if-Steady :
      (b : Bool) (c c' : Controller) → Steady c → Steady c' → Steady (if b then c else c')
  if-Steady true c c' h h' = h
  if-Steady false c c' h h' = h'

  -- A branch of sectionReceivedCallback: whether it signals, and a steady controller.
  abbrev Branch : Outcome (Bool × Controller) → Type 0
  Branch = Always (λ r. Steady r.1)

  pat_arrived-Branch : (p : Pointer) (c : Controller) → Steady c → Branch (pat_arrived p c)
  unfolding pat_arrived
  pat_arrived-Branch p c h =
      let (quiet, selected, typed) = h in
      >>=-Always (λ r. AreTyped before → Out IsTypedPat r) (λ r. Steady r.1)
        (given c c.pat_table >>= parse_pat_table (some p))
        (λ r. done (signals r.0, record c { pat_table = r.1 }))
        (Always-given (AreTyped before) (Out IsTypedPat)
          (given c c.pat_table >>= parse_pat_table (some p))
          (λ v.
            let (pat, pmt, tdt, tot) = typed v in
            given-Always c IsTypedPat (Out IsTypedPat) c.pat_table (parse_pat_table (some p)) pat
              (parse_pat_table-IsTyped (some p))))
        (λ r parsed.
          (quiet, selected, λ v. let (pat, pmt, tdt, tot) = typed v in (parsed v, pmt, tdt, tot)))

  pmt_arrived-Branch : (p : Pointer) (c : Controller) → Steady c → Branch (pmt_arrived p c)
  unfolding pmt_arrived
  pmt_arrived-Branch p c h =
      let (quiet, selected, typed) = h in
      >>=-Always (λ r. AreTyped before → Out IsTypedPmt r) (λ r. Steady r.1)
        (given c c.pmt_table >>= parse_pmt_table (some p))
        (λ r. done (signals r.0, record c { pmt_table = r.1 }))
        (Always-given (AreTyped before) (Out IsTypedPmt)
          (given c c.pmt_table >>= parse_pmt_table (some p))
          (λ v.
            let (pat, pmt, tdt, tot) = typed v in
            given-Always c IsTypedPmt (Out IsTypedPmt) c.pmt_table (parse_pmt_table (some p)) pmt
              (parse_pmt_table-IsTyped (some p))))
        (λ r parsed.
          (quiet, selected, λ v. let (pat, pmt, tdt, tot) = typed v in (pat, parsed v, tdt, tot)))

  tdt_arrived-Branch : (p : Pointer) (c : Controller) → Steady c → Branch (tdt_arrived p c)
  unfolding tdt_arrived
  tdt_arrived-Branch p c h =
      let (quiet, selected, typed) = h in
      >>=-Always (λ r. AreTyped before → Out IsTypedTdt r) (λ r. Steady r.1)
        (given c c.tdt_table >>= parse_tdt_table (some p))
        (λ r. done (signals r.0, record c { tdt_table = r.1 }))
        (Always-given (AreTyped before) (Out IsTypedTdt)
          (given c c.tdt_table >>= parse_tdt_table (some p))
          (λ v.
            let (pat, pmt, tdt, tot) = typed v in
            given-Always c IsTypedTdt (Out IsTypedTdt) c.tdt_table (parse_tdt_table (some p)) tdt
              (parse_tdt_table-IsTyped (some p))))
        (λ r parsed.
          (quiet, selected, λ v. let (pat, pmt, tdt, tot) = typed v in (pat, pmt, parsed v, tot)))

  tot_arrived-Branch : (p : Pointer) (c : Controller) → Steady c → Branch (tot_arrived p c)
  unfolding tot_arrived
  tot_arrived-Branch p c h =
      let (quiet, selected, typed) = h in
      >>=-Always (λ r. AreTyped before → Out IsTypedTot r) (λ r. Steady r.1)
        (given c c.tot_table >>= parse_tot_table (some p))
        (λ r. done (signals r.0, record c { tot_table = r.1 }))
        (Always-given (AreTyped before) (Out IsTypedTot)
          (given c c.tot_table >>= parse_tot_table (some p))
          (λ v.
            let (pat, pmt, tdt, tot) = typed v in
            given-Always c IsTypedTot (Out IsTypedTot) c.tot_table (parse_tot_table (some p)) tot
              (parse_tot_table-IsTyped (some p))))
        (λ r parsed.
          (quiet, selected, λ v. let (pat, pmt, tdt, tot) = typed v in (pat, pmt, tdt, parsed v)))

  pub section_received-Branch :
      (buffer : List ℕ) (c : Controller) → Steady c → Branch (section_received buffer c)
  unfolding section_received
  section_received-Branch buffer c h =
      >>=-Always_any (λ r. Steady r.1) (read p 0)
        (λ id. branches (id == 0x00) (id == 0x02) (id == 0x70) (id == 0x73))
        (λ id. branches-Branch (id == 0x00) (id == 0x02) (id == 0x70) (id == 0x73))
    where
      p : Pointer
      p = start_of buffer

      branches : (is_pat is_pmt is_tdt is_tot : Bool) → Outcome (Bool × Controller)
      branches is_pat is_pmt is_tdt is_tot =
          if is_pat
          then pat_arrived p c
          else if is_pmt
          then pmt_arrived p c
          else if is_tdt
          then tdt_arrived p c
          else if is_tot
          then tot_arrived p c
          else done (false, c)

      branches-Branch :
          (is_pat is_pmt is_tdt is_tot : Bool) → Branch (branches is_pat is_pmt is_tdt is_tot)
      branches-Branch true is_pmt is_tdt is_tot = pat_arrived-Branch p c h
      branches-Branch false true is_tdt is_tot = pmt_arrived-Branch p c h
      branches-Branch false false true is_tot = tdt_arrived-Branch p c h
      branches-Branch false false false true = tot_arrived-Branch p c h
      branches-Branch false false false false = h

  wait_among-Steady :
      (sections : List (List ℕ)) (c : Controller) → Steady c → Always Steady (wait_among sections c)
  unfolding wait_among
  wait_among-Steady [] c h = tt
  wait_among-Steady (section ∷ rest) c h =
      >>=-Always (λ r. Steady r.1) Steady (section_received section (record c { incoming = rest }))
        (λ r. elim r.0 [ true ↦ done r.1 | false ↦ wait_among rest r.1 ])
        (section_received-Branch section (record c { incoming = rest }) h)
        (λ r h'.
          signalled-Always Steady r.0 r.1 (wait_among rest r.1) h' (wait_among-Steady rest r.1 h'))

  pub wait_demux-Steady : (c : Controller) → Steady c → Always Steady (wait_demux c)
  unfolding wait_demux
  wait_demux-Steady c h = wait_among-Steady c.incoming c h
