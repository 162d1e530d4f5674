-- ===== src/Tables/Tot/Ends.antt =====
-- How the `while` loop of parseTotTable ends: it never runs on, and once its uint16_t length has
-- wrapped it can only leave the table (tables_parser.c).
use ppu_tvi_os.Common.{
  ℕ, zero, suc, ◌+◌, ◌-◌, ◌*◌, ◌/◌, ◌≤◌, ◌<◌, ◌≡◌, refl, ◌∙◌, Option, none, some, arith, length,
  set, length-set, All, ◌==◌, Bool-cases, inl, inr,
}
use ppu_tvi_os.Common.Words.{u8, low_bits, all_16_bits}
use ppu_tvi_os.Common.Outcome.{
  done, Pointer, read, read-lt, element, element-Halts, element-All, set-All, Halts, Faults,
  >>=-Halts, >>=-Halts_of, element-lt, >>=-Faults, >>=-eq-done, read-Halts,
}
use ppu_tvi_os.Tables.Tot.{
  LocalTimeOffsetDescriptor, TotTable, lto_loop, read_descriptor, take_off, tot_loop,
  parse_tot_table,
}
use native.Mathlib.Decide.{dec_lt}
use ppu_tvi_os.Tables.Tot.Steps.{read_descriptor-Halts, tot_loop-stop, tot_loop-round, after_round}

abbrev pub IsShort : LocalTimeOffsetDescriptor → Type 0
IsShort d = d.descriptor_length < 256

-- The types of tables.h: twenty descriptors with lengths of a byte.
pub record IsTyped (t : TotTable) : Type 0 where
  pub size : length t.descriptors ≡ 20
  pub lengths : All IsShort t.descriptors

-- A descriptor that is read changes no type and no count.
read_descriptor-IsTyped :
    (p : Pointer) (t t' : TotTable)
    → IsTyped t
    → read_descriptor p t ≡ done t'
    → IsTyped t' × (t'.descriptors_count ≡ t.descriptors_count)
unfolding read_descriptor
read_descriptor-IsTyped p t t' v e =
    let (tag, _, tested) = >>=-eq-done (read p (10 + 15 * t.descriptors_count)) _ e in
    elim (Bool-cases (tag == 0x58)) [
      | inr other ↦ kept (rw other at tested)
      | inl lto ↦
          let (slot, _, e1) =
            >>=-eq-done (element t.descriptors t.descriptors_count) _ (rw lto at tested) in
          let (len, got, e2) = >>=-eq-done (read p (11 + 15 * t.descriptors_count)) _ e1 in
          let (infos, _, e3) = >>=-eq-done (lto_loop (u8 (len / 13)) 0 p slot.lto_info) _ e2 in
          stored
            (record {
              descriptor_tag = tag;
              descriptor_length = len;
              lto_info = infos;
              number_of_infos = u8 (len / 13);
            })
            (read-lt p (11 + 15 * t.descriptors_count) got) e3
    ]
  where
    kept : done t ≡ done t' → IsTyped t' × (t'.descriptors_count ≡ t.descriptors_count)
    kept h = let h' : t ≡ t' = cc in rw (← h') (v, refl)

    stored :
        (d : LocalTimeOffsetDescriptor)
        → d.descriptor_length < 256
        → done (record t { descriptors = set t.descriptors t.descriptors_count d }) ≡ done t'
        → IsTyped t' × (t'.descriptors_count ≡ t.descriptors_count)
    stored d short h =
        let h' : record t { descriptors = set t.descriptors t.descriptors_count d } ≡ t' = cc in
        rw (← h') (
          record {
            size = length-set t.descriptors t.descriptors_count d ∙ v.size;
            lengths = set-All IsShort t.descriptors t.descriptors_count d v.lengths short;
          },
          refl,
        )

-- What the body of a round gives: the table after the `if`, and the descriptor whose length counts.
pub record Round (p : Pointer) (t t' : TotTable) (d : LocalTimeOffsetDescriptor) : Type 0 where
  pub typed : IsTyped t'
  pub count : t'.descriptors_count ≡ t.descriptors_count
  pub room : t.descriptors_count < 20
  pub short : d.descriptor_length < 256

pub round :
    (p : Pointer) (t t' : TotTable) (d : LocalTimeOffsetDescriptor)
    → IsTyped t
    → read_descriptor p t ≡ done t'
    → element t'.descriptors t.descriptors_count ≡ done d
    → Round p t t' d
round p t t' d v ran found =
    let (v', count) = read_descriptor-IsTyped p t t' v ran in
    record {
      typed = v';
      count = count;
      room = omega (arith, v'.size, element-lt t'.descriptors t.descriptors_count found);
      short = element-All IsShort t'.descriptors t.descriptors_count v'.lengths found;
    }

tot_loop-Halts :
    (fuel : ℕ) (p : Pointer) (loop_length : ℕ) (t : TotTable)
    → t.descriptors_count + fuel ≡ 21
    → t.descriptors_count ≤ 20
    → IsTyped t
    → Halts (tot_loop fuel p loop_length t)
tot_loop-Halts zero p loop_length t f le v = absurd (omega arith)
tot_loop-Halts (suc fuel) p loop_length t f le v = elim (dec_lt 4 loop_length) [
  | no over ↦ rw (tot_loop-stop fuel p loop_length t (omega arith)) λ e. cc
  | yes more ↦ rw (tot_loop-round fuel p loop_length t more) (
      >>=-Halts_of (read_descriptor p t) _ (read_descriptor-Halts p t) λ t' ran.
        >>=-Halts_of (element t'.descriptors t.descriptors_count)
          (after_round fuel p loop_length t t') (element-Halts t'.descriptors t.descriptors_count)
          λ d found.
            let r = round p t t' d v ran found in
            tot_loop-Halts fuel p (take_off loop_length (d.descriptor_length + 2))
              (record t' { descriptors_count = u8 (t'.descriptors_count + 1) })
              (omega (arith, r.count, r.room)) (omega (arith, r.count, r.room))
              (record { size = r.typed.size; lengths = r.typed.lengths }))
]

-- A loop whose length is more than the rounds that are left can take off.
pub tot_loop-Faults :
    (fuel : ℕ) (p : Pointer) (loop_length : ℕ) (t : TotTable)
    → t.descriptors_count + fuel ≡ 21
    → t.descriptors_count ≤ 20
    → IsTyped t
    → loop_length < 65536
    → 4 + 257 * (20 - t.descriptors_count) < loop_length
    → Faults (tot_loop fuel p loop_length t)
tot_loop-Faults zero p loop_length t f le v word long = absurd (omega arith)
tot_loop-Faults (suc fuel) p loop_length t f le v word long =
    rw (tot_loop-round fuel p loop_length t (omega arith)) (
      >>=-Faults (read_descriptor p t) _ (read_descriptor-Halts p t) λ t' ran.
        >>=-Faults (element t'.descriptors t.descriptors_count)
          (after_round fuel p loop_length t t') (element-Halts t'.descriptors t.descriptors_count)
          λ d found.
            let r = round p t t' d v ran found in
            tot_loop-Faults fuel p (take_off loop_length (d.descriptor_length + 2))
              (record t' { descriptors_count = u8 (t'.descriptors_count + 1) })
              (omega (arith, r.count, r.room)) (omega (arith, r.count, r.room))
              (record { size = r.typed.size; lengths = r.typed.lengths }) (omega arith)
              (omega (arith, r.count, r.room, r.short)))

-- parseTotTable ends on every input, in a result or a fault: 21 rounds are enough, since the
-- twenty-first has no slot to read the descriptor's length from. The table pointer is not NULL and
-- the table has its twenty descriptors.
pub parse_tot_table-Halts :
    (p : Option Pointer) (t : TotTable) → IsTyped t → Halts (parse_tot_table p (some t))
unfolding parse_tot_table
parse_tot_table-Halts none t v = λ e. cc
parse_tot_table-Halts (some p) t v = >>=-Halts _ _ (read-Halts p 0) λ b0.
    >>=-Halts _ _ (read-Halts p 1) λ b1. >>=-Halts _ _ (read-Halts p 2) λ b2.
      >>=-Halts _ _ (read-Halts p 3) λ b3. >>=-Halts _ _ (read-Halts p 4) λ b4.
        >>=-Halts _ _ (read-Halts p 8) λ b8. >>=-Halts _ _ (read-Halts p 9) λ b9.
          >>=-Halts _ _
            (tot_loop-Halts 21 p (low_bits (all_16_bits b8 b9) 12) (loaded b0 b1 b2 b3 b4 b8 b9)
              (omega arith) (omega arith) (record { size = v.size; lengths = v.lengths }))
            λ r e. cc
  where
    loaded : ℕ → ℕ → ℕ → ℕ → ℕ → ℕ → ℕ → TotTable
    loaded b0 b1 b2 b3 b4 b8 b9 = record t {
      descriptors_count = 0;
      table_id = b0;
      section_length = low_bits (all_16_bits b1 b2) 12;
      mjd = all_16_bits b3 b4;
      descriptors_loop_length = low_bits (all_16_bits b8 b9) 12;
    }
