-- ===== src/Stream/Pids/Choice.antt =====
-- startChannel plays the first video and the first audio stream of the program (stream_controller.c).
use ppu_tvi_os.Common.{
  ℕ, zero, suc, ◌+◌, ◌≤◌, ◌<◌, ◌≡◌, refl, sym, ◌∙◌, ap, Bool, if◌then◌else◌, List, [], ◌∷◌, length,
  take, drop, get_or, arith,
}
use ppu_tvi_os.Common.Int.{ℤ, pos, negsuc}
use ppu_tvi_os.Common.Outcome.{done, element-done}
use ppu_tvi_os.Tables.Pmt.{PmtElementaryInfo, PmtTable}
use ppu_tvi_os.Tables.Pmt.Bounds.{IsValid}
use ppu_tvi_os.Stream.Pids.{
  Pids, no_pid, is_no_pid, is_video, is_audio, choose, choose_loop, choose_pids,
}

-- The pid of the first stream whose type passes a test; -1 if there is none.
abbrev pub first_pid : (ℕ → Bool) → List PmtElementaryInfo → ℤ
first_pid test [] = no_pid
first_pid test (x ∷ xs) =
    let rest = first_pid test xs in if test x.stream_type then pos x.elementary_pid else rest

abbrev choose_all : List PmtElementaryInfo → Pids → Pids
choose_all [] s = s
choose_all (x ∷ xs) s = choose_all xs (choose x s)

drop_step :
    (xs : List PmtElementaryInfo) (i left : ℕ) (d : PmtElementaryInfo)
    → i < length xs
    → take (suc left) (drop i xs) ≡ get_or xs i d ∷ take left (drop (suc i) xs)
drop_step [] i left d h = absurd (omega arith)
drop_step (x ∷ xs) zero left d h = refl
drop_step (x ∷ xs) (suc i) left d h = drop_step xs i left d (omega arith)

choose_loop-done :
    (left i : ℕ) (infos : List PmtElementaryInfo) (s : Pids)
    → i + left ≤ length infos
    → choose_loop left i infos s ≡ done (choose_all (take left (drop i infos)) s)
unfolding choose_loop
choose_loop-done zero i infos s room = refl
choose_loop-done (suc left) i infos s room =
    let d : PmtElementaryInfo = record {
      stream_type = 0;
      elementary_pid = 0;
      es_info_length = 0;
    } in
    let next : i + 1 ≡ suc i = omega arith in
    rw (element-done infos i d (omega arith)) (
      choose_loop-done left (i + 1) infos (choose (get_or infos i d) s) (omega arith)
      ∙ ap (λ k. done (choose_all (take left (drop k infos)) (choose (get_or infos i d) s))) next
      ∙ ap (λ l. done (choose_all l s)) (sym (drop_step infos i left d (omega arith))))

-- What the loop has chosen so far stays; what is open is filled by the first that fits.
abbrev or_first : ℤ → (ℕ → Bool) → List PmtElementaryInfo → ℤ
or_first chosen test xs = if is_no_pid chosen then first_pid test xs else chosen

abbrev settled : Pids → List PmtElementaryInfo → Pids
settled s xs = record {
  audio_pid = or_first s.audio_pid is_audio xs;
  video_pid = or_first s.video_pid is_video xs;
}

-- A pid is -1 or a number.
abbrev IsPid : ℤ → Type 0
IsPid (pos n) = Unit
IsPid (negsuc n) = n ≡ 0

choose_first :
    (x : PmtElementaryInfo) (xs : List PmtElementaryInfo) (a v : ℤ)
    → IsPid a
    → IsPid v
    → let s : Pids = record { audio_pid = a; video_pid = v } in
      (settled (choose x s) xs ≡ settled s (x ∷ xs))
      × IsPid (choose x s).audio_pid
      × IsPid (choose x s).video_pid
unfolding choose
choose_first x xs (pos a) (pos v) ha hv = ground arith
choose_first x xs (pos a) (negsuc v) ha hv = ground arith
choose_first x xs (negsuc a) (pos v) ha hv = ground arith
choose_first x xs (negsuc a) (negsuc v) ha hv = ground arith

settled_nil :
    (a v : ℤ)
    → IsPid a
    → IsPid v
    → let s : Pids = record { audio_pid = a; video_pid = v } in s ≡ settled s []
settled_nil (pos a) (pos v) ha hv = refl
settled_nil (pos a) (negsuc v) ha hv = ground arith
settled_nil (negsuc a) (pos v) ha hv = ground arith
settled_nil (negsuc a) (negsuc v) ha hv = ground arith

choose_all-settled :
    (xs : List PmtElementaryInfo) (s : Pids)
    → IsPid s.audio_pid
    → IsPid s.video_pid
    → choose_all xs s ≡ settled s xs
choose_all-settled [] s ha hv = settled_nil s.audio_pid s.video_pid ha hv
choose_all-settled (x ∷ xs) s ha hv =
    let (kept, ha', hv') = choose_first x xs s.audio_pid s.video_pid ha hv in
    choose_all-settled xs (choose x s) ha' hv' ∙ kept

-- On a valid table the loop stays inside the array, and chooses the first video and the first audio
-- stream among the elements of the table, -1 where there is none.
pub choose_pids-first_pid :
    (pmt : PmtTable)
    → IsValid pmt
    → let elements = take pmt.elementary_info_count pmt.pmt_elementary_info_array in
      choose_pids pmt
      ≡ done (record {
        audio_pid = first_pid is_audio elements;
        video_pid = first_pid is_video elements;
      })
unfolding choose_pids
choose_pids-first_pid pmt v =
    let s : Pids = record { audio_pid = no_pid; video_pid = no_pid } in
    let elements = take pmt.elementary_info_count pmt.pmt_elementary_info_array in
    choose_loop-done pmt.elementary_info_count 0 pmt.pmt_elementary_info_array s (omega arith)
    ∙ ap done (choose_all-settled elements s refl refl)
