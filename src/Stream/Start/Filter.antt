-- ===== src/Stream/Start/Filter.antt =====
-- Which service a channel number selects, and which numbers lead out of the table
-- (stream_controller.c).
use ppu_tvi_os.Common.{◌≡◌, refl, ◌+◌, ◌<◌, ℕ, true, false, some, arith, ◌⊎◌, inl, inr, Bool-cases}
use ppu_tvi_os.Common.Int.{ℤ, pos, negsuc, leb_ℤ}
use ppu_tvi_os.Common.Outcome.{done, Faults, Returns, element-fault}
use ppu_tvi_os.Tables.Pat.{PatTable}
use ppu_tvi_os.Tables.Pat.Loop.{IsValid}
use ppu_tvi_os.Stream.Platform.{Platform}
use ppu_tvi_os.Stream.State.{Controller, sc_no_error}
use ppu_tvi_os.Stream.Channels.{next_down, channel_down}
use ppu_tvi_os.Stream.Start.{start_channel, change_channel_key, task_round}

module _ (platform : Platform) (c : Controller) (pat : PatTable)
    (loaded : c.pat_table ≡ some pat) where
  -- A channel number that is negative, or at least the count of services, changes nothing: nothing
  -- is freed, filtered or played.
  pub change_channel_key_ignores :
      (channel_number : ℤ)
      → (leb_ℤ (pos 0) channel_number ≡ false)
        ⊎ (leb_ℤ (pos pat.service_info_count) channel_number ≡ true)
      → change_channel_key platform channel_number c ≡ done c
  unfolding change_channel_key
  change_channel_key_ignores channel_number (inl low) = rw low refl
  change_channel_key_ignores channel_number (inr high) =
      elim (Bool-cases (leb_ℤ (pos 0) channel_number)) [
        | inl h ↦ rw (loaded, h, high)
        | inr h ↦ rw h refl
      ]

  pub change_channel_key_starts :
      (n : ℕ)
      → n < pat.service_info_count
      → change_channel_key platform (pos n) c ≡ start_channel platform (pos n) c
  unfolding change_channel_key
  change_channel_key_starts n h = rw (loaded, high n h, low n)
    where
      low : (n : ℕ) → leb_ℤ (pos 0) (pos n) ≡ true
      low n = ground arith

      high :
          (n : ℕ) → n < pat.service_info_count → leb_ℤ (pos pat.service_info_count) (pos n) ≡ false
      high n h = ground arith

  -- With twenty services, 19 is the largest number that passes the test of changeChannelKey, and
  -- starting it reads behind the end of the service array; a number from 20 on and a negative one
  -- change nothing.
  pub change_channel_key_last :
      IsValid pat
      → pat.service_info_count ≡ 20
      → Faults (change_channel_key platform (pos 19) c)
        × ((n : ℕ) → change_channel_key platform (pos (20 + n)) c ≡ done c)
        × ((n : ℕ) → change_channel_key platform (negsuc n) c ≡ done c)
  unfolding change_channel_key start_channel
  change_channel_key_last v full = (
    rw (loaded, full, element-fault pat.pat_service_info_array 20 (omega arith)),
    λ n. change_channel_key_ignores (pos (20 + n)) (inr (ground (arith, full))),
    λ n. change_channel_key_ignores (negsuc n) (inl (ground arith)),
  )

  -- Stepping down from channel 0 of a PAT without services returns with the channel number -2 and
  -- the request to start it, on which the task's next round reads in front of the service array.
  pub channel_down_empty :
      pat.service_info_count ≡ 0
      → c.program_number ≡ pos 0
      → Returns (channel_down c) (λ r.
        (r.0 ≡ sc_no_error)
        × (r.1.program_number ≡ negsuc 1)
        × (r.1.change_channel ≡ true)
        × Faults (task_round platform r.1))
  unfolding channel_down next_down task_round start_channel
  channel_down_empty none_there here =
      let c1 = record c { program_number = negsuc 1; change_channel = true } in
      ((sc_no_error, c1), rw (loaded, here, none_there) refl, (refl, refl, refl, rw loaded refl))
