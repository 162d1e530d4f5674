-- ===== src/App/Remote/Dial.antt =====
-- From the digits on the remote controller to the channel that is played (tv_app.c,
-- stream_controller.c).
use ppu_tvi_os.Common.{
  decimal, ℕ, ◌+◌, ◌≤◌, ◌<◌, ◌≡◌, refl, ◌∙◌, ap, true, false, Bool, List, [], ◌∷◌, some, arith,
  length, inr, if◌then◌else◌,
}
use ppu_tvi_os.Common.Int.{pos}
use ppu_tvi_os.Common.Outcome.{done, ◌>>=◌, Returns, start_of, byte_at, element}
use ppu_tvi_os.Tables.Code.{tables_parse_ok}
use ppu_tvi_os.Tables.Pat.{PatTable, PatServiceInfo}
use ppu_tvi_os.Tables.Pmt.{PmtTable, parse_pmt_table}
use ppu_tvi_os.Tables.Pmt.Bounds.{IsValid}
use ppu_tvi_os.Stream.Platform.{Platform, demux_set_filter}
use ppu_tvi_os.Stream.State.{Controller}
use ppu_tvi_os.Stream.Start.{free_filter, change_channel_key}
use ppu_tvi_os.Stream.Start.Filter.{change_channel_key_ignores, change_channel_key_starts}
use ppu_tvi_os.Stream.Start.Play.{info_of, start_channel-info_of}
use ppu_tvi_os.App.Keypad.{Keypad, empty_keypad, input_channel_number, typed_channel, clear_keys}
use ppu_tvi_os.App.Keypad.Digits.{type_all, typed_channel-decimal}
use ppu_tvi_os.App.Remote.{System, register_current_date, change_channel}

-- What changeChannel makes of the controller that changeChannelKey leaves.
abbrev answered : System → Controller → System
answered s c = record s {
  controller = c;
  current_date_main =
      if s.controller.time_tables_received
      then s.current_date_main
      else register_current_date c.trace s.current_date_main;
  keypad = clear_keys s.keypad;
}

-- The keypad behind changeChannel: no key pressed, and no digit left.
cleared :
    (digits : List ℕ) (timer : Bool) (k : Keypad)
    → length digits ≤ 3
    → k ≡ type_all digits (empty_keypad timer)
    → ((clear_keys k).keys_pressed ≡ 0) × ((clear_keys k).keys ≡ 0 ∷ 0 ∷ 0 ∷ [])
unfolding clear_keys input_channel_number empty_keypad
cleared [] timer k few typed = rw typed (refl, refl)
cleared (a ∷ []) timer k few typed = rw typed (refl, refl)
cleared (a ∷ b ∷ []) timer k few typed = rw typed (refl, refl)
cleared (a ∷ b ∷ d ∷ []) timer k few typed = rw typed (refl, refl)
cleared (a ∷ b ∷ d ∷ e ∷ ds) timer k few typed = absurd (omega (arith, few))

module _ (platform : Platform) (s : System) (pat : PatTable) (timer : Bool) (digits : List ℕ)
    (loaded : s.controller.pat_table ≡ some pat)
    (typed : s.keypad ≡ type_all digits (empty_keypad timer)) (some_digit : 1 ≤ length digits)
    (few : length digits ≤ 3) (dated : s.controller.time_tables_received ≡ true) where
  change_channel-change_channel_key : change_channel platform s ≡ (
      change_channel_key platform (pos (decimal 0 digits)) s.controller >>= λ c.
      done (answered s c))
  unfolding change_channel
  change_channel-change_channel_key =
      ap
        (λ m.
          m >>= λ n. change_channel_key platform (pos n) s.controller >>= λ c. done (answered s c))
        (ap typed_channel typed ∙ typed_channel-decimal timer digits some_digit few)

  -- Once the date is known, a typed number of one to three digits that is at least the count of
  -- services only clears the keypad: nothing is played, freed or drawn.
  pub change_channel_unknown :
      pat.service_info_count ≤ decimal 0 digits
      → change_channel platform s ≡ done (record s { keypad = clear_keys s.keypad })
  change_channel_unknown high =
      change_channel-change_channel_key
      ∙ ap (λ m. m >>= λ c. done (answered s c))
          (change_channel_key_ignores platform s.controller pat loaded (pos (decimal 0 digits))
            (inr (ground arith)))
      ∙ ap
          (λ b. done (record s {
            current_date_main =
                if b
                then s.current_date_main
                else register_current_date s.controller.trace s.current_date_main;
            keypad = clear_keys s.keypad;
          }))
          dated

  -- One to three digits that write a number n below the count of services start channel n, once the
  -- date is known: if the filter on the pid of service n + 1 is accepted and the next section is a
  -- PMT section that parses to a valid table, the channel info becomes that of channel n under this
  -- table, and the keypad has no pressed key and no digit left.
  pub change_channel-info_of :
      (service : PatServiceInfo) (section : List ℕ) (rest : List (List ℕ)) (pmt : PmtTable)
      → decimal 0 digits < pat.service_info_count
      → element pat.pat_service_info_array (decimal 0 digits + 1) ≡ done service
      → platform.fails
          (free_filter s.controller).trace
          (demux_set_filter s.controller.player_handle service.pid 0x02)
        ≡ false
      → s.controller.incoming ≡ section ∷ rest
      → 1 ≤ length section
      → byte_at (start_of section) 0 ≡ 2
      → parse_pmt_table (some (start_of section)) s.controller.pmt_table
        ≡ done (tables_parse_ok, some pmt)
      → IsValid pmt
      → Returns (change_channel platform s) (λ s'.
        (s'.controller.current_channel ≡ info_of (decimal 0 digits) pmt)
        × (s'.controller.incoming ≡ rest)
        × (s'.keypad.keys_pressed ≡ 0)
        × (s'.keypad.keys ≡ 0 ∷ 0 ∷ 0 ∷ []))
  change_channel-info_of service section rest pmt low found accepted queue size id parsed v =
      let n = decimal 0 digits in
      let (c, ran, result) =
        start_channel-info_of platform s.controller pat service n loaded found accepted section rest
          pmt queue size id parsed v dated in
      (
        answered s c,
        change_channel-change_channel_key
            ∙ ap (λ m. m >>= λ c'. done (answered s c'))
                (change_channel_key_starts platform s.controller pat loaded n low ∙ ran),
        (
          result.0,
          result.1,
          (cleared digits timer s.keypad few typed).0,
          (cleared digits timer s.keypad few typed).1,
        ),
      )
