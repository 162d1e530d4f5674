-- ===== src/RemoteController.antt =====
-- remote_controller.h and remote_controller.c: the thread that reads the input device and calls the
-- registered callback. `ev_key` is EV_KEY of linux/input.h; `State` is what the callback works on.
pub mod Events
use ppu_tvi_os.Common.{
  ℕ, Bool, true, false, ◌==◌, ◌&&◌, ◌||◌, if◌then◌else◌, Option, none, some, List, [], ◌∷◌,
}
use ppu_tvi_os.Common.Outcome.{Outcome, done, fault, out_of_fuel, ◌>>=◌}

-- `RemoteControllerError`
pub data RemoteControllerError : Type 0 where
  rc_no_error rc_error rc_thread_error : RemoteControllerError

-- `struct input_event`, less its time.
pub record InputEvent : Type 0 where
  pub event_type : ℕ  -- uint16_t
  pub code : ℕ  -- uint16_t
  pub value : ℕ  -- int32_t, passed on as uint32_t

-- `EV_VALUE_KEYPRESS`, `EV_VALUE_AUTOREPEAT`
abbrev pub ev_value_keypress : ℕ
ev_value_keypress = 1

abbrev pub ev_value_autorepeat : ℕ
ev_value_autorepeat = 2

-- The file-scope variables.
pub record RemoteController (State : Type 0) : Type 0 where
  pub thread_exit : Bool
  pub callback : Option (ℕ → ℕ → ℕ → State → Outcome State)

-- What happens while the input thread waits in `read`: the read ends, with an event or with an
-- error, or another thread calls remoteControllerDeinit or unregisterRemoteControllerCallback.
pub data Happening : Type 0 where
  event_read : InputEvent → Happening
  read_failed : Happening
  deinit_called : Happening
  unregister_called : Happening

-- remoteControllerInit and remoteControllerDeinit, by whether the thread can be made or joined.
unfoldable pub remote_controller_init : Bool → RemoteControllerError
remote_controller_init created = if created then rc_no_error else rc_thread_error

module _ {State : Type 0} where
  -- What remoteControllerDeinit assigns before it waits for the thread to end.
  unfoldable pub ask_to_exit : RemoteController State → RemoteController State
  ask_to_exit rc = record rc { thread_exit = true }

  unfoldable pub remote_controller_deinit :
      Bool → RemoteController State → RemoteControllerError × RemoteController State
  unfolding ask_to_exit
  remote_controller_deinit joined rc =
      (if joined then rc_no_error else rc_thread_error, ask_to_exit rc)

  unfoldable pub register_remote_controller_callback :
      Option (ℕ → ℕ → ℕ → State → Outcome State)
      → RemoteController State
      → RemoteControllerError × RemoteController State
  register_remote_controller_callback none rc = (rc_error, rc)
  register_remote_controller_callback (some f) rc = (rc_no_error, record rc { callback = some f })

  unfoldable pub unregister_remote_controller_callback :
      RemoteController State → RemoteControllerError × RemoteController State
  unregister_remote_controller_callback rc = (rc_no_error, record rc { callback = none })

  -- `callback(…)`, a fault through NULL.
  unfoldable pub call_back :
      Option (ℕ → ℕ → ℕ → State → Outcome State) → InputEvent → State → Outcome State
  call_back none event s = fault
  call_back (some f) event s = f event.code event.event_type event.value s

-- The filter on the events.
unfoldable pub is_key : ℕ → InputEvent → Bool
is_key ev_key event =
    (event.event_type == ev_key)
    && ((event.value == ev_value_keypress) || (event.value == ev_value_autorepeat))

module _ {State : Type 0} (ev_key : ℕ) where
  unfoldable pub handle_event : RemoteController State → InputEvent → State → Outcome State
  handle_event rc event s = if is_key ev_key event then call_back rc.callback event s else done s

  -- The loop, from within `read`: without a further happening the thread waits for ever.
  unfoldable pub input_loop :
      List Happening → RemoteController State → State → Outcome (RemoteControllerError × State)
  input_loop [] rc s = out_of_fuel
  input_loop (event_read event ∷ rest) rc s = do
    s' ← handle_event rc event s
    if rc.thread_exit then done (rc_no_error, s') else input_loop rest rc s'
  input_loop (read_failed ∷ rest) rc s = done (rc_error, s)
  input_loop (deinit_called ∷ rest) rc s = input_loop rest (ask_to_exit rc) s
  input_loop (unregister_called ∷ rest) rc s =
      input_loop rest (unregister_remote_controller_callback rc).1 s

  -- inputEventTask: `opened` says whether the device can be opened.
  unfoldable pub input_event_task :
      Bool
      → List Happening
      → RemoteController State
      → State
      → Outcome (RemoteControllerError × State)
  input_event_task false happenings rc s = done (rc_error, s)
  input_event_task true happenings rc s =
      if rc.thread_exit then done (rc_no_error, s) else input_loop happenings rc s
