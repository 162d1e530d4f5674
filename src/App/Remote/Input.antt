-- ===== src/App/Remote/Input.antt =====
-- The input thread of remote_controller.c with the callback of tv_app.c: how the thread ends.
use ppu_tvi_os.Common.{ℕ, true, false, ◌≡◌, ap, ◌∙◌, List, [], ◌∷◌, ◌++◌, map}
use ppu_tvi_os.Common.Outcome.{Outcome, done, out_of_fuel, ◌>>=◌}
use ppu_tvi_os.RemoteController.{
  InputEvent, Happening, event_read, deinit_called, unregister_called, RemoteControllerError,
  unregister_remote_controller_callback, input_loop, input_event_task,
}
use ppu_tvi_os.RemoteController.Events.{
  key_codes, listening, input_loop-press_each, ending, input_loop-ending,
}
use ppu_tvi_os.App.Remote.{System, remote_controller_callback}
use ppu_tvi_os.App.Remote.Ready.{IsReady, press_codes, press_codes-IsReady}

module _ (ev_key : ℕ) (events : List InputEvent) where
  -- inputEventTask on a device that opens, with the application's callback registered.
  abbrev pub read_input : List Happening → System → Outcome (RemoteControllerError × System)
  read_input happenings s =
      input_event_task ev_key true (map event_read events ++ happenings)
        (listening remote_controller_callback false) s

  -- A ready application stays ready over the events, and the thread goes on with what happens then.
  pub read_input-press_codes :
      (happenings : List Happening) (s : System)
      → IsReady s
      → (s' : System) × IsReady s'
        × (press_codes (key_codes ev_key events) s ≡ done s')
        × (read_input happenings s
            ≡ input_loop ev_key happenings (listening remote_controller_callback false) s')
  unfolding input_event_task
  read_input-press_codes happenings s r =
      let (s', ran, r') = press_codes-IsReady (key_codes ev_key events) s r in
      (
        s',
        r',
        ran,
        input_loop-press_each remote_controller_callback ev_key events happenings s
            ∙ ap
                (λ m.
                  m >>= input_loop ev_key happenings (listening remote_controller_callback false))
                ran,
      )

  -- How the input thread of a ready application ends in main's order, in which the callback is
  -- unregistered before remoteControllerDeinit asks the thread to exit. The keys among the first
  -- events are handled, and leave the application ready; then, whatever events are read between the
  -- two calls, the thread ends without an error behind the first event after the second call, unless
  -- one of these events is a key: then it calls through NULL.
  pub input_event_task-ending :
      (between : List InputEvent) (last : InputEvent) (happenings : List Happening) (s : System)
      → IsReady s
      → (s' : System) × IsReady s'
        × (press_codes (key_codes ev_key events) s ≡ done s')
        × (read_input
              (unregister_called
                ∷ (map event_read between ++ (deinit_called ∷ event_read last ∷ happenings)))
              s
            ≡ ending (key_codes ev_key (between ++ (last ∷ []))) s')
  unfolding input_loop unregister_remote_controller_callback
  input_event_task-ending between last happenings s r =
      let (s', r', ran, reads) =
        read_input-press_codes
          (unregister_called
            ∷ (map event_read between ++ (deinit_called ∷ event_read last ∷ happenings)))
          s r in
      (s', r', ran, reads ∙ input_loop-ending ev_key last happenings between s')

  -- In the same order, the thread does not end without an event: remoteControllerDeinit waits on.
  pub input_event_task_waits :
      (s : System) → IsReady s → read_input (unregister_called ∷ deinit_called ∷ []) s ≡ out_of_fuel
  unfolding input_loop
  input_event_task_waits s r =
      let (s1, r1, ran1, reads) =
        read_input-press_codes (unregister_called ∷ deinit_called ∷ []) s r in
      reads
