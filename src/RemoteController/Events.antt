-- ===== src/RemoteController/Events.antt =====
-- The loop of inputEventTask over the events that it reads (remote_controller.c).
use ppu_tvi_os.Common.{
  ℕ, Bool, true, false, ◌≡◌, refl, if◌then◌else◌, none, some, List, [], ◌∷◌, ◌++◌, map,
}
use ppu_tvi_os.Common.Outcome.{Outcome, done, fault, out_of_fuel, ◌>>=◌, Faults}
use ppu_tvi_os.RemoteController.{
  InputEvent, Happening, event_read, deinit_called, unregister_called, RemoteController,
  RemoteControllerError, rc_no_error, is_key, handle_event, input_loop, call_back, ask_to_exit,
  unregister_remote_controller_callback,
}

-- The codes of the keys among the events.
abbrev pub key_codes : ℕ → List InputEvent → List ℕ
key_codes ev_key [] = []
key_codes ev_key (event ∷ events) =
    let rest = key_codes ev_key events in if is_key ev_key event then event.code ∷ rest else rest

pub >>=-assoc {ℓ} :
    {A B C : Type ℓ} (m : Outcome A) (f : A → Outcome B) (g : B → Outcome C) (h : A → Outcome C)
    → ((a : A) → h a ≡ (f a >>= g))
    → (m >>= h) ≡ (m >>= f >>= g)
>>=-assoc (done a) f g h e = e a
>>=-assoc fault f g h e = refl
>>=-assoc out_of_fuel f g h e = refl

module _ {State : Type 0} (press : ℕ → State → Outcome State) where
  -- One key after the other.
  abbrev pub press_each : List ℕ → State → Outcome State
  press_each [] s = done s
  press_each (code ∷ codes) s = press code s >>= press_each codes

  -- The callback that passes the key's code on.
  abbrev pub listening : Bool → RemoteController State
  listening exit = record { thread_exit = exit; callback = some (λ code _ _ s. press code s) }

  -- One event in front of what the later ones press.
  event-press_each :
      {R : Type 0} (key : Bool) (code : ℕ) (codes : List ℕ) (s : State) (k : State → Outcome R)
      (f : State → Outcome R)
      → ((s' : State) → k s' ≡ (press_each codes s' >>= f))
      → ((if key then press code s else done s) >>= k)
        ≡ (press_each (if key then code ∷ codes else codes) s >>= f)
  event-press_each true code codes s k f e = >>=-assoc (press code s) (press_each codes) f k e
  event-press_each false code codes s k f e = e s

  -- The events in front of any other happenings.
  pub input_loop-press_each :
      (ev_key : ℕ) (events : List InputEvent) (happenings : List Happening) (s : State)
      → input_loop ev_key (map event_read events ++ happenings) (listening false) s ≡ (
          press_each (key_codes ev_key events) s >>= input_loop ev_key happenings (listening false))
  unfolding input_loop handle_event call_back
  input_loop-press_each ev_key [] happenings s = refl
  input_loop-press_each ev_key (event ∷ events) happenings s =
      event-press_each (is_key ev_key event) event.code (key_codes ev_key events) s
        (input_loop ev_key (map event_read events ++ happenings) (listening false))
        (input_loop ev_key happenings (listening false))
        (input_loop-press_each ev_key events happenings)

  -- Behind unregisterRemoteControllerCallback the next key is a call through NULL.
  pub input_loop-unregister :
      (ev_key : ℕ) (event : InputEvent) (happenings : List Happening) (s : State)
      → is_key ev_key event ≡ true
      → Faults (
          input_loop ev_key (unregister_called ∷ event_read event ∷ happenings) (listening false) s)
  unfolding input_loop handle_event call_back unregister_remote_controller_callback
  input_loop-unregister ev_key event happenings s key = rw key refl

-- How the thread ends whose callback is gone, by the codes of the keys that it reads: with a key it
-- calls through NULL.
abbrev pub ending : {State : Type 0} → List ℕ → State → Outcome (RemoteControllerError × State)
ending [] s = done (rc_no_error, s)
ending (code ∷ codes) s = fault

module _ {State : Type 0} (ev_key : ℕ) (last : InputEvent) (happenings : List Happening) where
  -- The thread without a callback.
  abbrev pub muted : Bool → RemoteController State
  muted exit = record { thread_exit = exit; callback = none }

  last_event :
      (key : Bool) (s : State)
      → ((if key then fault else done s) >>= λ s'. done (rc_no_error, s'))
        ≡ ending (if key then last.code ∷ [] else []) s
  last_event true s = refl
  last_event false s = refl

  next_event :
      (key : Bool) (code : ℕ) (codes : List ℕ) (s : State)
      (k : State → Outcome (RemoteControllerError × State))
      → k s ≡ ending codes s
      → ((if key then fault else done s) >>= k) ≡ ending (if key then code ∷ codes else codes) s
  next_event true code codes s k h = refl
  next_event false code codes s k h = h

  -- Events, then remoteControllerDeinit, then one more event.
  pub input_loop-ending :
      (between : List InputEvent) (s : State)
      → input_loop ev_key
          (map event_read between ++ (deinit_called ∷ event_read last ∷ happenings))
          (muted false)
          s
        ≡ ending (key_codes ev_key (between ++ (last ∷ []))) s
  unfolding input_loop handle_event call_back ask_to_exit
  input_loop-ending [] s = last_event (is_key ev_key last) s
  input_loop-ending (event ∷ between) s =
      next_event (is_key ev_key event) event.code (key_codes ev_key (between ++ (last ∷ []))) s
        (input_loop ev_key
          (map event_read between ++ (deinit_called ∷ event_read last ∷ happenings)) (muted false))
        (input_loop-ending between s)
