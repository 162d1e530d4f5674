-- ===== src/App/Television/Tests.antt =====
-- A television, and keys on the application that shows it, as concrete data (tv_app.c).
use ppu_tvi_os.Common.{[], ◌∷◌, none, map, false, refl, arith}
use ppu_tvi_os.Common.Outcome.{Returns}
use ppu_tvi_os.Stream.Tests.{four_services}
use ppu_tvi_os.App.Tests.{watching}
use ppu_tvi_os.App.Remote.Ready.{press_codes}
use ppu_tvi_os.App.Television.{Television, Shows, push_all, button_of}
use ppu_tvi_os.App.Television.Keys.{press_codes-push_all}

abbrev television : Television
television = record {
  selected = 0;
  tuning = false;
  volume = 10;
  number = [];
  bar = none;
  number_shown = false;
  info_shown = false;
  leaving = false;
}

watching-Shows : Shows 3 watching television
watching-Shows = record {
  tuned = record {
    pat = four_services;
    loaded = refl;
    channels = refl;
    place = refl;
    within = omega arith;
  };
  tuning = refl;
  heard = record { callback = refl; played = refl; agreed = refl; low = omega arith };
  seen = record { bar = refl; number = refl; info = refl };
  timer = false;
  typed = refl;
  leaving = refl;
}

-- The previous channel, less volume, muted twice, the digits 2 and 0, the date, and EXIT.
press_codes-push_all_example :
    Returns (press_codes (61 ∷ 64 ∷ 60 ∷ 60 ∷ 3 ∷ 11 ∷ 358 ∷ 102 ∷ []) watching) (λ s'.
      Shows 3 s'
        (push_all 3 (map button_of (61 ∷ 64 ∷ 60 ∷ 60 ∷ 3 ∷ 11 ∷ 358 ∷ 102 ∷ [])) television))
press_codes-push_all_example =
    press_codes-push_all 3 (61 ∷ 64 ∷ 60 ∷ 60 ∷ 3 ∷ 11 ∷ 358 ∷ 102 ∷ []) watching television
      watching-Shows
