-- ===== src/Stream/Channels/Zapping.antt =====
-- Stepping through the channels (stream_controller.c). Channel n is service n + 1 of the PAT, so a
-- PAT with `count` services has the channels 0 to count - 2: the first service is skipped, as it
-- names the network information table.
use ppu_tvi_os.Common.{
  ℕ, zero, suc, ◌+◌, ◌-◌, ◌%◌, ◌≤◌, ◌<◌, ◌≡◌, refl, some, true, List, [], ◌∷◌, arith,
}
use native.Mathlib.Nat.{mod-eq_of_lt}
use ppu_tvi_os.Common.Int.{pos}
use ppu_tvi_os.Common.Outcome.{Outcome, done, ◌>>=◌, Returns}
use ppu_tvi_os.Tables.Pat.{PatTable}
use ppu_tvi_os.Stream.State.{Controller}
use ppu_tvi_os.Stream.Channels.{next_up, next_down, channel_up, channel_down}

pub next_up_round :
    (n count : ℕ) → n + 2 ≤ count → next_up (pos n) count ≡ pos ((n + 1) % (count - 1))
unfolding next_up
next_up_round n count h = grind arith

mod_wrap : (x m : ℕ) → x < m → (x + m) % m ≡ x
mod_wrap x m h = grind arith

pub next_down_round :
    (n count : ℕ)
    → n + 2 ≤ count
    → next_down (pos n) count ≡ pos ((n + (count - 1 - 1)) % (count - 1))
unfolding next_down
next_down_round zero count h =
    ground (arith, mod-eq_of_lt {n = 0 + (count - 1 - 1)} {m = count - 1} (omega arith))
next_down_round (suc n) count h =
    let e : suc n + (count - 1 - 1) ≡ n + (count - 1) = omega arith in
    rw e (ground (arith, mod_wrap n (count - 1)))

-- Among the channels of a PAT with at least two services, down undoes up and up undoes down.
pub next_down-next_up :
    (n count : ℕ)
    → n + 2 ≤ count
    → (next_down (next_up (pos n) count) count ≡ pos n)
      × (next_up (next_down (pos n) count) count ≡ pos n)
unfolding next_up next_down
next_down-next_up n count h = (ground arith, ground arith)

pub data ZapKey : Type 0 where
  up down : ZapKey

abbrev pub zap : ZapKey → Controller → Outcome Controller
zap up c = channel_up c >>= λ r. done r.1
zap down c = channel_down c >>= λ r. done r.1

abbrev pub zap_all : List ZapKey → Controller → Outcome Controller
zap_all [] c = done c
zap_all (k ∷ ks) c = zap k c >>= zap_all ks

-- Around a ring of `m` channels.
abbrev pub turn : ℕ → ZapKey → ℕ → ℕ
turn m up n = (n + 1) % m
turn m down n = (n + (m - 1)) % m

abbrev pub turn_all : ℕ → List ZapKey → ℕ → ℕ
turn_all m [] n = n
turn_all m (k ∷ ks) n = turn_all m ks (turn m k n)

-- The controller on channel `n`.
abbrev pub at_channel : Controller → ℕ → Controller
at_channel c n = record c { program_number = pos n; change_channel = true }

zap-turn :
    (key : ZapKey) (c : Controller) (pat : PatTable) (n : ℕ)
    → c.pat_table ≡ some pat
    → c.program_number ≡ pos n
    → n + 2 ≤ pat.service_info_count
    → (zap key c ≡ done (at_channel c (turn (pat.service_info_count - 1) key n)))
      × (turn (pat.service_info_count - 1) key n + 2 ≤ pat.service_info_count)
unfolding channel_up channel_down
zap-turn up c pat n loaded here room =
    (rw (loaded, here, next_up_round n pat.service_info_count room), omega arith)
zap-turn down c pat n loaded here room =
    (rw (loaded, here, next_down_round n pat.service_info_count room), omega arith)

-- Any sequence of channel keys, from a channel of a PAT with at least two services, moves around the
-- ring of its channels, up by one and down by one, and never leaves it.
pub zap_all-turn_all :
    (keys : List ZapKey) (c : Controller) (pat : PatTable) (n : ℕ)
    → c.pat_table ≡ some pat
    → c.program_number ≡ pos n
    → n + 2 ≤ pat.service_info_count
    → Returns (zap_all keys c) (λ c'.
      let m = turn_all (pat.service_info_count - 1) keys n in
      (c'.program_number ≡ pos m) × (m + 2 ≤ pat.service_info_count) × (c'.pat_table ≡ some pat))
zap_all-turn_all [] c pat n loaded here room = (c, refl, (here, room, loaded))
zap_all-turn_all (k ∷ ks) c pat n loaded here room =
    let (ran, room') = zap-turn k c pat n loaded here room in
    let m = turn (pat.service_info_count - 1) k n in
    rw ran (zap_all-turn_all ks (at_channel c m) pat m loaded refl room')
