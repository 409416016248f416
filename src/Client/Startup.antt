-- ===== src/Client/Startup.antt =====
-- The start of main of cmd/client/main.go, and startPool. What the configuration's file holds and
-- what the machine gives are arguments.
pub mod Outcome
use pisaller.Base.{
  ℕ, ◌≡◌, ltb, leb, Bool, true, false, not, Option, none, some, List, [], ◌∷◌, length, replicate,
  ◌==◌, if◌then◌else◌, Error, Result, ok, err,
}
use pisaller.Base.Int.{ℤ, pos, negsuc, to_ℕ}
use pisaller.Base.Parse.{Parse, done, fails, panics, stuck}
use pisaller.Config.Loading.{ClientConfig, LoadError, load_client_config}
use pisaller.Uuid.{Identity, UuidError, init_uuid}
use pisaller.Ech.Lookup.{Network, EchState, init_ech}
use pisaller.Pool.{Channel, EchPool}
use pisaller.Pool.Serve.{Slot, start}
use pisaller.Listen.{Listener, idle, fatal, serves, run_socks5, run_http}

-- What the machine gives: the answers to InitECH's query, those of net.Listen to the two listeners,
-- and the length of the longest slice that `make` can make.
pub record Machine : Type 0 where
  pub net : Network
  pub listen_socks5 : List ℕ → Result (Unit {0})
  pub listen_http : List ℕ → Result (Unit {0})
  pub longest : ℕ

-- The process that has started: its pool with the goroutine of each channel, and which listeners it
-- runs.
pub record Running : Type 0 where
  pub conf : ClientConfig
  pub identity : Identity
  pub ech : EchState
  pub pool : EchPool
  pub slots : List Slot
  pub http : Bool

-- The ends by log.Fatalf, a panic (or the endless loop that `Parse` has a case for), and the
-- process.
pub data Start : Type 0 where
  usage : Start
  no_config : LoadError → Start
  no_uuid : UuidError → Start
  panicked : Start
  no_listener : Error → Start
  running : Running → Start

abbrev pub empty_channel : Channel
empty_channel = record { smux_conn = none; rtt = pos 0 }

-- startPool; `make` panics at a negative number, and at one above the longest slice.
abbrev pub start_pool : ℕ → ℤ → ℤ → Option (EchPool × List Slot)
start_pool longest (negsuc n) timeout = none
start_pool longest (pos n) timeout =
    if leb n longest
    then some (
      record {
        channels = replicate n empty_channel;
        select_counter = 0;
        dial_timeout = to_ℕ timeout;
      },
      replicate n start,
    )
    else none

abbrev pub with_pool : ClientConfig → Identity → EchState → Option (EchPool × List Slot) → Start
with_pool conf st ech none = panicked
with_pool conf st ech (some (pool, slots)) = running (record {
  conf = conf;
  identity = st;
  ech = ech;
  pool = pool;
  slots = slots;
  http = not (length conf.local_http == 0);
})

-- A listener that cannot listen ends the process.
abbrev pub unless_fatal : Listener → Start → Start
unless_fatal idle s = s
unless_fatal (fatal e) s = no_listener e
unless_fatal (serves cfg conns closed) s = s

-- The goroutines of both listeners and startPool. Of several ends the first in this order stands
-- for them.
abbrev pub with_listeners : Machine → ClientConfig → Identity → EchState → Start
with_listeners m conf st ech = unless_fatal (run_socks5 m.listen_socks5 conf.local_socks5 []) (
    unless_fatal (run_http m.listen_http conf.local_http [])
      (with_pool conf st ech (start_pool m.longest conf.common.concur conf.common.dial_timeout)))

-- Behind InitECH, whose error is only logged.
abbrev pub after_ech : Machine → ClientConfig → Identity → Parse (Unit {0}) × EchState → Start
after_ech m conf st (panics, ech) = panicked
after_ech m conf st (stuck, ech) = panicked
after_ech m conf st (done x, ech) = with_listeners m conf st ech
after_ech m conf st (fails e, ech) = with_listeners m conf st ech

abbrev pub after_uuid : Machine → EchState → ClientConfig → Option UuidError × Identity → Start
after_uuid m ech conf (some e, st) = no_uuid e
after_uuid m ech conf (none, st) =
    after_ech m conf st
      (init_ech m.net conf.common.dns_server conf.common.ech_domain conf.common.fallback ech)

abbrev pub after_config :
    Machine → EchState → Identity → Option LoadError × Option ClientConfig → Start
after_config m ech st (some e, conf) = no_config e
after_config m ech st (none, none) = panicked
after_config m ech st (none, some conf) = after_uuid m ech conf (init_uuid conf.uuid st)

-- main, with the number of its arguments.
unfoldable pub start_client :
    Machine → ℕ → Result ClientConfig → Option ClientConfig → Identity → EchState → Start
start_client m args file conf st ech =
    if ltb args 2 then usage else after_config m ech st (load_client_config file conf)
