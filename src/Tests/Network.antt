-- ===== src/Tests/Network.antt =====
-- The relay at work.
use retail_print_guard.Base.{ℕ, ◌≡◌, refl, String, true, false, none, some, List, [], ◌∷◌, str_eq}
use retail_print_guard.Spool.Types.{client_to_device, everywhere, StorageFailurePolicy}
use retail_print_guard.Spool.Session.{Session, new_session, mark_failure, open_command}
use retail_print_guard.Relay.Counters.{no_traffic}
use retail_print_guard.Relay.Pump.{Tick, Link}
use retail_print_guard.Relay.Transparent.{pump_loop, SameNetwork, capture_never_stops_relay}
use retail_print_guard.Relay.Duplex.{Snapshot, PumpTask, run_full_duplex, complete_means_both_ended}
use retail_print_guard.Relay.Admission.{
  Addresses, DeviceConfig, Handlers, start, arrives, arrive, admit, client_allowed, idle,
}
use retail_print_guard.Relay.Admission.Exclusion.{IsExclusive, Reach-IsExclusive}
use retail_print_guard.Tests.Samples.{papers, till, round}

-- A link with a queue for `max_events` commands, which holds one.
abbrev link : ℕ → Session → Link papers
link max_events session = record {
  counters = no_traffic;
  session = session;
  manager = record {
    running = true;
    max_events = max_events;
    queue = open_command till false ∷ [];
  };
  received = everywhere [];
  delivered = everywhere [];
}

abbrev capturing : Session
capturing = new_session true till StorageFailurePolicy.continue none

abbrev disabled : Session
disabled = new_session false till StorageFailurePolicy.continue (some "no spool")

abbrev request : List Tick
request = round (27 ∷ 64 ∷ []) ∷ round (10 ∷ []) ∷ []

-- A session with a full queue, and one with no capture at all.
capture_never_stops_relay_example :
    ((pump_loop papers client_to_device request (link 1 capturing)).0
      ≡ (pump_loop papers client_to_device request (link 16 disabled)).0)
    × SameNetwork papers
        (pump_loop papers client_to_device request (link 1 capturing)).1
        (pump_loop papers client_to_device request (link 16 disabled)).1
unfolding new_session mark_failure
capture_never_stops_relay_example =
    capture_never_stops_relay papers client_to_device request (link 1 capturing) (link 16 disabled)
      refl refl (λ text e. cc, (λ text e. cc, tt))
      (record { counters = refl; received = refl; delivered = refl })

-- The client closes first, and the device after it.
abbrev half_closed : Snapshot
half_closed = record {
  client_pump = PumpTask.returned;
  device_pump = PumpTask.running;
  idle = false;
  failure = none;
  device_first = false;
}

abbrev both_closed : Snapshot
both_closed = record half_closed { device_pump = PumpTask.returned }

complete_means_both_ended_example :
    (both_closed.client_pump ≡ PumpTask.returned) × (both_closed.device_pump ≡ PumpTask.returned)
unfolding run_full_duplex
complete_means_both_ended_example =
    complete_means_both_ended StorageFailurePolicy.abort half_closed both_closed refl
      (record { client_kept = λ _. refl; device_kept = λ e. cc; woken = refl }) refl

-- Addresses as texts, and no networks.
abbrev plain : Addresses
plain = record {
  Address = String;
  Network = ⊥;
  ip_address = λ host. some host;
  is_version_4 = λ address. true;
  same_address = str_eq;
  in_network = λ address network. false;
}

abbrev printer : DeviceConfig plain
printer = record {
  allowed_clients = "192.0.2.10" ∷ [];
  allowed_networks = [];
  target = ("192.0.2.30", 9100);
}

-- Two clients at once for one printer.
abbrev twice : Handlers plain
twice =
    arrive plain 8 printer (some "192.0.2.10") 2
      (arrive plain 8 printer (some "192.0.2.10") 1 (idle plain))

Reach-IsExclusive_example : IsExclusive plain 8 twice
Reach-IsExclusive_example =
    Reach-IsExclusive plain {m = 8} {h = twice}
      (arrives printer (some "192.0.2.10") 2 (arrives printer (some "192.0.2.10") 1 start))

-- The second finds the printer busy.
second_is_turned_away : (twice.active ≡ 2) × (twice.leaving ≡ 1)
unfolding arrive admit client_allowed
second_is_turned_away = (refl, refl)
