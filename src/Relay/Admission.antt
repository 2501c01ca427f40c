-- ===== src/Relay/Admission.antt =====
-- `_handle_client` of proxy/relay.py: which connections are relayed, and the lock of each target.
pub mod Exclusion
use retail_print_guard.Base.{
  ℕ, ◌+◌, ◌-◌, ◌≤◌, ◌<◌, ◌≡◌, refl, String, Bool, true, false, not, ◌&&◌, ◌||◌, Option, none, some,
  List, [], ◌∷◌, ◌++◌, ◌==◌, ltb, any_of, All, arith, length, str_eq, if◌then◌else◌,
}

-- An address of a device: the text of an address and a port.
abbrev pub Target : Type 0
Target = String × ℕ

abbrev pub target_eq : Target → Target → Bool
target_eq (a, p) (b, q) = str_eq a b && p == q

-- The module ipaddress, which the code calls: `ip_address` of a text is an address of version 4 or
-- of version 6 or raises, addresses are compared, and a network holds addresses.
pub record Addresses : Type 1 where
  pub Address : Type 0
  pub Network : Type 0
  pub ip_address : String → Option Address
  pub is_version_4 : Address → Bool
  pub same_address : Address → Address → Bool
  pub in_network : Address → Network → Bool

-- How a connection is answered.
pub data Admission : Type 0 where
  over_limit acl_rejected target_busy relayed : Admission

module _ (a : Addresses) where
  open a use {Address, Network, ip_address, is_version_4, same_address, in_network}

  -- The fields of `DeviceConfig` that the handler reads.
  pub record DeviceConfig : Type 0 where
    pub allowed_clients : List Address
    pub allowed_networks : List Network
    pub target : Target

  -- `_client_allowed`
  unfoldable pub client_allowed : DeviceConfig → String → Bool
  client_allowed device host = elim (ip_address host) [
    | none ↦ false
    | some address ↦
        if not (is_version_4 address)
        then false
        else any_of (same_address address) device.allowed_clients
          || any_of (in_network address) device.allowed_networks
  ]

  -- The tests, in their order. `active` counts this connection, `locked` are the targets in use.
  unfoldable pub admit : ℕ → ℕ → List Target → DeviceConfig → Option String → Admission
  admit max_connections active locked device peer =
      if ltb max_connections active then Admission.over_limit else elim peer [
        | none ↦ Admission.acl_rejected
        | some host ↦
            if not (client_allowed device host)
            then Admission.acl_rejected
            else if any_of (target_eq device.target) locked
            then Admission.target_busy
            else Admission.relayed
      ]

  -- A connection that is being relayed, by its number.
  pub record Relayed : Type 0 where
    pub number : ℕ
    pub target : Target

  -- The handlers at one moment: `active` counts those that have not returned, of which `leaving`
  -- only wait for their connection to close.
  pub record Handlers : Type 0 where
    pub active : ℕ
    pub leaving : ℕ
    pub locked : List Target
    pub relaying : List Relayed

  abbrev pub idle : Handlers
  idle = record { active = 0; leaving = 0; locked = []; relaying = [] }

  abbrev pub unlock : Target → List Target → List Target
  unlock t [] = []
  unlock t (u ∷ us) = if target_eq t u then us else u ∷ unlock t us

  -- A new connection. A free lock is taken with no other handler in between.
  unfoldable pub arrive : ℕ → DeviceConfig → Option String → ℕ → Handlers → Handlers
  arrive max_connections device peer number h =
      elim (admit max_connections (h.active + 1) h.locked device peer) [
        | Admission.relayed ↦ record h {
          active = h.active + 1;
          locked = device.target ∷ h.locked;
          relaying = record { number = number; target = device.target } ∷ h.relaying;
        }
        | _ ↦ record h { active = h.active + 1; leaving = h.leaving + 1 }
      ]

  abbrev pub target_of : ℕ → List Relayed → Option Target
  target_of n [] = none
  target_of n (r ∷ rs) = if r.number == n then some r.target else target_of n rs

  abbrev pub remove : ℕ → List Relayed → List Relayed
  remove n [] = []
  remove n (r ∷ rs) = if r.number == n then rs else r ∷ remove n rs

  -- The end of the relay of one connection: its lock is released.
  unfoldable pub finish : ℕ → Handlers → Handlers
  finish n h = elim (target_of n h.relaying) [
    | none ↦ h
    | some t ↦ record h {
      leaving = h.leaving + 1;
      locked = unlock t h.locked;
      relaying = remove n h.relaying;
    }
  ]

  -- A handler returns after its connection is closed.
  unfoldable pub leave : Handlers → Handlers
  leave h =
      if ltb 0 h.leaving then record h { active = h.active - 1; leaving = h.leaving - 1 } else h

  -- The moments that a service with a limit reaches.
  pub data Reach (max_connections : ℕ) : Handlers → Type 0 where
    start : Reach max_connections idle
    arrives :
        (device : DeviceConfig) (peer : Option String) (number : ℕ) {h : Handlers}
        → Reach max_connections h
        → Reach max_connections (arrive max_connections device peer number h)
    finishes : (n : ℕ) {h : Handlers} → Reach max_connections h → Reach max_connections (finish n h)
    leaves : {h : Handlers} → Reach max_connections h → Reach max_connections (leave h)
