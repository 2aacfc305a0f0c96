-- ===== src/NostrFile/Control/Relays.antt =====
-- `ControlRelaySet` of src/code/nostr_file/control.rs. The share of publishes given up is compared as
-- twice the one count against the other: the quotient of counts below 2^52 is on the same side of a half.
pub mod Kept
pub mod Reached
pub mod Demoted
mod Runs
use ptransfer_cli.Common.{
  ℕ, ◌+◌, ◌*◌, List, [], ◌∷◌, ◌++◌, Option, none, some, Bool, true, false, ◌||◌, leb, ltb,
  if◌then◌else◌, length,
}
use ptransfer_cli.Common.Bytes.{bytes_eq}
use ptransfer_cli.NostrFile.Control.{has_relay, control_relay_max}

abbrev pub control_demote_min_publishes : ℕ
control_demote_min_publishes = 6

-- `policy` is the number of relays below which none is demoted.
pub record ControlRelaySet : Type 0 where
  pub active : List (List ℕ)
  pub known : List (List ℕ)
  pub settled : List (List ℕ × (ℕ × ℕ))
  pub policy : Option ℕ

abbrev pub take_on : ControlRelaySet → List ℕ → ControlRelaySet
take_on s relay = record s { active = s.active ++ relay ∷ []; known = relay ∷ s.known }

abbrev pub take_new : ControlRelaySet → List ℕ → ControlRelaySet
take_new s relay = if has_relay relay s.known then s else take_on s relay

unfoldable pub new_from : ControlRelaySet → List (List ℕ) → ControlRelaySet
new_from s [] = s
new_from s (relay ∷ relays) = new_from (take_new s relay) relays

unfoldable pub new : List (List ℕ) → Option ℕ → ControlRelaySet
unfolding new_from
new relays policy =
    new_from (record { active = []; known = []; settled = []; policy = policy }) relays

-- `settled.entry(relay).or_default()`, and its update.
abbrev pub tally_of : List ℕ → List (List ℕ × (ℕ × ℕ)) → ℕ × ℕ
tally_of relay [] = (0, 0)
tally_of relay ((r, tally) ∷ settled) = if bytes_eq relay r then tally else tally_of relay settled

abbrev pub set_tally : List ℕ → ℕ × ℕ → List (List ℕ × (ℕ × ℕ)) → List (List ℕ × (ℕ × ℕ))
set_tally relay tally [] = (relay, tally) ∷ []
set_tally relay tally ((r, t) ∷ settled) =
    let rest = set_tally relay tally settled in
    if bytes_eq relay r then (r, tally) ∷ settled else (r, t) ∷ rest

unfoldable pub accepted : ControlRelaySet → List ℕ → ControlRelaySet
accepted s relay =
    let tally = tally_of relay s.settled in
    record s { settled = set_tally relay (tally.0 + 1, tally.1) s.settled }

-- `active.remove(at)` at the first place of a relay, where it has one.
unfoldable pub remove : List ℕ → List (List ℕ) → List (List ℕ)
remove relay [] = []
remove relay (x ∷ xs) = let rest = remove relay xs in if bytes_eq relay x then xs else x ∷ rest

-- Whether what a relay threw away condemns it.
abbrev pub is_spared : ControlRelaySet → ℕ → ℕ × ℕ → Bool
is_spared s min_relays (accepted, given_up) =
    leb (length s.active) min_relays
    || ltb (accepted + given_up) control_demote_min_publishes
    || ltb (2 * given_up) (accepted + given_up)

-- Where there is a policy; with the state, whether the relay is named as demoted.
abbrev pub demote_by : Option ℕ → ControlRelaySet → List ℕ → ℕ × ℕ → ControlRelaySet × Bool
demote_by none s relay tally = (s, false)
demote_by (some min_relays) s relay tally =
    if is_spared s min_relays tally
    then (s, false)
    else (record s { active = remove relay s.active }, has_relay relay s.active)

unfoldable pub gave_up : ControlRelaySet → List ℕ → ControlRelaySet × Bool
unfolding remove
gave_up s relay =
    let before = tally_of relay s.settled in
    let tally : ℕ × ℕ = (before.0, before.1 + 1) in
    demote_by s.policy (record s { settled = set_tally relay tally s.settled }) relay tally

module _ (normalize : List ℕ → Option (List ℕ)) where
  abbrev pub accept_one :
      ControlRelaySet → List (List ℕ) → Option (List ℕ) → ControlRelaySet × List (List ℕ)
  accept_one s fresh none = (s, fresh)
  accept_one s fresh (some url) =
      if has_relay url s.known then (s, fresh) else (take_on s url, fresh ++ url ∷ [])

  unfoldable pub accept_from :
      ControlRelaySet → List (List ℕ) → List (List ℕ) → ControlRelaySet × List (List ℕ)
  accept_from s fresh [] = (s, fresh)
  accept_from s fresh (relay ∷ relays) =
      let next = accept_one s fresh (normalize relay) in
      let later = accept_from next.0 next.1 relays in
      if leb control_relay_max (length s.known) then (s, fresh) else later

  -- The state, and the relays that were taken on.
  unfoldable pub accept : ControlRelaySet → List (List ℕ) → ControlRelaySet × List (List ℕ)
  unfolding accept_from
  accept s relays = accept_from s [] relays
