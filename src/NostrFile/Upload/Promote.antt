-- ===== src/NostrFile/Upload/Promote.antt =====
-- `promote_loop` of upload.rs: spare relays in the place of signaling relays that the channel gave up on.
use ptransfer_cli.Common.{
  ℕ, ◌+◌, ◌-◌, List, [], ◌∷◌, Option, none, some, inl, inr, true, Bool-cases, ◌||◌, ◌==◌,
  if◌then◌else◌,
}
use ptransfer_cli.NostrFile.Upload.{Upload, unless_finished}
use ptransfer_cli.NostrFile.Upload.WellFormed.{IsWellFormed, unless_finished-IsWellFormed}

-- A relay that was demoted is owed a replacement.
unfoldable pub owe : Upload → Upload
owe u = unless_finished u.finished u (record u { owed_promotions = u.owed_promotions + 1 })

abbrev pub first_spare : Upload → List (List ℕ) → Upload × Option (List ℕ)
first_spare u [] = (u, none)
first_spare u (relay ∷ reserve) = (record u { reserve = reserve }, some relay)

-- The spare to put in place, where one is owed and there is one.
unfoldable pub pop_spare : Upload → Upload × Option (List ℕ)
pop_spare u = if u.finished || u.owed_promotions == 0 then (u, none) else first_spare u u.reserve

-- What is owed is less by one when the channel took the spare on, and the new set is to be announced.
unfoldable pub pay : Upload → Upload
pay u = record u { owed_promotions = u.owed_promotions - 1 }

unfoldable pub announce_promoted : Upload → Upload
announce_promoted u = unless_finished u.finished u (record u { avail_dirty = true })

pub owe-IsWellFormed : (u : Upload) → IsWellFormed u → IsWellFormed (owe u)
unfolding owe
owe-IsWellFormed u w = unless_finished-IsWellFormed u.finished u _ w w

first_spare-IsWellFormed :
    (u : Upload) (reserve : List (List ℕ)) → IsWellFormed u → IsWellFormed (first_spare u reserve).0
first_spare-IsWellFormed u [] w = w
first_spare-IsWellFormed u (relay ∷ reserve) w = w

pub pop_spare-IsWellFormed : (u : Upload) → IsWellFormed u → IsWellFormed (pop_spare u).0
unfolding pop_spare
pop_spare-IsWellFormed u w = elim (Bool-cases (u.finished || u.owed_promotions == 0)) [
  | inl e ↦ rw e w
  | inr e ↦ rw e (first_spare-IsWellFormed u u.reserve w)
]

pub pay-IsWellFormed : (u : Upload) → IsWellFormed u → IsWellFormed (pay u)
unfolding pay
pay-IsWellFormed u w = w

pub announce_promoted-IsWellFormed :
    (u : Upload) → IsWellFormed u → IsWellFormed (announce_promoted u)
unfolding announce_promoted
announce_promoted-IsWellFormed u w = unless_finished-IsWellFormed u.finished u _ w w
