-- ===== src/Admin/Expiry/Extends.antt =====
-- What a grant does to the expiry of a module.
use license_service.Prelude.{
  ◌+◌, ◌*◌, ◌<◌, ◌≡◌, refl, Option, none, some, ℤ, pos_part, arith, max, ◌⊎◌, inl, inr,
}
use license_service.Xcodes.{ok}
use license_service.Store.Models.{Time}
use license_service.Cert.Payload.{nanoseconds}
use license_service.Admin.Expiry.{
  Kind, perpetual, subscription, trial, unknown_kind, base_of, bounded_expiry, resolve_expiry,
}

-- The later of now and the present expiry.
abbrev pub later_of : Option Time → Time → Time
later_of none now = now
later_of (some t) now = max t now

base_of_lem : (current : Option Time) (now : Time) → base_of current now ≡ later_of current now
unfolding base_of
base_of_lem none now = refl
base_of_lem (some t) now = ground arith

-- A grant that is accepted gives no expiry only if it is perpetual and the request has neither a
-- duration nor an expiry; otherwise the module expires at the time that the request gives, with no
-- duration beside it, or else the positive number of days of the request after now or the present
-- expiry, whichever is later.
pub resolve_expiry-ok :
    (kind : Kind) (days : ℤ) (at current : Option Time) (now : Time) {expiry : Option Time}
    → resolve_expiry kind days at current now ≡ ok expiry
    → ((kind ≡ perpetual) × (at ≡ none) × (pos_part days ≡ 0) × (expiry ≡ none))
      ⊎ ((pos_part days ≡ 0) × (t : Time) × (at ≡ some t) × (expiry ≡ some t))
      ⊎ ((0 < pos_part days)
          × (at ≡ none)
          × (expiry ≡ some (later_of current now + pos_part days * (86_400 * nanoseconds))))
unfolding resolve_expiry bounded_expiry
resolve_expiry-ok perpetual days none current now h = inl (refl, refl, ground arith, ground arith)
resolve_expiry-ok perpetual days (some t) current now h = absurd (ground arith)
resolve_expiry-ok unknown_kind days at current now h = absurd (ground arith)
resolve_expiry-ok subscription days (some t) current now h =
    inr (inl (ground arith, t, refl, ground arith))
resolve_expiry-ok trial days (some t) current now h =
    inr (inl (ground arith, t, refl, ground arith))
resolve_expiry-ok subscription days none current now h =
    inr (inr (ground arith, refl, ground (arith, base_of_lem current now)))
resolve_expiry-ok trial days none current now h =
    inr (inr (ground arith, refl, ground (arith, base_of_lem current now)))
