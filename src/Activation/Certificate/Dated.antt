-- ===== src/Activation/Certificate/Dated.antt =====
-- The entitlements that `signCert` collects have one entry for each module, and times that can be
-- written where the rows have such times.
use license_service.Prelude.{
  ◌≡◌, refl, Bool, true, false, not, ◌&&◌, Text, str_eq, str_eq_iff, List, [], ◌∷◌, Option, none,
  some, if◌then◌else◌, ℤ, arith, All, leb,
}
use license_service.Store.Models.{LicenseEntitlement, LicenseTrial, Time}
use license_service.Store.Rows.{count}
use license_service.Cert.Payload.{Entitlement, end_of_years}
use license_service.Cert.Names.{absent, distinct}
use license_service.Cert.RoundTrip.{names, Datable}
use license_service.Activation.Keys.{module_wire_name, kind_from_int32}
use license_service.Activation.Certificate.{
  Entitlements, insert, add_days, trial_entry, add_trials, add_entitlement, add_entitlements,
  assemble,
}

-- A time from the year 10000 on.
abbrev pub late : Option Time → Bool
late none = false
late (some t) = leb end_of_years t

late-Datable : (t : Option Time) → late t ≡ false → Datable t
late-Datable none h = tt
late-Datable (some t) h = ground arith

abbrev pub late_entitlement : LicenseEntitlement → Bool
late_entitlement e = late e.expires_at

-- A trial that ends late.
abbrev pub late_trial : ℤ → LicenseTrial → Bool
late_trial days t = late (some (add_days t.started_at days))

-- One entry for each name, all of them with times that can be written.
abbrev pub Writable : Entitlements → Type 0
Writable m = (distinct (names m) ≡ true) × All (λ e. Datable e.1.expires_at) m

absent-names-insert :
    (j k : Text) (e : Entitlement) (m : Entitlements)
    → absent j (names (insert k e m)) ≡ (not (str_eq k j) && absent j (names m))
unfolding insert
absent-names-insert j k e [] = refl
absent-names-insert j k e ((i, f) ∷ m) = ground (arith, absent-names-insert j k e m, str_eq_iff i k)

distinct-names-insert :
    (k : Text) (e : Entitlement) (m : Entitlements)
    → distinct (names m) ≡ true
    → distinct (names (insert k e m)) ≡ true
unfolding insert
distinct-names-insert k e [] h = refl
distinct-names-insert k e ((i, f) ∷ m) h = ground (
  arith,
  distinct-names-insert k e m,
  absent-names-insert i k e m,
  str_eq_iff i k,
  str_eq_iff k i,
)

All-insert :
    (k : Text) (e : Entitlement) (m : Entitlements)
    → Datable e.expires_at
    → All (λ e. Datable e.1.expires_at) m
    → All (λ e. Datable e.1.expires_at) (insert k e m)
unfolding insert
All-insert k e [] h all = (h, tt)
All-insert k e ((i, f) ∷ m) h all =
    elim (str_eq i k)
      as (λ b.
        All (λ e. Datable e.1.expires_at) (if b then (k, e) ∷ m else (i, f) ∷ insert k e m)) [
          | true ↦ (h, all.1)
          | false ↦ (all.0, All-insert k e m h all.1)
        ]

insert-Writable :
    (k : Text) (e : Entitlement) (m : Entitlements)
    → Datable e.expires_at
    → Writable m
    → Writable (insert k e m)
insert-Writable k e m h good = (distinct-names-insert k e m good.0, All-insert k e m h good.1)

unless_empty-Writable :
    (name : Text) (e : Entitlement) (m : Entitlements)
    → Datable e.expires_at
    → Writable m
    → Writable (if str_eq name [] then m else insert name e m)
unless_empty-Writable name e m h good =
    elim (str_eq name []) as (λ b. Writable (if b then m else insert name e m)) [
      | true ↦ good
      | false ↦ insert-Writable name e m h good
    ]

add_trials-Writable :
    (days : ℤ) (ts : List LicenseTrial) (m : Entitlements)
    → count (late_trial days) ts ≡ 0
    → Writable m
    → Writable (add_trials days ts m)
unfolding add_trials count
add_trials-Writable days [] m early good = good
add_trials-Writable days (t ∷ ts) m early good =
    add_trials-Writable days ts _ (ground (arith, early)) (
      unless_empty-Writable (module_wire_name t.module_id) (trial_entry days t) m
        (late-Datable (some (add_days t.started_at days)) (ground (arith, early))) good)

add_entitlement-Writable :
    (e : LicenseEntitlement) (kind : Option Text) (m : Entitlements)
    → late_entitlement e ≡ false
    → Writable m
    → Writable (add_entitlement e kind m)
unfolding add_entitlement
add_entitlement-Writable e none m early good = good
add_entitlement-Writable e (some kind) m early good =
    unless_empty-Writable (module_wire_name e.module_id)
      (record { kind = kind; expires_at = e.expires_at }) m (late-Datable e.expires_at early) good

add_entitlements-Writable :
    (es : List LicenseEntitlement) (m : Entitlements)
    → count late_entitlement es ≡ 0
    → Writable m
    → Writable (add_entitlements es m)
unfolding add_entitlements count
add_entitlements-Writable [] m early good = good
add_entitlements-Writable (e ∷ es) m early good =
    add_entitlements-Writable es _ (ground (arith, early))
      (add_entitlement-Writable e (kind_from_int32 e.kind) m (ground (arith, early)) good)

pub assemble-Writable :
    (days : ℤ) (es : List LicenseEntitlement) (ts : List LicenseTrial)
    → count late_entitlement es ≡ 0
    → count (late_trial days) ts ≡ 0
    → Writable (assemble days es ts)
unfolding assemble
assemble-Writable days es ts early_grants early_trials =
    add_entitlements-Writable es _ early_grants
      (add_trials-Writable days ts [] early_trials (refl, tt))
