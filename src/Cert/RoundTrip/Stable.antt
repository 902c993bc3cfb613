-- ===== src/Cert/RoundTrip/Stable.antt =====
-- `UnmarshalCanonical` after `MarshalCanonical`, and `MarshalCanonical` once more.
use mathlib.Core.Option
use license_service.Prelude.{
  ℕ, suc, ◌≡◌, refl, ap, Bool, true, arith, Text, str_eq, str_eq_iff, List, [], ◌∷◌, append-nil,
  length, none, some, Option, inl, inr, Bool-cases, if◌then◌else◌,
}
use license_service.Cert.Payload.{Entitlement, Payload, Formats, format_time}
use license_service.Cert.Canonical.{
  entitlement_at, sort_strings, marshal_canonical, write_entitlements, canonical_entitlement,
  write_expiry,
}
use license_service.Cert.Names.{absent, absent-sort, sort-sort}
use license_service.Cert.Parser.{object, done}
use license_service.Cert.Documents.{emit, parsed_as}
use license_service.Cert.Documents.Reading.{read_value}
use license_service.Cert.Decode.{as_object, unmarshal_canonical}
use license_service.Cert.RoundTrip.{
  payload_members, to_seconds, names, whole, whole_entitlement, whole_entries, Readable,
}
use license_service.Cert.RoundTrip.Written.{marshal_canonical-emit}
use license_service.Cert.RoundTrip.Decoded.{read_members-payload}

-- A map's zero value.
abbrev zero_entitlement : Entitlement
zero_entitlement = record { kind = []; expires_at = none }

names-whole_entries :
    (ents : List (Text × Entitlement)) (ms : List Text) → names (whole_entries ents ms) ≡ ms
names-whole_entries ents [] = refl
names-whole_entries ents (m ∷ ms) = ap (λ ns. m ∷ ns) (names-whole_entries ents ms)

at-whole_entries :
    (k : Text) (ents : List (Text × Entitlement)) (ms : List Text)
    → entitlement_at k (whole_entries ents ms)
      ≡ (if absent k ms then zero_entitlement else whole_entitlement (entitlement_at k ents))
unfolding entitlement_at
at-whole_entries k ents [] = refl
at-whole_entries k ents (m ∷ ms) = elim (Bool-cases (str_eq m k)) [
  | inl e ↦ rw (e, (str_eq_iff m k).0 e) refl
  | inr e ↦ rw e (at-whole_entries k ents ms)
]

at-absent :
    (k : Text) (ents : List (Text × Entitlement))
    → absent k (names ents) ≡ true
    → entitlement_at k ents ≡ zero_entitlement
unfolding entitlement_at
at-absent k [] h = refl
at-absent k ((m, e) ∷ ents) h = ground (arith, h, at-absent k ents)

-- The entries to the second are found under the names that they had.
at-sorted :
    (k : Text) (ents : List (Text × Entitlement))
    → entitlement_at k (whole_entries ents (sort_strings (names ents)))
      ≡ whole_entitlement (entitlement_at k ents)
at-sorted k ents =
    rw (at-whole_entries k ents (sort_strings (names ents)), absent-sort k (names ents))
      (elim (Bool-cases (absent k (names ents))) [
        | inl h ↦ rw (h, at-absent k ents h) refl
        | inr h ↦ rw h refl
      ])

module _ (fmt : Formats) where
  -- What a written payload reads as: the payload, with its times to the second.
  pub unmarshal-marshal_canonical :
      (p : Payload)
      → Readable p
      → unmarshal_canonical fmt (marshal_canonical fmt p) ≡ done (to_seconds p)
  unfolding unmarshal_canonical as_object str_eq parsed_as
  unmarshal-marshal_canonical p r =
      let doc = object (payload_members fmt p r.exact_pos r.exact_neg) in
      let parsed = read_value fmt doc (suc (length (emit fmt doc))) [] (omega arith) refl in
      rw (marshal_canonical-emit fmt p r.exact_pos r.exact_neg)
        (rw (rw append-nil at parsed) (rw fmt.trim_space-nil (read_members-payload fmt p r)))

  format_time-whole : (t : ℕ) → format_time fmt (whole t) ≡ format_time fmt t
  unfolding format_time
  format_time-whole t = ap fmt.format (omega arith)

  write_expiry-whole :
      (t : Option ℕ) (w : Text) → write_expiry fmt (Option.map whole t) w ≡ write_expiry fmt t w
  unfolding write_expiry
  write_expiry-whole none w = refl
  write_expiry-whole (some t) w = rw (format_time-whole t) refl

  canonical_entitlement-whole :
      (e : Entitlement) (w : Text)
      → canonical_entitlement fmt (whole_entitlement e) w ≡ canonical_entitlement fmt e w
  unfolding canonical_entitlement
  canonical_entitlement-whole e w = rw (write_expiry-whole e.expires_at) refl

  write_entitlements-whole :
      (ents : List (Text × Entitlement)) (later : Bool) (ms : List Text) (w : Text)
      → write_entitlements fmt (whole_entries ents (sort_strings (names ents))) later ms w
        ≡ write_entitlements fmt ents later ms w
  unfolding write_entitlements
  write_entitlements-whole ents later [] w = refl
  write_entitlements-whole ents later (m ∷ ms) w =
      rw (at-sorted m ents, canonical_entitlement-whole) (write_entitlements-whole ents true ms _)

  marshal_canonical-to_seconds :
      (p : Payload) → marshal_canonical fmt (to_seconds p) ≡ marshal_canonical fmt p
  unfolding marshal_canonical
  marshal_canonical-to_seconds p =
      rw
        (
          names-whole_entries p.entitlements (sort_strings (names p.entitlements)),
          sort-sort (names p.entitlements),
          write_entitlements-whole p.entitlements,
          format_time-whole p.issued_at,
        )
        refl

  -- A written payload can be read, and the payload that was read is written as the same bytes.
  pub marshal-unmarshal-marshal_canonical :
      (p : Payload)
      → Readable p
      → (q : Payload) × (unmarshal_canonical fmt (marshal_canonical fmt p) ≡ done q)
        × (marshal_canonical fmt q ≡ marshal_canonical fmt p)
  marshal-unmarshal-marshal_canonical p r =
      (to_seconds p, unmarshal-marshal_canonical p r, marshal_canonical-to_seconds p)
