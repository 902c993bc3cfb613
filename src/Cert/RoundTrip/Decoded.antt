-- ===== src/Cert/RoundTrip/Decoded.antt =====
-- `UnmarshalCanonical` on the document of a payload.
use mathlib.Core.Option
use license_service.Prelude.{
  ◌<◌, ◌≡◌, refl, sym, ◌∙◌, ap, true, false, Text, str_eq, List, [], ◌∷◌, ◌++◌, Option, none, some,
  arith, append_assoc, append-nil, All, if◌then◌else◌,
}
use license_service.Store.Models.{Time}
use license_service.Cert.Payload.{Entitlement, Payload, Formats, end_of_years, format_time}
use license_service.Cert.Canonical.{entitlement_at, sort_strings}
use license_service.Cert.Parser.{Json, Members, no_members, member, done, bind-cases, put, get}
use license_service.Cert.Names.{absent, distinct, distinct-absent, distinct-sort}
use license_service.Cert.Documents.{parsed_as, collect}
use license_service.Cert.Decode.{
  put_entitlement, as_string, as_object, as_time, as_license_id, as_number, parse_time, read_expiry,
  read_kind, read_entitlement, read_entitlements, read_member, read_members, zero_payload,
}
use license_service.Cert.RoundTrip.{
  expiry_document, entitlement_document, entitlement_members, license_id_document, payload_members,
  whole, whole_entitlement, names, whole_entries, to_seconds, Datable, Readable,
}

abbrev keys : {N : Type 0} → Members N → List Text
keys no_members = []
keys (member k v ms) = k ∷ keys ms

keys-put :
    {N : Type 0} (k : Text) (v : Json N) (ms : Members N)
    → absent k (keys ms) ≡ true
    → keys (put k v ms) ≡ keys ms ++ k ∷ []
unfolding put
keys-put k v no_members h = refl
keys-put k v (member j w ms) h = ground (arith, h, keys-put k v ms)

put_entitlement-absent :
    (m : Text) (e : Entitlement) (ents : List (Text × Entitlement))
    → absent m (names ents) ≡ true
    → put_entitlement m e ents ≡ ents ++ (m, e) ∷ []
unfolding put_entitlement
put_entitlement-absent m e [] h = refl
put_entitlement-absent m e ((k, f) ∷ ents) h = ground (arith, h, put_entitlement-absent m e ents)

names-append :
    (ents : List (Text × Entitlement)) (m : Text) (e : Entitlement)
    → names (ents ++ (m, e) ∷ []) ≡ names ents ++ m ∷ []
names-append [] m e = refl
names-append (f ∷ ents) m e = ap (λ ms. f.0 ∷ ms) (names-append ents m e)

absent-tail :
    (k x : Text) (xs : List Text)
    → absent k (x ∷ xs) ≡ true
    → (str_eq x k ≡ false) × (absent k xs ≡ true)
absent-tail k x xs h = ground (arith, h)

done-injective : {A : Type 0} {a b : A} → done a ≡ done b → a ≡ b
done-injective h = cc

entitlement_at-Datable :
    (m : Text) (ents : List (Text × Entitlement))
    → All (λ e. Datable e.1.expires_at) ents
    → Datable (entitlement_at m ents).expires_at
unfolding entitlement_at
entitlement_at-Datable m [] h = tt
entitlement_at-Datable m ((k, e) ∷ ents) h =
    elim (str_eq k m) as (λ b. Datable (if b then e else entitlement_at m ents).expires_at) [
      | true ↦ h.0
      | false ↦ entitlement_at-Datable m ents h.1
    ]

module _ (fmt : Formats) where
  parse_time-format_time :
      (t : Time) → t < end_of_years → parse_time fmt (format_time fmt t) ≡ done (whole t)
  unfolding parse_time format_time
  parse_time-format_time t h = rw (fmt.parse-format (whole t) (omega arith) (omega arith)) refl

  read_expiry-document :
      (t : Option Time)
      → Datable t
      → read_expiry fmt (some (parsed_as fmt (expiry_document fmt t))) ≡ done (Option.map whole t)
  unfolding read_expiry parsed_as as_time as_string
  read_expiry-document none h = refl
  read_expiry-document (some t) h = rw (parse_time-format_time t h) refl

  read_entitlement-document :
      (e : Entitlement)
      → Datable e.expires_at
      → read_entitlement fmt (parsed_as fmt (entitlement_document fmt e))
        ≡ done (whole_entitlement e)
  unfolding read_entitlement parsed_as put get str_eq as_object as_string read_kind read_expiry
      as_time
  read_entitlement-document e h = rw (read_expiry-document e.expires_at h) refl

  read_entitlements-put :
      (m : Text) (v : Json fmt.Float) (e : Entitlement) (obj : Members fmt.Float)
      (start end : List (Text × Entitlement))
      → absent m (keys obj) ≡ true
      → absent m (names end) ≡ true
      → read_entitlement fmt v ≡ done e
      → read_entitlements fmt obj start ≡ done end
      → read_entitlements fmt (put m v obj) start ≡ done (end ++ (m, e) ∷ [])
  unfolding read_entitlements put
  read_entitlements-put m v e no_members start end h k r s = rw r (
      ap (λ x. done (put_entitlement m e x)) (done-injective s)
      ∙ ap done (put_entitlement-absent m e end k))
  read_entitlements-put m v e (member j w obj) start end h k r s =
      bind-cases (read_entitlement fmt w) _ s λ f q s'.
        let apart = absent-tail m j (keys obj) h in
        rw apart.0
          (rw q (read_entitlements-put m v e obj (put_entitlement j f start) end apart.1 k r s'))

  -- The loop over the written entries, after some others.
  read_entitlements-collect :
      (ents : List (Text × Entitlement))
      → All (λ e. Datable e.1.expires_at) ents
      → (ms : List Text) (obj : Members fmt.Float) (seen : List (Text × Entitlement))
      → keys obj ≡ names seen
      → distinct (names seen ++ ms) ≡ true
      → read_entitlements fmt obj [] ≡ done seen
      → read_entitlements fmt (collect fmt (entitlement_members fmt ents ms) obj) []
        ≡ done (seen ++ whole_entries ents ms)
  unfolding collect
  read_entitlements-collect ents dates [] obj seen same d r = r ∙ ap done (sym (append-nil seen))
  read_entitlements-collect ents dates (m ∷ ms) obj seen same d r =
      let fresh_name = distinct-absent (names seen) m ms d in
      let e = whole_entitlement (entitlement_at m ents) in
      let v = parsed_as fmt (entitlement_document fmt (entitlement_at m ents)) in
      read_entitlements-collect ents dates ms (put m v obj) (seen ++ (m, e) ∷ [])
        (keys-put m v obj (rw same fresh_name) ∙ (rw same (sym (names-append seen m e))))
        (rw (names-append seen m e, append_assoc) d)
        (read_entitlements-put m v e obj [] seen (rw same fresh_name) fresh_name
          (read_entitlement-document (entitlement_at m ents) (entitlement_at-Datable m ents dates))
          r)
      ∙ ap done (append_assoc seen ((m, e) ∷ []) (whole_entries ents ms))

  as_license_id-document :
      (id : Option Text) → as_license_id fmt (parsed_as fmt (license_id_document fmt id)) ≡ done id
  unfolding as_license_id parsed_as as_string
  as_license_id-document none = refl
  as_license_id-document (some id) = refl

  read_entitlements-nothing : read_entitlements fmt no_members [] ≡ done []
  unfolding read_entitlements
  read_entitlements-nothing = refl

  -- The members of the written document make the payload again.
  pub read_members-payload :
      (p : Payload) (r : Readable p)
      → read_members fmt
          (collect fmt (payload_members fmt p r.exact_pos r.exact_neg) no_members)
          zero_payload
        ≡ done (to_seconds p)
  unfolding collect put str_eq read_members read_member as_string as_object as_number as_time
  read_members-payload p r =
      let ms = sort_strings (names p.entitlements) in
      rw
        (read_entitlements-collect p.entitlements r.expiries ms no_members [] refl
          (distinct-sort (names p.entitlements) ∙ r.apart) read_entitlements-nothing)
        (rw (parse_time-format_time p.issued_at r.issued) (
          rw (as_license_id-document p.license_id)
            (rw ((fmt.scan-print_int p.v r.exact_pos r.exact_neg).2) refl)))
