-- ===== src/Cert/RoundTrip/Written.antt =====
-- `MarshalCanonical` writes a compact document.
use license_service.Prelude.{
  ◌<◌, ◌^◌, ◌≡◌, refl, sym, ◌∙◌, ap, true, false, Text, codes, List, [], ◌∷◌, ◌++◌, map, Option,
  none, some, ℤ, pos_part, neg_part, append_assoc, append-nil,
}
use license_service.Store.Models.{Time}
use license_service.Cert.Payload.{Entitlement, Payload, Formats, format_time}
use license_service.Cert.Canonical.{
  entitlement_at, sort_strings, marshal_canonical, Write, ◌▸◌, raw, write_expiry, write_license_id,
  write_entitlements, str as write_str, canonical_entitlement,
}
use license_service.Cert.Canonical.Shape.{quoted, str-quoted}
use license_service.Cert.Parser.{str, num, object, Members, no_members, member}
use license_service.Cert.Documents.{Exact, Document, emit, emit_later}
use license_service.Cert.RoundTrip.{
  expiry_document, entitlement_document, entitlement_members, license_id_document, payload_members,
}

-- What an operation on the buffer appends.
abbrev Writes : Write → Text → Type 0
Writes f t = (w : Text) → f w ≡ w ++ t

Writes-then : {f g : Write} {s t : Text} → Writes f s → Writes g t → Writes (f ▸ g) (s ++ t)
Writes-then {f = f} {s = s} {t = t} a b w = b (f w) ∙ (ap (λ x. x ++ t) (a w) ∙ append_assoc w s t)

Writes-raw : (s : Text) → Writes (raw s) s
unfolding raw
Writes-raw s w = refl

Writes-str : (s : Text) → Writes (write_str s) (quoted s)
Writes-str s w = str-quoted s w

module _ (fmt : Formats) where
  -- A member, and one behind a comma.
  field : Text → Document → Text
  field k v = quoted k ++ (b':' ∷ emit fmt v)

  next_field : Text → Document → Text
  next_field k v = b',' ∷ field k v

  Writes-field :
      {f g : Write} {t : Text} (k : Text) (v : Document)
      → Writes f t
      → Writes g (emit fmt v)
      → Writes (f ▸ write_str k ▸ raw (codes ":") ▸ g) (t ++ field k v)
  unfolding field
  Writes-field {t = t} k v a b w =
      Writes-then (Writes-then (Writes-then a (Writes-str k)) (Writes-raw (codes ":"))) b w
      ∙ simp append_assoc

  Writes-next :
      {f g : Write} {t : Text} (k : Text) (v : Document)
      → Writes f t
      → Writes g (emit fmt v)
      → Writes (f ▸ raw (codes ",") ▸ write_str k ▸ raw (codes ":") ▸ g) (t ++ next_field k v)
  unfolding next_field
  Writes-next k v a b w =
      Writes-field k v (Writes-then a (Writes-raw (codes ","))) b w ∙ simp append_assoc

  emit_later-next :
      (k : Text) (v : Document) (ms : Members Exact)
      → emit_later fmt (member k v ms) ≡ next_field k v ++ emit_later fmt ms
  unfolding emit field next_field
  emit_later-next k v ms = simp append_assoc

  emit_later-nil : emit_later fmt no_members ≡ []
  unfolding emit
  emit_later-nil = refl

  emit-object :
      (k : Text) (v : Document) (ms : Members Exact)
      → emit fmt (object (member k v ms)) ≡ b'{' ∷ (field k v ++ (emit_later fmt ms ++ b'}' ∷ []))
  unfolding emit field
  emit-object k v ms = simp append_assoc

  write_expiry-Writes :
      (t : Option Time) → Writes (write_expiry fmt t) (emit fmt (expiry_document fmt t))
  unfolding write_expiry emit
  write_expiry-Writes none = Writes-raw (codes "null")
  write_expiry-Writes (some t) = Writes-str (format_time fmt t)

  write_license_id-Writes :
      (id : Option Text) → Writes (write_license_id fmt id) (emit fmt (license_id_document fmt id))
  unfolding write_license_id emit
  write_license_id-Writes none = Writes-raw (codes "null")
  write_license_id-Writes (some id) = Writes-str id

  Writes-text : (s : Text) → Writes (write_str s) (emit fmt (str s))
  unfolding emit
  Writes-text s = Writes-str s

  Writes-num :
      (v : ℤ) (h : pos_part v < 2 ^ 53) (k : neg_part v < 2 ^ 53)
      → Writes (raw (fmt.print_int v)) (emit fmt (num (v, h, k)))
  unfolding emit
  Writes-num v h k = Writes-raw (fmt.print_int v)

  canonical_entitlement-Writes :
      (e : Entitlement)
      → Writes (canonical_entitlement fmt e) (emit fmt (entitlement_document fmt e))
  unfolding canonical_entitlement
  canonical_entitlement-Writes e w =
      Writes-then
        (Writes-next (codes "kind") (str e.kind)
          (Writes-field (codes "expiresAt") (expiry_document fmt e.expires_at)
            (Writes-raw (codes "{")) (write_expiry-Writes e.expires_at))
          (Writes-text e.kind))
        (Writes-raw (codes "}")) w
      ∙ simp (emit-object, emit_later-next, emit_later-nil, append_assoc)

  write_entitlements-later :
      (ents : List (Text × Entitlement)) (ms : List Text)
      → Writes
          (write_entitlements fmt ents true ms)
          (emit_later fmt (entitlement_members fmt ents ms))
  unfolding write_entitlements
  write_entitlements-later ents [] w = rw emit_later-nil (sym (append-nil w))
  write_entitlements-later ents (m ∷ ms) w =
      write_entitlements-later ents ms _
      ∙ (ap (λ x. x ++ emit_later fmt (entitlement_members fmt ents ms))
            (Writes-next m (entitlement_document fmt (entitlement_at m ents))
              (λ w. sym (append-nil w)) (canonical_entitlement-Writes (entitlement_at m ents)) w)
          ∙ rw emit_later-next (simp append_assoc))

  -- What stands between the braces.
  abbrev inside : Members Exact → Text
  inside no_members = []
  inside (member k v ms) = field k v ++ emit_later fmt ms

  emit-inside : (ms : Members Exact) → emit fmt (object ms) ≡ b'{' ∷ (inside ms ++ b'}' ∷ [])
  unfolding emit
  emit-inside no_members = refl
  emit-inside (member k v ms) = emit-object k v ms ∙ simp append_assoc

  write_entitlements-first :
      (ents : List (Text × Entitlement)) (ms : List Text)
      → Writes (write_entitlements fmt ents false ms) (inside (entitlement_members fmt ents ms))
  unfolding write_entitlements
  write_entitlements-first ents [] w = sym (append-nil w)
  write_entitlements-first ents (m ∷ ms) w =
      write_entitlements-later ents ms _
      ∙ (ap (λ x. x ++ emit_later fmt (entitlement_members fmt ents ms))
            (Writes-field m (entitlement_document fmt (entitlement_at m ents))
              (λ w. sym (append-nil w)) (canonical_entitlement-Writes (entitlement_at m ents)) w)
          ∙ simp append_assoc)

  Writes-braces :
      {f g : Write} {t : Text} (k : Text) (ms : Members Exact)
      → Writes f t
      → Writes g (inside ms)
      → Writes
          (f ▸ raw (codes ",") ▸ write_str k ▸ raw (codes ":{") ▸ g ▸ raw (codes "}"))
          (t ++ next_field k (object ms))
  unfolding next_field field
  Writes-braces k ms a b w =
      Writes-then
        (Writes-then
          (Writes-then (Writes-then (Writes-then a (Writes-raw (codes ","))) (Writes-str k))
            (Writes-raw (codes ":{")))
          b)
        (Writes-raw (codes "}")) w
      ∙ rw (emit-inside ms) (simp append_assoc)

  -- The canonical bytes are the compact document of the payload.
  pub marshal_canonical-emit :
      (p : Payload) (h : pos_part p.v < 2 ^ 53) (k : neg_part p.v < 2 ^ 53)
      → marshal_canonical fmt p ≡ emit fmt (object (payload_members fmt p h k))
  unfolding marshal_canonical
  marshal_canonical-emit p h k =
      Writes-then
        (Writes-next (codes "v") (num (p.v, h, k))
          (Writes-next (codes "signingKeyId") (str p.signing_key_id)
            (Writes-next (codes "licenseId") (license_id_document fmt p.license_id)
              (Writes-next (codes "issuedAt") (str (format_time fmt p.issued_at))
                (Writes-next (codes "fingerprintId") (str p.fingerprint_id)
                  (Writes-braces (codes "entitlements")
                    (entitlement_members fmt p.entitlements
                      (sort_strings (map (λ m. m.0) p.entitlements)))
                    (Writes-next (codes "deviceToken") (str p.device_token)
                      (Writes-field (codes "certId") (str p.cert_id) (Writes-raw (codes "{"))
                        (Writes-text p.cert_id))
                      (Writes-text p.device_token))
                    (write_entitlements-first p.entitlements _))
                  (Writes-text p.fingerprint_id))
                (Writes-text (format_time fmt p.issued_at)))
              (write_license_id-Writes p.license_id))
            (Writes-text p.signing_key_id))
          (Writes-num p.v h k))
        (Writes-raw (codes "}")) []
      ∙ simp (emit-object, emit_later-next, emit_later-nil, append_assoc)
