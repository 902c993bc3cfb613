-- ===== src/Tests/Payloads.antt =====
-- A payload with two modules, written and read at concrete packages.
use license_service.Prelude.{◌≡◌, ◌≢◌, refl, arith, codes, [], ◌∷◌, none, some, pos, true, str_eq}
use license_service.Cert.Payload.{Payload}
use license_service.Cert.Canonical.{marshal_canonical}
use license_service.Cert.Parser.{stuck, done}
use license_service.Cert.Names.{distinct}
use license_service.Cert.Decode.{unmarshal_canonical}
use license_service.Cert.Decode.Terminates.{unmarshal_canonical-total}
use license_service.Cert.RoundTrip.{Readable, to_seconds, names}
use license_service.Cert.RoundTrip.Stable.{
  unmarshal-marshal_canonical, marshal-unmarshal-marshal_canonical,
}
use license_service.Tests.Libraries.{plain_formats}

abbrev issued : Payload
issued = record {
  v = pos 1;
  cert_id = codes "u\"1";
  license_id = some (codes "lic_1");
  device_token = codes "d1";
  fingerprint_id = codes "f1";
  issued_at = 7_000_000_900;
  signing_key_id = codes "k1";
  entitlements =
      (codes "tools", record { kind = codes "trial"; expires_at = some 5_000_000_001 })
      ∷ (codes "downloads", record { kind = codes "perpetual"; expires_at = none })
      ∷ [];
}

two_names : distinct (names issued.entitlements) ≡ true
unfolding str_eq
two_names = refl

issued-Readable : Readable issued
issued-Readable = record {
  exact_pos = omega arith;
  exact_neg = omega arith;
  issued = omega arith;
  expiries = (omega arith, (tt, tt));
  apart = two_names;
}

unmarshal-marshal_canonical_example :
    unmarshal_canonical plain_formats (marshal_canonical plain_formats issued)
    ≡ done (to_seconds issued)
unmarshal-marshal_canonical_example =
    unmarshal-marshal_canonical plain_formats issued issued-Readable

marshal-unmarshal-marshal_canonical_example :
    (q : Payload) × (unmarshal_canonical plain_formats (marshal_canonical plain_formats issued)
      ≡ done q)
    × (marshal_canonical plain_formats q ≡ marshal_canonical plain_formats issued)
marshal-unmarshal-marshal_canonical_example =
    marshal-unmarshal-marshal_canonical plain_formats issued issued-Readable

unmarshal_canonical-total_example :
    unmarshal_canonical plain_formats (codes "{\"v\":{\"a\":") ≢ stuck
unmarshal_canonical-total_example = unmarshal_canonical-total plain_formats (codes "{\"v\":{\"a\":")
