-- ===== src/Activation/Handlers/Certified.antt =====
-- The certificate that a successful `Activate` hands out, as a client checks and reads it.
use license_service.Prelude.{
  str_eq, pos, ◌≡◌, ◌≢◌, ◌<◌, refl, sym, ◌∙◌, ap, subst, Bool, true, false, Text, List, Option,
  none, some, arith, eq_ℤ, inl, inr, Option-cases,
}
use license_service.Xcodes.{ok}
use license_service.Store.Models.{Db, LicenseEntitlement, LicenseTrial, LicenseKey}
use license_service.Store.Rows.{first, count, count-keep}
use license_service.Store.Sql.{Sql}
use license_service.Store.Reply.{Env, when}
use license_service.Store.Entitlement.{list_entitlements_by_key_hash, of_key}
use license_service.Store.Trial.{list_trials_by_fingerprint, of_fingerprint}
use license_service.Cert.Payload.{Payload, end_of_years}
use license_service.Cert.Canonical.{marshal_canonical}
use license_service.Cert.Signer
use license_service.Cert.Signer.{lookup, public_keys, verify}
use license_service.Cert.Signer.Ready.{sign_lem, verify_lem, lookup-public}
use license_service.Cert.Parser.{done}
use license_service.Cert.Decode.{unmarshal_canonical}
use license_service.Cert.RoundTrip.{Readable, to_seconds}
use license_service.Cert.RoundTrip.Stable.{unmarshal-marshal_canonical}
use license_service.Activation.Service.{Deps, Service}
use license_service.Activation.Certificate.{certificate, sign_cert}
use license_service.Activation.Certificate.Described.{
  grants_of, trials_of, listed_grants_lem, listed_trials_lem, Describes, certificate-Describes,
}
use license_service.Activation.Certificate.Dated.{late_entitlement, late_trial, assemble-Writable}
use license_service.Activation.Handlers.{
  ActivateRequest, ActivateResponse, normalize_request_key, activate,
}
use license_service.Activation.Handlers.Inversion.{activate-Activates}

-- The bytes are signed with the key that the service publishes as its active one, and read as the
-- payload.
pub record Certifies (d : Deps) (s : Service d) (p : Payload) (payload signature : Text)
    : Type 0 where
  pub key : d.crypto.PublicKey
  pub published :
      lookup s.signer.active (public_keys d.crypto s.signer)
      ≡ some (d.crypto.encode (d.crypto.public_text key))
  pub verified : verify d.crypto key payload signature ≡ true
  pub reads : unmarshal_canonical d.formats payload ≡ done (to_seconds p)

-- What is not late in a table is not late in a list from it.
count-find_zero :
    {A : Type 0} (sql : Sql) (q : A → Bool) (le : A → A → Bool) (p : A → Bool) (rs : List A)
    → count q rs ≡ 0
    → count q (sql.find le p rs) ≡ 0
count-find_zero sql q le p rs h = omega (arith, sql.count-find q le p rs, count-keep q p rs)

pub some-injective : {A : Type 0} {a b : A} → some a ≡ some b → a ≡ b
some-injective {A} {a} e = ap (λ o. elim o [ none ↦ a | some x ↦ x ]) e

pub listed-zero :
    {A : Type 0} (sql : Sql) (q : A → Bool) (le : A → A → Bool) (p : A → Bool) (up : Bool)
    (rs : List A) {found : List A}
    → when up (sql.find le p rs) ≡ some found
    → count q rs ≡ 0
    → count q found ≡ 0
listed-zero sql q le p true rs e h =
    subst (λ x. count q x ≡ 0) (some-injective e) (count-find_zero sql q le p rs h)
listed-zero sql q le p false rs e h = absurd cc

module _ (d : Deps) (s : Service d) (env : Env) where
  open d use {sql}

  certificate-Readable :
      (key_ref : Option Text) (token fp : Text) (ents : List LicenseEntitlement)
      (trials : List LicenseTrial)
      → env.clock 1 < end_of_years
      → count late_entitlement ents ≡ 0
      → count (late_trial s.trial_days) trials ≡ 0
      → Readable (certificate d s env 1 key_ref token fp ents trials)
  unfolding certificate
  certificate-Readable key_ref token fp ents trials now early_grants early_trials =
      let entries = assemble-Writable s.trial_days ents trials early_grants early_trials in
      record {
        exact_pos = omega arith;
        exact_neg = omega arith;
        issued = now;
        expiries = entries.1;
        apart = entries.0;
      }

  unsigned :
      (p : Payload) {signed : Text × Text}
      → lookup p.signing_key_id s.signer.keys ≡ none
      → Signer.sign d.crypto d.formats s.signer p ≢ some signed
  unfolding Signer.sign
  unsigned p missing signed = ground (arith, missing, signed)

  sign-Certifies :
      (p : Payload) {payload signature : Text}
      → p.signing_key_id ≡ s.signer.active
      → Readable p
      → Signer.sign d.crypto d.formats s.signer p ≡ some (payload, signature)
      → Certifies d s p payload signature
  unfolding public_keys
  sign-Certifies p {payload} {signature} active readable signed =
      elim (Option-cases (lookup p.signing_key_id s.signer.keys)) [
        | inl missing ↦ absurd (unsigned p missing signed)
        | inr (k, there) ↦
            let message = marshal_canonical d.formats p in
            let made : (message, d.crypto.encode (d.crypto.sign k message)) ≡ (payload, signature) =
              some-injective (sym (sign_lem d.crypto d.formats s.signer p there) ∙ signed) in
            subst (λ r. Certifies d s p r.0 r.1) made
              (record {
                key = d.crypto.public k;
                published =
                    lookup-public d.crypto s.signer.active s.signer.keys
                      (subst (λ x. lookup x s.signer.keys ≡ some k) active there);
                verified = verify_lem d.crypto k message;
                reads = unmarshal-marshal_canonical d.formats p readable;
              })
      ]

  -- A payload that says what these rows say, handed out signed.
  abbrev pub Certified :
      Option Text → Text → Text → List LicenseEntitlement → List LicenseTrial → Text → Text → Type 0
  Certified key_ref token fp ents trials payload signature =
      (p : Payload) × Describes d s env key_ref token fp ents trials p
      × Certifies d s p payload signature

  pub sign_cert-Certifies :
      (key_ref : Option Text) (token fp : Text) (ents : List LicenseEntitlement)
      (trials : List LicenseTrial) {payload signature : Text}
      → env.clock 1 < end_of_years
      → count late_entitlement ents ≡ 0
      → count (late_trial s.trial_days) trials ≡ 0
      → sign_cert d s env 1 key_ref token fp ents trials ≡ ok (payload, signature)
      → Certified key_ref token fp ents trials payload signature
  unfolding sign_cert certificate
  sign_cert-Certifies key_ref token fp ents trials now early_grants early_trials signed =
      let p = certificate d s env 1 key_ref token fp ents trials in
      (
        p,
        certificate-Describes d s env key_ref token fp ents trials,
        sign-Certifies p refl
            (certificate-Readable key_ref token fp ents trials now early_grants early_trials)
            (ground (arith, signed, Option-cases (Signer.sign d.crypto d.formats s.signer p))),
      )

  -- Where no expiry falls after the year 9999, a successful `Activate` hands out bytes with a
  -- signature that verifies under the active key that the service publishes, for a key that is in the
  -- store and not revoked; a client reads them as a payload of version 1 with the license id of this
  -- key, this device and fingerprint and the time of the call, whose entry for a module is the one of
  -- the key's entitlements or else of the fingerprint's trials, as they are then.
  pub activate-Certifies :
      (req : ActivateRequest) (db : Db) {resp : ActivateResponse} {db' : Db}
      → env.clock 1 < end_of_years
      → count late_entitlement db.entitlements ≡ 0
      → count (late_trial s.trial_days) db.trials ≡ 0
      → activate d s env req db ≡ (ok resp, db')
      → (h : Text) × (k : LicenseKey) × (normalize_request_key d s env req.key req.license_key
          ≡ ok h)
        × (first (λ r. str_eq r.key_hash h) db.keys ≡ some k)
        × (eq_ℤ k.status (pos 2) ≡ false)
        × Certified
            (some h)
            req.device_token
            req.fingerprint_id
            (grants_of sql h db')
            (trials_of sql req.fingerprint_id db')
            resp.payload
            resp.signature
  unfolding list_entitlements_by_key_hash list_trials_by_fingerprint
  activate-Certifies req db {resp} {db'} now early_grants early_trials e =
      let (h, accepted, a, did, _, signed) = activate-Activates d s env req db e in
      let fp = req.fingerprint_id in
      let ents = listed_grants_lem sql (env.up 7) h db' did.granted in
      let trials = listed_trials_lem sql (env.up 8) fp db' did.tried in
      let handed =
        sign_cert-Certifies (some h) req.device_token fp a.ents a.trials now
          (listed-zero sql late_entitlement _ (of_key h) (env.up 7) db'.entitlements did.granted
            (ap (λ x. count late_entitlement x.entitlements) did.only_devices ∙ early_grants))
          (listed-zero sql (late_trial s.trial_days) _ (of_fingerprint fp) (env.up 8) db'.trials
            did.tried
            (ap (λ x. count (late_trial s.trial_days) x.trials) did.only_devices ∙ early_trials))
          signed in
      (
        h,
        a.key,
        accepted,
        did.key_row,
        did.live,
        subst
            (λ ts.
              Certified (some h) req.device_token fp (grants_of sql h db') ts resp.payload
                resp.signature)
            trials
            (subst
              (λ es. Certified (some h) req.device_token fp es a.trials resp.payload resp.signature)
              ents handed),
      )
