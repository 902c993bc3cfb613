-- ===== src/Tests/Keys.antt =====
-- License keys at concrete inputs.
use license_service.Prelude.{◌≡◌, refl, ◌++◌, map, ◌%◌, if◌then◌else◌}
use license_service.Xcodes.{ok, err, plain, bad_key_format}
use license_service.Activation.Keys.{normalize_key, generate_key, key_mark, symbol}
use license_service.Activation.Keys.Normalize.{has_mark, letters_digits, normalize_key-content}
use license_service.Activation.Keys.Generate.{normalize_key-generate_key}
use license_service.Tests.Fixtures.{running, typed_key, normal_key, noise}

normalize_typed : normalize_key typed_key ≡ ok normal_key
unfolding running
normalize_typed = refl

normalize_key-content_example : normalize_key typed_key ≡ (
    if has_mark (letters_digits typed_key)
    then ok (letters_digits typed_key)
    else err (plain bad_key_format))
normalize_key-content_example = normalize_key-content typed_key

normalize_key-generate_key_example :
    normalize_key (generate_key noise) ≡ ok (key_mark ++ map (λ g. symbol (g % 32)) noise)
normalize_key-generate_key_example = normalize_key-generate_key noise refl
