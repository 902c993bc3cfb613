-- ===== src/Cert/Canonical/Shape.antt =====
-- The bytes that the writer appends, with no buffer.
use license_service.Prelude.{◌≡◌, sym, Text, [], ◌∷◌, ◌++◌, append_assoc, append-nil}
use license_service.Cert.Canonical.{escape_byte, str_loop, str}

abbrev pub escaped : Text → Text
escaped [] = []
escaped (c ∷ s) = escape_byte c ++ escaped s

abbrev pub quoted : Text → Text
quoted s = b'"' ∷ (escaped s ++ b'"' ∷ [])

str_loop-escaped : (s w : Text) → str_loop s w ≡ w ++ escaped s
unfolding str_loop
str_loop-escaped [] w = sym (append-nil w)
str_loop-escaped (c ∷ s) w = simp (str_loop-escaped s, append_assoc)

pub str-quoted : (s w : Text) → str s w ≡ w ++ quoted s
unfolding str
str-quoted s w = simp (str_loop-escaped, append_assoc)
