-- ===== src/Cert/Documents/Reading.antt =====
-- The parser reads back a compact document, whatever stands behind it.
use license_service.Prelude.{
  ℕ, zero, suc, ◌+◌, ◌<◌, ◌≡◌, refl, true, false, Text, [], ◌∷◌, ◌++◌, codes, arith, length,
  length-append, ◌==◌, append_assoc, all, has_prefix, ◌∙◌, ap,
}
use license_service.Cert.Payload.{Formats, is_number_byte}
use license_service.Cert.Canonical.Shape.{quoted}
use license_service.Cert.Parser.{
  done, Json, Members, null, str, num, object, no_members, member, skip_ws, is_ws, starts, put,
  or_malformed, ◌>>=◌, parse_number, parse_scalar, parse_null, parse_key, parse_value,
  parse_members, after_member,
}
use license_service.Cert.Parser.Strings.{parse_string-quoted, ends_number, number_bytes-append}
use license_service.Cert.Documents.{Exact, Document, emit, emit_later, parsed_as, collect}

head-number :
    (c : ℕ)
    → is_number_byte c ≡ true
    → (is_ws c ≡ false) × ((c == b'{') ≡ false) × ((c == b'"') ≡ false) × ((c == b'n') ≡ false)
unfolding is_number_byte is_ws
head-number c h = ground (arith, h)

skip_ws-keeps : (c : ℕ) (s : Text) → is_ws c ≡ false → skip_ws (c ∷ s) ≡ c ∷ s
unfolding skip_ws
skip_ws-keeps c s h = rw h refl

module _ (fmt : Formats) where
  parse_value-other :
      (n : ℕ) (s : Text)
      → starts b'{' (skip_ws s) ≡ false
      → parse_value fmt (suc n) s ≡ parse_scalar fmt (skip_ws s)
  unfolding parse_value
  parse_value-other n s h = rw (h, parse_value) refl

  parse_value-scalar :
      (n c : ℕ) (s : Text)
      → is_ws c ≡ false
      → (c == b'{') ≡ false
      → parse_value fmt (suc n) (c ∷ s) ≡ parse_scalar fmt (c ∷ s)
  parse_value-scalar n c s h k =
      parse_value-other n (c ∷ s) (rw (skip_ws-keeps c s h) k)
      ∙ ap (parse_scalar fmt) (skip_ws-keeps c s h)

  parse_value-number :
      (n : ℕ) (t rest : Text)
      → 0 < length t
      → all is_number_byte t ≡ true
      → ends_number rest ≡ true
      → parse_value fmt (suc n) (t ++ rest)
        ≡ (or_malformed (fmt.scan_float t) >>= λ f. done (num f, rest))
  unfolding parse_scalar parse_number
  parse_value-number n [] rest p h k = absurd (omega arith)
  parse_value-number n (c ∷ t) rest p h k =
      let (w, b, q, l) = head-number c (ground (arith, h)) in
      parse_value-scalar n c (t ++ rest) w b ∙ rw (q, l, number_bytes-append (c ∷ t) rest h k) refl

  -- One step of the parser at each shape that the writer leaves.
  parse_value-object :
      (n : ℕ) (s : Text)
      → parse_value fmt (suc n) (b'{' ∷ b'"' ∷ s) ≡ parse_members fmt n (b'"' ∷ s) no_members
  unfolding parse_value skip_ws is_ws
  parse_value-object n s = refl

  parse_value-null :
      (n : ℕ) (rest : Text) → parse_value fmt (suc n) (codes "null" ++ rest) ≡ done (null, rest)
  unfolding parse_value parse_scalar parse_null has_prefix skip_ws is_ws
  parse_value-null n rest = refl

  parse_value-empty :
      (n : ℕ) (rest : Text)
      → parse_value fmt (suc n) (b'{' ∷ b'}' ∷ rest) ≡ done (object no_members, rest)
  unfolding parse_value skip_ws is_ws
  parse_value-empty n rest = refl

  parse_value-quoted :
      (n : ℕ) (s rest : Text) → parse_value fmt (suc n) (quoted s ++ rest) ≡ done (str s, rest)
  unfolding parse_value parse_scalar skip_ws is_ws
  parse_value-quoted n s rest = rw (parse_string-quoted fmt s rest) refl

  parse_key-quoted : (k s : Text) → parse_key fmt (quoted k ++ b':' ∷ s) ≡ done (k, s)
  unfolding parse_key skip_ws is_ws
  parse_key-quoted k s = rw (parse_string-quoted fmt k (b':' ∷ s)) refl

  parse_members-last :
      (n : ℕ) (k s rest : Text) (v : Json fmt.Float) (obj : Members fmt.Float)
      → parse_value fmt n s ≡ done (v, b'}' ∷ rest)
      → parse_members fmt (suc n) (quoted k ++ b':' ∷ s) obj ≡ done (object (put k v obj), rest)
  unfolding parse_value after_member skip_ws is_ws
  parse_members-last n k s rest v obj h = rw (parse_key-quoted k s) (rw h refl)

  parse_members-next :
      (n : ℕ) (k s rest : Text) (v : Json fmt.Float) (obj : Members fmt.Float)
      → parse_value fmt n s ≡ done (v, b',' ∷ b'"' ∷ rest)
      → parse_members fmt (suc n) (quoted k ++ b':' ∷ s) obj
        ≡ parse_members fmt n (b'"' ∷ rest) (put k v obj)
  unfolding parse_value after_member skip_ws is_ws
  parse_members-next n k s rest v obj h = rw (parse_key-quoted k s) (rw h refl)

  -- The members from the value on.
  abbrev tail_text : Document → Members Exact → Text → Text
  tail_text v ms rest = emit fmt v ++ (emit_later fmt ms ++ b'}' ∷ rest)

  object-text :
      (k : Text) (v : Document) (ms : Members Exact) (rest : Text)
      → emit fmt (object (member k v ms)) ++ rest ≡ b'{' ∷ (quoted k ++ b':' ∷ tail_text v ms rest)
  unfolding emit
  object-text k v ms rest = simp append_assoc

  later-text :
      (k : Text) (v : Document) (ms : Members Exact) (rest : Text)
      → emit_later fmt (member k v ms) ++ b'}' ∷ rest
        ≡ b',' ∷ (quoted k ++ b':' ∷ tail_text v ms rest)
  unfolding emit
  later-text k v ms rest = simp append_assoc

  object-length :
      (k : Text) (v : Document) (ms : Members Exact)
      → length (quoted k) + length (emit fmt v) + length (emit_later fmt ms)
        < length (emit fmt (object (member k v ms)))
  unfolding emit
  object-length k v ms = simp (length-append) (omega arith)

  later-length :
      (k : Text) (v : Document) (ms : Members Exact)
      → length (quoted k) + length (emit fmt v) + length (emit_later fmt ms)
        < length (emit_later fmt (member k v ms))
  unfolding emit
  later-length k v ms = simp (length-append) (omega arith)

  -- What the parser makes of the document before any text that no number goes on with.
  abbrev Reads : Document → Type 0
  Reads v =
      (n : ℕ) (rest : Text)
      → length (emit fmt v) < n
      → ends_number rest ≡ true
      → parse_value fmt n (emit fmt v ++ rest) ≡ done (parsed_as fmt v, rest)

  -- An object's loop at a member that is read, with the rest of the object behind it.
  abbrev ReadsMembers : Members Exact → Type 0
  ReadsMembers ms =
      (k : Text) (v : Document)
      → Reads v
      → (n : ℕ) (rest : Text) (obj : Members fmt.Float)
      → length (quoted k) + length (emit fmt v) + length (emit_later fmt ms) < n
      → parse_members fmt n (quoted k ++ b':' ∷ tail_text v ms rest) obj
        ≡ done (object (collect fmt ms (put k (parsed_as fmt v) obj)), rest)

  mutual
    unfolding emit parsed_as is_number_byte

    pub read_value : (v : Document) → Reads v
    read_value v zero rest h e = absurd (omega arith)
    read_value null (suc n) rest h e = parse_value-null n rest
    read_value (str s) (suc n) rest h e = parse_value-quoted n s rest
    read_value (num (v, p, q)) (suc n) rest h e =
        parse_value-number n (fmt.print_int v) rest (fmt.print_int-pos v) (fmt.print_int-bytes v) e
        ∙ rw ((fmt.scan-print_int v p q).1) refl
    read_value (object no_members) (suc n) rest h e = parse_value-empty n rest
    read_value (object (member k v ms)) (suc n) rest h e =
        ap (parse_value fmt (suc n)) (object-text k v ms rest)
        ∙ (parse_value-object n _
            ∙ read_members ms k v (read_value v) n rest no_members
                (omega (arith, object-length k v ms, h)))

    read_members : (ms : Members Exact) → ReadsMembers ms
    read_members ms k v reads zero rest obj h = absurd (omega arith)
    read_members no_members k v reads (suc n) rest obj h =
        parse_members-last n k _ rest _ obj (reads n (b'}' ∷ rest) (omega arith) refl)
    read_members (member j w ms) k v reads (suc n) rest obj h =
        parse_members-next n k (tail_text v (member j w ms) rest) _ (parsed_as fmt v) obj (
          reads n _ (omega arith) refl
          ∙ ap (λ s. done (parsed_as fmt v, s)) (later-text j w ms rest))
        ∙ read_members ms j w (read_value w) n rest (put k (parsed_as fmt v) obj)
            (omega (arith, later-length j w ms, h))
