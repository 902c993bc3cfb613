-- ===== src/Tests/Libraries.antt =====
-- Stand-ins for the packages that the repository does not hold, which meet what is assumed of them.
use license_service.Prelude.{
  ℕ, zero, suc, ◌+◌, ◌*◌, ◌/◌, ◌%◌, ◌<◌, ◌≡◌, refl, Bool, true, Text, str_eq, str_eq_refl,
  hex_digit, List, [], ◌∷◌, ◌++◌, Option, none, some, if◌then◌else◌, ℤ, pos, negsuc, pos_part,
  arith, all, length, leb, ◌==◌, ◌-◌,
}
use license_service.Store.Rows.{first, keep, remove, modify, count}
use license_service.Store.Sql.{Sql, append_unique}
use license_service.Cert.Payload.{Formats, Crypto, is_number_byte}

module _ {A : Type 0} (le : A → A → Bool) where
  unfoldable pub insert : A → List A → List A
  insert x [] = x ∷ []
  insert x (y ∷ ys) = let rest = insert x ys in if le x y then x ∷ y ∷ ys else y ∷ rest

  unfoldable pub sort : List A → List A
  sort [] = []
  sort (x ∷ xs) = insert x (sort xs)

  count-insert :
      (q : A → Bool) (x : A) (xs : List A)
      → count q (insert x xs) ≡ (if q x then 1 else 0) + count q xs
  unfolding insert count
  count-insert q x [] = refl
  count-insert q x (y ∷ ys) = ground (arith, count-insert q x ys)

  pub count-sort : (q : A → Bool) (xs : List A) → count q (sort xs) ≡ count q xs
  unfolding sort count
  count-sort q [] = refl
  count-sort q (x ∷ xs) = ground (arith, count-insert q x (sort xs), count-sort q xs)

abbrev pub list_sql : Sql
list_sql = record {
  take = first;
  find = λ le p rs. sort le (keep p rs);
  count_where = count;
  create = append_unique;
  update = modify;
  delete = remove;
  take_lem = λ p rs. refl;
  count-find = λ q le p rs. count-sort le q (keep p rs);
  count_where_lem = λ p rs. refl;
  create_lem = λ c r rs. refl;
  update_lem = λ p f rs. refl;
  delete_lem = λ p rs. refl;
}

abbrev pub zeros : ℕ → Text
zeros zero = b'0' ∷ []
zeros (suc n) = b'0' ∷ zeros n

-- Unary, so that every integer has a text.
abbrev pub print_int : ℤ → Text
print_int (pos n) = zeros n
print_int (negsuc n) = b'-' ∷ zeros n

abbrev pub digits_left : Text → ℕ
digits_left [] = 0
digits_left (c ∷ cs) = length cs

abbrev pub scan_int : Text → ℤ
scan_int [] = pos 0
scan_int (c ∷ cs) = if c == b'-' then negsuc (digits_left cs) else pos (length cs)

length-zeros : (n : ℕ) → length (zeros n) ≡ suc n
length-zeros zero = refl
length-zeros (suc n) = omega (arith, length-zeros n)

pub scan-print_int : (v : ℤ) → scan_int (print_int v) ≡ v
scan-print_int (pos zero) = refl
scan-print_int (pos (suc n)) = ground (arith, length-zeros n)
scan-print_int (negsuc zero) = refl
scan-print_int (negsuc (suc n)) = ground (arith, length-zeros n)

zeros-number : (n : ℕ) → all is_number_byte (zeros n) ≡ true
unfolding is_number_byte
zeros-number zero = refl
zeros-number (suc n) = zeros-number n

pub print_int-number : (v : ℤ) → all is_number_byte (print_int v) ≡ true
unfolding is_number_byte
print_int-number (pos n) = zeros-number n
print_int-number (negsuc n) = zeros-number n

pub print_int-pos : (v : ℤ) → 0 < length (print_int v)
print_int-pos (pos zero) = omega arith
print_int-pos (pos (suc n)) = omega arith
print_int-pos (negsuc n) = omega arith

abbrev pub unhex : ℕ → ℕ
unhex c = if leb b'a' c then c - b'a' + 10 else c - b'0'

abbrev pub scan_hex : Text → Option ℤ
scan_hex (_ ∷ _ ∷ x ∷ y ∷ []) = some (pos (unhex x * 16 + unhex y))
scan_hex _ = none

abbrev pub read_time : Text → Option ℕ
read_time (t ∷ []) = some t
read_time _ = none

pub scan-hex_digits :
    (c : ℕ)
    → c < 0x20
    → scan_hex (b'0' ∷ b'0' ∷ hex_digit (c / 16) ∷ hex_digit (c % 16) ∷ []) ≡ some (pos c)
scan-hex_digits c h = ground arith

abbrev pub plain_formats : Formats
plain_formats = record {
  Float = ℤ;
  format = λ t. t ∷ [];
  parse = read_time;
  print_int = print_int;
  scan_float = λ s. some (scan_int s);
  to_int = λ v. v;
  scan_hex = scan_hex;
  write_rune = λ r. pos_part r ∷ [];
  trim_space = λ s. s;
  parse-format = λ t _ _. refl;
  scan-print_int = λ v _ _. (v, λ i. some (scan-print_int v i), refl);
  print_int-bytes = print_int-number;
  print_int-pos = print_int-pos;
  scan-hex_digits = scan-hex_digits;
  write_rune-ascii = λ c h. refl;
  trim_space-nil = refl;
}

-- A key is its seed, and signs by prepending itself.
abbrev pub toy_crypto : Crypto
toy_crypto = record {
  PrivateKey = Text;
  PublicKey = Text;
  seed_bytes = λ s. some s;
  new_key_from_seed = λ s. s;
  public = λ k. k;
  public_text = λ k. k;
  sign = λ k m. k ++ m;
  verify = λ k m s. str_eq (k ++ m) s;
  encode = λ s. s;
  decode = λ s. some s;
  verify-sign = λ k m. str_eq_refl (k ++ m);
  decode-encode = λ s. refl;
}
