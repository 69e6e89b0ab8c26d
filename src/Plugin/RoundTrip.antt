-- ===== src/Plugin/RoundTrip.antt =====
-- Hexadecimal text is read as the bytes that it was printed from (src/conformance/plugin.cpp).
use bpf_tv.Common.{
  ℕ, ◌+◌, ◌*◌, ◌/◌, ◌%◌, ◌<◌, ltb, if◌then◌else◌, Option, none, some, List, [], ◌∷◌, ◌++◌, All, ◌≡◌,
  refl, ap, ap₂, ◌∙◌, arith,
}
use bpf_tv.Plugin.{hex_value, push_digit, clean_digits, bytes_of_digits, parse_hex}

-- The character of a digit, in lower case.
abbrev pub digit_char : ℕ → ℕ
digit_char d = if ltb d 10 then 48 + d else 87 + d

-- Bytes in hexadecimal, each followed by `sep`.
abbrev pub print_hex : List ℕ → List ℕ → List ℕ
print_hex sep [] = []
print_hex sep (b ∷ bs) = digit_char (b / 16) ∷ digit_char (b % 16) ∷ sep ++ print_hex sep bs

value-digit_char : (d : ℕ) → d < 16 → hex_value (digit_char d) ≡ some d
unfolding hex_value
value-digit_char d h = ground arith

clean-append : (xs ys : List ℕ) → clean_digits (xs ++ ys) ≡ clean_digits xs ++ clean_digits ys
unfolding clean_digits
clean-append [] ys = refl
clean-append (x ∷ xs) ys =
    push-append (hex_value x) (clean_digits xs) (clean_digits ys) (clean-append xs ys)
  where
    push-append :
        (o : Option ℕ) (ds es : List ℕ)
        → clean_digits (xs ++ ys) ≡ ds ++ es
        → push_digit o (clean_digits (xs ++ ys)) ≡ push_digit o ds ++ es
    push-append none ds es e = e
    push-append (some d) ds es e = ap (λ l. d ∷ l) e

clean-none : (sep : List ℕ) → All (λ c. hex_value c ≡ none) sep → clean_digits sep ≡ []
unfolding clean_digits
clean-none [] h = refl
clean-none (c ∷ cs) h = ap (λ o. push_digit o (clean_digits cs)) h.0 ∙ clean-none cs h.1

-- Bytes printed as two hexadecimal digits each, with any text without hexadecimal digits
-- after each, are read back.
pub parse_hex-print_hex :
    (sep bs : List ℕ)
    → All (λ c. hex_value c ≡ none) sep
    → All (λ b. b < 256) bs
    → parse_hex (print_hex sep bs) ≡ bs
unfolding parse_hex clean_digits bytes_of_digits
parse_hex-print_hex sep [] hs hb = refl
parse_hex-print_hex sep (b ∷ bs) hs hb =
    let rest = clean_digits (print_hex sep bs) in
    let tail : clean_digits (sep ++ print_hex sep bs) ≡ rest =
      clean-append sep (print_hex sep bs) ∙ ap (λ l. l ++ rest) (clean-none sep hs) in
    ap₂
      (λ o p.
        bytes_of_digits (push_digit o (push_digit p (clean_digits (sep ++ print_hex sep bs)))))
      (value-digit_char (b / 16) (let k = hb.0 in omega arith))
      (value-digit_char (b % 16) (omega arith))
    ∙ ap₂ (λ x l. x ∷ bytes_of_digits l) (let k : b / 16 * 16 + b % 16 ≡ b = omega arith in k) tail
    ∙ ap (λ l. b ∷ l) (parse_hex-print_hex sep bs hs hb.1)
