-- ===== src/Protocol/Outbound/Quote.antt =====
-- The texts that `quoteJson` writes and `parseString` reads.
use market_maker_ops.Prelude.{
  ℕ, ◌≡◌, ◌≢◌, refl, ap, ◌∙◌, Bool, true, false, ◌&&◌, ◌||◌, some, none, [], ◌∷◌, ◌++◌,
  append_assoc, arith, leb, ◌==◌, Bool-cases, Bytes, inl, inr,
}
use market_maker_ops.Protocol.Scan.{string_body, parse_string, push}
use market_maker_ops.Protocol.Outbound.{quote_char, quote_body, quote_json}

-- A character that needs no `\u` escape.
abbrev pub is_plain : ℕ → Bool
is_plain c = leb 0x20 c || (c == 9 || (c == 10 || c == 13))

abbrev pub all_plain : Bytes → Bool
all_plain [] = true
all_plain (c ∷ s) = is_plain c && all_plain s

-- What one written character gives back, in front of any text that has a character at least.
string_body-quote_char :
    (c : ℕ) (t : Bytes)
    → is_plain c ≡ true
    → t ≢ []
    → string_body (quote_char c ++ t) ≡ push c (string_body t)
unfolding string_body
string_body-quote_char c [] h ne = absurd (ne refl)
string_body-quote_char c (d ∷ s) h ne = ground arith

quote_body-ne : (s rest : Bytes) → quote_body s ++ rest ≢ []
unfolding quote_body
quote_body-ne [] rest e = cc
quote_body-ne (c ∷ s) rest e = ground arith

quote_body-append :
    (c : ℕ) (s rest : Bytes) → quote_body (c ∷ s) ++ rest ≡ quote_char c ++ (quote_body s ++ rest)
unfolding quote_body
quote_body-append c s rest = append_assoc (quote_char c) (quote_body s) rest

string_body-quote_body :
    (s rest : Bytes) → all_plain s ≡ true → string_body (quote_body s ++ rest) ≡ some (s, rest)
string_body-quote_body [] [] h = unfold quote_body string_body in refl
string_body-quote_body [] (r ∷ rest) h = unfold quote_body string_body in refl
string_body-quote_body (c ∷ s) rest h =
    ap string_body (quote_body-append c s rest)
    ∙ string_body-quote_char c (quote_body s ++ rest) (ground arith) (quote_body-ne s rest)
    ∙ ap (push c) (string_body-quote_body s rest (ground arith))

-- `parseString` reads back a text that `quoteJson` wrote, whatever follows it, where no character
-- but tab, line feed and carriage return is below 0x20.
pub parse_string-quote_json :
    (s rest : Bytes) → all_plain s ≡ true → parse_string (quote_json s ++ rest) ≡ some (s, rest)
unfolding parse_string quote_json
parse_string-quote_json s rest h = string_body-quote_body s rest h

string_body-u_escape :
    (c : ℕ) (t : Bytes) → is_plain c ≡ false → string_body (quote_char c ++ t) ≡ none
unfolding string_body
string_body-u_escape c t h = ground arith

string_body_control :
    (c : ℕ) (s rest : Bytes) → is_plain c ≡ false → string_body (quote_body (c ∷ s) ++ rest) ≡ none
string_body_control c s rest h =
    ap string_body (quote_body-append c s rest) ∙ string_body-u_escape c (quote_body s ++ rest) h

string_body_fails :
    (s rest : Bytes) → all_plain s ≡ false → string_body (quote_body s ++ rest) ≡ none
string_body_fails [] rest h = cc
string_body_fails (c ∷ s) rest h = elim (Bool-cases (is_plain c)) [
  | inr control ↦ string_body_control c s rest control
  | inl plain ↦
      ap string_body (quote_body-append c s rest)
      ∙ string_body-quote_char c (quote_body s ++ rest) plain (quote_body-ne s rest)
      ∙ ap (push c) (string_body_fails s rest (ground arith))
]

-- A text with a character below 0x20 other than those three is written with a `\u` escape, which
-- `parseString` refuses: such a text is never read back.
pub parse_string_fails :
    (s rest : Bytes) → all_plain s ≡ false → parse_string (quote_json s ++ rest) ≡ none
unfolding parse_string quote_json
parse_string_fails s rest h = string_body_fails s rest h
