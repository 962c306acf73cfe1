-- ===== src/Lexer/Literal.antt =====
-- lexer/tokenize.cpp and codegen/outputcontext.cpp: string literals.
use building_programming_lan.Prelude.{
  ℕ, ◌+◌, ◌-◌, ◌/◌, ◌%◌, ◌≡◌, ◌⊎◌, refl, ap, sym, ◌∙◌, subst, Bool, true, false, [], ◌∷◌, ◌++◌,
  length, take, if◌then◌else◌, ◌==◌, ltb, arith, elim_false, ==_iff, length-append,
  take-length_append,
}
use building_programming_lan.Bytes.{Bytes}
use building_programming_lan.Outcome.{ok}
use building_programming_lan.Parser.{string_token}
use building_programming_lan.Lexer.{unescape_char, unescape_string, push_string}

-- A digit of a hexadecimal number.
unfoldable pub hex_digit : ℕ → ℕ
hex_digit n = if ltb n 10 then 48 + n else 87 + n

-- One character of `escape_string_literal`; `is_print` is `std::isprint`.
unfoldable pub escape_char : (ℕ → Bool) → ℕ → Bytes
unfolding hex_digit
escape_char is_print c =
    if c == 13
    then 92 ∷ 114 ∷ []
    else if c == 10
    then 92 ∷ 110 ∷ []
    else if c == 9
    then 92 ∷ 116 ∷ []
    else if c == 92
    then 92 ∷ 92 ∷ []
    else if c == 34
    then 92 ∷ 34 ∷ []
    else if is_print c
    then c ∷ []
    else 92 ∷ 120 ∷ hex_digit (c / 16) ∷ hex_digit (c % 16) ∷ []

unfoldable pub escape_chars : (ℕ → Bool) → Bytes → Bytes
unfolding escape_char
escape_chars is_print [] = []
escape_chars is_print (c ∷ rest) = escape_char is_print c ++ escape_chars is_print rest

-- OutputContext::escape_string_literal
unfoldable pub escape_string_literal : (ℕ → Bool) → Bytes → Bytes
unfolding escape_chars
escape_string_literal is_print s = 34 ∷ escape_chars is_print s ++ 34 ∷ []

-- Characters that the literal does not write as a number.
unfoldable pub Plain : (ℕ → Bool) → Bytes → Type 0
Plain is_print [] = Unit {0}
Plain is_print (c ∷ rest) =
    ((c ≡ 13) ⊎ (c ≡ 10) ⊎ (c ≡ 9) ⊎ (is_print c ≡ true)) × Plain is_print rest

unescape_escaped :
    (d : ℕ) (rest : Bytes)
    → unescape_string (92 ∷ d ∷ rest) ≡ unescape_char d ∷ unescape_string rest
unfolding unescape_string
unescape_escaped d rest = refl

unescape_nil : unescape_string [] ≡ []
unfolding unescape_string
unescape_nil = refl

unescape_plain :
    (c : ℕ) (rest : Bytes)
    → (c == 92) ≡ false
    → unescape_string (c ∷ rest) ≡ c ∷ unescape_string rest
unfolding unescape_string
unescape_plain c [] h = refl
unescape_plain c (d ∷ rest) h = elim_false _ _ h

branch :
    (P : Bytes → Type 0) (b : Bool) (x y : Bytes)
    → (b ≡ true → P x)
    → (b ≡ false → P y)
    → P (if b then x else y)
branch P true x y h k = h refl
branch P false x y h k = k refl

-- A character that is written with a backslash comes back.
escaped_back :
    (c d : ℕ) (rest : Bytes)
    → unescape_char d ≡ c
    → unescape_string (92 ∷ d ∷ rest) ≡ c ∷ unescape_string rest
escaped_back c d rest h = unescape_escaped d rest ∙ ap (λ (x : ℕ). x ∷ unescape_string rest) h

is_code : (c d : ℕ) → (c == d) ≡ true → d ≡ c
is_code c d e = sym ((==_iff c d).0 e)

unescape-escape_char :
    (is_print : ℕ → Bool) (c : ℕ) (rest : Bytes)
    → (c ≡ 13) ⊎ (c ≡ 10) ⊎ (c ≡ 9) ⊎ (is_print c ≡ true)
    → unescape_string (escape_char is_print c ++ rest) ≡ c ∷ unescape_string rest
unfolding escape_char unescape_char
unescape-escape_char is_print c rest h =
    let P = λ (x : Bytes). unescape_string (x ++ rest) ≡ c ∷ unescape_string rest in
    branch P (c == 13) _ _ (λ e. escaped_back c 114 rest (is_code c 13 e))
      λ n₁.
        branch P (c == 10) _ _ (λ e. escaped_back c 110 rest (is_code c 10 e))
          λ n₂.
            branch P (c == 9) _ _ (λ e. escaped_back c 116 rest (is_code c 9 e))
              λ n₃.
                branch P (c == 92) _ _ (λ e. escaped_back c 92 rest (is_code c 92 e))
                  λ n₄.
                    branch P (c == 34) _ _ (λ e. escaped_back c 34 rest (is_code c 34 e))
                      λ n₅.
                        branch P (is_print c) _ _ (λ e. unescape_plain c rest n₄)
                          λ n₆. absurd (ground arith)

unescape-escape_chars :
    (is_print : ℕ → Bool) (s : Bytes)
    → Plain is_print s
    → unescape_string (escape_chars is_print s) ≡ s
unfolding escape_chars Plain
unescape-escape_chars is_print [] h = unescape_nil
unescape-escape_chars is_print (c ∷ rest) (h, k) =
    unescape-escape_char is_print c (escape_chars is_print rest) h
    ∙ ap (◌∷◌ c) (unescape-escape_chars is_print rest k)

inside_length : (body : Bytes) → length body ≡ length (34 ∷ body ++ 34 ∷ []) - 2
inside_length body = omega (arith, length-append body (34 ∷ []))

inside : (body : Bytes) → take (length (34 ∷ body ++ 34 ∷ []) - 2) (body ++ 34 ∷ []) ≡ body
inside body =
    subst (λ (k : ℕ). take k (body ++ 34 ∷ []) ≡ body) (inside_length body)
      (take-length_append body (34 ∷ []))

-- The literal that the code generator writes for a string of printable characters, tabs and line ends
-- is read back by the lexer as that string.
pub push_string-escape_string_literal :
    (is_print : ℕ → Bool) (s : Bytes)
    → Plain is_print s
    → push_string (escape_string_literal is_print s) ≡ ok (string_token s ∷ [])
unfolding push_string escape_string_literal
push_string-escape_string_literal is_print s h =
    ap (λ (x : Bytes). ok (string_token (unescape_string x) ∷ []))
      (inside (escape_chars is_print s))
    ∙ ap (λ (x : Bytes). ok (string_token x ∷ [])) (unescape-escape_chars is_print s h)
