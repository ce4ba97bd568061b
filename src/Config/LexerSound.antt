-- ===== src/Config/LexerSound.antt =====
-- The words that `ParseToken` (src/config_parser.cc) returns are tokens in the sense of `IsToken`.
use ucla_bathroom_ratings.Base.{
  ◌==◌, Bool-cases, All, Bytes, ℕ, ◌≡◌, refl, ◌≢◌, ◌⊎◌, inl, inr, true, false, [], ◌∷◌, ◌++◌,
  append_assoc, append-nil, arith,
}
use ucla_bathroom_ratings.Config.Lexer.{
  is_token_delimiter, is_whitespace, Lexed, lex_quoted, lex_comment, lex_normal, lex_first,
  parse_token, normal,
}
use ucla_bathroom_ratings.Config.Printable.{
  starts_word, IsQuoted, IsToken, closed, escaped, plain, word, quoted,
}

-- A word is what was read before, and what the state adds.
abbrev Extends : (Bytes → Type 0) → Bytes → Lexed → Type 0
Extends P v r = r.type ≡ normal → (u : Bytes) × (r.value ≡ v ++ u) × P u

lex_normal-Extends :
    (v s : Bytes) → Extends (All (λ x. is_token_delimiter x ≡ false)) v (lex_normal v s)
unfolding lex_normal
lex_normal-Extends v [] h = absurd (ground arith)
lex_normal-Extends v (c ∷ s) h = elim (Bool-cases (is_token_delimiter c)) [
  | inl yes_ ↦ ([], ground (arith, append-nil v), tt)
  | inr no_ ↦
      let (u, e, k) = lex_normal-Extends (v ++ (c ∷ [])) s (rw no_ at h) in
      (c ∷ u, ground (arith, append_assoc v (c ∷ []) u), (no_, k))
]

lex_quoted-Extends : (q : ℕ) (v s : Bytes) → q ≢ b'\\' → Extends (IsQuoted q) v (lex_quoted q v s)
unfolding lex_quoted
lex_quoted-Extends q v [] n h = absurd (ground arith)
lex_quoted-Extends q v (c ∷ []) n h = absurd (ground arith)
lex_quoted-Extends q v (c ∷ d ∷ s) n h = elim (Bool-cases (c == b'\\')) [
  | inl slash ↦
      let (u, e, k) = lex_quoted-Extends q (v ++ (c ∷ d ∷ [])) s n (rw slash at h) in
      (c ∷ d ∷ u, ground (arith, append_assoc v (c ∷ d ∷ []) u), escaped (ground arith) k)
  | inr other ↦ elim (Bool-cases (c == q)) [
    | inl same_ ↦ (c ∷ [], ground arith, closed (ground arith))
    | inr more ↦
        let (u, e, k) = lex_quoted-Extends q (v ++ (c ∷ [])) (d ∷ s) n (rw (other, more) at h) in
        (c ∷ u, ground (arith, append_assoc v (c ∷ []) u), plain (ground arith) (ground arith) k)
  ]
]

lex_comment-ne-normal : (v s : Bytes) → (lex_comment v s).type ≢ normal
unfolding lex_comment
lex_comment-ne-normal v [] = ground arith
lex_comment-ne-normal v (c ∷ s) = ground (arith, lex_comment-ne-normal (v ++ (c ∷ [])) s)

lex_first-quoted :
    (c : ℕ) (s : Bytes) → (c ≡ b'"') ⊎ (c ≡ b'\'') → lex_first c s ≡ lex_quoted c (c ∷ []) s
lex_first-quoted c s (inl e) = rw e (unfold lex_first in refl)
lex_first-quoted c s (inr e) = rw e (unfold lex_first in refl)

lex_first-word : (c : ℕ) (s : Bytes) → starts_word c ≡ true → lex_first c s ≡ lex_normal (c ∷ []) s
unfolding lex_first starts_word
lex_first-word c s h = ground arith

-- What else can begin a word is a quote, or makes no word.
lex_first-cases :
    (c : ℕ) (s : Bytes)
    → is_whitespace c ≡ false
    → (lex_first c s).type ≡ normal
    → ((c ≡ b'"') ⊎ (c ≡ b'\'')) ⊎ (starts_word c ≡ true)
unfolding lex_first starts_word
lex_first-cases c s w h = ground (arith, lex_comment-ne-normal (c ∷ []) s)

quoted-IsToken :
    (c : ℕ) (s : Bytes)
    → (c ≡ b'"') ⊎ (c ≡ b'\'')
    → (lex_quoted c (c ∷ []) s).type ≡ normal
    → IsToken (lex_quoted c (c ∷ []) s).value
quoted-IsToken c s q h =
    let (u, e, k) = lex_quoted-Extends c (c ∷ []) s (ground arith) h in rw e (quoted q k)

word-IsToken :
    (c : ℕ) (s : Bytes)
    → starts_word c ≡ true
    → (lex_normal (c ∷ []) s).type ≡ normal
    → IsToken (lex_normal (c ∷ []) s).value
word-IsToken c s w h = let (u, e, k) = lex_normal-Extends (c ∷ []) s h in rw e (word w k)

lex_first-IsToken :
    (c : ℕ) (s : Bytes)
    → is_whitespace c ≡ false
    → (lex_first c s).type ≡ normal
    → IsToken (lex_first c s).value
lex_first-IsToken c s w h = elim (lex_first-cases c s w h) [
  | inl q ↦ let e = lex_first-quoted c s q in rw e (quoted-IsToken c s q (rw e at h))
  | inr starts ↦ let e = lex_first-word c s starts in rw e (word-IsToken c s starts (rw e at h))
]

pub parse_token-IsToken :
    (s : Bytes) → (parse_token s).type ≡ normal → IsToken (parse_token s).value
unfolding parse_token
parse_token-IsToken [] h = absurd (ground arith)
parse_token-IsToken (c ∷ s) h = elim (Bool-cases (is_whitespace c)) [
  | inl blank ↦ rw blank (parse_token-IsToken s (rw blank at h))
  | inr black ↦ rw black (lex_first-IsToken c s black (rw black at h))
]
