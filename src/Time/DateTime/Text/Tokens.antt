-- ===== src/Time/DateTime/Text/Tokens.antt =====
-- Tokens that are joined by a delimiter, and taken apart again.
use libblocxx_deb.Prelude.{
  ℕ, ◌≡◌, refl, ◌∙◌, sym, ap, Bool, true, false, List, [], ◌∷◌, ◌++◌, is_some, All, Bool-cases, inl,
  inr,
}
use mathlib.Core.List.{append-nil, append_assoc}
use libblocxx_deb.CmdLine.Options.{String, empty}
use libblocxx_deb.CmdLine.Parse.{index_of}
use libblocxx_deb.Time.DateTime.Text.{tokenize, tokens_from}

abbrev pub join : ℕ → List String → String
join d [] = []
join d (t ∷ []) = t
join d (t ∷ u ∷ ts) = t ++ d ∷ join d (u ∷ ts)

-- A text that is not empty and has no delimiter.
abbrev pub IsToken : String → String → Type 0
IsToken delims t = (empty t ≡ false) × All (λ c. is_some (index_of c delims) ≡ false) t

abbrev last_after : String → Bool → Bool
last_after [] last = last
last_after (c ∷ t) last = false

last_after-false : (t : String) → last_after t false ≡ false
last_after-false [] = refl
last_after-false (c ∷ t) = refl

tokens_from-token :
    (delims t rest token : String) (last : Bool)
    → All (λ c. is_some (index_of c delims) ≡ false) t
    → tokens_from delims false false token last (t ++ rest)
      ≡ tokens_from delims false false (token ++ t) (last_after t last) rest
tokens_from-token delims [] rest token last h = rw (append-nil token) refl
tokens_from-token delims (c ∷ t) rest token last h = rw h.0 (
    tokens_from-token delims t rest (token ++ c ∷ []) false h.1
    ∙ rw (append_assoc token (c ∷ []) t) (rw (last_after-false t) refl))

tokens_from-join :
    (delims : String) (d : ℕ) (ts : List String) (last : Bool)
    → is_some (index_of d delims) ≡ true
    → All (IsToken delims) ts
    → tokens_from delims false false [] last (join d ts) ≡ ts
tokens_from-join delims d [] last e h = refl
tokens_from-join delims d ([] ∷ ts) last e h = absurd (cc h.0.0)
tokens_from-join delims d ((a ∷ t) ∷ []) last e h =
    ap (tokens_from delims false false [] last) (sym (append-nil (a ∷ t)))
    ∙ tokens_from-token delims (a ∷ t) [] [] last h.0.1
tokens_from-join delims d ((a ∷ t) ∷ u ∷ ts) last e h =
    tokens_from-token delims (a ∷ t) (d ∷ join d (u ∷ ts)) [] last h.0.1
    ∙ rw e (ap (λ rest. (a ∷ t) ∷ rest) (tokens_from-join delims d (u ∷ ts) true e h.1))

-- Tokens that are not empty and have no delimiter, joined by one that is a delimiter, are the tokens
-- of the text, when delimiters and empty tokens are left out.
pub tokenize-join :
    (delims : String) (d : ℕ) (ts : List String)
    → is_some (index_of d delims) ≡ true
    → All (IsToken delims) ts
    → tokenize delims false false (join d ts) ≡ ts
unfolding tokenize
tokenize-join delims d ts e h = elim (Bool-cases (empty (join d ts))) [
  | inl n ↦ rw n (no_tokens d ts n h)
  | inr n ↦ rw n (tokens_from-join delims d ts false e h)
]
  where
    no_tokens :
        (d : ℕ) (ts : List String) → empty (join d ts) ≡ true → All (IsToken delims) ts → [] ≡ ts
    no_tokens d [] n h = refl
    no_tokens d ([] ∷ ts) n h = absurd (cc h.0.0)
    no_tokens d ((a ∷ t) ∷ []) n h = absurd (cc n)
    no_tokens d ((a ∷ t) ∷ u ∷ ts) n h = absurd (cc n)
