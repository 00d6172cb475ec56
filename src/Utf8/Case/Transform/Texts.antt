-- ===== src/Utf8/Case/Transform/Texts.antt =====
-- `transformInPlace` on texts: what it does when no mapping shrinks, and when one does.
use mathlib.Core.List.{append-nil, append_assoc}
use libblocxx_deb.Prelude.{
  ℕ, zero, suc, ◌+◌, ◌-◌, ◌≤◌, ◌<◌, ◌≡◌, refl, sym, ap, ◌∙◌, true, false, List, [], ◌∷◌, ◌++◌, map,
  arith, length, All, drop, length-drop, length-append, drop-append,
}
use libblocxx_deb.Utf8.Text.{encode}
use libblocxx_deb.Utf8.Codec.{utf8_to_ucs4, ucs4_to_utf8, utf8_char_len}
use libblocxx_deb.Utf8.Codec.Fields.{utf8_to_ucs4_one}
use libblocxx_deb.Utf8.Codec.RoundTrip.{
  utf8_to_ucs4-ucs4_to_utf8, length-ucs4_to_utf8, ucs4_to_utf8-ne-nil, ucs4_to_utf8_pos,
}
use libblocxx_deb.Utf8.Case.Transform.{done, transform_in_place_loop, transform_in_place}
use libblocxx_deb.Utf8.Case.Transform.Copy.{IsChar}
use libblocxx_deb.Utf8.Case.Transform.Write.{write_at-append, shrunk, transform_in_place_step}

-- A code point whose mapping is as long in UTF-8.
abbrev pub KeepsLength : (ℕ → ℕ) → ℕ → Type 0
KeepsLength f c = IsChar c × (utf8_char_len (f c) ≡ utf8_char_len c)

cong_loop :
    {fuel : ℕ} (fuel' : ℕ) (f : ℕ → ℕ) {b b' : List ℕ} {p p' o o' : ℕ}
    → b ≡ b'
    → fuel ≡ fuel'
    → p ≡ p'
    → o ≡ o'
    → transform_in_place_loop fuel f b p o ≡ transform_in_place_loop fuel' f b' p' o'
cong_loop fuel' f eb ef ep eo = cc

same_length :
    (f : ℕ → ℕ) (cs : List ℕ)
    → All (KeepsLength f) cs
    → length (encode (map f cs)) ≡ length (encode cs)
same_length f [] all = refl
same_length f (c ∷ cs) all = omega (
  arith,
  all.0.1,
  length-append (ucs4_to_utf8 c) (encode cs),
  length-append (ucs4_to_utf8 (f c)) (encode (map f cs)),
  length-ucs4_to_utf8 c,
  length-ucs4_to_utf8 (f c),
  same_length f cs all.1,
)

drop_all : (n : ℕ) (xs : List ℕ) → n ≡ length xs → drop n xs ≡ []
drop_all zero [] e = refl
drop_all zero (x ∷ xs) e = absurd (omega arith)
drop_all (suc n) [] e = refl
drop_all (suc n) (x ∷ xs) e = drop_all n xs (omega arith)

-- A mapping of the same length leaves nothing behind.
shrunk_same :
    (f : ℕ → ℕ) (c : ℕ) → utf8_char_len (f c) ≡ utf8_char_len c → shrunk f c ≡ ucs4_to_utf8 (f c)
shrunk_same f c e =
    rw (drop_all (utf8_char_len (f c)) (ucs4_to_utf8 c) (omega (arith, length-ucs4_to_utf8 c)))
      (append-nil _)

-- The loop moves over code points that keep their length, with `k` rounds to spare.
transform_in_place_over :
    (f : ℕ → ℕ) (front cs rest : List ℕ) (fuel k n : ℕ)
    → fuel ≡ length cs + k
    → n ≡ length front
    → All (KeepsLength f) cs
    → transform_in_place_loop fuel f (front ++ (encode cs ++ rest)) n n
      ≡ transform_in_place_loop k f
          (front ++ (encode (map f cs) ++ rest))
          (n + length (encode cs))
          (n + length (encode cs))
transform_in_place_over f front [] rest fuel k n e at all =
    cong_loop k f refl (omega arith) (omega arith) (omega arith)
transform_in_place_over f front (c ∷ cs) rest zero k n e at all = absurd (omega arith)
transform_in_place_over f front (c ∷ cs) rest (suc fuel) k n e at all =
    ap (λ b. transform_in_place_loop (suc fuel) f (front ++ b) n n)
      (append_assoc (ucs4_to_utf8 c) (encode cs) rest)
    ∙ transform_in_place_step fuel f front c (ucs4_to_utf8 c) (encode cs ++ rest) n at all.0.0 refl
        (omega (arith, all.0.1))
    ∙ cong_loop fuel f
        (ap (λ b. front ++ (b ++ (encode cs ++ rest))) (shrunk_same f c all.0.1)
          ∙ sym (append_assoc front (ucs4_to_utf8 (f c)) (encode cs ++ rest)))
        refl refl (omega (arith, all.0.1))
    ∙ transform_in_place_over f (front ++ ucs4_to_utf8 (f c)) cs rest fuel k (n + utf8_char_len c)
        (omega arith)
        (omega
          (arith, all.0.1, length-append front (ucs4_to_utf8 (f c)), length-ucs4_to_utf8 (f c)))
        all.1
    ∙ cong_loop k f
        (append_assoc front (ucs4_to_utf8 (f c)) (encode (map f cs) ++ rest)
          ∙ ap (◌++◌ front) (sym (append_assoc (ucs4_to_utf8 (f c)) (encode (map f cs)) rest)))
        refl (omega (arith, length-append (ucs4_to_utf8 c) (encode cs), length-ucs4_to_utf8 c))
        (omega (arith, length-append (ucs4_to_utf8 c) (encode cs), length-ucs4_to_utf8 c))

-- At the NUL, with nothing shrunk, the loop ends.
transform_in_place_end :
    (k : ℕ) (f : ℕ → ℕ) (front : List ℕ) (n : ℕ)
    → 0 < k
    → n ≡ length front
    → transform_in_place_loop k f (front ++ 0 ∷ []) n n ≡ done true (front ++ 0 ∷ [])
unfolding transform_in_place_loop
transform_in_place_end zero f front n h at = absurd (omega arith)
transform_in_place_end (suc k) f front n h at =
    let here : drop n (front ++ 0 ∷ []) ≡ 0 ∷ [] = rw at (drop-append front (0 ∷ [])) in
    ground (arith, here, write_at-append front (0 ∷ []) [] (0 ∷ []) n at (omega arith))

length-le-encode : (cs : List ℕ) → length cs ≤ length (encode cs)
length-le-encode [] = omega arith
length-le-encode (c ∷ cs) =
    omega
      (arith, length-append (ucs4_to_utf8 c) (encode cs), ucs4_to_utf8_pos c, length-le-encode cs)

-- A text all of whose code points keep their length is mapped in place: the answer is true, and
-- the array holds the mapped text and its NUL.
pub transform_in_place-encode :
    (f : ℕ → ℕ) (cs : List ℕ)
    → All (KeepsLength f) cs
    → transform_in_place f (encode cs ++ 0 ∷ []) ≡ done true (encode (map f cs) ++ 0 ∷ [])
unfolding transform_in_place
transform_in_place-encode f cs all =
    let size = length (encode cs ++ 0 ∷ []) in
    let spare = suc size - length cs in
    let enough : suc size ≡ length cs + spare =
      omega (arith, length-le-encode cs, length-append (encode cs) (0 ∷ [])) in
    transform_in_place_over f [] cs (0 ∷ []) (suc size) spare 0 enough refl all
    ∙ cong_loop spare f refl refl (omega (arith, same_length f cs all))
        (omega (arith, same_length f cs all))
    ∙ transform_in_place_end spare f (encode (map f cs)) (length (encode (map f cs)))
        (omega (arith, length-le-encode cs, length-append (encode cs) (0 ∷ []))) refl

-- A round that stops: the next character lies behind the place to write.
transform_in_place_stop :
    (k : ℕ) (f : ℕ → ℕ) (front : List ℕ) (d : ℕ) (xs rest : List ℕ) (p output : ℕ)
    → 0 < k
    → p ≡ length front
    → output < p
    → IsChar d
    → ucs4_to_utf8 d ≡ xs
    → transform_in_place_loop k f (front ++ (xs ++ rest)) p output
      ≡ done false (front ++ (xs ++ rest))
unfolding transform_in_place_loop
transform_in_place_stop zero f front d xs rest p output h at behind char enc = absurd (omega arith)
transform_in_place_stop (suc k) f front d [] rest p output h at behind char enc =
    absurd (ucs4_to_utf8-ne-nil d enc)
transform_in_place_stop (suc k) f front d (b ∷ bs) rest p output h at behind char enc =
    let here : drop p (front ++ (b ∷ bs ++ rest)) ≡ b ∷ bs ++ rest =
      rw at (drop-append front (b ∷ bs ++ rest)) in
    let code : utf8_to_ucs4 (b ∷ bs ++ rest) ≡ d =
      rw enc at (utf8_to_ucs4-ucs4_to_utf8 d rest char.1) in
    ground (arith, here, code, utf8_to_ucs4_one b (bs ++ rest))

length-shrunk :
    (f : ℕ → ℕ) (c : ℕ)
    → utf8_char_len (f c) ≤ utf8_char_len c
    → length (shrunk f c) ≡ utf8_char_len c
length-shrunk f c h = omega (
  arith,
  length-append (ucs4_to_utf8 (f c)) (drop (utf8_char_len (f c)) (ucs4_to_utf8 c)),
  length-drop (utf8_char_len (f c)) (ucs4_to_utf8 c),
  length-ucs4_to_utf8 c,
  length-ucs4_to_utf8 (f c),
)

-- From a code point that shrinks the loop stops at the next one.
transform_in_place_shrink :
    (k : ℕ) (f : ℕ → ℕ) (front : List ℕ) (s d : ℕ) (rest : List ℕ)
    → 1 < k
    → IsChar s
    → utf8_char_len (f s) < utf8_char_len s
    → IsChar d
    → transform_in_place_loop k f
        (front ++ (ucs4_to_utf8 s ++ (ucs4_to_utf8 d ++ rest)))
        (length front)
        (length front)
      ≡ done false (front ++ (shrunk f s ++ (ucs4_to_utf8 d ++ rest)))
transform_in_place_shrink zero f front s d rest h char lt char' = absurd (omega arith)
transform_in_place_shrink (suc k) f front s d rest h char lt char' =
    let later = ucs4_to_utf8 d ++ rest in
    transform_in_place_step k f front s (ucs4_to_utf8 s) later (length front) refl char refl
      (omega arith)
    ∙ cong_loop k f (sym (append_assoc front (shrunk f s) later)) refl refl refl
    ∙ transform_in_place_stop k f (front ++ shrunk f s) d (ucs4_to_utf8 d) rest
        (length front + utf8_char_len s) (length front + utf8_char_len (f s)) (omega arith)
        (omega (arith, length-append front (shrunk f s), length-shrunk f s)) (omega arith) char'
        refl
    ∙ ap (done false) (append_assoc front (shrunk f s) later)

-- A code point whose mapping is shorter, followed by any other, stops the conversion: the answer
-- is false, and the array is left with the mapped front, the short mapping, the left-over bytes of
-- the code point that shrank, and the rest as it was.
pub transform_in_place_shrinks :
    (f : ℕ → ℕ) (cs : List ℕ) (s d : ℕ) (ds : List ℕ)
    → All (KeepsLength f) cs
    → IsChar s
    → utf8_char_len (f s) < utf8_char_len s
    → IsChar d
    → transform_in_place f
        (encode cs ++ (ucs4_to_utf8 s ++ (ucs4_to_utf8 d ++ (encode ds ++ 0 ∷ []))))
      ≡ done false (encode (map f cs) ++ (shrunk f s ++ (ucs4_to_utf8 d ++ (encode ds ++ 0 ∷ []))))
unfolding transform_in_place
transform_in_place_shrinks f cs s d ds all char lt char' =
    let tail = encode ds ++ 0 ∷ [] in
    let text = ucs4_to_utf8 s ++ (ucs4_to_utf8 d ++ tail) in
    let size = length (encode cs ++ text) in
    let spare = suc size - length cs in
    let room : (size ≡ length (encode cs) + length text) × (1 ≤ length text) = (
      length-append (encode cs) text,
      omega (arith, length-append (ucs4_to_utf8 s) (ucs4_to_utf8 d ++ tail), ucs4_to_utf8_pos s),
    ) in
    transform_in_place_over f [] cs text (suc size) spare 0
      (omega (arith, length-le-encode cs, room.0)) refl all
    ∙ cong_loop spare f refl refl (omega (arith, same_length f cs all))
        (omega (arith, same_length f cs all))
    ∙ transform_in_place_shrink spare f (encode (map f cs)) s d tail
        (omega (arith, length-le-encode cs, room.0, room.1)) char lt char'
