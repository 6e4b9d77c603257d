-- ===== src/ReadTest/Lines.antt =====
-- The lines that readtest/main.c prints, as bytes.
use praid.Common.{ℕ, zero, suc, ◌+◌, ◌*◌, ◌≡◌, refl, ap, ◌∙◌, arith, List, [], ◌∷◌, ◌++◌}
use mathlib.Core.List.{append_assoc}
use praid.Pciedrv.{page_size}
use praid.Pciedrv.Completion.{Page}
use praid.ReadTest.{Line, sixteen, dump}

-- The `n` values of `f` from place `j`.
unfoldable pub span : (ℕ → ℕ) → (j n : ℕ) → List ℕ
span f j zero = []
span f j (suc n) = f j ∷ span f (j + 1) n

unfoldable pub bytes_of : List Line → List ℕ
bytes_of [] = []
bytes_of (l ∷ ls) = l.bytes ++ bytes_of ls

span-append : (f : ℕ → ℕ) (j m n : ℕ) → span f j (m + n) ≡ span f j m ++ span f (j + m) n
unfolding span
span-append f j zero n =
    let here' : j + 0 ≡ j = omega arith in
    let none' : 0 + n ≡ n = omega arith in rw (here', none') refl
span-append f j (suc m) n =
    let longer : suc m + n ≡ suc (m + n) = omega arith in
    let next : j + suc m ≡ j + 1 + m = omega arith in
    rw (longer, next) (ap (λ l. f j ∷ l) (span-append f (j + 1) m n))

span-shift :
    (f g : ℕ → ℕ) (d : ℕ) → ((j : ℕ) → f (j + d) ≡ g j) → (j n : ℕ) → span f (j + d) n ≡ span g j n
unfolding span
span-shift f g d h j zero = refl
span-shift f g d h j (suc n) =
    let next : j + d + 1 ≡ j + 1 + d = omega arith in
    rw (next, h j, span-shift f g d h (j + 1) n) refl

pub bytes_of-append : (ls ms : List Line) → bytes_of (ls ++ ms) ≡ bytes_of ls ++ bytes_of ms
unfolding bytes_of
bytes_of-append [] ms = refl
bytes_of-append (l ∷ ls) ms = simp (bytes_of-append ls ms, append_assoc)

dump-span :
    (left id : ℕ) (p : Page) (i : ℕ)
    → bytes_of (dump left id p i) ≡ span (λ j. p (i + j)) 0 (left * 16)
unfolding dump sixteen bytes_of span
dump-span zero id p i = refl
dump-span (suc left) id p i =
    let longer : suc left * 16 ≡ 16 + left * 16 = omega arith in
    let rest =
      span-shift (λ j. p (i + j)) (λ j. p (i + 16 + j)) 16 (λ j. ap p (omega arith)) 0
        (left * 16) in
    let here' : i + 0 ≡ i = omega arith in
    let cut = span-append (λ j. p (i + j)) 0 16 (left * 16) in
    let one = dump-span left id p (i + 16) in rw longer (cc (cut, rest, one, here'))

pub dump-page : (id : ℕ) (p : Page) → bytes_of (dump 256 id p 0) ≡ span p 0 page_size
dump-page id p =
    dump-span 256 id p 0 ∙ span-shift (λ j. p (0 + j)) p 0 (λ j. ap p (omega arith)) 0 page_size
