-- ===== src/Device/XorLoop.antt =====
-- What the XOR loop of pci.c does to each byte of the storage.
use praid.Common.{ℕ, zero, suc, ◌+◌, ◌-◌, ◌*◌, ◌≤◌, ◌<◌, ◌≡◌, refl, ◌∙◌, arith}
use praid.Common.{some, ltb, leb, ◌&&◌, if◌then◌else◌, lt→ltb, false}
use praid.Device.Word.{Memory, IsBytes, load_u64, word-xor, store_u64-word, xor-IsBytes}
use praid.Device.Xor.{xor_round, xor_loop, add_u64}
use Prim.Native.Nat.{bit_xor}
use praid.Common.Bits.{bit_xor-lt}

-- The parity byte at an address of `res`, with the bytes of the old and the new data XORed in.
abbrev pub xor3 : Memory → Memory
xor3 m a = bit_xor (bit_xor (m a) (m (a - 8192))) (m (a - 4096))

-- The memory in which the addresses `lo` to `hi - 1` hold the new parity.
abbrev pub xored : Memory → ℕ → ℕ → Memory
xored m lo hi a = if leb lo a && ltb a hi then xor3 m a else m a

pub xored-IsBytes : (m : Memory) (lo hi : ℕ) → IsBytes m → IsBytes (xored m lo hi)
xored-IsBytes m lo hi h a = ground (
  arith,
  h a,
  h (a - 8192),
  h (a - 4096),
  bit_xor-lt 8 (m a) (m (a - 8192)),
  bit_xor-lt 8 (bit_xor (m a) (m (a - 8192))) (m (a - 4096)),
)

xor_round_lem :
    (m : Memory) (p a : ℕ) → IsBytes m → xor_round m p a ≡ xored m (8192 + p) (8192 + p + 8) a
unfolding xor_round load_u64
xor_round_lem m p a h =
    let f : Memory = λ i. m (8192 + p + i) in
    let g : Memory = λ i. m (p + i) in
    let g' : Memory = λ i. m (p + 4096 + i) in
    let fg : Memory = λ i. bit_xor (f i) (g i) in
    let hf : IsBytes f = λ i. h (8192 + p + i) in
    let hg : IsBytes g = λ i. h (p + i) in
    let hg' : IsBytes g' = λ i. h (p + 4096 + i) in
    let hfg : IsBytes fg = xor-IsBytes f g hf hg in
    rw (word-xor 8 f g hf hg, word-xor 8 fg g' hfg hg')
      (store_u64-word m (λ i. bit_xor (fg i) (g' i)) (8192 + p) a (xor-IsBytes fg g' hfg hg')
        ∙ ground arith)

xor_round-IsBytes : (m : Memory) (p : ℕ) → IsBytes m → IsBytes (xor_round m p)
xor_round-IsBytes m p h a =
    rw (xor_round_lem m p a h) (xored-IsBytes m (8192 + p) (8192 + p + 8) h a)

-- Two neighbouring stretches make one.
xored-xored :
    (m m' : Memory) (lo mid hi a : ℕ)
    → 8192 ≤ lo
    → lo ≤ mid
    → mid ≤ hi
    → hi ≤ 12288
    → ((b : ℕ) → m' b ≡ xored m lo mid b)
    → xored m' mid hi a ≡ xored m lo hi a
xored-xored m m' lo mid hi a h₀ h₁ h₂ h₃ same =
    ground (arith, same a, same (a - 8192), same (a - 4096))

xor_loop_step :
    (fuel toffset tsize offset : ℕ) (m : Memory)
    → offset < tsize
    → toffset + tsize ≤ 4096
    → xor_loop (suc fuel) toffset tsize offset m
      ≡ xor_loop fuel toffset tsize (offset + 8) (xor_round m (toffset + offset))
unfolding xor_loop
xor_loop_step fuel toffset tsize offset m h b =
    let next : add_u64 offset 8 ≡ offset + 8 = omega arith in
    let here : add_u64 toffset offset ≡ toffset + offset = omega arith in
    rw (lt→ltb _ _ h, next, here, xor_loop)

-- Where `rounds` whole words from `offset` to `tsize` are left, inside a page of bytes, and the fuel
-- is more than `rounds`, the loop ends: the bytes of these words in the page of the parity take the
-- old and the new data XORed in, and no other byte changes.
pub xor_loop_lem :
    (fuel rounds toffset tsize offset : ℕ) (m : Memory)
    → rounds < fuel
    → tsize ≡ offset + 8 * rounds
    → toffset + tsize ≤ 4096
    → IsBytes m
    → (m' : Memory) × (xor_loop fuel toffset tsize offset m ≡ some m')
      × ((a : ℕ) → m' a ≡ xored m (8192 + (toffset + offset)) (8192 + (toffset + tsize)) a)
unfolding xor_loop
xor_loop_lem zero rounds toffset tsize offset m f e b h = absurd (omega arith)
xor_loop_lem (suc fuel) zero toffset tsize offset m f e b h =
    let done : ltb offset tsize ≡ false = ground arith in
    (m, rw (done, xor_loop) refl, λ a. ground arith)
xor_loop_lem (suc fuel) (suc rounds) toffset tsize offset m f e b h =
    let m₁ : Memory = xor_round m (toffset + offset) in
    let (m', ends, is) =
      xor_loop_lem fuel rounds toffset tsize (offset + 8) m₁ (omega arith) (omega arith) b
        (xor_round-IsBytes m (toffset + offset) h) in
    (
      m',
      xor_loop_step fuel toffset tsize offset m (omega arith) b ∙ ends,
      λ a.
          let mid : 8192 + (toffset + (offset + 8)) ≡ 8192 + (toffset + offset) + 8 = omega arith in
          rw mid at (is a)
          ∙ xored-xored m m₁ (8192 + (toffset + offset)) (8192 + (toffset + offset) + 8)
              (8192 + (toffset + tsize)) a (omega arith) (omega arith) (omega arith) (omega arith)
              (λ b'. xor_round_lem m (toffset + offset) b' h),
    )
