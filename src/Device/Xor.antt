-- ===== src/Device/Xor.antt =====
-- pci.c, `pciev_dispatcher_clac_xor_single`: the loop that computes the new parity. The storage
-- area holds three pages: the old data at 0, the new data behind it, and the old parity, `res`.
use praid.Common.{ℕ, zero, suc, ◌+◌, ◌*◌, ◌%◌, ◌^◌, Option, none, some, ltb, true, false}
use praid.Geometry.{chunk_size}
use praid.Pciedrv.{page_size}
use praid.Device.Word.{Memory, load_u64, store_u64}
use Prim.Native.Nat.{bit_xor}

-- Addition of `uint64_t`.
abbrev pub add_u64 : ℕ → ℕ → ℕ
add_u64 a b = (a + b) % 2 ^ 64

-- `data + PAGE_SIZE * 2`.
abbrev pub res : ℕ
res = page_size * 2

-- The loop's body: the word of the parity at `nowofs` with the old and the new word XORed in.
unfoldable pub xor_round : Memory → ℕ → Memory
unfolding load_u64 store_u64
xor_round mem nowofs =
    let value = load_u64 mem (res + nowofs) in
    let value' = bit_xor value (load_u64 mem nowofs) in
    let value'' = bit_xor value' (load_u64 mem (nowofs + chunk_size)) in
    store_u64 mem (res + nowofs) value''

-- The loop at `offset`; `mem` is the mapped storage; `none` means that the fuel ran out.
unfoldable pub xor_loop : ℕ → ℕ → ℕ → ℕ → Memory → Option Memory
xor_loop zero toffset tsize offset mem = none
xor_loop (suc fuel) toffset tsize offset mem = elim (ltb offset tsize) [
  | true ↦ xor_loop fuel toffset tsize (add_u64 offset 8) (xor_round mem (add_u64 toffset offset))
  | false ↦ some mem
]
