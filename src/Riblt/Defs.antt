-- ===== src/Riblt/Defs.antt =====
-- Coded symbols, index mappings and the block encoder of crates/datboi-p2p/src/riblt.rs. The width is
-- a parameter, a symbol the list of its bytes, and an i64 is held as its 64 bits.
use datboi.Base.{
  ℕ, zero, suc, ◌+◌, ◌-◌, ◌*◌, ◌/◌, ◌%◌, ◌^◌, min, List, [], ◌∷◌, ◌++◌, Option, none, some, length,
  take, drop, replicate, get_elem?, Bool, false, ◌&&◌, ◌||◌, leb, ◌==◌, if◌then◌else◌,
}
use Prim.Native.Nat.{bit_xor}

-- `ADD` and `REMOVE`, 1 and -1.
abbrev pub add : ℕ
add = 1

abbrev pub remove : ℕ
remove = 2 ^ 64 - 1

-- `xor_in_place`: the lanes of eight bytes and the bytes behind them are all taken byte by byte.
unfoldable pub xor_bytes : List ℕ → List ℕ → List ℕ
xor_bytes [] bs = []
xor_bytes (a ∷ more) [] = a ∷ more
xor_bytes (a ∷ more) (b ∷ bs) = bit_xor a b ∷ xor_bytes more bs

pub record HashedSymbol : Type 0 where
  pub symbol : List ℕ
  pub hash : ℕ

pub record CodedSymbol : Type 0 where
  pub symbol : List ℕ
  pub hash : ℕ
  pub count : ℕ

-- `CodedSymbol::default` at the width `n`.
unfoldable pub default : ℕ → CodedSymbol
default n = record { symbol = replicate n 0; hash = 0; count = 0 }

-- `CodedSymbol::apply`
unfoldable pub apply : CodedSymbol → HashedSymbol → ℕ → CodedSymbol
apply c s direction = record {
  symbol = xor_bytes c.symbol s.symbol;
  hash = bit_xor c.hash s.hash;
  count = (c.count + direction) % 2 ^ 64;
}

-- `to_le_bytes` of 64 bits and `from_le_bytes`.
unfoldable pub le_bytes : ℕ → ℕ → List ℕ
le_bytes zero v = []
le_bytes (suc n) v = v % 256 ∷ le_bytes n (v / 256)

unfoldable pub from_le : List ℕ → ℕ
from_le [] = 0
from_le (b ∷ bs) = b + 256 * from_le bs

-- `write_to` a buffer of the right length, and `to_bytes`.
unfoldable pub to_bytes : CodedSymbol → List ℕ
to_bytes c = c.symbol ++ (le_bytes 8 c.hash ++ le_bytes 8 c.count)

-- `from_bytes` at the width `n`, which panics on another length.
unfoldable pub from_bytes : ℕ → List ℕ → Option CodedSymbol
from_bytes n bs =
    if length bs == n + 16
    then some (record {
      symbol = take n bs;
      hash = from_le (take 8 (drop n bs));
      count = from_le (drop (n + 8) bs);
    })
    else none

pub record RandomMapping : Type 0 where
  pub prng : ℕ
  pub last_index : ℕ

-- The state in which a symbol's mapping begins.
unfoldable pub mapping : HashedSymbol → RandomMapping
mapping s = record { prng = s.hash; last_index = 0 }

-- The entry of a list at an index, changed.
unfoldable pub at_index : {A : Type 0} → ℕ → (A → A) → List A → List A
at_index i f [] = []
at_index zero f (x ∷ xs) = f x ∷ xs
at_index (suc i) f (x ∷ xs) = x ∷ at_index i f xs

-- What `apply_new_symbol` leaves in the decoder, and the mapping that it returns.
pub record Absorbed : Type 0 where
  pub cs : List CodedSymbol
  pub decodable : List ℕ
  pub mapping_state : RandomMapping

-- The step between indices, computed in f64 from the last index and the random number, is a
-- parameter.
module _ (step : ℕ → ℕ → ℕ) where
  unfoldable pub next_index : RandomMapping → RandomMapping
  next_index m =
      let prng = m.prng * 15750249268501108917 % 2 ^ 64 in
      record { prng = prng; last_index = min (m.last_index + step m.last_index prng) (2 ^ 64 - 1) }

  -- The loop of `encode_block` over the indices of one symbol in [start, end); `none` when the fuel
  -- runs out.
  unfoldable pub mark :
      ℕ → ℕ → ℕ → HashedSymbol → ℕ → RandomMapping → List CodedSymbol → Option (List CodedSymbol)
  mark zero start end s direction m out = none
  mark (suc fuel) start end s direction m out =
      let idx = m.last_index in
      let marked =
        if leb start idx then at_index (idx - start) (λ c. apply c s direction) out else out in
      let rest = mark fuel start end s direction (next_index m) marked in
      if leb end idx then some out else rest

  -- `encode_block` over the symbols that the snapshot visits, from the blank block on. The end of the
  -- block is not wrapped: it is meant for ends that fit 64 bits.
  unfoldable pub encode_onto :
      ℕ → ℕ → List HashedSymbol → List CodedSymbol → Option (List CodedSymbol)
  encode_onto fuel start [] out = some out
  encode_onto fuel start (s ∷ ss) out =
      elim (mark fuel start (start + length out) s add (mapping s) out) [
        | none ↦ none
        | some next ↦ encode_onto fuel start ss next
      ]

  module _ (hash_symbol : List ℕ → ℕ) where
    -- `HashedSymbol::new`
    unfoldable pub hashed : List ℕ → HashedSymbol
    hashed symbol = record { symbol = symbol; hash = hash_symbol symbol }

    unfoldable pub hash_all : List (List ℕ) → List HashedSymbol
    hash_all [] = []
    hash_all (s ∷ ss) = hashed s ∷ hash_all ss

    -- `encode_block` of a set at the width `n` into a block of `len` symbols.
    unfoldable pub encode_block : ℕ → ℕ → ℕ → ℕ → List (List ℕ) → Option (List CodedSymbol)
    encode_block fuel n start len set =
        encode_onto fuel start (hash_all set) (replicate len (default n))

    -- The test for a coded symbol of degree 1 or -1 that has the checksum of its sum.
    unfoldable pub is_decodable : Option CodedSymbol → Bool
    is_decodable none = false
    is_decodable (some c) = (c.count == remove || c.count == add) && c.hash == hash_symbol c.symbol

    -- The loop of `apply_new_symbol` over the received symbols `cs` and the queue of decodable ones;
    -- `none` when the fuel runs out.
    unfoldable pub absorb :
        ℕ → HashedSymbol → ℕ → RandomMapping → List CodedSymbol → List ℕ → Option Absorbed
    absorb zero t direction m cs decodable = none
    absorb (suc fuel) t direction m cs decodable =
        let cidx = m.last_index in
        let changed = at_index cidx (λ c. apply c t direction) cs in
        let queue =
          if is_decodable (get_elem? changed cidx) then decodable ++ (cidx ∷ []) else decodable in
        let rest = absorb fuel t direction (next_index m) changed queue in
        if leb (length cs) cidx
        then some (record { cs = cs; decodable = decodable; mapping_state = m })
        else rest

    unfoldable pub apply_new_symbol :
        ℕ → HashedSymbol → ℕ → List CodedSymbol → List ℕ → Option Absorbed
    apply_new_symbol fuel t direction cs decodable =
        absorb fuel t direction (mapping t) cs decodable
