-- ===== src/Riblt/Decoder.antt =====
-- `Decoder` of crates/datboi-p2p/src/riblt.rs. An index that would panic and fuel that runs out are
-- `none`.
use datboi.Base.{
  ℕ, zero, suc, ◌+◌, List, [], ◌∷◌, ◌++◌, Option, none, some, length, get_elem?, Bool, true, false,
  not, ◌&&◌, ◌||◌, ◌==◌, if◌then◌else◌,
}
use datboi.Riblt.Defs.{CodedSymbol, HashedSymbol, add, remove, is_decodable, apply_new_symbol}
use datboi.Riblt.Window.{CodingWindow, no_window, apply_window, add_with_mapping, encoder}

pub record Decoder : Type 0 where
  pub cs : List CodedSymbol
  pub local : CodingWindow
  pub window : CodingWindow
  pub remote : CodingWindow
  pub decodable : List ℕ
  pub decoded : ℕ
  pub malformed : Bool

-- The arms of the match on a coded symbol's count.
pub data Degree : Type 0 where
  plus : Degree
  minus : Degree
  nothing : Degree
  beyond : Degree

unfoldable pub degree : ℕ → Degree
degree count =
    if count == add
    then plus
    else if count == remove
    then minus
    else if count == 0
    then nothing
    else beyond

-- `Decoder::decoded`
unfoldable pub is_decoded : Decoder → Bool
is_decoded d = not d.malformed && d.decoded == length d.cs

-- The symbol that a coded symbol of degree 1 or -1 holds.
abbrev pub sole : CodedSymbol → HashedSymbol
sole c = record { symbol = c.symbol; hash = c.hash }

module _ (step : ℕ → ℕ → ℕ) (hash_symbol : List ℕ → ℕ) where
  -- `Decoder::new`; the window is filled as the encoder's is.
  unfoldable pub decoder : List (List ℕ) → Option Decoder
  decoder prior = elim (encoder step hash_symbol prior) [
    | none ↦ none
    | some w ↦ some (record {
      cs = [];
      local = no_window;
      window = w;
      remote = no_window;
      decodable = [];
      decoded = 0;
      malformed = false;
    })
  ]

  -- The test that puts a coded symbol that has come in on the queue.
  unfoldable pub is_done : CodedSymbol → Bool
  is_done c = is_decodable step hash_symbol (some c) || (c.count == 0 && c.hash == 0)

  unfoldable pub add_coded_symbol : ℕ → CodedSymbol → Decoder → Option Decoder
  add_coded_symbol fuel c d = elim d.malformed [
    | true ↦ some d
    | false ↦ elim (apply_window step fuel d.window c remove) [
      | none ↦ none
      | some a ↦ elim (apply_window step fuel d.remote a.0 remove) [
        | none ↦ none
        | some b ↦ elim (apply_window step fuel d.local b.0 add) [
          | none ↦ none
          | some e ↦ some (record d {
            cs = d.cs ++ (e.0 ∷ []);
            window = a.1;
            remote = b.1;
            local = e.1;
            decodable = if is_done e.0 then d.decodable ++ (length d.cs ∷ []) else d.decodable;
          })
        ]
      ]
    ]
  ]

  -- The arms for the counts 1 and -1.
  unfoldable pub peel_remote : ℕ → HashedSymbol → Decoder → Option Decoder
  peel_remote fuel ns d = elim (apply_new_symbol step hash_symbol fuel ns remove d.cs d.decodable) [
    | none ↦ none
    | some a ↦ elim (add_with_mapping ns a.mapping_state d.remote) [
      | none ↦ none
      | some w ↦
          some
            (record d { cs = a.cs; remote = w; decodable = a.decodable; decoded = d.decoded + 1 })
    ]
  ]

  unfoldable pub peel_local : ℕ → HashedSymbol → Decoder → Option Decoder
  peel_local fuel ns d = elim (apply_new_symbol step hash_symbol fuel ns add d.cs d.decodable) [
    | none ↦ none
    | some a ↦ elim (add_with_mapping ns a.mapping_state d.local) [
      | none ↦ none
      | some w ↦
          some (record d { cs = a.cs; local = w; decodable = a.decodable; decoded = d.decoded + 1 })
    ]
  ]

  -- The loop of `try_decode` from the place `didx` of the queue on.
  unfoldable pub peel_from : ℕ → ℕ → ℕ → Decoder → Option Decoder
  peel_from zero fuel didx d = none
  peel_from (suc rounds) fuel didx d = elim (get_elem? d.decodable didx) [
    | none ↦ some (record d { decodable = [] })
    | some cidx ↦ elim (get_elem? d.cs cidx) [
      | none ↦ none
      | some c ↦ elim (degree c.count) [
        | plus ↦ elim (peel_remote fuel (sole c) d) [
          | none ↦ none
          | some e ↦ peel_from rounds fuel (didx + 1) e
        ]
        | minus ↦ elim (peel_local fuel (sole c) d) [
          | none ↦ none
          | some e ↦ peel_from rounds fuel (didx + 1) e
        ]
        | nothing ↦ peel_from rounds fuel (didx + 1) (record d { decoded = d.decoded + 1 })
        | beyond ↦ some (record d { malformed = true; decodable = [] })
      ]
    ]
  ]

  unfoldable pub try_decode : ℕ → ℕ → Decoder → Option Decoder
  try_decode rounds fuel d = elim d.malformed [ true ↦ some d | false ↦ peel_from rounds fuel 0 d ]
