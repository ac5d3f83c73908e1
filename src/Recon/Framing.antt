-- ===== src/Recon/Framing.antt =====
-- The envelopes of crates/datboi-p2p/src/recon/envelope.rs, written and read.
use datboi.Base.{
  ℕ, ◌^◌, ◌≤◌, List, [], ◌++◌, append_assoc, Option, some, length, length-append, take, drop,
  take-append_length, drop-append_length, ltb, false, true, ◌≡◌, refl, ap, ◌∙◌, subst, arith,
}
use datboi.Riblt.Defs.{le_bytes, from_le}
use datboi.Riblt.Wire.{from_le-le_bytes, length-le_bytes}
use datboi.Recon.Envelope.{encode, decode, read_envelope, message, max_envelope_len}

module _ {A : Type 0} (to_stdvec : A → List ℕ)
    (take_from_bytes : List ℕ → Option (A × List ℕ)) where
  reads :
      (prefix body rest : List ℕ) (m : A)
      → length prefix ≡ 2
      → from_le prefix ≡ length body
      → length body ≤ max_envelope_len
      → decode take_from_bytes body ≡ some m
      → read_envelope take_from_bytes (prefix ++ (body ++ rest)) ≡ message m rest
  unfolding read_envelope
  reads prefix body rest m two len small parsed =
      let front : take 2 (prefix ++ (body ++ rest)) ≡ prefix =
        subst (λ n. take n (prefix ++ (body ++ rest)) ≡ prefix) two
          (take-append_length prefix (body ++ rest)) in
      let behind : drop 2 (prefix ++ (body ++ rest)) ≡ body ++ rest =
        subst (λ n. drop n (prefix ++ (body ++ rest)) ≡ body ++ rest) two
          (drop-append_length prefix (body ++ rest)) in
      let whole = length-append prefix (body ++ rest) in
      let size = length-append body rest in
      let a : ltb (length (prefix ++ (body ++ rest))) 2 ≡ false = ground arith in
      let b : ltb max_envelope_len (length body) ≡ false = ground arith in
      let c : ltb (length (body ++ rest)) (length body) ≡ false = ground arith in
      rw
        (
          front,
          behind,
          len,
          a,
          b,
          c,
          take-append_length body rest,
          parsed,
          front,
          behind,
          len,
          drop-append_length body rest,
          read_envelope,
        )
        refl

  -- If postcard parses what it has serialized, with no bytes left: a message of at most
  -- `MAX_ENVELOPE_LEN` bytes is encoded, and what reads an envelope from a stream finds it there with
  -- the bytes behind it.
  pub read_envelope-encode :
      (m : A) (rest : List ℕ)
      → length (to_stdvec m) ≤ max_envelope_len
      → take_from_bytes (to_stdvec m) ≡ some (m, [])
      → (bytes : List ℕ) × (encode to_stdvec m ≡ some bytes)
        × (read_envelope take_from_bytes (bytes ++ rest) ≡ message m rest)
  unfolding encode decode
  read_envelope-encode m rest small law =
      let body = to_stdvec m in
      let fits : ltb (length body) (2 ^ 16) ≡ true = ground arith in
      let prefix = le_bytes 2 (length body) in
      let two = length-le_bytes 2 (length body) in
      let len = from_le-le_bytes 2 (length body) (omega arith) in
      (
        prefix ++ body,
        rw (fits, encode) refl,
        ap (read_envelope take_from_bytes) (append_assoc prefix body rest)
            ∙ reads prefix body rest m two len small (rw (law, decode) refl),
      )
