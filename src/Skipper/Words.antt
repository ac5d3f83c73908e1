-- ===== src/Skipper/Words.antt =====
-- The names of the elements, attributes and values of crates/datboi-formats/src/skipper.rs.
use datboi.Base.{ℕ, List, [], ◌∷◌}

abbrev pub none_word : List ℕ
none_word = b'n' ∷ b'o' ∷ b'n' ∷ b'e' ∷ []

abbrev pub bitswap : List ℕ
bitswap = b'b' ∷ b'i' ∷ b't' ∷ b's' ∷ b'w' ∷ b'a' ∷ b'p' ∷ []

abbrev pub byteswap : List ℕ
byteswap = b'b' ∷ b'y' ∷ b't' ∷ b'e' ∷ b's' ∷ b'w' ∷ b'a' ∷ b'p' ∷ []

abbrev pub wordswap : List ℕ
wordswap = b'w' ∷ b'o' ∷ b'r' ∷ b'd' ∷ b's' ∷ b'w' ∷ b'a' ∷ b'p' ∷ []

abbrev pub wordbyteswap : List ℕ
wordbyteswap =
    b'w' ∷ b'o' ∷ b'r' ∷ b'd' ∷ b'b' ∷ b'y' ∷ b't' ∷ b'e' ∷ b's' ∷ b'w' ∷ b'a' ∷ b'p' ∷ []

abbrev pub operation : List ℕ
operation = b'o' ∷ b'p' ∷ b'e' ∷ b'r' ∷ b'a' ∷ b't' ∷ b'i' ∷ b'o' ∷ b'n' ∷ []

abbrev pub start_offset : List ℕ
start_offset =
    b's' ∷ b't' ∷ b'a' ∷ b'r' ∷ b't' ∷ b'_' ∷ b'o' ∷ b'f' ∷ b'f' ∷ b's' ∷ b'e' ∷ b't' ∷ []

abbrev pub end_offset : List ℕ
end_offset = b'e' ∷ b'n' ∷ b'd' ∷ b'_' ∷ b'o' ∷ b'f' ∷ b'f' ∷ b's' ∷ b'e' ∷ b't' ∷ []

abbrev pub offset : List ℕ
offset = b'o' ∷ b'f' ∷ b'f' ∷ b's' ∷ b'e' ∷ b't' ∷ []

abbrev pub value : List ℕ
value = b'v' ∷ b'a' ∷ b'l' ∷ b'u' ∷ b'e' ∷ []

abbrev pub mask : List ℕ
mask = b'm' ∷ b'a' ∷ b's' ∷ b'k' ∷ []

abbrev pub size : List ℕ
size = b's' ∷ b'i' ∷ b'z' ∷ b'e' ∷ []

abbrev pub operator : List ℕ
operator = b'o' ∷ b'p' ∷ b'e' ∷ b'r' ∷ b'a' ∷ b't' ∷ b'o' ∷ b'r' ∷ []

abbrev pub result : List ℕ
result = b'r' ∷ b'e' ∷ b's' ∷ b'u' ∷ b'l' ∷ b't' ∷ []

abbrev pub po2 : List ℕ
po2 = b'P' ∷ b'O' ∷ b'2' ∷ []

abbrev pub equal_word : List ℕ
equal_word = b'e' ∷ b'q' ∷ b'u' ∷ b'a' ∷ b'l' ∷ []

abbrev pub less_word : List ℕ
less_word = b'l' ∷ b'e' ∷ b's' ∷ b's' ∷ []

abbrev pub greater_word : List ℕ
greater_word = b'g' ∷ b'r' ∷ b'e' ∷ b'a' ∷ b't' ∷ b'e' ∷ b'r' ∷ []

abbrev pub true_word : List ℕ
true_word = b't' ∷ b'r' ∷ b'u' ∷ b'e' ∷ []

abbrev pub false_word : List ℕ
false_word = b'f' ∷ b'a' ∷ b'l' ∷ b's' ∷ b'e' ∷ []

abbrev pub file : List ℕ
file = b'f' ∷ b'i' ∷ b'l' ∷ b'e' ∷ []

abbrev pub data_word : List ℕ
data_word = b'd' ∷ b'a' ∷ b't' ∷ b'a' ∷ []

abbrev pub and_word : List ℕ
and_word = b'a' ∷ b'n' ∷ b'd' ∷ []

abbrev pub or_word : List ℕ
or_word = b'o' ∷ b'r' ∷ []

abbrev pub xor_word : List ℕ
xor_word = b'x' ∷ b'o' ∷ b'r' ∷ []

abbrev pub boolean_test : List ℕ
boolean_test =
    b'b' ∷ b'o' ∷ b'o' ∷ b'l' ∷ b'e' ∷ b'a' ∷ b'n' ∷ b' ' ∷ b't' ∷ b'e' ∷ b's' ∷ b't' ∷ []

abbrev pub rule : List ℕ
rule = b'r' ∷ b'u' ∷ b'l' ∷ b'e' ∷ []

abbrev pub detector : List ℕ
detector = b'd' ∷ b'e' ∷ b't' ∷ b'e' ∷ b'c' ∷ b't' ∷ b'o' ∷ b'r' ∷ []

abbrev pub name_word : List ℕ
name_word = b'n' ∷ b'a' ∷ b'm' ∷ b'e' ∷ []

abbrev pub author : List ℕ
author = b'a' ∷ b'u' ∷ b't' ∷ b'h' ∷ b'o' ∷ b'r' ∷ []

abbrev pub version : List ℕ
version = b'v' ∷ b'e' ∷ b'r' ∷ b's' ∷ b'i' ∷ b'o' ∷ b'n' ∷ []
