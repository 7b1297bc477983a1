-- ===== src/Ctl/Args.antt =====
-- The arguments of mcdbctl.c, as lists of bytes.
use mcdb.Base.{
  ℕ, ◌+◌, ◌-◌, ◌*◌, ◌^◌, List, [], ◌∷◌, Bool, true, false, not, ◌&&◌, ◌||◌, Option, none, some,
}
use mcdb.Base.{ltb, leb, ◌==◌, if◌then◌else◌, length, u64}

-- strcmp(s, t) == 0
unfoldable pub str_eq : List ℕ → List ℕ → Bool
str_eq [] [] = true
str_eq [] (b ∷ t) = false
str_eq (a ∷ s) [] = false
str_eq (a ∷ s) (b ∷ t) = a == b && str_eq s t

abbrev is_space : ℕ → Bool
is_space c = c == b' ' || (leb 9 c && leb c 13)

abbrev is_decimal : ℕ → Bool
is_decimal c = leb b'0' c && leb c b'9'

unfoldable pub skip_spaces : List ℕ → List ℕ
skip_spaces [] = []
skip_spaces (c ∷ s) = let rest = skip_spaces s in if is_space c then rest else c ∷ s

-- The digits at the begin of a text: their value, whether there is one, and the text behind them.
unfoldable pub read_digits : List ℕ → ℕ → Bool → ℕ × Bool × List ℕ
read_digits [] n some_digit = (n, some_digit, [])
read_digits (c ∷ s) n some_digit =
    let rest = read_digits s (n * 10 + (c - b'0')) true in
    if is_decimal c then rest else (n, some_digit, c ∷ s)

abbrev pub ulong_max : ℕ
ulong_max = 2 ^ 64 - 1

-- strtoul(s, &endptr, 10): the value, whether a number was read, and the text at `endptr`.
unfoldable pub strtoul : List ℕ → ℕ × Bool × List ℕ
unfolding skip_spaces read_digits
strtoul s =
    let (negative, digits) : Bool × List ℕ = elim (skip_spaces s) [
      | [] ↦ (false, [])
      | c ∷ t ↦ if c == b'-' then (true, t) else if c == b'+' then (false, t) else (false, c ∷ t)
    ] in
    let (n, read, rest) = read_digits digits 0 false in
    let value = if ltb ulong_max n then ulong_max else if negative then u64 (2 ^ 64 - n) else n in
    if read then (value, true, rest) else (0, false, s)

pub data QueryType : Type 0 where
  get : List ℕ → ℕ → QueryType
  getall : List ℕ → QueryType
  dump : QueryType
  stats : QueryType

abbrev pub get_word : List ℕ
get_word = b'g' ∷ b'e' ∷ b't' ∷ []

abbrev pub all_word : List ℕ
all_word = b'a' ∷ b'l' ∷ b'l' ∷ []

abbrev pub dump_word : List ℕ
dump_word = b'd' ∷ b'u' ∷ b'm' ∷ b'p' ∷ []

abbrev pub stats_word : List ℕ
stats_word = b's' ∷ b't' ∷ b'a' ∷ b't' ∷ b's' ∷ []

abbrev pub make_word : List ℕ
make_word = b'm' ∷ b'a' ∷ b'k' ∷ b'e' ∷ []

abbrev pub uniq_word : List ℕ
uniq_word = b'u' ∷ b'n' ∷ b'i' ∷ b'q' ∷ []

abbrev pub first_word : List ℕ
first_word = b'f' ∷ b'i' ∷ b'r' ∷ b's' ∷ b't' ∷ []

abbrev pub last_word : List ℕ
last_word = b'l' ∷ b'a' ∷ b's' ∷ b't' ∷ []

-- argv[4], which names a number or all.
unfoldable pub which : List ℕ → List ℕ → Option QueryType
unfolding strtoul str_eq
which key word =
    let (seq, read, rest) = strtoul word in
    if not (seq == ulong_max) && (read && length rest == 0)
    then some (get key seq)
    else if str_eq word all_word
    then some (getall key)
    else none

-- The type of a query, by argv[1] and on; `none` is MCDBCTL_BAD_QUERY_TYPE.
unfoldable pub query_type : List (List ℕ) → Option QueryType
unfolding which
query_type (word ∷ fname ∷ []) =
    if str_eq word dump_word then some dump else if str_eq word stats_word then some stats else none
query_type (word ∷ fname ∷ key ∷ []) = if str_eq word get_word then some (get key 0) else none
query_type (word ∷ fname ∷ key ∷ number ∷ []) =
    if str_eq word get_word then which key number else none
query_type args = none
