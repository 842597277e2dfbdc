-- ===== src/Text/Utf8.antt =====
-- `str.encode("utf-8")` and `bytes.decode("utf-8")`, strict and with `errors="ignore"`, as codec.py
-- and `_truncate_close_reason` of supervisor.py use them.
pub mod RoundTrip
pub mod Truncate
use phoenix_channels_python.Base.{
  ℕ, zero, suc, ◌+◌, ◌-◌, ◌*◌, ◌/◌, ◌%◌, ◌≡◌, refl, Bool, true, false, ◌&&◌, ◌||◌, not, Option,
  none, some, List, [], ◌∷◌, ◌++◌, ltb, leb, if◌then◌else◌, Result, ok, err, ◌>>=◌, value_error,
  bad_utf8, lone_surrogate,
}

abbrev pub is_surrogate : ℕ → Bool
is_surrogate c = leb 0xd800 c && ltb c 0xe000

-- The Unicode scalar values: what UTF-8 can encode.
abbrev pub is_scalar : ℕ → Bool
is_scalar c = ltb c 0x110000 && not (is_surrogate c)

unfoldable pub char_bytes : ℕ → List ℕ
char_bytes c =
    if ltb c 0x80
    then c ∷ []
    else if ltb c 0x800
    then (0xc0 + c / 64) ∷ (0x80 + c % 64) ∷ []
    else if ltb c 0x10000
    then (0xe0 + c / 4096) ∷ (0x80 + c / 64 % 64) ∷ (0x80 + c % 64) ∷ []
    else (0xf0 + c / 262144) ∷ (0x80 + c / 4096 % 64) ∷ (0x80 + c / 64 % 64) ∷ (0x80 + c % 64) ∷ []

-- UnicodeEncodeError is a ValueError.
unfoldable pub encode : List ℕ → Result (List ℕ)
encode [] = ok []
encode (c ∷ s) =
    let rest = encode s in
    if is_scalar c
    then (do bs ← rest; ok (char_bytes c ++ bs))
    else err (value_error lone_surrogate)

-- Where a decoder stands: between characters, or inside one, with `k + 1` bytes to come, the bits
-- read so far, and the least value that this length may encode.
pub data Pending : Type 0 where
  idle : Pending
  more : (k bits least : ℕ) → Pending

unfoldable pub lead : ℕ → Option (Pending × Option ℕ)
lead b =
    if ltb b 0x80
    then some (idle, some b)
    else if ltb b 0xc0
    then none
    else if ltb b 0xe0
    then some (more 0 (b - 0xc0) 0x80, none)
    else if ltb b 0xf0
    then some (more 1 (b - 0xe0) 0x800, none)
    else if ltb b 0xf8
    then some (more 2 (b - 0xf0) 0x10000, none)
    else none

unfoldable pub feed : Pending → ℕ → Option (Pending × Option ℕ)
unfolding lead
feed idle b = lead b
feed (more zero bits least) b =
    let c = bits * 64 + (b - 0x80) in
    if leb 0x80 b && ltb b 0xc0 && leb least c && is_scalar c then some (idle, some c) else none
feed (more (suc k) bits least) b =
    if leb 0x80 b && ltb b 0xc0 then some (more k (bits * 64 + (b - 0x80)) least, none) else none

abbrev pub emit : Option ℕ → Result (List ℕ) → Result (List ℕ)
emit none r = r
emit (some c) r = do s ← r; ok (c ∷ s)

abbrev pub at_end : Pending → Result (List ℕ)
at_end idle = ok []
at_end (more k bits least) = err (value_error bad_utf8)

-- UnicodeDecodeError is a ValueError.
unfoldable pub decode_from : Pending → List ℕ → Result (List ℕ)
unfolding feed
decode_from p [] = at_end p
decode_from p (b ∷ bs) = elim (feed p b) [
  | none ↦ err (value_error bad_utf8)
  | some (q, c) ↦ emit c (decode_from q bs)
]

unfoldable pub decode : List ℕ → Result (List ℕ)
unfolding decode_from
decode bs = decode_from idle bs

-- With `errors="ignore"`: bytes that belong to no character are skipped, and a byte that breaks a
-- character off is read again as the first of one.
or_idle : Option (Pending × Option ℕ) → Pending × Option ℕ
or_idle none = (idle, none)
or_idle (some r) = r

unfoldable pub feed_ignore : Pending → ℕ → Pending × Option ℕ
unfolding feed or_idle
feed_ignore p b = elim (feed p b) [ none ↦ or_idle (feed idle b) | some r ↦ r ]

abbrev pub emit_ignore : Option ℕ → List ℕ → List ℕ
emit_ignore none s = s
emit_ignore (some c) s = c ∷ s

unfoldable pub decode_ignore_from : Pending → List ℕ → List ℕ
unfolding feed_ignore
decode_ignore_from p [] = []
decode_ignore_from p (b ∷ bs) =
    let (q, c) = feed_ignore p b in emit_ignore c (decode_ignore_from q bs)

unfoldable pub decode_ignore : List ℕ → List ℕ
unfolding decode_ignore_from
decode_ignore bs = decode_ignore_from idle bs

euro : encode (0x20ac ∷ 0x1f600 ∷ []) ≡ ok (0xe2 ∷ 0x82 ∷ 0xac ∷ 0xf0 ∷ 0x9f ∷ 0x98 ∷ 0x80 ∷ [])
unfolding encode char_bytes
euro = refl

overlong : decode (0xc0 ∷ 0x80 ∷ []) ≡ err (value_error bad_utf8)
unfolding decode
overlong = refl

skips : decode_ignore (0xe2 ∷ 0x82 ∷ 0x41 ∷ 0xff ∷ 0x42 ∷ []) ≡ 0x41 ∷ 0x42 ∷ []
unfolding decode_ignore
skips = refl
