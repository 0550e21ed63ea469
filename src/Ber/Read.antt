-- ===== src/Ber/Read.antt =====
-- `readObject`, `isIndefiniteTermination` and `ToDER` of internal/ber/ber.go, by offset into the
-- input. Every index and slice is checked as Go checks it, and fails as `panic`. The number of the
-- tag, which the source computes and never reads, and the test `length < 0`, which four bytes
-- below 2^31 cannot meet, are left out.
use certkit.Prelude.{ℕ, zero, suc, ◌+◌, ◌-◌, ◌*◌, List, ◌∷◌, Bool, true, false, ◌&&◌, ◌||◌}
use certkit.Prelude.{not, bit_and, none, some, length, get_elem?, take, drop}
use certkit.Prelude.{ltb, leb, ◌==◌, if◌then◌else◌}
use certkit.Result.{Result, ok, err, panic, stuck, ◌>>=◌, ◌>>◌, guard}
use certkit.Ber.Object.{Object, Objects, structured, primitive, nil, cons}
use certkit.Ber.Encode.{encode}

pub data Error : Type 0 where
  empty_input trailing_data too_deep past_end cannot_move length_too_long length_past_data : Error
  length_negative leading_zero indefinite_primitive child_exceeds_parent invalid_format : Error

abbrev pub R {ℓ} : Type ℓ → Type ℓ
R = Result Error

-- `ber[i]`
unfoldable pub byte : List ℕ → ℕ → R ℕ
byte ber i = elim (get_elem? ber i) [ none ↦ panic | some b ↦ ok b ]

-- `ber[from:to]`
unfoldable pub slice : List ℕ → ℕ → ℕ → R (List ℕ)
slice ber from to =
    if leb from to && leb to (length ber) then ok (take (to - from) (drop from ber)) else panic

-- `for ber[offset] >= 0x80 { offset++; if offset >= berLen { return err } }`. Each round moves
-- forward, so one round for each byte is enough.
unfoldable pub skip_tag : ℕ → List ℕ → ℕ → R ℕ
unfolding byte
skip_tag zero ber offset = stuck
skip_tag (suc fuel) ber offset =
    let more = skip_tag fuel ber (offset + 1) in
    let round = guard (ltb (offset + 1) (length ber)) cannot_move >> more in
    byte ber offset >>= λ b. if ltb b 0x80 then ok offset else round

-- The identifier octets: the first of them, and the offset behind the last.
unfoldable pub read_tag : List ℕ → ℕ → R (ℕ × ℕ)
unfolding byte skip_tag
read_tag ber tag_start = do
  b ← byte ber tag_start
  guard (ltb (tag_start + 1) (length ber)) cannot_move
  let high = do
    last ← skip_tag (length ber) ber (tag_start + 1)
    guard (ltb (last + 1) (length ber)) cannot_move
    ok (b, last + 1)
  if bit_and b 0x1f == 0x1f then high else ok (b, tag_start + 1)

-- `for i := 0; i < numberOfBytes; i++`, with the rounds left, the offset and the length so far.
unfoldable pub length_bytes : ℕ → List ℕ → ℕ → ℕ → R (ℕ × ℕ)
unfolding byte
length_bytes zero ber offset n = ok (n, offset)
length_bytes (suc rounds) ber offset n = do
  b ← byte ber offset
  guard (leb (offset + 1) (length ber)) cannot_move
  length_bytes rounds ber (offset + 1) (n * 256 + b)

-- What the length octets say, and the offset behind them.
pub record Extent : Type 0 where
  pub size : ℕ
  pub indefinite : Bool
  pub start : ℕ

unfoldable pub long_length : List ℕ → ℕ → ℕ → R Extent
unfolding byte length_bytes
long_length ber number_of_bytes offset = do
  guard (leb number_of_bytes 4) length_too_long
  guard (leb (offset + number_of_bytes) (length ber)) length_past_data
  first ← byte ber offset
  guard (not (number_of_bytes == 4 && ltb 0x7f first)) length_negative
  guard (not (first == 0)) leading_zero
  (n, behind) ← length_bytes number_of_bytes ber offset 0
  ok (record { size = n; indefinite = false; start = behind })

unfoldable pub read_length : List ℕ → ℕ → R Extent
unfolding byte long_length
read_length ber offset = do
  l ← byte ber offset
  guard (leb (offset + 1) (length ber)) cannot_move
  let at = offset + 1
  let unknown = ok (record { size = 0; indefinite = true; start = at })
  let short = ok (record { size = l; indefinite = false; start = at })
  if ltb 0x80 l then long_length ber (bit_and l 0x7f) at else if l == 0x80 then unknown else short

-- `bytes.Index(ber[offset:], []byte{0, 0}) == 0`
abbrev starts_with_zeros : List ℕ → Bool
starts_with_zeros (a ∷ b ∷ rest) = a == 0 && b == 0
starts_with_zeros _ = false

unfoldable pub is_indefinite_termination : List ℕ → ℕ → R Bool
is_indefinite_termination ber offset =
    if ltb (length ber - offset) 2
    then err invalid_format
    else ok (starts_with_zeros (drop offset ber))

-- A call of `readObject` or a round of its loop costs a unit of fuel.
unfoldable mutual
  pub read_object : ℕ → List ℕ → ℕ → ℕ → R (Object × ℕ)
  read_object zero ber offset depth = stuck
  read_object (suc fuel) ber offset depth = do
    guard (leb depth 128) too_deep
    guard (ltb offset (length ber)) past_end
    (b, tag_end) ← read_tag ber offset
    extent ← read_length ber tag_end
    let content_end = extent.start + extent.size
    guard (leb content_end (length ber)) length_past_data
    let kind = bit_and b 0x20
    guard (not (extent.indefinite && kind == 0)) indefinite_primitive
    tag_bytes ← slice ber offset tag_end
    let children = do
      (subs, behind) ← read_children fuel ber extent.start content_end extent.indefinite depth
      ok (structured tag_bytes subs, if extent.indefinite then behind else content_end)
    let leaf = do
      content ← slice ber extent.start content_end
      ok (primitive tag_bytes extent.size content, content_end)
    if kind == 0 then leaf else children

  pub read_children : ℕ → List ℕ → ℕ → ℕ → Bool → ℕ → R (Objects × ℕ)
  read_children zero ber offset content_end indefinite depth = stuck
  read_children (suc fuel) ber offset content_end indefinite depth =
      let next = do
        (sub, behind) ← read_object fuel ber offset (depth + 1)
        guard (indefinite || leb behind content_end) child_exceeds_parent
        (subs, last) ← read_children fuel ber behind content_end indefinite depth
        ok (cons sub subs, last)
      in let round = do
        terminated ← if indefinite then is_indefinite_termination ber offset else ok false
        if terminated then ok (nil, offset + 2) else next
        in if ltb offset content_end || indefinite then round else ok (nil, offset)

unfoldable pub to_der : List ℕ → R (List ℕ)
to_der ber = do
  guard (not (length ber == 0)) empty_input
  (obj, offset) ← read_object (length ber + 3) ber 0 0
  guard (offset == length ber) trailing_data
  ok (encode obj)
