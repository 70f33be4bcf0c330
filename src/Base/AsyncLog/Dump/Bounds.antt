-- ===== src/Base/AsyncLog/Dump/Bounds.antt =====
-- base/AsyncLog.cpp: the array of `outputBinary` is large enough.
use learning_tools.Prelude.{
  ℕ, zero, suc, ◌+◌, ◌-◌, ◌*◌, ◌/◌, ◌%◌, ◌<◌, ◌≤◌, ◌≡◌, refl, arith, not, ◌&&◌, ◌==◌, if◌then◌else◌,
  List, [], ◌∷◌, ◌++◌, length, length-append, length-replicate, length-take, length-drop, take,
  drop, replicate, some,
}
use learning_tools.Net.Stream.Decimal.{digits}
use learning_tools.Net.Stream.Decimal.Length.{length-digits}
use learning_tools.Base.AsyncLog.Dump.{
  ullto4_str, hex_digit, row_head, byte_text, form_loop, form_log, dump_loop,
}

length-row_head : (index : ℕ) → index < 10000000000 → length (row_head index) ≤ 11
unfolding row_head ullto4_str
length-row_head index h =
    let few = length-digits index h in
    let whole =
      length-append (replicate (6 - length (digits index)) 48 ++ digits index) (32 ∷ []) in
    let padded = length-append (replicate (6 - length (digits index)) 48) (digits index) in
    let zeros = length-replicate {A = ℕ} (6 - length (digits index)) 48 in
    omega (arith, few, whole, padded, zeros)

-- What the byte `lsize` may need, and what all bytes before it.
pub need : ℕ → ℕ
need lsize = (if lsize % 32 == 0 then 12 else 0) + (if lsize % 16 == 0 then 1 else 0) + 2

pub cap : ℕ → ℕ
cap lsize = 12 * ((lsize + 31) / 32) + (lsize + 15) / 16 + 2 * lsize

pub cap_step : (lsize : ℕ) → cap lsize + need lsize ≤ cap (lsize + 1)
unfolding cap need
cap_step lsize = ground arith

pub cap_bound : (lsize : ℕ) → lsize ≤ 512 → cap lsize ≤ 1248
unfolding cap
cap_bound lsize h = omega (arith, h)

length_parts :
    (newline head space : List ℕ) (x y : ℕ)
    → length (newline ++ head ++ space ++ x ∷ y ∷ [])
      ≡ length newline + length head + length space + 2
length_parts newline head space x y =
    let outer = length-append (newline ++ head ++ space) (x ∷ y ∷ []) in
    let middle = length-append (newline ++ head) space in
    let inner = length-append newline head in omega (arith, outer, middle, inner)

pub length-byte_text :
    (index lsize headlen b : ℕ)
    → index < 10000000000
    → (length (byte_text index lsize headlen b) ≤ need lsize)
      × (2 ≤ length (byte_text index lsize headlen b))
unfolding byte_text need
length-byte_text index lsize headlen b h =
    let head = length-row_head index h in
    let starts = lsize % 32 == 0 in
    let text = if starts then row_head index else [] in
    let headlen' = if starts then length text else headlen in
    let whole =
      length_parts (if starts && not (headlen == 0) then 10 ∷ [] else []) text
        (if lsize % 16 == 0 && not (headlen' == 0) then 32 ∷ [] else []) (hex_digit (b / 16 % 16))
        (hex_digit (b % 16)) in
    ground (arith, head, whole)

Fits : List ℕ → ℕ → ℕ → List ℕ × ℕ → Type 0
Fits bytes index len r =
    (len + length r.0 ≤ 1248) × ((2 * length bytes ≤ length r.0) × (r.1 ≤ index + length bytes))

form_loop-Fits :
    (bytes : List ℕ) (index lsize headlen len : ℕ)
    → lsize + length bytes ≤ 512
    → len ≤ cap lsize
    → index + length bytes < 10000000000
    → Fits bytes index len (form_loop 1544 bytes index lsize headlen len)
unfolding form_loop Fits
form_loop-Fits [] index lsize headlen len s c h = (
  let end = cap_bound lsize (omega (arith, s)) in omega (arith, c, end),
  (omega arith, omega arith),
)
form_loop-Fits (b ∷ bs) index lsize headlen len s c h =
    let starts = lsize % 32 == 0 in
    let text = length-byte_text index lsize headlen b (omega (arith, h)) in
    let step = cap_step lsize in
    let end = cap_bound (lsize + 1) (omega (arith, s)) in
    let whole =
      length-append (byte_text index lsize headlen b)
        (form_loop 1544 bs (if starts then index + 1 else index) (lsize + 1)
          (if starts then length (row_head index) else headlen)
          (len + length (byte_text index lsize headlen b))).0 in
    let ih =
      form_loop-Fits bs (if starts then index + 1 else index) (lsize + 1)
        (if starts then length (row_head index) else headlen)
        (len + length (byte_text index lsize headlen b)) (omega (arith, s))
        (omega (arith, c, step, text)) (ground (arith, h)) in
    ground (arith, ih, whole, text, c, step, end)

pub form_log-fits :
    (index : ℕ) (bytes : List ℕ)
    → length bytes ≤ 512
    → index + length bytes < 10000000000
    → (r : List ℕ × ℕ) × ((form_log index 1544 bytes ≡ some r)
        × ((2 * length bytes ≤ length r.0) × (r.1 ≤ index + length bytes)))
unfolding form_log Fits cap
form_log-fits index bytes h g =
    let fits = form_loop-Fits bytes index 0 0 0 (omega (arith, h)) (omega arith) g in
    let r = form_loop 1544 bytes index 0 0 0 in
    let more = length-append r.0 (10 ∷ []) in
    (
      (r.0 ++ 10 ∷ [], r.1),
      (ground (arith, fits), (ground (arith, fits, more), ground (arith, fits))),
    )

pub dump_loop-some :
    (fuel index : ℕ) (bytes : List ℕ)
    → length bytes ≤ fuel
    → index + length bytes < 10000000000
    → (text : List ℕ) × ((dump_loop fuel index bytes ≡ some text)
        × (2 * length bytes ≤ length text))
unfolding dump_loop
dump_loop-some fuel index [] h g = ([], (refl, omega arith))
dump_loop-some zero index (b ∷ bs) h g = ground (arith, h)
dump_loop-some (suc fuel) index (b ∷ bs) h g =
    let front = length-take 512 (b ∷ bs) in
    let back = length-drop 512 (b ∷ bs) in
    let ((text, index'), (e, (long, small))) =
      form_log-fits index (take 512 (b ∷ bs)) (omega (arith, front)) (omega (arith, front, g)) in
    let (texts, (e', long')) =
      dump_loop-some fuel index' (drop 512 (b ∷ bs)) (omega (arith, back, h))
        (omega (arith, back, front, small, g)) in
    let both = length-append text texts in
    (text ++ texts, (rw (dump_loop, e, e'), omega (arith, both, long, long', front, back)))
