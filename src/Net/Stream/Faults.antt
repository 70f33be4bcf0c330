-- ===== src/Net/Stream/Faults.antt =====
-- ProtocolStream.cpp: where the reader leaves its memory, for whole classes of inputs.
use learning_tools.Prelude.{
  ℕ, zero, suc, ◌+◌, ◌≤◌, ◌<◌, ◌≡◌, refl, ap, ◌∙◌, arith, List, [], ◌∷◌, ◌++◌, length, drop, none,
  some, false, ltb,
}
use learning_tools.Net.Stream.Reader.{Reader, copy_head, read_length_without_offset, read_string}
use learning_tools.Net.Stream.SevenBit.RoundTrip.{IsOpen, read_7bit_encoded32-open}

copy_head-open :
    (left : ℕ) (head : List ℕ) → IsOpen head → length head < left → copy_head left head ≡ none
unfolding copy_head
copy_head-open zero head h few = absurd (omega arith)
copy_head-open (suc left) [] h few = refl
copy_head-open (suc left) (c ∷ cs) (hc, hcs) few =
    let goes_on : ltb c 128 ≡ false = ground arith in
    rw (goes_on, copy_head-open left cs hcs (omega arith))

copy_head-open_full :
    (left : ℕ) (head rest : List ℕ)
    → IsOpen head
    → length head ≡ left
    → copy_head left (head ++ rest) ≡ some head
unfolding copy_head
copy_head-open_full zero [] rest h n = refl
copy_head-open_full zero (c ∷ cs) rest h n = absurd (omega arith)
copy_head-open_full (suc left) [] rest h n = absurd (omega arith)
copy_head-open_full (suc left) (c ∷ cs) rest (hc, hcs) n =
    let goes_on : ltb c 128 ≡ false = ground arith in
    rw (goes_on, copy_head-open_full left cs rest hcs (omega arith))

-- The head is copied before its end is compared with the end of the packet: where a packet ends
-- inside a length head of fewer than five bytes, and its allocation with it, every read of a string leaves the
-- allocation.
cut_head_overreads :
    (r : Reader) (maxlen : ℕ)
    → IsOpen (drop r.cur r.bytes)
    → length (drop r.cur r.bytes) < 5
    → (read_length_without_offset r ≡ none) × (read_string r maxlen ≡ none)
unfolding read_length_without_offset read_string
cut_head_overreads r maxlen h few =
    let cut = copy_head-open 5 (drop r.cur r.bytes) h few in
    (rw (read_length_without_offset, cut), rw (read_string, read_length_without_offset, cut))

-- Five bytes that all promise another one make `read7BitEncoded` read behind `char buf[5]`, however
-- much memory there is.
long_head_overreads :
    (r : Reader) (head rest : List ℕ) (maxlen : ℕ)
    → IsOpen head
    → length head ≡ 5
    → drop r.cur r.bytes ≡ head ++ rest
    → r.cur + 5 ≤ r.len
    → (read_length_without_offset r ≡ none) × (read_string r maxlen ≡ none)
unfolding read_length_without_offset read_string
long_head_overreads r head rest maxlen h five e inside =
    let copied = ap (copy_head 5) e ∙ copy_head-open_full 5 head rest h five in
    let behind = read_7bit_encoded32-open head h in
    let within : ltb r.len (r.cur + length head) ≡ false = ground arith in
    (
      rw (read_length_without_offset, copied, within, behind),
      rw (read_string, read_length_without_offset, copied, within, behind),
    )
