-- ===== src/Net/Buffer/Integers/RoundTrip.antt =====
-- Buffer.h: an integer that was appended or prepended is read back.
use learning_tools.Prelude.{
  ℕ, ◌+◌, ◌-◌, ◌^◌, ◌≤◌, ◌<◌, ◌≡◌, refl, ap, ap₂, sym, ◌∙◌, arith, List, [], ◌∷◌, ◌++◌, length,
  length-append, take, drop,
}
use learning_tools.Prelude.Slices.{slice, take-append, drop-append, take-slice}
use mathlib.Core.List.{append-nil, append_assoc}
use learning_tools.Net.Endian.{to_network, host_to_network64, host_to_network32, host_to_network16}
use learning_tools.Net.Endian.RoundTrip.{one_byte, length-to_network, network_to_host-to_network}
use learning_tools.Net.Buffer.{Buffer, retrieve, append, prepend, prependable_bytes}
use learning_tools.Net.Buffer.Invariant.{
  IsValid, Fits, readable_lem, retrieve-IsValid, prepend-IsValid,
}
use learning_tools.Net.Buffer.Contents.{
  contents, length-contents, append-Fits, append-contents, append-IsValid, retrieve-contents,
  prepend-contents,
}
use learning_tools.Net.Buffer.Integers.{
  append_int64, append_int32, append_int16, append_int8, prepend_int64, prepend_int32,
  prepend_int16, prepend_int8, read_int64, read_int32, read_int16, read_int8, peek_bytes,
}

-- A peek sees the integer that the first bytes are, and a retrieval takes those bytes away.
module _ {b : Buffer} (v : IsValid b) where
  peek_front :
      (w x : ℕ) (rest : List ℕ)
      → x < 256 ^ w
      → contents b ≡ to_network w x ++ rest
      → (peek_bytes w b ≡ x) × (contents (retrieve b w).1 ≡ rest)
  unfolding peek_bytes contents
  peek_front w x rest h e =
      let k = b.writer_index - b.reader_index in
      let width = length-to_network w x in
      let first : take w (slice b.reader_index k b.storage) ≡ to_network w x =
        rw e (take-append w (to_network w x) rest (sym width)) in
      let others : drop w (slice b.reader_index k b.storage) ≡ rest =
        rw e (drop-append w (to_network w x) rest (sym width)) in
      ground (
        arith,
        first,
        others,
        width,
        readable_lem v,
        length-contents v,
        length-append (to_network w x) rest,
        take-slice w b.reader_index k b.storage,
        retrieve-contents v w,
        network_to_host-to_network w x,
      )

-- An integer with its width, and the calls for each width.
pub data Item : Type 0 where
  int64 int32 int16 int8 : ℕ → Item

abbrev pub IsItem : Item → Type 0
IsItem (int64 x) = x < 2 ^ 64
IsItem (int32 x) = x < 2 ^ 32
IsItem (int16 x) = x < 2 ^ 16
IsItem (int8 x) = x < 2 ^ 8

unfoldable pub encoded : Item → List ℕ
encoded (int64 x) = to_network 8 x
encoded (int32 x) = to_network 4 x
encoded (int16 x) = to_network 2 x
encoded (int8 x) = to_network 1 x

pub append_item : Buffer → Item → Buffer
append_item b (int64 x) = append_int64 b x
append_item b (int32 x) = append_int32 b x
append_item b (int16 x) = append_int16 b x
append_item b (int8 x) = append_int8 b x

pub prepend_item : Buffer → Item → Buffer
prepend_item b (int64 x) = prepend_int64 b x
prepend_item b (int32 x) = prepend_int32 b x
prepend_item b (int16 x) = prepend_int16 b x
prepend_item b (int8 x) = prepend_int8 b x

-- Reads an integer as wide as the given one.
pub read_item : Buffer → Item → Item × Buffer
read_item b (int64 _) = let (x, b') = read_int64 b in (int64 x, b')
read_item b (int32 _) = let (x, b') = read_int32 b in (int32 x, b')
read_item b (int16 _) = let (x, b') = read_int16 b in (int16 x, b')
read_item b (int8 _) = let (x, b') = read_int8 b in (int8 x, b')

read_item_lem :
    {b : Buffer} (v : IsValid b) (i : Item) (rest : List ℕ)
    → IsItem i
    → contents b ≡ encoded i ++ rest
    → ((read_item b i).0 ≡ i) × IsValid (read_item b i).1 × (contents (read_item b i).1 ≡ rest)
unfolding read_item encoded read_int64 read_int32 read_int16 read_int8
read_item_lem v (int64 x) rest h e =
    let (p, q) = peek_front v 8 x rest h e in (ap int64 p, retrieve-IsValid v 8, q)
read_item_lem v (int32 x) rest h e =
    let (p, q) = peek_front v 4 x rest h e in (ap int32 p, retrieve-IsValid v 4, q)
read_item_lem v (int16 x) rest h e =
    let (p, q) = peek_front v 2 x rest h e in (ap int16 p, retrieve-IsValid v 2, q)
read_item_lem v (int8 x) rest h e =
    let (p, q) = peek_front v 1 x rest h e in (ap int8 p, retrieve-IsValid v 1, q)

append_item-append : (b : Buffer) (i : Item) → IsItem i → append_item b i ≡ append b (encoded i)
unfolding append_item encoded append_int64 append_int32 append_int16 append_int8 host_to_network64
    host_to_network32 host_to_network16
append_item-append b (int64 x) h = refl
append_item-append b (int32 x) h = refl
append_item-append b (int16 x) h = refl
append_item-append b (int8 x) h = ap (append b) (one_byte x h)

prepend_item-prepend :
    (b : Buffer) (i : Item) → IsItem i → prepend_item b i ≡ (prepend b (encoded i)).1
unfolding prepend_item encoded prepend_int64 prepend_int32 prepend_int16 prepend_int8
    host_to_network64 host_to_network32 host_to_network16
prepend_item-prepend b (int64 x) h = refl
prepend_item-prepend b (int32 x) h = refl
prepend_item-prepend b (int16 x) h = refl
prepend_item-prepend b (int8 x) h = ap (λ bytes. (prepend b bytes).1) (one_byte x h)

pub append_all : Buffer → List Item → Buffer
append_all b [] = b
append_all b (i ∷ is) = append_all (append_item b i) is

pub read_all : Buffer → List Item → List Item × Buffer
read_all b [] = ([], b)
read_all b (i ∷ is) = let (x, b') = read_item b i in let (xs, b'') = read_all b' is in (x ∷ xs, b'')

abbrev pub AreItems : List Item → Type 0
AreItems [] = Unit {0}
AreItems (i ∷ is) = IsItem i × AreItems is

unfoldable pub encoded_all : List Item → List ℕ
encoded_all [] = []
encoded_all (i ∷ is) = encoded i ++ encoded_all is

pub append_all-contents :
    (is : List Item) {b : Buffer}
    → IsValid b
    → AreItems is
    → Fits b (length (encoded_all is))
    → IsValid (append_all b is) × (contents (append_all b is) ≡ contents b ++ encoded_all is)
unfolding append_all encoded_all
append_all-contents [] {b} v h f = (v, sym (append-nil (contents b)))
append_all-contents (i ∷ is) {b} v (hi, his) f =
    let bytes = encoded i in
    let total = length-append bytes (encoded_all is) in
    let fits : Fits b (length bytes) = omega (arith, total) in
    let later : Fits b (length bytes + length (encoded_all is)) = omega (arith, total) in
    let (valid, same) =
      append_all-contents is (append-IsValid v bytes fits) his
        (append-Fits v bytes (length (encoded_all is)) later) in
    rw (append_item-append b i hi) (
      valid,
      same
          ∙ ap (λ c. c ++ encoded_all is) (append-contents v bytes fits)
          ∙ append_assoc (contents b) bytes (encoded_all is),
    )

read_all_lem :
    (is : List Item) (rest : List ℕ) {b : Buffer}
    → IsValid b
    → AreItems is
    → contents b ≡ encoded_all is ++ rest
    → ((read_all b is).0 ≡ is) × IsValid (read_all b is).1 × (contents (read_all b is).1 ≡ rest)
unfolding read_all encoded_all
read_all_lem [] rest v h e = (refl, v, e)
read_all_lem (i ∷ is) rest v (hi, his) e =
    let (first, valid, left) =
      read_item_lem v i (encoded_all is ++ rest) hi
        (e ∙ append_assoc (encoded i) (encoded_all is) rest) in
    let (others, valid', left') = read_all_lem is rest valid his left in
    (ap₂ ◌∷◌ first others, valid', left')

-- Integers of any widths that are appended to an empty buffer are read back, in the order in which
-- they were appended, by reads of the same widths; that leaves the buffer empty, and valid.
pub read_all-append_all :
    (is : List Item) {b : Buffer}
    → IsValid b
    → AreItems is
    → Fits b (length (encoded_all is))
    → contents b ≡ []
    → let (read, left) = read_all (append_all b is) is in
      (read ≡ is) × IsValid left × (contents left ≡ [])
read_all-append_all is v h f e =
    let (valid, same) = append_all-contents is v h f in
    read_all_lem is [] valid h (same ∙ ap (λ c. c ++ encoded_all is) e ∙ sym (append-nil _))

-- An integer that is prepended where there is room in front is read back first, and the read leaves
-- the bytes that were there before.
read_item-prepend_item :
    (i : Item) {b : Buffer}
    → IsValid b
    → IsItem i
    → length (encoded i) ≤ prependable_bytes b
    → let (read, left) = read_item (prepend_item b i) i in
      (read ≡ i) × IsValid left × (contents left ≡ contents b)
read_item-prepend_item i {b} v h room = rw (prepend_item-prepend b i h) (
    read_item_lem (prepend-IsValid v (encoded i)) i (contents b) h
      (ground (arith, prepend-contents v (encoded i))))
