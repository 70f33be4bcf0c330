-- ===== src/Net/Buffer/Queue.antt =====
-- What a client may rely on: a first-in first-out queue of bytes. No sequence of calls tells a buffer
-- from the queue of its readable bytes.
use learning_tools.Prelude.{
  ℕ, ◌+◌, ◌-◌, ◌^◌, ◌<◌, ◌≡◌, refl, ap, ap₂, sym, ◌∙◌, arith, List, [], ◌∷◌, ◌++◌, length, take,
  drop, Bool, true, leb, if◌then◌else◌,
}
use learning_tools.Net.Buffer.{
  Buffer, readable_bytes, retrieve, retrieve_as_string, ensure_writable_bytes, unwrite, append,
  cheap_prepend,
}
use learning_tools.Net.Buffer.Invariant.{
  IsValid, Fits, readable_lem, retrieve-IsValid, unwrite-IsValid, ensure_writable_bytes-IsValid,
}
use learning_tools.Net.Buffer.Contents.{
  contents, length-contents, ensure_lem, append-IsValid, append-contents, append-Fits,
  retrieve-contents, unwrite-contents, retrieve_as_string-contents,
}

pub data Call : Type 0 where
  appends : List ℕ → Call
  ensures retrieves unwrites takes_string : ℕ → Call

-- What a call shows to its caller: its result, the bytes that it hands out, and how many bytes are
-- readable behind it.
pub record Reply : Type 0 where
  pub accepted : Bool
  pub bytes : List ℕ
  pub left : ℕ

pub serve : Buffer → Call → Reply × Buffer
serve b (appends bytes) =
    let b' = append b bytes in
    (record { accepted = true; bytes = []; left = readable_bytes b' }, b')
serve b (ensures n) =
    let b' = ensure_writable_bytes b n in
    (record { accepted = true; bytes = []; left = readable_bytes b' }, b')
serve b (retrieves n) =
    let (done, b') = retrieve b n in
    (record { accepted = done; bytes = []; left = readable_bytes b' }, b')
serve b (unwrites n) =
    let (done, b') = unwrite b n in
    (record { accepted = done; bytes = []; left = readable_bytes b' }, b')
serve b (takes_string n) =
    let (bytes, b') = retrieve_as_string b n in
    (record { accepted = true; bytes = bytes; left = readable_bytes b' }, b')

-- The queue: the oldest byte stands first.
pub queue_serve : List ℕ → Call → Reply × List ℕ
queue_serve q (appends bytes) =
    (record { accepted = true; bytes = []; left = length (q ++ bytes) }, q ++ bytes)
queue_serve q (ensures n) = (record { accepted = true; bytes = []; left = length q }, q)
queue_serve q (retrieves n) =
    let q' = if leb n (length q) then drop n q else q in
    (record { accepted = leb n (length q); bytes = []; left = length q' }, q')
queue_serve q (unwrites n) =
    let q' = if leb n (length q) then take (length q - n) q else q in
    (record { accepted = leb n (length q); bytes = []; left = length q' }, q')
queue_serve q (takes_string n) =
    let out = if leb n (length q) then take n q else [] in
    let q' = if leb n (length q) then drop n q else q in
    (record { accepted = true; bytes = out; left = length q' }, q')

pub run : Buffer → List Call → List Reply
run b [] = []
run b (c ∷ cs) = let (r, b') = serve b c in r ∷ run b' cs

pub queue_run : List ℕ → List Call → List Reply
queue_run q [] = []
queue_run q (c ∷ cs) = let (r, q') = queue_serve q c in r ∷ queue_run q' cs

-- The room that a call may ask for.
unfoldable pub demand : Call → ℕ
demand (appends bytes) = length bytes
demand (ensures n) = n
demand (retrieves n) = 0
demand (unwrites n) = 0
demand (takes_string n) = 0

unfoldable pub demands : List Call → ℕ
unfolding demand
demands [] = 0
demands (c ∷ cs) = demand c + demands cs

pub readable-contents : {b : Buffer} → IsValid b → readable_bytes b ≡ length (contents b)
readable-contents v = readable_lem v ∙ sym (length-contents v)

-- There is room for `n` bytes more, now and when `retrieve` has set the indices back.
abbrev pub Room : Buffer → ℕ → Type 0
Room b n = Fits b n × (n + cheap_prepend + cheap_prepend < 2 ^ 63)

pub retrieve-Room : (b : Buffer) (k n : ℕ) → Room b n → Room (retrieve b k).1 n
unfolding retrieve
retrieve-Room b k n f = ground arith

unwrite-Room : {b : Buffer} (k n : ℕ) → IsValid b → Room b n → Room (unwrite b k).1 n
unfolding unwrite
unwrite-Room k n v f = ground (arith, readable_lem v)

retrieve_as_string-eq : (b : Buffer) (k : ℕ) → (retrieve_as_string b k).1 ≡ (retrieve b k).1
unfolding retrieve_as_string retrieve
retrieve_as_string-eq b k = ground arith

serve_refines :
    {b : Buffer} (c : Call) (n : ℕ)
    → IsValid b
    → Room b (demand c + n)
    → let (r, b') = serve b c in
      IsValid b' × Room b' n × ((r, contents b') ≡ queue_serve (contents b) c)
unfolding serve queue_serve demand
serve_refines {b} (appends bytes) n v (f, g) =
    let fits : Fits b (length bytes) = omega arith in
    let valid = append-IsValid v bytes fits in
    (
      valid,
      (append-Fits v bytes n f, omega arith),
      ground (arith, readable-contents valid, append-contents v bytes fits),
    )
serve_refines {b} (ensures k) n v (f, g) =
    let fits : Fits b k = omega arith in
    let valid = ensure_writable_bytes-IsValid v k fits in
    let (same, _, low) = ensure_lem v k fits in
    (valid, (omega (arith, low), omega arith), ground (arith, readable-contents valid, same))
serve_refines {b} (retrieves k) n v room =
    let valid = retrieve-IsValid v k in
    (
      valid,
      retrieve-Room b k n (omega arith),
      ground (arith, readable-contents valid, retrieve-contents v k),
    )
serve_refines {b} (unwrites k) n v room =
    let valid = unwrite-IsValid v k in
    (
      valid,
      unwrite-Room k n v (omega arith),
      ground (arith, readable-contents valid, unwrite-contents v k),
    )
serve_refines {b} (takes_string k) n v room =
    let valid = retrieve-IsValid v k in
    let parts = retrieve_as_string-contents v k in
    rw (retrieve_as_string-eq b k) (
      valid,
      retrieve-Room b k n (omega arith),
      ground (arith, readable-contents valid, parts, retrieve_as_string-eq b k),
    )

-- Every sequence of calls whose demands fit the address space is answered as the queue of the readable
-- bytes answers it: no byte is lost, made up or reordered, whenever the buffer moves or grows its
-- storage.
pub run_refines :
    (cs : List Call) {b : Buffer}
    → IsValid b
    → Room b (demands cs)
    → run b cs ≡ queue_run (contents b) cs
unfolding run queue_run demands
run_refines [] v f = refl
run_refines (c ∷ cs) {b} v f =
    let (valid, fits, same) = serve_refines c (demands cs) v f in
    ap₂ ◌∷◌ (ap (λ p. p.0) same) (run_refines cs valid fits ∙ ap (λ p. queue_run p.1 cs) same)
