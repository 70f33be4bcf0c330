-- ===== src/Net/TcpServer/Balance.antt =====
-- net/TcpServer.cpp: each connection is destroyed once.
use learning_tools.Prelude.{
  ℕ, ◌+◌, ◌<◌, ◌≤◌, ◌≡◌, refl, ◌∙◌, arith, Bool, true, false, ◌&&◌, ltb, ◌==◌, not, if◌then◌else◌,
  List, [], ◌∷◌, ◌++◌, length, none, some,
}
use learning_tools.Prelude.Strings.{less, less_tri, less_irrefl}
use learning_tools.Net.TcpServer.{
  Conn, ConnectionMap, Server, Task, listens, stops_threads, establishes, destroys, put, erase,
  reset_all, conn_name,
}
use learning_tools.Net.TcpServer.Names.{conn_name-inj}

-- How often a task destroys the connection of a number, and how many entries have it.
abbrev pub destroyed : ℕ → List Task → ℕ
destroyed n [] = 0
destroyed n (listens l ∷ ts) = destroyed n ts
destroyed n (stops_threads ∷ ts) = destroyed n ts
destroyed n (establishes c ∷ ts) = destroyed n ts
destroyed n (destroys c ∷ ts) = (if c.id == n then 1 else 0) + destroyed n ts

pub entries : ℕ → ConnectionMap → ℕ
entries n [] = 0
entries n ((k, none) ∷ m) = entries n m
entries n ((k, some c) ∷ m) = (if c.id == n then 1 else 0) + entries n m

pub entries_nil : (n : ℕ) (m : ConnectionMap) → m ≡ [] → entries n m ≡ 0
unfolding entries
entries_nil n m e = rw e refl

pub destroyed-append :
    (n : ℕ) (xs ys : List Task) → destroyed n (xs ++ ys) ≡ destroyed n xs + destroyed n ys
destroyed-append n [] ys = omega arith
destroyed-append n (listens l ∷ xs) ys = destroyed-append n xs ys
destroyed-append n (stops_threads ∷ xs) ys = destroyed-append n xs ys
destroyed-append n (establishes c ∷ xs) ys = destroyed-append n xs ys
destroyed-append n (destroys c ∷ xs) ys = omega (arith, destroyed-append n xs ys)

abbrev pub same : List ℕ → List ℕ → Bool
same xs ys = not (less xs ys) && not (less ys xs)

-- The entries are connections with the names and the numbers that were given out. `t` is any state of
-- the server: its name and its address stay.
module _ (t : Server) (short : length t.hostport ≤ 21) where
  pub is_named : ℕ → ConnectionMap → Bool
  is_named next [] = true
  is_named next ((k, none) ∷ m) = false
  is_named next ((k, some c) ∷ m) = same k (conn_name t c.id) && ltb c.id next && is_named next m

  pub is_named_nil : (next : ℕ) (m : ConnectionMap) → m ≡ [] → is_named next m ≡ true
  unfolding is_named
  is_named_nil next m e = rw e refl

  pub is_named-more :
      (next : ℕ) (m : ConnectionMap) → is_named next m ≡ true → is_named (next + 1) m ≡ true
  unfolding is_named
  is_named-more next [] h = refl
  is_named-more next ((k, none) ∷ m) h = ground (arith, h)
  is_named-more next ((k, some c) ∷ m) h = let ih = is_named-more next m in ground (arith, ih, h)

  pub put-is_named :
      (next : ℕ) (c : Conn) (m : ConnectionMap)
      → c.id < next
      → is_named next m ≡ true
      → is_named next (put (conn_name t c.id) (some c) m) ≡ true
  unfolding is_named put
  put-is_named next c [] h r = let own = less_irrefl (conn_name t c.id) in ground (arith, own, h)
  put-is_named next c ((k, none) ∷ m) h r = ground (arith, r)
  put-is_named next c ((k, some d) ∷ m) h r =
      let own = less_irrefl (conn_name t c.id) in
      let ih = put-is_named next c m h in ground (arith, own, ih, h, r)

  pub erase-is_named :
      (next : ℕ) (k : List ℕ) (m : ConnectionMap)
      → is_named next m ≡ true
      → is_named next (erase k m).1 ≡ true
  unfolding is_named erase
  erase-is_named next k [] r = r
  erase-is_named next k ((k', none) ∷ m) r = ground (arith, r)
  erase-is_named next k ((k', some d) ∷ m) r =
      let ih = erase-is_named next k m in ground (arith, ih, r)

  same-id :
      (i j : ℕ) (k : List ℕ)
      → i < 100000000
      → j < 100000000
      → less (conn_name t i) k ≡ false
      → less k (conn_name t i) ≡ false
      → same k (conn_name t j) ≡ true
      → i ≡ j
  same-id i j k hi hj h g e =
      let first = less_tri (conn_name t i) k h g in
      let second = less_tri k (conn_name t j) (ground (arith, e)) (ground (arith, e)) in
      conn_name-inj t i j short hi hj (first ∙ second)

  pub put-entries :
      (n next : ℕ) (c : Conn) (m : ConnectionMap)
      → next < 100000000
      → c.id ≡ next
      → is_named next m ≡ true
      → entries n (put (conn_name t next) (some c) m) ≡ entries n m + (if next == n then 1 else 0)
  unfolding is_named put entries
  put-entries n next c [] b h r = ground (arith, h)
  put-entries n next c ((k, none) ∷ m) b h r = ground (arith, r)
  put-entries n next c ((k, some d) ∷ m) b h r =
      let ih = put-entries n next c m b h in
      let one = same-id next d.id k b in ground (arith, ih, one, b, h, r)

  pub erase-entries :
      (n i next : ℕ) (m : ConnectionMap)
      → next ≤ 100000000
      → i < 100000000
      → is_named next m ≡ true
      → entries n (erase (conn_name t i) m).1
          + (if ((erase (conn_name t i) m).0 == 1) && (i == n) then 1 else 0)
        ≡ entries n m
  unfolding is_named erase entries
  erase-entries n i next [] b h r = refl
  erase-entries n i next ((k, none) ∷ m) b h r = ground (arith, r)
  erase-entries n i next ((k, some d) ∷ m) b h r =
      let ih = erase-entries n i next m b h in
      let one = same-id i d.id k h in ground (arith, ih, one, b, r)

  pub reset_all-some :
      (n next : ℕ) (m : ConnectionMap)
      → is_named next m ≡ true
      → (m' : ConnectionMap) × (ts : List Task) × ((reset_all m ≡ some (m', ts))
          × (destroyed n ts ≡ entries n m))
  unfolding is_named reset_all entries
  reset_all-some n next [] r = ([], [], (refl, refl))
  reset_all-some n next ((k, none) ∷ m) r = ground (arith, r)
  reset_all-some n next ((k, some c) ∷ m) r =
      let (m', ts, (e, d)) = reset_all-some n next m (ground (arith, r)) in
      ((k, none) ∷ m', destroys c ∷ ts, (rw (reset_all, e), omega (arith, d)))
