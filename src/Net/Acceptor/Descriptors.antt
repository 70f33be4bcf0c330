-- ===== src/Net/Acceptor/Descriptors.antt =====
-- net/Acceptor.cpp: which descriptors are open after a call.
use mathlib.Core.Path.{subst}
use mathlib.Core.Option.{some-injective, none-ne-some}
use learning_tools.Prelude.{
  ℕ, ◌+◌, ◌≡◌, refl, sym, ◌∙◌, Bool, false, not, ◌&&◌, ◌||◌, ◌==◌, arith, List, [], ◌∷◌, Option,
  none, some, Bool-cases, ◌⊎◌, inl, inr,
}
use learning_tools.Net.Channel.{Polling}
use learning_tools.Net.Sockets.{SockAddr}
use learning_tools.Net.Acceptor.{
  Answer, accepted, failed, Kernel, IsKernel, is_idle, fd_of, emfile, is_expected, checked,
  Acceptor, close_idle, refuse, Handled, handle_failed, handle_answer, handle_read,
}

abbrev pub is_handed : List (ℕ × SockAddr) → ℕ → Bool
is_handed [] n = false
is_handed ((fd, peer) ∷ hs) n = fd == n || is_handed hs n

checked-cases : (answer : Answer) → (checked answer ≡ none) ⊎ (checked answer ≡ some answer)
unfolding checked
checked-cases (accepted fd peer) = inr refl
checked-cases (failed errno) = elim (Bool-cases (is_expected errno)) [
  | inl yes_it_is ↦ inr (rw yes_it_is)
  | inr no_it_is_not ↦ inl (rw no_it_is_not)
]

module _ (kernel : Kernel) (law : IsKernel kernel) where
  close_idle_open :
      (idle : Option ℕ) (k : kernel.State) (n : ℕ)
      → kernel.is_open (close_idle kernel idle k) n ≡ (kernel.is_open k n && not (is_idle idle n))
  close_idle_open none k n = ground arith
  close_idle_open (some fd) k n = law.close_open k fd n

  close_idle_waiting :
      (idle : Option ℕ) (k : kernel.State)
      → kernel.waiting (close_idle kernel idle k) ≡ kernel.waiting k
  close_idle_waiting none k = refl
  close_idle_waiting (some fd) k = law.close_waiting k fd

  refuse_open :
      (idle : Option ℕ) (k : kernel.State) (n : ℕ)
      → kernel.is_open (refuse kernel idle k).1 n
        ≡ ((kernel.is_open k n && not (is_idle idle n)) || is_idle (refuse kernel idle k).0 n)
  unfolding refuse
  refuse_open idle k n =
      let k₁ = close_idle kernel idle k in
      let (answer, k₂) = kernel.accept k₁ in
      let k₃ = close_idle kernel (fd_of answer) k₂ in
      let shut = close_idle_open idle k n in
      let came = law.accept_open k₁ n in
      let new = law.accept_fresh k₁ n in
      let went = close_idle_open (fd_of answer) k₂ n in
      let again = law.null_open k₃ n in ground (arith, shut, came, new, went, again)

  refuse_waiting :
      (idle : Option ℕ) (k : kernel.State) (fd : ℕ) (peer : SockAddr)
      → (kernel.accept (close_idle kernel idle k)).0 ≡ accepted fd peer
      → kernel.waiting (refuse kernel idle k).1 + 1 ≡ kernel.waiting k
  unfolding refuse
  refuse_waiting idle k fd peer e =
      let k₁ = close_idle kernel idle k in
      let (answer, k₂) = kernel.accept k₁ in
      let k₃ = close_idle kernel (fd_of answer) k₂ in
      let shut = close_idle_waiting idle k in
      let took = law.accept_takes k₁ fd peer e in
      let went = close_idle_waiting (fd_of answer) k₂ in
      let again = law.null_waiting k₃ in omega (arith, shut, took, went, again)

  module _ (p : Polling) where
    -- What a call may do to the descriptors, beginning in `k`, where an accept answers `answer`.
    Accounts : kernel.State → Acceptor p → ℕ → Handled kernel p → Type 0
    Accounts k a n r =
        (kernel.is_open r.1.1 n ≡ (
          (kernel.is_open k n && not (is_idle a.idle_fd n))
          || is_idle r.1.0.idle_fd n
          || is_handed r.0 n))
        × ((kernel.is_open k n && is_handed r.0 n) ≡ false)

    handle_answer-Accounts :
        (log : ℕ → ℕ) (answer : Answer) (k k' : kernel.State) (a : Acceptor p) (n : ℕ)
        → (is_idle a.idle_fd n && not (kernel.is_open k n)) ≡ false
        → kernel.is_open k' n ≡ (kernel.is_open k n || is_idle (fd_of answer) n)
        → (kernel.is_open k n && is_idle (fd_of answer) n) ≡ false
        → Accounts k a n (handle_answer kernel p log answer a k')
    unfolding Accounts handle_answer handle_failed
    handle_answer-Accounts log (accepted fd peer) k k' a n held came new =
        let shut = law.close_open k' fd n in ground (arith, held, came, new, shut)
    handle_answer-Accounts log (failed errno) k k' a n held came new =
        let refused = refuse_open a.idle_fd k' n in ground (arith, held, came, new, refused)

    handle_read_cases :
        (log : ℕ → ℕ) (a : Acceptor p) (k : kernel.State)
        → (handle_read kernel p log a k ≡ none)
          ⊎ (handle_read kernel p log a k
              ≡ some (handle_answer kernel p log (kernel.accept k).0 a (kernel.accept k).1))
    unfolding handle_read
    handle_read_cases log a k = elim (checked-cases (kernel.accept k).0) [
      | inl dies ↦ inl (rw (handle_read, dies))
      | inr goes_on ↦ inr (rw (handle_read, goes_on))
    ]

    -- In handleRead, where the process goes on, and the idle descriptor is open if there is one: what is open
    -- afterwards is what was open, without the idle descriptor there was, with the one there is now, and with
    -- the connection that was passed on, which was not open before. So none leaks, and no other is closed.
    pub handle_read_descriptors :
        (log : ℕ → ℕ) (a a' : Acceptor p) (k k' : kernel.State) (handed : List (ℕ × SockAddr))
        (n : ℕ)
        → (is_idle a.idle_fd n && not (kernel.is_open k n)) ≡ false
        → handle_read kernel p log a k ≡ some (handed, (a', k'))
        → (kernel.is_open k' n ≡ (
            (kernel.is_open k n && not (is_idle a.idle_fd n))
            || is_idle a'.idle_fd n
            || is_handed handed n))
          × ((kernel.is_open k n && is_handed handed n) ≡ false)
    unfolding Accounts
    handle_read_descriptors log a a' k k' handed n held e = elim (handle_read_cases log a k) [
      | inl dies ↦ absurd (none-ne-some _ (sym dies ∙ e))
      | inr goes_on ↦ subst (Accounts k a n) (some-injective _ _ (sym goes_on ∙ e)) (
          handle_answer-Accounts log (kernel.accept k).0 k (kernel.accept k).1 a n held
            (law.accept_open k n) (law.accept_fresh k n))
    ]

    -- Out of descriptors, if a line of the log keeps errno and the accept behind the close of the idle descriptor
    -- succeeds, then handleRead passes nothing on and takes a connection from the queue.
    pub handle_read-refuses :
        (log : ℕ → ℕ) (a : Acceptor p) (k : kernel.State) (fd : ℕ) (peer : SockAddr)
        → (kernel.accept k).0 ≡ failed emfile
        → log emfile ≡ emfile
        → (kernel.accept (close_idle kernel a.idle_fd (kernel.accept k).1)).0 ≡ accepted fd peer
        → (idle_fd : Option ℕ) × (k' : kernel.State) × ((handle_read kernel p log a k
              ≡ some ([], (record a { idle_fd = idle_fd }, k')))
            × (kernel.waiting k' + 1 ≡ kernel.waiting k))
    unfolding handle_read handle_answer handle_failed checked
    handle_read-refuses log a k fd peer full keeps next =
        let (idle_fd, k') = refuse kernel a.idle_fd (kernel.accept k).1 in
        let took = refuse_waiting a.idle_fd (kernel.accept k).1 fd peer next in
        let same = law.accept_emfile k full in
        (
          idle_fd,
          k',
          (
            rw (handle_read, full, checked, handle_answer, keeps, handle_failed),
            omega (arith, took, same),
          ),
        )
