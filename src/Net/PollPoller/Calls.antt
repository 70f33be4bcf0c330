-- ===== src/Net/PollPoller/Calls.antt =====
-- net/PollPoller.cpp: what the channels do to it, one call after the other.
use learning_tools.Prelude.Int.{negsuc}
use learning_tools.Prelude.{
  ℕ, ◌≡◌, refl, ap, ◌∙◌, true, not, ◌||◌, ◌==◌, arith, List, [], ◌∷◌, Option, none, some, get_elem?,
  set, get_elem?-set_self, length-set, length, ◌<◌, Bool-cases, inl, inr,
}
use learning_tools.Net.Channel.{Channel, at, is_none_event}
use learning_tools.Net.PollPoller.{
  PollFd, Poller, is_entry, write, update_channel, update_existing, renew, remove_channel,
}
use learning_tools.Net.PollPoller.{poll}
use learning_tools.Net.PollPoller.Polls.{poll-IsConsistent}
use learning_tools.Net.PollPoller.Slots.{owner_at_behind, entry_at}
use learning_tools.Net.PollPoller.Consistent.{
  IsConsistent, update_channel-IsConsistent, is_entry_lem,
}
use learning_tools.Net.PollPoller.Removal.{Forgets-IsConsistent, remove_at-Forgets}

-- A channel is asked for other events and tells its poller, or it leaves; and what poll(2) answers to the loop.
pub data Call : Type 0 where
  updates : ℕ → ℕ → Call
  removes : ℕ → Call
  polls : Option (ℕ × List ℕ) → Call

unfoldable pub set_events : ℕ → ℕ → Poller → Poller
unfolding write
set_events a events s = record s {
  store = write s.store a (record (s.store a) { events = events });
}

unfoldable pub step : Call → Poller → Option Poller
unfolding set_events
step (updates a events) s = some (update_channel a (set_events a events s)).1
step (removes a) s = remove_channel a s
step (polls answer) s = some (poll answer s).1

unfoldable pub runs : List Call → Poller → Option Poller
unfolding step
runs [] s = some s
runs (c ∷ cs) s = elim (step c s) [ none ↦ none | some s' ↦ runs cs s' ]

set_events-IsConsistent :
    (a events : ℕ) (s : Poller) → IsConsistent s → IsConsistent (set_events a events s)
unfolding set_events write
set_events-IsConsistent a events s inv = record {
  entry = λ fd b e.
      let (own, (i, (place, owns))) = inv.entry fd b e in
      (ground (arith, own), (i, (ground (arith, place), owns)));
  slot = λ i fd e. let (b, (known, place)) = inv.slot i fd e in (b, (known, ground (arith, place)));
}

remove_channel-IsConsistent :
    (a : ℕ) (s : Poller)
    → IsConsistent s
    → (s' : Poller) × ((remove_channel a s ≡ some s') × IsConsistent s')
unfolding remove_channel
remove_channel-IsConsistent a s inv =
    let c = s.store a in
    elim (Bool-cases (not (is_entry (s.channels c.fd) a) || not (is_none_event c))) [
      | inl refused ↦ (s, (rw (remove_channel, refused), inv))
      | inr leaves ↦
          let known = is_entry_lem (s.channels c.fd) a (ground (arith, leaves)) in
          let (_, (idx, (place, _))) = inv.entry c.fd a known in
          let (s', (done, f)) = remove_at-Forgets a idx s inv known place in
          (
            s',
            (
              rw (remove_channel, leaves, place) done,
              Forgets-IsConsistent a idx s inv known place s' f,
            ),
          )
    ]

step-IsConsistent :
    (c : Call) (s : Poller)
    → IsConsistent s
    → (s' : Poller) × ((step c s ≡ some s') × IsConsistent s')
unfolding step
step-IsConsistent (updates a events) s inv = (
  (update_channel a (set_events a events s)).1,
  (
    refl,
    update_channel-IsConsistent a (set_events a events s) (set_events-IsConsistent a events s inv),
  ),
)
step-IsConsistent (removes a) s inv = remove_channel-IsConsistent a s inv
step-IsConsistent (polls answer) s inv = ((poll answer s).1, (refl, poll-IsConsistent answer s inv))

-- Where the array, the map and the indices agree, any calls of updateChannel, removeChannel and poll go through, with no
-- access outside the array and none through a null pointer, and all three agree again: each channel of the map
-- knows the place of its entry, and each entry belongs to a channel of the map.
pub runs-IsConsistent :
    (cs : List Call) (s : Poller)
    → IsConsistent s
    → (s' : Poller) × ((runs cs s ≡ some s') × IsConsistent s')
unfolding runs
runs-IsConsistent [] s inv = (s, (refl, inv))
runs-IsConsistent (c ∷ cs) s inv =
    let (s', (done, inv')) = step-IsConsistent c s inv in
    let (s'', (all, inv'')) = runs-IsConsistent cs s' inv' in (s'', (rw (runs, done) all, inv''))

write_self : (store : ℕ → Channel) (a : ℕ) (c : Channel) → write store a c a ≡ c
unfolding write
write_self store a c = ground arith

-- What a change of the events of a channel of the map comes to.
abbrev changed : ℕ → ℕ → ℕ → PollFd → Poller → Poller
changed a events idx pfd s =
    let c = record (s.store a) { events = events } in
    record s { store = write s.store a c; pollfds = set s.pollfds idx (renew c pfd) }

update_known :
    (a idx : ℕ) (s : Poller) (pfd : PollFd)
    → (s.store a).index ≡ at idx
    → s.channels (s.store a).fd ≡ some a
    → get_elem? s.pollfds idx ≡ some pfd
    → (update_channel a s).1 ≡ record s { pollfds = set s.pollfds idx (renew (s.store a) pfd) }
unfolding update_channel update_existing
update_known a idx s pfd place known there =
    let self : (a == a) ≡ true = ground arith in
    rw (update_channel, place, known, self, update_existing, there)

updates-changed :
    (a events idx : ℕ) (s : Poller) (pfd : PollFd)
    → (s.store a).index ≡ at idx
    → s.channels (s.store a).fd ≡ some a
    → get_elem? s.pollfds idx ≡ some pfd
    → step (updates a events) s ≡ some (changed a events idx pfd s)
unfolding step set_events
updates-changed a events idx s pfd place known there =
    let self = write_self s.store a (record (s.store a) { events = events }) in
    let s' = set_events a events s in
    let place' : (s'.store a).index ≡ at idx = ap (λ (c : Channel). c.index) self ∙ place in
    let known' : s'.channels (s'.store a).fd ≡ some a =
      ap (λ (c : Channel). s.channels c.fd) self ∙ known in
    ap some (update_known a idx s' pfd place' known' there)
    ∙ ap (λ (c : Channel). some (record s' { pollfds = set s.pollfds idx (renew c pfd) })) self

runs_two :
    (c d : Call) (s s₁ s₂ : Poller)
    → step c s ≡ some s₁
    → step d s₁ ≡ some s₂
    → runs (c ∷ d ∷ []) s ≡ some s₂
unfolding runs
runs_two c d s s₁ s₂ e f = rw (runs, e, f)

-- An entry that is out of use stays so.
renew_out :
    (c : Channel) (fd : ℕ)
    → c.fd ≡ fd
    → renew c (record { fd = negsuc fd; events = 0; revents = 0 })
      ≡ record { fd = negsuc fd; events = c.events; revents = 0 }
unfolding renew
renew_out c fd e = ground (arith, e)

-- A channel of the map that asks for nothing, and then for something: both calls go through, and its entry has a
-- negative descriptor, which poll(2) leaves out.
disabled_stays_ignored :
    (a events : ℕ) (s : Poller)
    → IsConsistent s
    → s.channels (s.store a).fd ≡ some a
    → (idx : ℕ) × (s' : Poller) × ((runs (updates a 0 ∷ updates a events ∷ []) s ≡ some s')
        × (get_elem? s'.pollfds idx
            ≡ some (record { fd = negsuc (s.store a).fd; events = events; revents = 0 }))
        × ((s'.store a).index ≡ at idx))
unfolding runs renew
disabled_stays_ignored a events s inv known =
    let (_, (idx, (place, owns))) = inv.entry (s.store a).fd a known in
    let inside : idx < length s.pollfds = ground (arith, owns, owner_at_behind s.pollfds idx) in
    let (pfd, there) = entry_at s.pollfds idx inside in
    let c = record (s.store a) { events = 0 } in
    let s₁ = changed a 0 idx pfd s in
    let self = write_self s.store a c in
    let out = renew c pfd in
    let there₁ : get_elem? s₁.pollfds idx ≡ some out =
      get_elem?-set_self s.pollfds idx out inside in
    let place₁ : (s₁.store a).index ≡ at idx = ap (λ (d : Channel). d.index) self ∙ place in
    let known₁ : s₁.channels (s₁.store a).fd ≡ some a =
      ap (λ (d : Channel). s.channels d.fd) self ∙ known in
    let c₁ = record (s₁.store a) { events = events } in
    let inside₁ : idx < length s₁.pollfds = omega (arith, inside, length-set s.pollfds idx out) in
    let first = updates-changed a 0 idx s pfd place known there in
    let second = updates-changed a events idx s₁ out place₁ known₁ there₁ in
    (
      idx,
      changed a events idx out s₁,
      (
        runs_two (updates a 0) (updates a events) s s₁ _ first second,
        get_elem?-set_self s₁.pollfds idx (renew c₁ out) inside₁
            ∙ ap some (renew_out c₁ (s.store a).fd (ap (λ (d : Channel). d.fd) self)),
        ap (λ (d : Channel). d.index) (write_self s₁.store a c₁) ∙ place₁,
      ),
    )
