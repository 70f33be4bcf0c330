-- ===== src/Net/SelectPoller/Listed.antt =====
-- net/SelectPoller.cpp: the list of events says what each channel asked for.
use learning_tools.Prelude.{
  ℕ, ◌≡◌, refl, ap, ◌∙◌, Bool, true, false, ◌==◌, if◌then◌else◌, arith, List, [], ◌∷◌, ◌++◌, none,
  some, Bool-cases, inl, inr, ◌⊎◌,
}
use learning_tools.Net.Channel.{Channel, k_new, at, is_none_event}
use learning_tools.Net.SelectPoller.{
  Event, Poller, k_added, k_deleted, find, put, has_channel, write, set_index, delete, modify,
  ctl_add, update, update_new, update_deleted, update_added, update_channel,
}

-- What the entries of a channel ask for.
abbrev pub watches : ℕ → List Event → List ℕ
watches a [] = []
watches a (e ∷ es) = let rest = watches a es in if e.ptr == a then e.events ∷ rest else rest

abbrev pub asked : List ℕ → ℕ
asked [] = 0
asked (e ∷ es) = e

append-other :
    (a b events : ℕ) (es : List Event)
    → (a == b) ≡ false
    → watches b (es ++ record { events = events; ptr = a } ∷ []) ≡ watches b es
append-other a b events [] ne = ground (arith, ne)
append-other a b events (e ∷ es) ne = let ih = append-other a b events es ne in ground (arith, ih)

append-mine :
    (a events : ℕ) (es : List Event)
    → watches a es ≡ []
    → watches a (es ++ record { events = events; ptr = a } ∷ []) ≡ events ∷ []
append-mine a events [] empty = ground arith
append-mine a events (e ∷ es) empty = let ih = append-mine a events es in ground (arith, ih, empty)

find-put :
    (fd a fd' : ℕ) (cs : List (ℕ × ℕ))
    → find fd' (put fd a cs) ≡ (if fd' == fd then some a else find fd' cs)
unfolding find put
find-put fd a fd' [] = ground arith
find-put fd a fd' ((g, b) ∷ cs) = let ih = find-put fd a fd' cs in ground (arith, ih)

-- Of a channel with one entry.
delete_lem :
    (a w : ℕ) (es : List Event)
    → watches a es ≡ w ∷ []
    → (es' : List Event) × ((delete a es ≡ some es')
        × (watches a es' ≡ [])
        × ((b : ℕ) → (a == b) ≡ false → watches b es' ≡ watches b es))
unfolding delete
delete_lem a w [] h = ground (arith, h)
delete_lem a w (e ∷ es) h = elim (Bool-cases (e.ptr == a)) [
  | inl mine ↦
      (es, (ground (arith, mine), ground (arith, h, mine), λ b ne. ground (arith, mine, ne)))
  | inr other ↦
      let (es', (done, gone, kept)) = delete_lem a w es (ground (arith, h, other)) in
      (
        e ∷ es',
        (rw (delete, other, done), ground (arith, gone, other), λ b ne. ground (arith, kept b ne)),
      )
]

modify_lem :
    (a w events : ℕ) (es : List Event)
    → watches a es ≡ w ∷ []
    → (es' : List Event) × ((modify a events es ≡ some es')
        × (watches a es' ≡ events ∷ [])
        × ((b : ℕ) → (a == b) ≡ false → watches b es' ≡ watches b es))
unfolding modify
modify_lem a w events [] h = ground (arith, h)
modify_lem a w events (e ∷ es) h = elim (Bool-cases (e.ptr == a)) [
  | inl mine ↦ (
    record e { events = events } ∷ es,
    (ground (arith, mine), ground (arith, h, mine), λ b ne. ground (arith, mine, ne)),
  )
  | inr other ↦
      let (es', (done, there, kept)) = modify_lem a w events es (ground (arith, h, other)) in
      (
        e ∷ es',
        (rw (modify, other, done), ground (arith, there, other), λ b ne. ground (arith, kept b ne)),
      )
]

module _ (a : ℕ) (s : Poller) where
  abbrev pub IsNew : Type 0
  IsNew =
      ((s.store a).index ≡ k_new)
      × (find (s.store a).fd s.channels ≡ none)
      × (watches a s.events ≡ [])

  abbrev pub IsAdded : Type 0
  IsAdded =
      ((s.store a).index ≡ at k_added)
      × (find (s.store a).fd s.channels ≡ some a)
      × ((w : ℕ) × (watches a s.events ≡ w ∷ []))

  abbrev pub IsDeleted : Type 0
  IsDeleted =
      ((s.store a).index ≡ at k_deleted)
      × (find (s.store a).fd s.channels ≡ some a)
      × (watches a s.events ≡ [])

  -- What the index of a channel says of the map and the list of events.
  abbrev pub IsListed : Type 0
  IsListed = IsNew ⊎ (IsAdded ⊎ IsDeleted)

-- What a call of updateChannel for the channel promises; `b` is another one.
abbrev Lists : ℕ → ℕ → Poller → Bool × Poller → Type 0
Lists a b s r =
    (r.0 ≡ true)
    × IsListed a r.1
    × (asked (watches a r.1.events) ≡ (s.store a).events)
    × (watches b r.1.events ≡ watches b s.events)

write_self : (store : ℕ → Channel) (a : ℕ) (c : Channel) → write store a c a ≡ c
unfolding write
write_self store a c = ground arith

update_deleted_known :
    (a : ℕ) (s : Poller)
    → find (s.store a).fd s.channels ≡ some a
    → update_deleted a s ≡ update ctl_add a (set_index a (at k_added) s)
unfolding update_deleted has_channel
update_deleted_known a s known =
    let mine : has_channel a s ≡ true = ground (arith, known) in rw (update_deleted, mine)

module _ (a b : ℕ) (s : Poller) (ne : (a == b) ≡ false) where
  add-Lists :
      find (s.store a).fd s.channels ≡ some a
      → watches a s.events ≡ []
      → Lists a b s (update ctl_add a (set_index a (at k_added) s))
  unfolding update set_index
  add-Lists known empty =
      let c = record (s.store a) { index = at k_added } in
      let self = write_self s.store a c in
      let events = (write s.store a c a).events in
      let mine = append-mine a events s.events empty in
      (
        refl,
        inr (
            inl (
              ap (λ (d : Channel). d.index) self,
              ap (λ (d : Channel). find d.fd s.channels) self ∙ known,
              (events, mine),
            )),
        ap asked mine ∙ ap (λ (d : Channel). d.events) self,
        append-other a b events s.events ne,
      )

  delete-Lists :
      (w : ℕ)
      → find (s.store a).fd s.channels ≡ some a
      → watches a s.events ≡ w ∷ []
      → is_none_event (s.store a) ≡ true
      → (s.store a).index ≡ at k_added
      → Lists a b s (update_added a k_added s)
  unfolding update_added update has_channel set_index
  delete-Lists w known one idle place =
      let (es, (done, gone, kept)) = delete_lem a w s.events one in
      let c = record (s.store a) { index = at k_deleted } in
      let self = write_self s.store a c in
      let mine : (a == a) ≡ true = ground arith in
      rw (update_added, has_channel, known, mine, idle, update, done)
        (
          refl,
          inr (
              inr (
                ap (λ (d : Channel). d.index) self,
                ap (λ (d : Channel). find d.fd s.channels) self ∙ known,
                gone,
              )),
          ap asked gone ∙ ground (arith, idle),
          kept b ne,
        )

  modify-Lists :
      (w : ℕ)
      → find (s.store a).fd s.channels ≡ some a
      → watches a s.events ≡ w ∷ []
      → is_none_event (s.store a) ≡ false
      → (s.store a).index ≡ at k_added
      → Lists a b s (update_added a k_added s)
  unfolding update_added update has_channel
  modify-Lists w known one busy place =
      let (es, (done, there, kept)) = modify_lem a w (s.store a).events s.events one in
      let mine : (a == a) ≡ true = ground arith in
      rw (update_added, has_channel, known, mine, busy, update, done)
        (refl, inr (inl (place, known, ((s.store a).events, there))), ap asked there, kept b ne)

-- updateChannel of a channel whose index is true always succeeds; the index is true again, the list of events asks
-- for just what the channel asks for, and the entries of another channel are as they were.
pub update_channel-IsListed :
    (a b : ℕ) (s : Poller)
    → IsListed a s
    → (a == b) ≡ false
    → let (ok, s') = update_channel a s in
      (ok ≡ true)
      × IsListed a s'
      × (asked (watches a s'.events) ≡ (s.store a).events)
      × (watches b s'.events ≡ watches b s.events)
unfolding update_channel update_new
update_channel-IsListed a b s (inl (i, e, k)) ne =
    let fd = (s.store a).fd in
    let s' = record s { channels = put fd a s.channels } in
    let known : find fd s'.channels ≡ some a = ground (arith, find-put fd a fd s.channels) in
    rw (update_channel, i, update_new, e) (add-Lists a b s' ne known k)
update_channel-IsListed a b s (inr (inl (i, e, (w, k)))) ne =
    elim (Bool-cases (is_none_event (s.store a))) [
      | inl idle ↦ rw (update_channel, i) (delete-Lists a b s ne w e k idle i)
      | inr busy ↦ rw (update_channel, i) (modify-Lists a b s ne w e k busy i)
    ]
update_channel-IsListed a b s (inr (inr (i, e, k))) ne =
    rw (update_channel, i, update_deleted_known a s e) (add-Lists a b s ne e k)
