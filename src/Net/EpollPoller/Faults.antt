-- ===== src/Net/EpollPoller/Faults.antt =====
-- net/EpollPoller.cpp: a channel whose registration failed once.
use learning_tools.Prelude.{ℕ, ◌≡◌, refl, ap, sym, ◌∙◌, Bool, false, List, [], ◌∷◌, All, none, some}
use learning_tools.Net.Channel.{Channel, at}
use learning_tools.Net.EpollPoller.{
  Epoll, IsEpoll, ctl_add, Poller, put, update, add, update_new, update_channel, k_added,
}
use learning_tools.Net.EpollPoller.Registration.{IsNew, IsLost, IsLost-update_channel}

module _ (ep : Epoll) where
  -- The answers to one call of updateChannel after the other, for the events given.
  pub answers : List ℕ → Poller ep → Channel → List Bool
  answers [] s c = []
  answers (e ∷ es) s c =
      let (ok, (c', s')) = update_channel ep s (record c { events = e }) in ok ∷ answers es s' c'

  module _ (law : IsEpoll ep) where
    lost-answers :
        (es : List ℕ) (s : Poller ep) (c : Channel)
        → IsLost ep law s c
        → All (λ ok. ok ≡ false) (answers es s c)
    unfolding answers
    lost-answers [] s c h = tt
    lost-answers (e ∷ es) s c h =
        let (fails, still, _) = IsLost-update_channel ep law s (record c { events = e }) h in
        (fails, lost-answers es _ _ still)

    -- The index of a new channel is set before the kernel is asked: where the kernel refuses the
    -- registration, the channel counts as added without being watched, and every later call of updateChannel
    -- for it fails, whatever events it asks for, also where the kernel would take it now.
    failed_add_sticks :
        (s : Poller ep) (c : Channel) (es : List ℕ)
        → IsNew ep s c
        → (update_channel ep s c).0 ≡ false
        → let (ok, (c', s')) = update_channel ep s c in
          (c'.index ≡ at k_added)
          × (ep.interest s'.kernel c.fd ≡ none)
          × All (λ ok. ok ≡ false) (answers es s' c')
    unfolding update_channel put
    failed_add_sticks s c es (i, e, k) refused =
        let opened : update_channel ep s c
            ≡ add ep (record s { channels = put s.channels c.fd (some c.address) }) c =
          rw (update_channel, i, update_new, e) refl in
        let fails = sym (ap (λ r. r.0) opened) ∙ refused in
        let unseen = law.failed s.kernel ctl_add c.fd c.events c.address c.fd fails ∙ k in
        rw (opened, add, update) (refl, unseen, lost-answers es _ _ (refl, unseen))
