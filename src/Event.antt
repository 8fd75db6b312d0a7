-- ===== src/Event.antt =====
-- lib/boost_asio_event.hpp: the event that coroutines wait on, over boost's deadline timer.
use ali_middleware.Common.{ℕ, ◌≡◌, Option, none, some, List, [], ◌∷◌, ◌++◌}

-- What the event relies on of `boost::asio::deadline_timer`, for waits that no expiry ends: each
-- pending wait is a handler, `cancel_one` completes the one that has waited longest, and `cancel`
-- completes all.
pub record DeadlineTimer : Type 1 where
  pub Timer : Type 0
  pub unset : Timer
  pub expires_at_infinity : Timer → Timer
  pub async_wait : ℕ → Timer → Timer
  pub cancel_one : Timer → Option ℕ × Timer
  pub cancel : Timer → List ℕ × Timer
  pub pending : Timer → List ℕ
  pub pending-expires : pending (expires_at_infinity unset) ≡ []
  pub pending-wait : (h : ℕ) (t : Timer) → pending (async_wait h t) ≡ pending t ++ h ∷ []
  pub cancel_one-none :
      (t : Timer) → pending t ≡ [] → ((cancel_one t).0 ≡ none) × (pending (cancel_one t).1 ≡ [])
  pub cancel_one-some :
      (t : Timer) (h : ℕ) (hs : List ℕ)
      → pending t ≡ h ∷ hs
      → ((cancel_one t).0 ≡ some h) × (pending (cancel_one t).1 ≡ hs)
  pub cancel-all : (t : Timer) → ((cancel t).0 ≡ pending t) × (pending (cancel t).1 ≡ [])

module _ (boost : DeadlineTimer) where
  open boost use {Timer, unset, expires_at_infinity, async_wait, cancel_one, cancel}

  pub record Event : Type 0 where
    pub timer : Timer

  pub new_event : Event
  new_event = record { timer = expires_at_infinity unset }

  -- The coroutine `h` waits.
  unfoldable pub wait : ℕ → Event → Event
  wait h ev = record { timer = async_wait h ev.timer }

  -- The coroutine that is resumed, if one waits.
  unfoldable pub notify_one : Event → Option ℕ × Event
  notify_one ev = let (h, t) = cancel_one ev.timer in (h, record { timer = t })

  pub notify_all : Event → List ℕ × Event
  notify_all ev = let (hs, t) = cancel ev.timer in (hs, record { timer = t })

  abbrev pub waiters : Event → List ℕ
  waiters ev = boost.pending ev.timer
