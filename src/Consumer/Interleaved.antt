-- ===== src/Consumer/Interleaved.antt =====
-- src/provider_selector.hpp, provider_info::async_request: calls to one provider that the event loop
-- interleaves, over the provider's pool of connections.
pub mod Answers
pub mod Holders
pub mod Leftover
pub mod Lent
pub mod Own
pub mod Steps
pub mod Whole
pub mod Wire
mod Tests
use ali_middleware.Common.{
  ◌≡◌, ◌<◌, ◌≤◌, length, Bool, true, false, ◌||◌, List, [], ◌∷◌, ◌++◌, ◌==◌, if◌then◌else◌, ℕ,
}
use ali_middleware.Common.Run.{ok}
use ali_middleware.Common.Text.{Text}
use ali_middleware.TraceableList.{Ptr, null}
use ali_middleware.Pool.{Objects, Construct, do_try_borrow_one, give_back}

-- Where a call stands: before it has a connection, with one, behind the write of its text, behind the
-- read, with the text and the bytes read, and behind an error of the write or of the read.
pub data Phase : Type 0 where
  idle : Phase
  holds : Ptr → Phase
  awaits : Ptr → Text → Phase
  read : Ptr → Text → Text → Phase
  failed : Ptr → Phase

-- One connection: the texts that were written and that the provider has not served yet, and the bytes
-- that it has written back and that nobody has read yet.
pub record Channel : Type 0 where
  pub asked : List Text
  pub sent : Text

abbrev pub silent : Channel
silent = record { asked = []; sent = [] }

-- The pool, the calls, the connections, and which of these are broken.
pub record Calls (T : Type 0) : Type 0 where
  pub objects : Objects T
  pub phases : List Phase
  pub wire : Ptr → Channel
  pub broken : Ptr → Bool

abbrev pub set_wire : Ptr → Channel → (Ptr → Channel) → Ptr → Channel
set_wire p channel wire q = if q == p then channel else wire q

module _ {T : Type 0} (max_size : ℕ) (c : Construct T) (serve : Text → Text) where
  -- One call moves from one `yield` to the next, or the provider agent serves one text of a connection.
  -- Over a broken connection nothing comes any more, and a write or a read may report it. A call that
  -- finds no connection, or no byte to read, waits, and one whose borrowing throws has ended: neither
  -- changes anything here.
  pub data Step (s : Calls T) : Calls T → Type 0 where
    borrows :
        (xs ys : List Phase) (p : Ptr) (o : Objects T)
        → s.phases ≡ xs ++ idle ∷ ys
        → do_try_borrow_one max_size c s.objects ≡ ok p o
        → (p == null) ≡ false
        → Step s (record s { objects = o; phases = xs ++ holds p ∷ ys })
    -- The payload lacks an argument.
    rejects :
        (xs ys : List Phase) (p : Ptr) (o : Objects T)
        → s.phases ≡ xs ++ holds p ∷ ys
        → give_back p s.objects ≡ ok tt o
        → Step s (record s { objects = o; phases = xs ++ idle ∷ ys })
    writes :
        (xs ys : List Phase) (p : Ptr) (req_text : Text)
        → s.phases ≡ xs ++ holds p ∷ ys
        → Step s (record s {
          phases = xs ++ awaits p req_text ∷ ys;
          wire =
              set_wire p
                (if s.broken p
                  then s.wire p
                  else record (s.wire p) { asked = (s.wire p).asked ++ req_text ∷ [] })
                s.wire;
        })
    -- The provider agent reads the oldest text and writes its answer.
    serves :
        (p : Ptr) (req_text : Text) (rest : List Text)
        → (s.wire p).asked ≡ req_text ∷ rest
        → Step s (record s {
          wire =
              set_wire p (record { asked = rest; sent = (s.wire p).sent ++ serve req_text }) s.wire;
        })
    -- async_read_some: some of the bytes that have come, 2048 at most. The others stay for whoever reads
    -- from the connection next. What the code makes of the bytes read is Consumer's `receive`.
    reads :
        (xs ys : List Phase) (p : Ptr) (req_text got later : Text)
        → s.phases ≡ xs ++ awaits p req_text ∷ ys
        → (s.wire p).sent ≡ got ++ later
        → 0 < length got
        → length got ≤ 2048
        → Step s (record s {
          phases = xs ++ read p req_text got ∷ ys;
          wire = set_wire p (record (s.wire p) { sent = later }) s.wire;
        })
    releases :
        (xs ys : List Phase) (p : Ptr) (req_text resp : Text) (o : Objects T)
        → s.phases ≡ xs ++ read p req_text resp ∷ ys
        → give_back p s.objects ≡ ok tt o
        → Step s (record s { objects = o; phases = xs ++ idle ∷ ys })
    write_fails :
        (xs ys : List Phase) (p : Ptr)
        → s.phases ≡ xs ++ holds p ∷ ys
        → s.broken p ≡ true
        → Step s (record s { phases = xs ++ failed p ∷ ys })
    read_fails :
        (xs ys : List Phase) (p : Ptr) (req_text : Text)
        → s.phases ≡ xs ++ awaits p req_text ∷ ys
        → s.broken p ≡ true
        → Step s (record s { phases = xs ++ failed p ∷ ys })
    gives_up :
        (xs ys : List Phase) (p : Ptr) (o : Objects T)
        → s.phases ≡ xs ++ failed p ∷ ys
        → give_back p s.objects ≡ ok tt o
        → Step s (record s { objects = o; phases = xs ++ idle ∷ ys })
    -- What was on its way is lost.
    breaks :
        (p : Ptr)
        → Step s
            (record s { wire = set_wire p silent s.wire; broken = λ q. (q == p) || s.broken q })

  pub data Reach (s₀ : Calls T) : Calls T → Type 0 where
    started : Reach s₀ s₀
    then_step : (s s' : Calls T) → Reach s₀ s → Step s s' → Reach s₀ s'
