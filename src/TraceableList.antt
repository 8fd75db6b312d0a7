-- ===== src/TraceableList.antt =====
-- lib/traceable_list.hpp: the doubly linked list over an explicit heap, for one list object.
pub mod Chain
pub mod Deque
pub mod Grow
pub mod Links
pub mod Pop
pub mod Push
pub mod Walk
pub mod Range
mod Tests
use ali_middleware.Common.{
  ℕ, zero, suc, ◌+◌, ◌-◌, ◌%◌, ◌^◌, String, ◌&&◌, not, Option, none, some, ◌==◌, if◌then◌else◌,
}
use ali_middleware.Common.Run.{
  ok, fault, out_of_fuel, Cmd, invalid_argument, pure, throw, modify, gets, ◌>>=◌, ◌>>◌, when,
}

abbrev pub Ptr : Type 0
Ptr = ℕ

abbrev pub null : Ptr
null = 0

-- `uint32_t magic = 0x19980427`
abbrev pub magic_num : ℕ
magic_num = 0x19980427

pub record Node (T E : Type 0) : Type 0 where
  pub value : T
  pub prev : Ptr
  pub next : Ptr
  pub extra_info : E
  pub magic : ℕ

abbrev pub new_node : {T E : Type 0} → T → Ptr → Ptr → E → Node T E
new_node v p q e = record { value = v; prev = p; next = q; extra_info = e; magic = magic_num }

-- The list object with the heap that its nodes live in. `brk` is the address that the next `new`
-- returns: addresses are not used twice.
pub record TraceableList (T E : Type 0) : Type 0 where
  pub cell : Ptr → Option (Node T E)
  pub brk : Ptr
  pub head : Ptr
  pub tail : Ptr
  pub m_size : ℕ

-- `tail` is the private `_impl_tail`, null where a constructor does not set it.
pub record Iterator : Type 0 where
  pub ptr : Ptr
  pub impl_tail : Ptr

abbrev pub magic_failed : String
magic_failed = "magic_num verification failed. invalid data_pointer passed or ruined memory?"

abbrev pub nothing_to_pop : String
nothing_to_pop = "nothing to pop."

abbrev pub pop_end : String
pop_end = "you may not pop end()."

abbrev pub iterator : Ptr → Iterator
iterator p = record { ptr = p; impl_tail = null }

module _ {T E : Type 0} where
  abbrev pub write : (Ptr → Option (Node T E)) → Ptr → Option (Node T E) → Ptr → Option (Node T E)
  write h p c a = if a == p then c else h a

  -- `*p`: undefined at null, and at an address that holds no node.
  pub load : Ptr → Cmd (TraceableList T E) (Node T E)
  load p s = if p == null then fault else elim (s.cell p) [ none ↦ fault | some n ↦ ok n s ]

  pub store : Ptr → Option (Node T E) → Cmd (TraceableList T E) (Unit {0})
  store p c s = ok tt (record s { cell = write s.cell p c })

  pub set_next : Ptr → Ptr → Cmd (TraceableList T E) (Unit {0})
  set_next p q = do n ← load p; store p (some (record n { next = q }))

  pub set_prev : Ptr → Ptr → Cmd (TraceableList T E) (Unit {0})
  set_prev p q = do n ← load p; store p (some (record n { prev = q }))

  pub alloc : Node T E → Cmd (TraceableList T E) Ptr
  alloc n s = ok s.brk (record s { cell = write s.cell s.brk (some n); brk = suc s.brk })

  pub delete : Ptr → Cmd (TraceableList T E) (Unit {0})
  delete p = do load p; store p none

  pub begin : Cmd (TraceableList T E) Iterator
  begin s = ok (record { ptr = s.head; impl_tail = s.tail }) s

  pub end : Cmd (TraceableList T E) Iterator
  end s = ok (record { ptr = null; impl_tail = s.tail }) s

  -- `iterator(T *data_pointer)`: the data is the node's first member.
  pub of_data : Ptr → Cmd (TraceableList T E) Iterator
  of_data p = do
    n ← load p
    if n.magic == magic_num then pure (iterator p) else throw (invalid_argument magic_failed)

  pub get_extra_info : Iterator → Cmd (TraceableList T E) E
  get_extra_info it = do n ← load it.ptr; pure n.extra_info

  -- `iter.get_extra_info() = e`
  pub set_extra_info : Iterator → E → Cmd (TraceableList T E) (Unit {0})
  set_extra_info it e = do n ← load it.ptr; store it.ptr (some (record n { extra_info = e }))

  -- `*iter`
  pub deref : Iterator → Cmd (TraceableList T E) T
  deref it = do n ← load it.ptr; pure n.value

  -- `++iter`
  pub increment : Iterator → Cmd (TraceableList T E) Iterator
  increment it = do n ← load it.ptr; pure (record it { ptr = n.next })

  -- `iter++`: the copy that it returns, and the iterator moved on.
  pub post_increment : Iterator → Cmd (TraceableList T E) (Iterator × Iterator)
  post_increment it = do moved ← increment it; pure (iterator it.ptr, moved)

  -- `--iter`
  pub decrement : Iterator → Cmd (TraceableList T E) Iterator
  decrement it =
      if it.ptr == null && not (it.impl_tail == null)
      then pure (record it { ptr = it.impl_tail })
      else do n ← load it.ptr; pure (record it { ptr = n.prev })

  -- `iter--`
  pub post_decrement : Iterator → Cmd (TraceableList T E) (Iterator × Iterator)
  post_decrement it = do moved ← decrement it; pure (iterator it.ptr, moved)

  -- The body of `push_one` where the list is not empty and `where` is end().
  pub push_last : Ptr → Cmd (TraceableList T E) (Unit {0})
  push_last p = do
    t ← gets (λ s. s.tail)
    set_next t p
    set_prev p t
    modify (λ s. record s { tail = p })

  -- The same where `where` points at the node `right`.
  pub push_before : Ptr → Ptr → Cmd (TraceableList T E) (Unit {0})
  push_before p right = do
    n ← load right
    set_prev p n.prev
    when (not (n.prev == null)) (set_next n.prev p)
    set_prev right p
    h ← gets (λ s. s.head)
    when (h == right) (modify (λ s. record s { head = p }))

  pub push_one : Iterator → T → E → Cmd (TraceableList T E) (Unit {0})
  push_one it v e = do
    p ← alloc (new_node v null it.ptr e)
    modify (λ s. record s { m_size = (s.m_size + 1) % 2 ^ 64 })
    h ← gets (λ s. s.head)
    if h == null
        then modify (λ s. record s { head = p; tail = p })
        else if it.ptr == null
        then push_last p
        else push_before p it.ptr

  pub push_back : T → E → Cmd (TraceableList T E) (Unit {0})
  push_back v e = do it ← end; push_one it v e

  pub push_front : T → E → Cmd (TraceableList T E) (Unit {0})
  push_front v e = do it ← begin; push_one it v e

  -- The part of `pop_one` behind its two checks.
  unlink : Ptr → Cmd (TraceableList T E) (Unit {0})
  unlink p = do
    n ← load p
    when (not (n.prev == null)) (set_next n.prev n.next)
    when (not (n.next == null)) (set_prev n.next n.prev)
    h ← gets (λ s. s.head)
    when (h == p) (modify (λ s. record s { head = n.next }))
    t ← gets (λ s. s.tail)
    when (t == p) (modify (λ s. record s { tail = n.prev }))
    modify (λ s. record s { m_size = (s.m_size + 2 ^ 64 - 1) % 2 ^ 64 })
    delete p

  pub pop_one : Iterator → Cmd (TraceableList T E) (Unit {0})
  pop_one it = do
    h ← gets (λ s. s.head)
    if h == null
        then throw (invalid_argument nothing_to_pop)
        else if it.ptr == null
        then throw (invalid_argument pop_end)
        else unlink it.ptr

  pub pop_front : Cmd (TraceableList T E) (Unit {0})
  pop_front = do it ← begin; pop_one it

  pub pop_back : Cmd (TraceableList T E) (Unit {0})
  pop_back = do it ← end; last ← decrement it; pop_one last

  -- `for (auto iter = from; iter != to;) pop_one(iter++);`
  pop_some_loop : ℕ → Iterator → Iterator → Cmd (TraceableList T E) (Unit {0})
  pop_some_loop zero it to = λ _. out_of_fuel
  pop_some_loop (suc k) it to =
      let rest = (do
        (to_pop, moved) ← post_increment it
        pop_one to_pop
        pop_some_loop k moved to) in
      if it.ptr == to.ptr then pure tt else rest

  -- At most every node is popped.
  pub pop_some : Iterator → Iterator → Cmd (TraceableList T E) (Unit {0})
  pop_some from to = do n ← gets (λ s. s.m_size); pop_some_loop (n + 1) from to

  -- The loop of `~traceable_list`.
  destroy_loop : ℕ → Iterator → Cmd (TraceableList T E) (Unit {0})
  destroy_loop zero it = λ _. out_of_fuel
  destroy_loop (suc k) it =
      let rest = (do
        (to_release, moved) ← post_increment it
        delete to_release.ptr
        destroy_loop k moved) in
      do last ← end; if it.ptr == last.ptr then pure tt else rest

  pub destroy : Cmd (TraceableList T E) (Unit {0})
  destroy = do n ← gets (λ s. s.m_size); it ← begin; destroy_loop (n + 1) it

  unfoldable pub size : Cmd (TraceableList T E) ℕ
  size = gets (λ s. s.m_size)

pub empty : {T E : Type 0} → TraceableList T E
empty = record { cell = λ _. none; brk = 1; head = null; tail = null; m_size = 0 }
