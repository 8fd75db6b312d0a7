-- ===== src/TraceableList/Tests.antt =====
-- Runs of the list, among them that of test/traceable_list.cc.
use ali_middleware.Common.{ℕ, suc, zero, ◌+◌, ◌≡◌, refl, Bool, true, false, List, [], ◌∷◌}
use ali_middleware.Common.Run.{Cmd, Run, ok, thrown, fault, out_of_fuel, pure, ◌>>=◌, ◌>>◌}
use ali_middleware.TraceableList.{
  push_last, push_before, unlink, alloc, store, delete, push_one, end, decrement, Ptr,
  TraceableList, empty, load, set_next, set_prev, push_back, pop_front, pop_back, begin, increment,
  pop_one,
}
use ali_middleware.Common.{some, none, arith, ◌==◌, if◌then◌else◌}
use ali_middleware.TraceableList.{iterator, new_node, pop_some, destroy}
use ali_middleware.TraceableList.Chain.{Cell, IsList, has, empty-IsList}
use ali_middleware.TraceableList.Push.{Pushes, push_one-IsList}
use ali_middleware.TraceableList.Deque.{
  Op, at_back, at_front, off_back, off_front, read_back, ask_size, run_all, spec_all, Agrees,
}
use ali_middleware.TraceableList.Deque.Refine.{run_all-Agrees}
use ali_middleware.TraceableList.Pop.{Unlinked, pop_one-IsList}
use ali_middleware.TraceableList.Range.{pop_some-IsList, destroy-frees}

-- The values from an address on.
values : ℕ → Ptr → Cmd (TraceableList ℕ Bool) (List (ℕ × Bool))
unfolding load
values zero p = pure []
values (suc k) zero = pure []
values (suc k) (suc p) = do
  n ← load (suc p)
  rest ← values k n.next
  pure ((n.value, n.extra_info) ∷ rest)

scenario : Cmd (TraceableList ℕ Bool) (List (ℕ × Bool))
unfolding values push_back pop_front pop_back begin end increment decrement pop_one push_one
    push_last push_before alloc set_next set_prev load store unlink delete
scenario = do
  push_back 3212 true
  push_back 312 true
  push_back 3312 true
  push_back 32412 false
  push_back 3712 true
  pop_back
  pop_front
  push_back 32122 true
  push_back 2222 true
  it ← begin
  it ← increment it
  it ← increment it
  it ← increment it
  pop_one it
  s ← λ s. ok s.head s
  values 10 s

abbrev result : {S A : Type 0} → A → Run S A → A
result a (ok b s) = b
result a (thrown e s) = a
result a fault = a
result a out_of_fuel = a

result-scenario :
    result [] (scenario empty) ≡ (312, true) ∷ (3312, true) ∷ (32412, false) ∷ (2222, true) ∷ []
unfolding scenario empty
result-scenario = refl

abbrev c₁ : Cell ℕ Bool
c₁ = record { addr = 1; value = 10; extra_info = true }

abbrev c₂ : Cell ℕ Bool
c₂ = record { addr = 2; value = 20; extra_info = false }

abbrev c₃ : Cell ℕ Bool
c₃ = record { addr = 3; value = 30; extra_info = true }

abbrev empty_list : TraceableList ℕ Bool
empty_list = empty

-- A list of three cells.
abbrev three : TraceableList ℕ Bool
three = record {
  cell = λ a.
      if a == 1
      then some (new_node 10 0 2 true)
      else if a == 2
      then some (new_node 20 1 3 false)
      else if a == 3
      then some (new_node 30 2 0 true)
      else none;
  brk = 4;
  head = 1;
  tail = 3;
  m_size = 3;
}

three-IsList : IsList three (c₁ ∷ c₂ ∷ c₃ ∷ [])
three-IsList = record {
  chain = ((omega arith), refl, ((omega arith), refl, ((omega arith), refl, tt)));
  distinct = (refl, (refl, (refl, tt)));
  head = refl;
  tail = refl;
  m_size = refl;
  bounded = omega arith;
  below = omega arith;
  brk = omega arith;
  owned = λ a out. ground arith;
}

push_one-IsList_example : Pushes three 7 true (c₁ ∷ []) (c₂ ∷ c₃ ∷ []) 2 0
push_one-IsList_example =
    push_one-IsList three 7 true (c₁ ∷ []) (c₂ ∷ c₃ ∷ []) 2 0 refl three-IsList (omega arith)

pop_one-IsList_example :
    (s' : TraceableList ℕ Bool) × (pop_one (iterator 2) three ≡ ok tt s')
    × Unlinked three (c₁ ∷ []) c₂ (c₃ ∷ []) s'
pop_one-IsList_example = pop_one-IsList three (c₁ ∷ []) c₂ (c₃ ∷ []) 2 0 refl three-IsList

pop_some-IsList_example :
    (s' : TraceableList ℕ Bool) × (pop_some (iterator 1) (iterator 3) three ≡ ok tt s')
    × IsList s' (c₃ ∷ [])
    × ((a : Ptr) → has {T = ℕ} {E = Bool} a (c₁ ∷ c₂ ∷ []) ≡ true → s'.cell a ≡ none)
pop_some-IsList_example = pop_some-IsList three [] (c₁ ∷ c₂ ∷ []) (c₃ ∷ []) 0 0 three-IsList

destroy-frees_example :
    (s' : TraceableList ℕ Bool) × (destroy three ≡ ok tt s') × ((a : Ptr) → s'.cell a ≡ none)
destroy-frees_example = destroy-frees three (c₁ ∷ c₂ ∷ c₃ ∷ []) three-IsList

-- Two values are pushed, one at each end, read and popped; the last pop finds the list empty.
abbrev ops : List (Op ℕ Bool)
ops =
    at_back 10 true
    ∷ at_front 20 false
    ∷ read_back
    ∷ off_front
    ∷ ask_size
    ∷ off_back
    ∷ off_front
    ∷ []

run_all-Agrees_example : Agrees (0 + 7) (run_all ops empty) (spec_all ops [])
run_all-Agrees_example =
    run_all-Agrees ops 0 empty []
      (record { cells = []; list = empty-IsList; agree = refl; within = omega arith }) (omega arith)
