-- ===== src/Net/EventLoopThreadPool.antt =====
-- net/EventLoopThreadPool.cpp: the loops among which connections are shared out. A loop is named by its
-- address; `none` as an answer is the null pointer, or a read outside the vector of loops.
pub mod RoundRobin
mod Tests
use learning_tools.Prelude.{
  ℕ, ◌+◌, ◌%◌, Bool, true, false, leb, if◌then◌else◌, List, [], ◌∷◌, ◌++◌, length, take, get_elem?,
  map, Option, none, some,
}

pub record Pool : Type 0 where
  pub base_loop : Option ℕ
  pub started : Bool
  pub num_threads : ℕ
  pub next : ℕ
  pub loops : List ℕ

unfoldable pub created : Pool
created = record { base_loop = none; started = false; num_threads = 0; next = 0; loops = [] }

unfoldable pub init : Pool → ℕ → ℕ → Pool
init p base_loop num_threads = record p { base_loop = some base_loop; num_threads = num_threads }

-- `spawned` is what `startLoop` of the new threads returns.
unfoldable pub start : Pool → List ℕ → Pool
start p spawned = elim p.base_loop [
  | none ↦ p
  | some _ ↦
      if p.started
      then p
      else record p { started = true; loops = p.loops ++ take p.num_threads spawned }
]

unfoldable pub get_next_loop : Pool → Option ℕ × Pool
get_next_loop p =
    if p.started
    then (elim p.loops [
      | [] ↦ (p.base_loop, p)
      | _ ∷ _ ↦ (
        get_elem? p.loops p.next,
        record p { next = if leb (length p.loops) (p.next + 1) then 0 else p.next + 1 },
      )
    ])
    else (none, p)

unfoldable pub get_loop_for_hash : Pool → ℕ → Option ℕ
get_loop_for_hash p hash_code = elim p.loops [
  | [] ↦ p.base_loop
  | _ ∷ _ ↦ get_elem? p.loops (hash_code % length p.loops)
]

unfoldable pub get_all_loops : Pool → List (Option ℕ)
get_all_loops p = elim p.loops [ [] ↦ p.base_loop ∷ [] | _ ∷ _ ↦ map some p.loops ]
