-- ===== src/Hierarchy.antt =====
-- C++11/Cpp-Concurrency-in-Action/chap3/3_8.cpp: `hierarchical_mutex`, a mutex that a thread can lock
-- only while all it holds are higher in the hierarchy.
--
-- The state has any number of mutexes and threads, by number; a thread's `thread_local` value stands
-- at its number. The owner of the internal mutex is kept, to tell whether `lock` blocks.
pub mod Stacks
pub mod Cycles
mod Tests
use c_practice.Base.{ℕ, Bool, true, false, Option, none, some, leb, ◌==◌, if◌then◌else◌, update}

pub record Mutex : Type 0 where
  pub hierarchy_value : ℕ
  pub previous_hierarchy_value : ℕ
  pub owner : Option ℕ

pub record State : Type 0 where
  pub mutex : ℕ → Mutex
  pub thread_value : ℕ → ℕ

-- `ULONG_MAX` for 64 bits, where every thread starts.
abbrev pub ulong_max : ℕ
ulong_max = 18446744073709551615

-- `hierarchical_mutex(value)`
abbrev pub new_mutex : ℕ → Mutex
new_mutex value = record { hierarchy_value = value; previous_hierarchy_value = 0; owner = none }

-- `locked` and the state; the exception; a `lock` that waits; a `try_lock` that gives up.
pub data Result : Type 0 where
  locked : State → Result
  violated blocked busy : Result

-- Whether `check_for_hierarchy_violation` throws.
abbrev pub violates : State → (t m : ℕ) → Bool
violates s t m = leb (s.thread_value t) (s.mutex m).hierarchy_value

-- The internal mutex is locked, and `update_hierarchy_value` has run.
unfoldable pub take_mutex : State → (t m : ℕ) → State
take_mutex s t m = record {
  mutex = update s.mutex m (record {
    hierarchy_value = (s.mutex m).hierarchy_value;
    previous_hierarchy_value = s.thread_value t;
    owner = some t;
  });
  thread_value = update s.thread_value t (s.mutex m).hierarchy_value;
}

abbrev take_or : Result → Option ℕ → State → (t m : ℕ) → Result
take_or otherwise none s t m = locked (take_mutex s t m)
take_or otherwise (some u) s t m = otherwise

unfoldable pub lock : (t m : ℕ) → State → Result
lock t m s = if violates s t m then violated else take_or blocked (s.mutex m).owner s t m

unfoldable pub try_lock : (t m : ℕ) → State → Result
try_lock t m s = if violates s t m then violated else take_or busy (s.mutex m).owner s t m

unfoldable pub unlock : (t m : ℕ) → State → State
unlock t m s = record {
  mutex = update s.mutex m (record {
    hierarchy_value = (s.mutex m).hierarchy_value;
    previous_hierarchy_value = (s.mutex m).previous_hierarchy_value;
    owner = none;
  });
  thread_value = update s.thread_value t (s.mutex m).previous_hierarchy_value;
}
