-- ===== src/Swap.antt =====
-- C++11/Cpp-Concurrency-in-Action/chap3/3_6.cpp: `swap` of two objects that have a mutex each, with
-- `std::lock` or one mutex after the other.
--
-- `std::lock` is documented as a series of calls of `lock`, `try_lock` and `unlock` that does not
-- deadlock: a thread in it that holds one mutex takes the other if it is free, and if not gives up the
-- one it holds. A mutex is known by the number of its object, and is held by the threads in a place
-- that says so. What the swap itself does is to print.
pub mod Excludes
pub mod Finishes
pub mod Deadlock
mod Tests
use c_practice.Base.{
  ℕ, zero, suc, ◌-◌, ◌≡◌, ◌≢◌, Bool, true, false, ◌||◌, List, [], ◌∷◌, ◌++◌, ◌==◌,
}
use c_practice.Base.Counting.{count}

-- Outside of `swap`; with the mutex of `lhs` or that of `rhs`; with both; between the two unlocks.
pub data Place : Type 0 where
  outside left right both unlocking : Place

-- `mswap(lhs, rhs, count, use_stdlock)`, with `rounds` calls still to come.
pub record Thread : Type 0 where
  pub lhs : ℕ
  pub rhs : ℕ
  pub rounds : ℕ
  pub place : Place

unfoldable pub holds_at : ℕ → (lhs rhs : ℕ) → Place → Bool
holds_at m lhs rhs outside = false
holds_at m lhs rhs left = m == lhs
holds_at m lhs rhs right = m == rhs
holds_at m lhs rhs both = m == lhs || m == rhs
holds_at m lhs rhs unlocking = m == lhs

abbrev pub holds : ℕ → Thread → Bool
holds m t = holds_at m t.lhs t.rhs t.place

abbrev pub Free : ℕ → List Thread → Type 0
Free m s = count (holds m) s ≡ 0

abbrev pub goes : Thread → Place → Thread
goes t p = record t { place = p }

-- What a thread does, with `std::lock` (`true`) or without.
pub data Move (s : List Thread) : Bool → Thread → Thread → Type 0 where
  same_object :
      {b : Bool} {t : Thread} (n : ℕ)
      → t.place ≡ outside
      → t.rounds ≡ suc n
      → t.lhs ≡ t.rhs
      → Move s b t (record t { rounds = n })
  locks_left :
      {b : Bool} {t : Thread} (n : ℕ)
      → t.place ≡ outside
      → t.rounds ≡ suc n
      → t.lhs ≢ t.rhs
      → Free t.lhs s
      → Move s b t (goes t left)
  locks_right :
      {t : Thread} (n : ℕ)
      → t.place ≡ outside
      → t.rounds ≡ suc n
      → t.lhs ≢ t.rhs
      → Free t.rhs s
      → Move s true t (goes t right)
  then_right : {b : Bool} {t : Thread} → t.place ≡ left → Free t.rhs s → Move s b t (goes t both)
  then_left : {t : Thread} → t.place ≡ right → Free t.lhs s → Move s true t (goes t both)
  gives_up_left :
      {t : Thread} → t.place ≡ left → count (holds t.rhs) s ≢ 0 → Move s true t (goes t outside)
  gives_up_right :
      {t : Thread} → t.place ≡ right → count (holds t.lhs) s ≢ 0 → Move s true t (goes t outside)
  unlocks_right : {b : Bool} {t : Thread} → t.place ≡ both → Move s b t (goes t unlocking)
  unlocks_left :
      {b : Bool} {t : Thread}
      → t.place ≡ unlocking
      → Move s b t (record t { rounds = t.rounds - 1; place = outside })

pub data Step (use_stdlock : Bool) (s s' : List Thread) : Type 0 where
  moves :
      (before after : List Thread) (t u : Thread)
      → s ≡ before ++ (t ∷ after)
      → Move s use_stdlock t u
      → s' ≡ before ++ (u ∷ after)
      → Step use_stdlock s s'

pub data Run (use_stdlock : Bool) (s : List Thread) : List Thread → Type 0 where
  stop : Run use_stdlock s s
  go : {u v : List Thread} → Run use_stdlock s u → Step use_stdlock u v → Run use_stdlock s v
