-- ===== src/Runtime/Helix.antt =====
-- The locks of HELIX: the sequential-segment arrays that NOELLE_HELIX_dispatcher allocates, the
-- arrays that each core gets, and HELIX_wait and HELIX_signal
-- (src/core/runtime/Parallelizer_utils.cpp).
pub mod Layout
pub mod Ring
pub mod Order
pub mod Critical
mod Tests
use gino.Base.{
  ℕ, zero, suc, ◌+◌, ◌-◌, ◌*◌, ◌%◌, ◌≤◌, ◌<◌, ◌≡◌, Bool, true, false, update, ltb, if◌then◌else◌,
}

abbrev pub cache_line_size : ℕ
cache_line_size = 64

-- The lock at each address from `ssArrays` on: whether it is held.
abbrev pub Locks : Type 0
Locks = ℕ → Bool

-- With `LIO` (loop iteration order) there is an array for each core, otherwise one array.
pub num_of_ss_arrays : Bool → ℕ → ℕ
num_of_ss_arrays lio num_cores = if lio then num_cores else 1

module _ (num_segments : ℕ) where
  abbrev pub ss_array_size : ℕ
  ss_array_size = cache_line_size * num_segments

  -- The address of the lock of a segment in an array.
  pub lock_address : ℕ → ℕ → ℕ
  lock_address array lock_id = array * ss_array_size + lock_id * cache_line_size

  -- The loop over the locks of an array: each is initialised, and taken unless the array is core
  -- 0's.
  pub init_locks : ℕ → ℕ → Locks → Locks
  unfolding lock_address
  init_locks array zero locks = locks
  init_locks array (suc lock_id) locks =
      update (init_locks array lock_id locks) (lock_address array lock_id) (ltb 0 array)

  -- The loop over the arrays.
  pub init_arrays : ℕ → Locks → Locks
  unfolding init_locks
  init_arrays zero locks = locks
  init_arrays (suc array) locks = init_locks array num_segments (init_arrays array locks)

  -- The arrays whose locks a core waits on and signals. The last core is the dispatcher itself.
  pub past_id : Bool → ℕ → ℕ → ℕ
  unfolding num_of_ss_arrays
  past_id lio num_cores core = core % num_of_ss_arrays lio num_cores

  pub future_id : Bool → ℕ → ℕ → ℕ
  unfolding num_of_ss_arrays
  future_id lio num_cores core =
      if ltb core (num_cores - 1) then (core + 1) % num_of_ss_arrays lio num_cores else 0

-- Where the cores stand at each segment: inside it or not, and how often they have left it. The
-- body of an iteration passes each segment once, from HELIX_wait to HELIX_signal; core `c` runs the
-- iterations c, c + num_cores, c + 2 * num_cores, and so on.
pub record Segments : Type 0 where
  pub locks : Locks
  pub inside : ℕ → ℕ → Bool
  pub rounds : ℕ → ℕ → ℕ

abbrev pub update₂ {ℓ} : {A : Type ℓ} → (ℕ → ℕ → A) → ℕ → ℕ → A → ℕ → ℕ → A
update₂ f i j a = update f i (update (f i) j a)

module _ (lio : Bool) (num_cores num_segments : ℕ) where
  -- HELIX_wait takes the lock of the past array.
  pub helix_wait : Segments → ℕ → ℕ → Segments
  helix_wait st core segment = record st {
    locks =
        update st.locks
          (lock_address num_segments (past_id num_segments lio num_cores core) segment) true;
    inside = update₂ st.inside core segment true;
  }

  -- HELIX_signal releases the lock of the future array.
  pub helix_signal : Segments → ℕ → ℕ → Segments
  helix_signal st core segment = record st {
    locks =
        update st.locks
          (lock_address num_segments (future_id num_segments lio num_cores core) segment) false;
    inside = update₂ st.inside core segment false;
    rounds = update₂ st.rounds core segment (st.rounds core segment + 1);
  }

  pub data Step (st : Segments) : Segments → Type 0 where
    waits :
        (core segment : ℕ)
        → core < num_cores
        → segment < num_segments
        → st.inside core segment ≡ false
        → st.locks (lock_address num_segments (past_id num_segments lio num_cores core) segment)
          ≡ false
        → Step st (helix_wait st core segment)
    signals :
        (core segment : ℕ)
        → core < num_cores
        → segment < num_segments
        → st.inside core segment ≡ true
        → Step st (helix_signal st core segment)

  pub start_segments : Locks → Segments
  unfolding init_arrays num_of_ss_arrays
  start_segments garbage = record {
    locks = init_arrays num_segments (num_of_ss_arrays lio num_cores) garbage;
    inside = λ _ _. false;
    rounds = λ _ _. 0;
  }

  pub data Reach (garbage : Locks) : Segments → Type 0 where
    start : Reach garbage (start_segments garbage)
    later : {s t : Segments} → Reach garbage s → Step s t → Reach garbage t
