-- ===== src/Runtime/Doall/Invariant.antt =====
-- What holds in every state of a DOALL dispatch.
use gino.Base.{
  ℕ, ◌+◌, ◌-◌, ◌≤◌, ◌<◌, ◌≡◌, ◌≢◌, refl, Bool, true, false, List, [], ◌∷◌, All, ltb, ◌==◌,
  if◌then◌else◌, arith,
}
use gino.Runtime.ArgPool.{Block}
use gino.Runtime.ArgPool.Blocks.{HasCores, IsLocked}
use gino.Runtime.Doall.{
  Task, waiting, submitted, returned, finished, Phase, submitting, joining, complete, Call,
  Dispatch, start_dispatch, call_of, prepare, own_call, Step, submit, run_own, invoke, unlock, join,
  finish, Reach, start, later,
}

-- How often the loop was called for a core.
abbrev pub count_core : ℕ → List Call → ℕ
count_core c [] = 0
count_core c (call ∷ calls) = (if call.core_id == c then 1 else 0) + count_core c calls

abbrev pub executed : Task → ℕ
executed waiting = 0
executed submitted = 0
executed returned = 1
executed finished = 1

abbrev pub executed_own : Phase → ℕ
executed_own (submitting _) = 0
executed_own (joining _) = 1
executed_own complete = 1

-- Whether the dispatcher has passed the task in its first loop, and in its second one.
abbrev pub is_started : Phase → ℕ → Bool
is_started (submitting k) i = ltb i k
is_started (joining _) i = true
is_started complete i = true

abbrev pub is_joined : Phase → ℕ → Bool
is_joined (submitting _) i = false
is_joined (joining k) i = ltb i k
is_joined complete i = true

-- The lock is free from the task's end until the dispatcher takes it.
abbrev pub lock_of : Task → Bool → Bool
lock_of finished false = false
lock_of _ _ = true

module _ (parallelized_loop env num_cores chunk_size : ℕ) where
  abbrev pub IsRight : Call → Type 0
  IsRight c =
      (c.parallelized_loop ≡ parallelized_loop)
      × (c.env ≡ env)
      × (c.num_cores ≡ num_cores)
      × (c.chunk_size ≡ chunk_size)

  pub record Inv (block : Block) (s : Dispatch) : Type 0 where
    pub fresh : (i : ℕ) → is_started s.phase i ≡ false → s.tasks i ≡ waiting
    pub begun : (i : ℕ) → i < num_cores - 1 → is_started s.phase i ≡ true → s.tasks i ≢ waiting
    pub ranged : (i : ℕ) → s.tasks i ≢ waiting → i < num_cores - 1
    pub cores : (i : ℕ) → i < num_cores - 1 → (s.args i).core_id ≡ i
    pub prepared : (i : ℕ) → s.tasks i ≢ waiting → IsRight (call_of (s.args i))
    pub locks :
        (i : ℕ)
        → i < num_cores - 1
        → (s.args i).end_lock ≡ lock_of (s.tasks i) (is_joined s.phase i)
    pub joined : (i : ℕ) → i < num_cores - 1 → is_joined s.phase i ≡ true → s.tasks i ≡ finished
    pub counted : (i : ℕ) → i < num_cores - 1 → count_core i s.calls ≡ executed (s.tasks i)
    pub own_counted : count_core (num_cores - 1) s.calls ≡ executed_own s.phase
    pub right : All (λ c. IsRight c × (c.core_id < num_cores)) s.calls
    pub spare : (i : ℕ) → num_cores - 1 ≤ i → s.args i ≡ block i

  Inv-start :
      (block : Block)
      → HasCores (num_cores - 1) block
      → IsLocked (num_cores - 1) block
      → Inv block (start_dispatch block)
  unfolding start_dispatch
  Inv-start block h k = record {
    fresh = λ i e. refl;
    begun = λ i b e w. ground arith;
    ranged = λ i e. absurd (e refl);
    cores = h;
    prepared = λ i e. absurd (e refl);
    locks = k;
    joined = λ i b e. cc;
    counted = λ i b. refl;
    own_counted = refl;
    right = tt;
    spare = λ i h. refl;
  }

  Step-Inv :
      {block : Block} {s t : Dispatch}
      → 1 ≤ num_cores
      → Step parallelized_loop env num_cores chunk_size s t
      → Inv block s
      → Inv block t
  unfolding call_of prepare own_call
  Step-Inv {s = s} pos (submit i at below) v = record {
    fresh = λ j e. ground (arith, v.fresh j, v.fresh i);
    begun = λ j b e. ground (arith, v.begun j b);
    ranged = λ j e. ground (arith, v.ranged j);
    cores = λ j b. ground (arith, v.cores j b);
    prepared = λ j e. ground (arith, v.prepared j, v.fresh i);
    locks = λ j b. ground (arith, v.locks j b, v.fresh i);
    joined = λ j b e. ground (arith, v.joined j b);
    counted = λ j b. ground (arith, v.counted j b, v.fresh i);
    own_counted = ground (arith, v.own_counted);
    right = v.right;
    spare = λ j h. ground (arith, v.spare j h, v.ranged i);
  }
  Step-Inv {s = s} pos (run_own i at past) v = record {
    fresh = λ j e. ground (arith, v.fresh j, v.fresh i);
    begun = λ j b e. ground (arith, v.begun j b, v.fresh j);
    ranged = λ j e. ground (arith, v.ranged j);
    cores = λ j b. ground (arith, v.cores j b);
    prepared = λ j e. ground (arith, v.prepared j, v.prepared i);
    locks = λ j b. ground (arith, v.locks j b, v.joined j b);
    joined = λ j b e. ground (arith, v.joined j b, v.locks j b);
    counted = λ j b. ground (arith, v.counted j b, v.cores i, v.ranged i);
    own_counted = ground (arith, v.own_counted);
    right = (((refl, refl, refl, refl), omega arith), v.right);
    spare = v.spare;
  }
  Step-Inv {s = s} pos (invoke i at) v = record {
    fresh = λ j e. ground (arith, v.fresh j, v.fresh i);
    begun = λ j b e. ground (arith, v.begun j b, v.fresh j);
    ranged = λ j e. ground (arith, v.ranged j);
    cores = λ j b. ground (arith, v.cores j b);
    prepared = λ j e. ground (arith, v.prepared j, v.prepared i);
    locks = λ j b. ground (arith, v.locks j b, v.joined j b);
    joined = λ j b e. ground (arith, v.joined j b, v.locks j b);
    counted = λ j b. ground (arith, v.counted j b, v.cores i, v.ranged i);
    own_counted = ground (arith, v.own_counted, v.cores i, v.ranged i);
    right = ((v.prepared i (λ w. cc), ground (arith, v.cores i, v.ranged i)), v.right);
    spare = v.spare;
  }
  Step-Inv {s = s} pos (unlock i at) v = record {
    fresh = λ j e. ground (arith, v.fresh j, v.fresh i);
    begun = λ j b e. ground (arith, v.begun j b, v.fresh j);
    ranged = λ j e. ground (arith, v.ranged j);
    cores = λ j b. ground (arith, v.cores j b);
    prepared = λ j e. ground (arith, v.prepared j, v.prepared i);
    locks = λ j b. ground (arith, v.locks j b, v.joined j b);
    joined = λ j b e. ground (arith, v.joined j b, v.locks j b);
    counted = λ j b. ground (arith, v.counted j b, v.cores i, v.ranged i);
    own_counted = ground (arith, v.own_counted);
    right = v.right;
    spare = λ j h. ground (arith, v.spare j h, v.ranged i);
  }
  Step-Inv {s = s} pos (join i at below free) v = record {
    fresh = λ j e. ground (arith, v.fresh j, v.fresh i);
    begun = λ j b e. ground (arith, v.begun j b, v.fresh j);
    ranged = λ j e. ground (arith, v.ranged j);
    cores = λ j b. ground (arith, v.cores j b);
    prepared = λ j e. ground (arith, v.prepared j, v.prepared i);
    locks = λ j b. ground (arith, v.locks j b, v.joined j b);
    joined = λ j b e. ground (arith, v.joined j b, v.locks j b);
    counted = λ j b. ground (arith, v.counted j b, v.cores i, v.ranged i);
    own_counted = ground (arith, v.own_counted);
    right = v.right;
    spare = λ j h. ground (arith, v.spare j h, v.ranged i);
  }
  Step-Inv {s = s} pos (finish i at past) v = record {
    fresh = λ j e. ground (arith, v.fresh j, v.fresh i);
    begun = λ j b e. ground (arith, v.begun j b, v.fresh j);
    ranged = λ j e. ground (arith, v.ranged j);
    cores = λ j b. ground (arith, v.cores j b);
    prepared = λ j e. ground (arith, v.prepared j, v.prepared i);
    locks = λ j b. ground (arith, v.locks j b, v.joined j b);
    joined = λ j b e. ground (arith, v.joined j b, v.locks j b);
    counted = λ j b. ground (arith, v.counted j b, v.cores i, v.ranged i);
    own_counted = ground (arith, v.own_counted);
    right = v.right;
    spare = λ j h. ground (arith, v.spare j h, v.ranged i);
  }

  pub Reach-Inv :
      {block : Block} {s : Dispatch}
      → 1 ≤ num_cores
      → HasCores (num_cores - 1) block
      → IsLocked (num_cores - 1) block
      → Reach parallelized_loop env num_cores chunk_size block s
      → Inv block s
  Reach-Inv {block} pos h k start = Inv-start block h k
  Reach-Inv pos h k (later r st) = Step-Inv pos st (Reach-Inv pos h k r)
