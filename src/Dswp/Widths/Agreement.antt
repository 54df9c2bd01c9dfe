-- ===== src/Dswp/Widths/Agreement.antt =====
-- The compiler and the runtime agree on the queues.
use gino.Base.{
  ℕ, zero, suc, ◌*◌, ◌+◌, ◌≤◌, ◌<◌, ◌≡◌, false, List, [], ◌∷◌, none, some, leb, ◌^◌, ◌⊎◌, ◌↔◌, inl,
  inr, Bool-cases, Option-cases, leb→le, if◌then◌else◌, get_elem?, subst, sym, ◌≢◌, arith, All,
}
use gino.Dswp.Widths.{
  ProducerType, double_until, round_up, get_bit_length, queue_size_to_index, queue_pushes,
  queue_pops, queue_element_types, new_queue, delete_queue, new_queues,
}

-- What all parties agree on: the queue is made, used and deleted with elements of `width` bits.
abbrev pub Agrees : ℕ → ℕ → ℕ → Type 0
Agrees size index width =
    (new_queue size ≡ some width)
    × (delete_queue size ≡ some width)
    × (get_elem? queue_pushes index ≡ some width)
    × (get_elem? queue_pops index ≡ some width)
    × (get_elem? queue_element_types index ≡ some width)
    × (size ≤ width)

sizes_agree :
    (size index : ℕ) → queue_size_to_index size ≡ some index → (width : ℕ) × Agrees size index width
unfolding queue_size_to_index new_queue delete_queue queue_pushes queue_pops queue_element_types
sizes_agree size index e = (width_at index, ground arith)
  where
    width_at : ℕ → ℕ
    width_at zero = 8
    width_at (suc zero) = 16
    width_at (suc (suc zero)) = 32
    width_at (suc (suc (suc i))) = 64

pow_pos : (k : ℕ) → 1 ≤ 2 ^ k
pow_pos zero = omega arith
pow_pos (suc k) = omega (arith, pow_pos k)

module _ (n : ℕ) where
  -- A power of two that is the least one from n on.
  abbrev IsLeastPower : ℕ → Type 0
  IsLeastPower r = (n ≤ r) × (r < 2 * n) × ((k : ℕ) × (r ≡ 2 ^ k))

  double_until-IsLeastPower :
      (fuel p k : ℕ) → p ≡ 2 ^ k → p < 2 * n → n ≤ p + fuel → IsLeastPower (double_until fuel p n)
  unfolding double_until
  double_until-IsLeastPower zero p k power h e = (omega arith, h, (k, power))
  double_until-IsLeastPower (suc fuel) p k power h e = elim (Bool-cases (leb n p)) [
    | inl big ↦ rw big (leb→le n p big, h, (k, power))
    | inr small ↦ rw small (
        double_until-IsLeastPower fuel (2 * p) (suc k) (omega (arith, power)) (ground arith)
          (ground (arith, pow_pos k)))
  ]

-- The size of a queue is the least power of two that the value fits in.
round_up-IsLeastPower : (n : ℕ) → 1 ≤ n → IsLeastPower n (round_up n)
unfolding round_up
round_up-IsLeastPower zero h = absurd (omega arith)
round_up-IsLeastPower (suc n) h =
    double_until-IsLeastPower (suc n) (suc n) 1 0 (omega arith) (omega arith) (omega arith)

round_up-fits : (n : ℕ) → n ≤ round_up n
round_up-fits zero = omega arith
round_up-fits (suc n) = (round_up-IsLeastPower (suc n) (omega arith)).0

supported_power :
    (k n : ℕ)
    → n ≤ 2 ^ k
    → 2 ^ k < 2 * n
    → (queue_size_to_index (2 ^ k) ≡ none) ↔ ((1 < n × n < 5) ⊎ (64 < n))
unfolding queue_size_to_index
supported_power zero n a b = ground arith
supported_power (suc zero) n a b = ground arith
supported_power (suc (suc zero)) n a b = ground arith
supported_power (suc (suc (suc zero))) n a b = ground arith
supported_power (suc (suc (suc (suc zero)))) n a b = ground arith
supported_power (suc (suc (suc (suc (suc zero))))) n a b = ground arith
supported_power (suc (suc (suc (suc (suc (suc zero)))))) n a b = ground arith
supported_power (suc (suc (suc (suc (suc (suc (suc k))))))) n a b = ground (arith, pow_pos k)

-- A value that is no pointer has a supported queue exactly when it has 1 bit or 5 to 64 bits.
pub queue_size_to_index-round_up :
    (n : ℕ) → 1 ≤ n → (queue_size_to_index (round_up n) ≡ none) ↔ ((1 < n × n < 5) ⊎ (64 < n))
queue_size_to_index-round_up n h =
    let power = round_up-IsLeastPower n h in
    subst (λ r. (queue_size_to_index r ≡ none) ↔ ((1 < n × n < 5) ⊎ (64 < n))) (sym power.2.1)
      (supported_power power.2.0 n (omega (arith, power.0, power.2.1))
        (omega (arith, power.1, power.2.1)))

-- The bits of a value of a type.
abbrev value_bits : ProducerType → ℕ
value_bits t = if t.is_pointer then t.alloc_size * 8 else t.primitive_size_in_bits

-- A size that the compiler accepts for a value is one that the runtime allocates, and deletes again,
-- with elements of one width; the functions that push and pop, and the memory they use, have that
-- width, and the value fits in it.
pub queue_widths :
    (t : ProducerType) (index : ℕ)
    → queue_size_to_index (get_bit_length t false) ≡ some index
    → (width : ℕ) × Agrees (get_bit_length t false) index width × (value_bits t ≤ width)
unfolding get_bit_length
queue_widths t index e =
    let agrees = sizes_agree (get_bit_length t false) index e in
    (agrees.0, agrees.1, ground (arith, agrees.1.5, round_up-fits t.primitive_size_in_bits))

-- The dispatcher does not abort on sizes that the compiler has accepted.
pub new_queues-supported :
    (sizes : List ℕ) → All (λ size. queue_size_to_index size ≢ none) sizes → new_queues sizes ≢ none
unfolding new_queues
new_queues-supported [] h e = cc
new_queues-supported (size ∷ sizes) h e = elim (Option-cases (new_queues sizes)) [
  | inl failed ↦ new_queues-supported sizes h.1 failed
  | inr (queues, made) ↦ elim (Option-cases (queue_size_to_index size)) [
    | inl unsupported ↦ h.0 unsupported
    | inr (index, supported) ↦ cc (e, made, (sizes_agree size index supported).1.0)
  ]
]
