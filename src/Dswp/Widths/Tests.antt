-- ===== src/Dswp/Widths/Tests.antt =====
-- Sizes of queues at concrete inputs.
use gino.Base.{ℕ, ◌≡◌, ◌≤◌, refl, false}
use gino.Dswp.Widths.{ProducerType, double_until, round_up, get_bit_length, queue_size_to_index}
use gino.Dswp.Widths.Agreement.{Agrees, queue_widths}

-- A value of 24 bits travels through a queue of 32 bits.
abbrev three_bytes : ProducerType
three_bytes = record { is_pointer = false; alloc_size = 4; primitive_size_in_bits = 24 }

three_bytes_length : get_bit_length three_bytes false ≡ 32
unfolding get_bit_length round_up double_until
three_bytes_length = refl

queue_widths_example :
    (width : ℕ) × Agrees (get_bit_length three_bytes false) 2 width × (24 ≤ width)
unfolding get_bit_length round_up double_until queue_size_to_index
queue_widths_example = queue_widths three_bytes 2 refl
