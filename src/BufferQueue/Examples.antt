-- ===== src/BufferQueue/Examples.antt =====
-- The queue at concrete packets.
use ziggo_caa_s_switch.Prelude.{
  ℕ, zero, suc, ◌<◌, ◌≤◌, ◌≡◌, ◌⊎◌, refl, arith, List, [], ◌∷◌, ◌++◌, none, some, length, get_or,
  replicate, take,
}
use ziggo_caa_s_switch.BufferQueue.{
  fifo_size, max_pkt_len, BufferQueue, init_queue, push_queue, pop_queue,
}
use ziggo_caa_s_switch.BufferQueue.Contents.{
  contents, IsValid, init_queue-IsValid, push_queue_lem, pop_queue_lem, pop_queue-len,
}

abbrev buffers : List (List ℕ)
buffers = replicate 64 (replicate 1601 0)

get_or-buffers : (n i : ℕ) (b : List ℕ) → i < n → get_or (replicate n b) i [] ≡ b
get_or-buffers zero i b h = absurd (omega arith)
get_or-buffers (suc n) zero b h = refl
get_or-buffers (suc n) (suc i) b h = get_or-buffers n i b (omega arith)

buffers-room : (i : ℕ) → i < fifo_size → length (get_or buffers i []) ≡ suc max_pkt_len
buffers-room i h = rw (get_or-buffers 64 i (replicate 1601 0) h) refl

push_queue_lem_example :
    (((fifo_size ≤ (init_queue buffers).size) ⊎ (max_pkt_len < 2))
      × (push_queue (init_queue buffers) (8 ∷ 9 ∷ []) 2 ≡ none))
    ⊎ ((q' : BufferQueue) × ((init_queue buffers).size < fifo_size)
        × (2 ≤ max_pkt_len)
        × (push_queue (init_queue buffers) (8 ∷ 9 ∷ []) 2 ≡ some q')
        × (contents q' ≡ contents (init_queue buffers) ++ (take 2 (8 ∷ 9 ∷ []) ∷ []))
        × IsValid q')
push_queue_lem_example =
    push_queue_lem (init_queue buffers) (8 ∷ 9 ∷ []) 2
      (init_queue-IsValid buffers refl buffers-room) (omega arith)

-- Two packets, of two bytes and of one.
abbrev two : BufferQueue
two = record {
  front = 0;
  rear = 2;
  size = 2;
  buf_array = (8 ∷ 9 ∷ replicate 1599 0) ∷ (7 ∷ replicate 1600 0) ∷ replicate 62 (replicate 1601 0);
  len_array = 2 ∷ 1 ∷ replicate 62 0;
}

two-room : (i : ℕ) → i < fifo_size → length (get_or two.buf_array i []) ≡ suc max_pkt_len
two-room zero h = refl
two-room (suc zero) h = refl
two-room (suc (suc i)) h = rw (get_or-buffers 62 i (replicate 1601 0) (omega arith)) refl

abbrev zeros : ℕ → List ℕ
zeros n = replicate n 0

get_or-zeros : (n i : ℕ) → get_or (zeros n) i 0 ≡ 0
get_or-zeros zero i = refl
get_or-zeros (suc n) zero = refl
get_or-zeros (suc n) (suc i) = get_or-zeros n i

two-fits : (i : ℕ) → i < fifo_size → get_or two.len_array i 0 ≤ max_pkt_len
two-fits zero h = omega arith
two-fits (suc zero) h = omega arith
two-fits (suc (suc i)) h = omega (arith, get_or-zeros 62 i)

two-IsValid : IsValid two
two-IsValid = record {
  front_lt = omega arith;
  size_le = omega arith;
  rear_eq = refl;
  bufs = refl;
  lens = refl;
  room = two-room;
  fits = two-fits;
}

pop_queue_lem_example :
    ((contents two ≡ []) × (pop_queue two ≡ none))
    ⊎ ((q' : BufferQueue) × (bytes : List ℕ) × (len : ℕ) × (pop_queue two ≡ some (q', bytes, len))
        × (contents two ≡ bytes ∷ contents q')
        × IsValid q')
pop_queue_lem_example = pop_queue_lem two two-IsValid

pop_queue-len_example : (q' : BufferQueue) × (pop_queue two ≡ some (q', 8 ∷ 9 ∷ [], 1))
pop_queue-len_example = pop_queue-len two (8 ∷ 9 ∷ []) (7 ∷ []) [] two-IsValid refl
