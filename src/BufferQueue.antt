-- ===== src/BufferQueue.antt =====
-- The cyclic queue of received PTP packets (dma_proxy/buffer_queue.c, buffer_queue.h). A buffer is
-- the list of its bytes; `none` is `exit(EXIT_FAILURE)`; `malloc` results are an argument of
-- `init_queue`. Lengths are not negative.
pub mod Contents
mod Examples
use ziggo_caa_s_switch.Prelude.{
  ℕ, ◌+◌, ◌-◌, ◌%◌, List, [], ◌++◌, Option, none, some, leb, ltb, ◌==◌, if◌then◌else◌, get_or, set,
  take, drop, replicate,
}

abbrev pub fifo_size : ℕ
fifo_size = 64

abbrev pub max_pkt_len : ℕ
max_pkt_len = 1600

pub record BufferQueue : Type 0 where
  pub front : ℕ
  pub rear : ℕ
  pub size : ℕ
  pub buf_array : List (List ℕ)
  pub len_array : List ℕ

-- `memcpy(dst, src, n)`: the first `n` bytes of `dst` are overwritten.
abbrev pub memcpy : List ℕ → List ℕ → ℕ → List ℕ
memcpy dst src n = take n src ++ drop n dst

unfoldable pub init_queue : List (List ℕ) → BufferQueue
init_queue buffers = record {
  front = 0;
  rear = 0;
  size = 0;
  buf_array = buffers;
  len_array = replicate fifo_size 0;
}

unfoldable pub push_queue : BufferQueue → List ℕ → ℕ → Option BufferQueue
push_queue queue buf len =
    if leb fifo_size size
    then none
    else (if ltb max_pkt_len len
        then none
        else some (record queue {
          buf_array = set buf_array rear (memcpy (get_or buf_array rear []) buf len);
          len_array = set len_array rear len;
          rear = (rear + 1) % fifo_size;
          size = size + 1;
        }))
  where
    open queue use {rear, size, buf_array, len_array}

-- The result is the queue, the bytes that reach `buf`, and `*len`, which the source reads after it
-- has moved `front`.
unfoldable pub pop_queue : BufferQueue → Option (BufferQueue × List ℕ × ℕ)
pop_queue queue =
    if size == 0
    then none
    else some (
      record queue { front = (front + 1) % fifo_size; size = size - 1 },
      take (get_or len_array front 0) (get_or buf_array front []),
      get_or len_array ((front + 1) % fifo_size) 0,
    )
  where
    open queue use {front, size, buf_array, len_array}
